-- ===== src/Repository/Release.antt =====
-- repo/repository.go: GetIoTItVersionMD5 and DownloadNewVersion on Linux. The progress bar, the
-- pause and the printing are left out.
use iotit.Base.{String, ◌<>◌, Bool, true, false, Option, none, some, List, [], ◌∷◌, if◌then◌else◌}
use iotit.Effects.{Event, downloaded, fetched, M, done, pure, fail, ◌>>=◌, Env, host_exec}
use iotit.Config.Storage.{lookup, store}
use iotit.Repository.{current_release}

-- A map of raw JSON values: `none` is a nil pointer, which `null` gives.
abbrev pub RawMap : Type 0
RawMap = List (String × Option String)

-- The packages that the code calls: a GET of a url, encoding/json for an object and for a text,
-- CompareVersions(a, b) <= 0, DownloadFromUrlWithAttemptsAsync up to the wait for it.
pub record Web : Type 0 where
  pub get : List Event → String → Option String × Option String
  pub object : String → Option RawMap
  pub text : String → Option String
  pub not_newer : String → String → Bool
  pub download : List Event → String → String → Option String
  pub goos : String
  pub goarch : String

abbrev pub iotit_repo : String
iotit_repo = "https://cdn.isaax.io/iotit/versions.json"

-- Unmarshalling an object into a map that is there adds its entries to it.
unfoldable pub merge : RawMap → RawMap → RawMap
merge r [] = r
merge r ((k, v) ∷ entries) = merge (store k v r) entries

-- The named results of GetIoTItVersionMD5: `hash`, `repoVersion` and `err`.
pub record Version : Type 0 where
  pub hash : String
  pub repo_version : String
  pub err : Option String

abbrev pub failed : String → String → M Version
failed hash e = pure (record { hash = hash; repo_version = ""; err = some e })

abbrev pub or_empty : Option String → String
or_empty none = ""
or_empty (some s) = s

-- `*p`, which panics for a nil pointer; the entry of a key that is not there is one.
abbrev pub pointed_to : Option (Option String) → M String
pointed_to none = fail
pointed_to (some none) = fail
pointed_to (some (some raw)) = pure raw

module _ (web : Web) where
  -- `*r[key]`
  unfoldable pub at_key : String → RawMap → M String
  at_key key r = pointed_to (lookup key r)

  -- `json.Unmarshal(*r[key], &r)`: the map, or none for an error
  unfoldable pub descend : String → RawMap → M (Option RawMap)
  unfolding at_key merge
  descend key r = do
    raw ← at_key key r
    pure (elim (web.object raw) [ none ↦ none | some entries ↦ some (merge r entries) ])

  abbrev pub with_map : Option RawMap → (RawMap → M Version) → M Version
  with_map none next = failed "" "invalid json"
  with_map (some r) next = next r

  abbrev pub with_text : String → Option String → (String → M Version) → M Version
  with_text hash none next = failed hash "invalid json"
  with_text hash (some s) next = next s

  -- The end of GetIoTItVersionMD5: the version of the repository is dropped where the one that
  -- is there is not newer.
  abbrev pub compared : String → String → String → Version
  compared version hash repo_version = record {
    hash = hash;
    repo_version = if web.not_newer version repo_version then "" else repo_version;
    err = none;
  }

  unfoldable pub read_versions : String → Option RawMap → M Version
  unfolding descend
  read_versions version top = with_map top λ r. descend (current_release version) r >>= λ release.
      with_map release λ r1. descend "md5sums" r1 >>= λ sums. with_map sums λ r2.
        descend web.goos r2 >>= λ arches. with_map arches λ r3. at_key web.goarch r3 >>= λ raw.
        with_text "" (web.text raw) λ hash. at_key "version" r3 >>= λ raw'.
        with_text hash (web.text raw') λ repo_version. pure (compared version hash repo_version)

  unfoldable pub get_url : String → M (Option String × Option String)
  get_url url h = (done (web.get h url), fetched url ∷ h)

  abbrev pub got_versions : String → Option String × Option String → M Version
  got_versions version (body, some e) = failed "" e
  got_versions version (body, none) = read_versions version (web.object (or_empty body))

  -- GetIoTItVersionMD5, for the operating system and the architecture of the program
  unfoldable pub get_iotit_version_md5 : String → M Version
  unfolding read_versions get_url
  get_iotit_version_md5 version = get_url iotit_repo >>= got_versions version

  -- The file's name, with the version that is there, and the url, with the release of the new one.
  abbrev pub file_name : String → String → String
  file_name name version = name <> "_" <> version <> "_" <> web.goos <> "_" <> web.goarch

  abbrev pub version_url : String → String → String → String
  version_url name file version =
      "https://cdn.isaax.io/"
      <> name
      <> "/"
      <> current_release version
      <> "/"
      <> web.goos
      <> "/"
      <> file
      <> ".tar.gz"

  unfoldable pub download_version : String → String → M (Option String)
  download_version url dst h = (done (web.download h url dst), downloaded url dst ∷ h)

  abbrev pub tar_args : String → String → List String
  tar_args file dst = "tar" ∷ "xvf" ∷ (dst <> "/" <> file) ∷ "-C" ∷ dst ∷ []

  module _ (env : Env) where
    abbrev pub unpacked : String → String → Option String → M (String × Option String)
    unpacked file dst (some e) = pure (file, some e)
    unpacked file dst none = host_exec env (tar_args file dst) >>= λ r. pure (file, r.err)

    abbrev pub found_version : String → String → String → Version → M (String × Option String)
    found_version name file dst v = elim v.err [
      | some e ↦ pure ("", some e)
      | none ↦
          if iotit.Base.str_eq v.repo_version ""
          then pure ("", none)
          else (download_version (version_url name file v.repo_version) dst >>= unpacked file dst)
    ]

    -- DownloadNewVersion
    unfoldable pub download_new_version : String → String → String → M (String × Option String)
    unfolding get_iotit_version_md5 download_version
    download_new_version name version dst =
        get_iotit_version_md5 version >>= found_version name (file_name name version) dst
