-- ===== src/Repository/Downgrade.antt =====
-- DownloadNewVersion of repo/repository.go: when nothing is downloaded.
use iotit.Base.{String, true, Option, none, some, List, ◌∷◌, ◌≡◌, refl, inl, inr, Option-cases}
use iotit.Effects.{
  Event, fetched, M, Outcome, done, panic, exit, unfinished, continue_with, pure, ◌>>=◌, Env,
}
use iotit.Effects.Trace.{Returns}
use iotit.Config.Storage.{lookup}
use iotit.Repository.{current_release}
use iotit.Repository.Release.{
  RawMap, Web, Version, iotit_repo, merge, at_key, descend, with_text, compared, read_versions,
  get_url, get_iotit_version_md5, file_name, found_version, download_new_version,
}

-- The version that the repository names in its document, for a version that is there: the way
-- through its objects, each of which adds its entries to those above it, to a text.
pub record Names (web : Web) (version body named : String) : Type 0 where
  pub top : RawMap
  pub release : RawMap
  pub sums : RawMap
  pub arches : RawMap
  pub at_release : String
  pub at_sums : String
  pub at_os : String
  pub at_version : String
  pub reads_top : web.object body ≡ some top
  pub finds_release : lookup (current_release version) top ≡ some (some at_release)
  pub reads_release : web.object at_release ≡ some release
  pub finds_sums : lookup "md5sums" (merge top release) ≡ some (some at_sums)
  pub reads_sums : web.object at_sums ≡ some sums
  pub finds_os : lookup web.goos (merge (merge top release) sums) ≡ some (some at_os)
  pub reads_os : web.object at_os ≡ some arches
  pub finds_version :
      lookup "version" (merge (merge (merge top release) sums) arches) ≡ some (some at_version)
  pub reads_version : web.text at_version ≡ some named

-- Only the document of the repository is fetched, and the version in the answer is dropped.
abbrev pub OnlyFetched : {A : Type 0} → (A → Type 0) → List Event → Outcome A × List Event → Type 0
OnlyFetched Q h r = (r.1 ≡ fetched iotit_repo ∷ h) × Returns Q r.0

abbrev Dropped : Version → Type 0
Dropped v = v.repo_version ≡ ""

module _ (web : Web) (version : String) where
  -- The end of the way, behind the objects: the hash of the architecture and the version.
  end_of : RawMap → M Version
  end_of r = at_key web web.goarch r >>= λ raw. with_text web "" (web.text raw) λ hash.
      at_key web "version" r >>= λ raw'.
      with_text web hash (web.text raw')
        λ repo_version. pure (compared web version hash repo_version)

  module _ (body named : String) (n : Names web version body named)
      (old : web.not_newer version named ≡ true) where
    abbrev last : RawMap
    last = merge (merge (merge n.top n.release) n.sums) n.arches

    end_of-Dropped :
        (h : List Event) (o : Option (Option String))
        → lookup web.goarch last ≡ o
        → ((end_of last h).1 ≡ h) × Returns Dropped (end_of last h).0
    unfolding end_of at_key
    end_of-Dropped h none e = rw e (refl, tt)
    end_of-Dropped h (some none) e = rw e (refl, tt)
    end_of-Dropped h (some (some raw)) e = elim (Option-cases (web.text raw)) [
      | inl bad ↦ rw (e, bad) (refl, refl)
      | inr (hash, good) ↦ rw (e, good, n.finds_version, n.reads_version, old) (refl, refl)
    ]

    read_versions-end_of :
        (h : List Event) → read_versions web version (web.object body) h ≡ end_of last h
    unfolding read_versions descend at_key end_of
    read_versions-end_of h =
        rw
          (
            n.reads_top, n.finds_release, n.reads_release, n.finds_sums, n.reads_sums, n.finds_os,
            n.reads_os,
          )
          refl

    get_iotit_version_md5-end_of :
        (h : List Event)
        → web.get h iotit_repo ≡ (some body, none)
        → get_iotit_version_md5 web version h ≡ end_of last (fetched iotit_repo ∷ h)
    unfolding get_iotit_version_md5 get_url
    get_iotit_version_md5-end_of h got = rw got (read_versions-end_of (fetched iotit_repo ∷ h))

module _ (web : Web) (env : Env) where
  found_version-Nothing :
      (name file dst : String) (v : Version) (err : Option String) (t : List Event)
      → v.err ≡ err
      → v.repo_version ≡ ""
      → ((found_version web env name file dst v t).1 ≡ t)
        × Returns (λ r. r.0 ≡ "") (found_version web env name file dst v t).0
  found_version-Nothing name file dst v none t e d = rw (e, d) (refl, refl)
  found_version-Nothing name file dst v (some m) t e d = rw e (refl, refl)

  after_version :
      (name file dst : String) (o : Outcome Version) (g t : List Event)
      → g ≡ t
      → Returns Dropped o
      → ((continue_with o g (found_version web env name file dst)).1 ≡ t)
        × Returns (λ r. r.0 ≡ "") (continue_with o g (found_version web env name file dst)).0
  after_version name file dst (done v) g t e d =
      rw (← e) (found_version-Nothing name file dst v v.err g refl d)
  after_version name file dst panic g t e d = (e, tt)
  after_version name file dst (exit n) g t e d = (e, tt)
  after_version name file dst unfinished g t e d = (e, tt)

  -- Where the version that is there is not newer than the one that the repository names in its
  -- document, so that it is the same or an older one, DownloadNewVersion fetches the document and
  -- does nothing else: it downloads and runs nothing. Where it returns, it answers with the empty
  -- name that stands for being up to date, or with an error.
  pub download_new_version-Nothing :
      (name version dst body named : String) (h : List Event)
      → web.get h iotit_repo ≡ (some body, none)
      → Names web version body named
      → web.not_newer version named ≡ true
      → OnlyFetched (λ r. r.0 ≡ "") h (download_new_version web env name version dst h)
  unfolding download_new_version
  download_new_version-Nothing name version dst body named h got n old =
      let t = fetched iotit_repo ∷ h in
      let e = end_of-Dropped web version body named n old t _ refl in
      rw (get_iotit_version_md5-end_of web version body named n old h got)
        (after_version name (file_name web name version) dst _ _ t e.0 e.1)
