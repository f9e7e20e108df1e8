-- ===== src/Device/Edison/Windows.antt =====
-- device/edison_windows.go: the flasher of the Edison on Windows. The pause after the writing is left
-- out.
use iotit.Base.{ℕ, String, ◌<>◌, Option, none, some, List, [], ◌∷◌, str_eq, if◌then◌else◌}
use iotit.GoStrings.{has_suffix}
use iotit.Effects.{M, done, downloaded, pure, leave, ◌>>=◌, host_exec}
use iotit.Workstation.Windows.Disks.{Windows}
use iotit.Device.Images.{Located, located, unlocated, host_exists, download_image}
use iotit.Device.Prepare.{Setting}
use iotit.Device.Edison.{Host, Edison, configure_after}

-- strings.TrimSuffix
unfoldable pub trim_suffix : String → String → String
trim_suffix String.[] t = ""
trim_suffix (String.◌∷◌ c s) t =
    let rest = trim_suffix s t in if str_eq (String.◌∷◌ c s) t then "" else String.◌∷◌ c rest

abbrev pub dfu_url : String
dfu_url = "https://cdn.isaax.io/isaax-distro/utilities/dfu-util/dfu-util-0.9-win64.zip"

abbrev pub unzip_image : String → String → List String
unzip_image file dir = "unzip" ∷ "-o" ∷ file ∷ "-d" ∷ dir ∷ []

abbrev pub unzip_dfu : String → List String
unzip_dfu dir = "unzip" ∷ "-j" ∷ "-o" ∷ (dir <> "dfu-util-0.9-win64.zip") ∷ "-d" ∷ dir ∷ []

-- The path of the script, run in the directory of the image.
abbrev pub flash_all_bat : String → List String
flash_all_bat dir = (dir <> "\\" <> "flashall.bat") ∷ []

module _ (c : Setting) (windows : Windows) where
  abbrev pub extract_dir : String → String
  extract_dir name = c.env.temp_dir <> "\\" <> trim_suffix name ".zip" <> "\\"

  unfoldable pub download_dfu : String → M (Option String)
  download_dfu dir h = (done (windows.download h dfu_url dir), downloaded dfu_url dir ∷ h)

  abbrev pub unpack_dfu : String → Option String → M (Option String)
  unpack_dfu dir (some e) = pure (some e)
  unpack_dfu dir none = host_exec c.env (unzip_dfu dir) >>= λ r. pure r.err

  -- getDFUUtil, where `extractedPath` is `dir`
  unfoldable pub get_dfu_util : String → M (Option String)
  unfolding download_dfu
  get_dfu_util dir = do
    there ← host_exists c.env c.files (dir <> "dfu-util.exe")
    if there then pure none else (download_dfu dir >>= unpack_dfu dir)

  abbrev pub after_unzip : String → Option String → M (Option String)
  after_unzip dir (some e) = pure (some e)
  after_unzip dir none = get_dfu_util dir

  -- Prepare behind the download. An image that is no zip file leaves `extractedPath` as it is.
  unfoldable pub extract_located : String → Located → M (String × Option String)
  unfolding trim_suffix get_dfu_util
  extract_located extracted (unlocated e) = pure (extracted, some e)
  extract_located extracted (located name file) =
      if has_suffix name ".zip"
      then (host_exec c.env (unzip_image file (extract_dir name)) >>= λ r.
          after_unzip (extract_dir name) r.err >>= λ err. pure (extract_dir name, err))
      else pure (extracted, none)

  -- Prepare: the global `extractedPath` and an error
  unfoldable pub prepare_board : Edison → String → M (String × Option String)
  unfolding extract_located
  prepare_board d extracted = download_image c.env c.files d.flasher >>= extract_located extracted

  -- Write. A script that fails ends the program with status 2.
  unfoldable pub write_board : String → M (Option String)
  write_board extracted =
      if str_eq extracted ""
      then pure (some "Empty extraction path")
      else (host_exec c.env (flash_all_bat extracted) >>= λ r. elim r.err [
        | none ↦ pure none
        | some e ↦ leave 2
      ])

  abbrev pub write_prepared : Host → ℕ → Edison → String × Option String → M (Option String)
  write_prepared host fuel d (extracted, some e) = pure (some e)
  write_prepared host fuel d (extracted, none) =
      write_board extracted >>= configure_after c host fuel d

  -- Flash of edison.go, with the methods of Windows
  unfoldable pub flash_board : Host → ℕ → Edison → String → M (Option String)
  unfolding prepare_board write_board
  flash_board host fuel d extracted = prepare_board d extracted >>= write_prepared host fuel d
