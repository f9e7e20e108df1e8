-- ===== src/Mapping/Updates.antt =====
-- repo/mapping.go: the download of mapping.json.
use iotit.Base.{ℕ, String, Bool, true, Option, none, some, List, ◌∷◌, leb, if◌then◌else◌}
use iotit.Effects.{Event, downloaded, M, done, pure, fail, ◌>>=◌, ◌>>◌}

-- os.Stat of a file: it does not exist, it cannot be looked at, or its age in whole hours.
pub data Stat : Type 0 where
  absent unreadable : Stat
  aged : ℕ → Stat

-- help.DownloadFile, os.Chtimes to the present time and os.Stat; `path`, where mapping.json is kept.
pub record MappingFile : Type 0 where
  pub download_file : List Event → String → String → Option String
  pub touch : List Event → String → Option String
  pub stat : List Event → String → Stat
  pub path : String

abbrev pub images_repo : String
images_repo = "https://raw.githubusercontent.com/xshellinc/iotit/master/mapping.json"

module _ (files : MappingFile) where
  unfoldable pub fetch_mapping : M (Option String)
  fetch_mapping h =
      (done (files.download_file h files.path images_repo), downloaded images_repo files.path ∷ h)

  unfoldable pub touch_mapping : M (Option String)
  touch_mapping h = (done (files.touch h files.path), h)

  abbrev pub touch_after : Option String → M (Option String)
  touch_after (some e) = pure (some e)
  touch_after none = touch_mapping

  -- DownloadDevicesRepository
  unfoldable pub download_devices_repository : M (Option String)
  unfolding fetch_mapping touch_mapping
  download_devices_repository = fetch_mapping >>= touch_after

  -- The test of CheckDevicesRepository. A file that cannot be looked at has no information, and
  -- reading its time panics.
  abbrev pub is_old : Stat → M Bool
  is_old absent = pure true
  is_old unreadable = fail
  is_old (aged hours) = pure (leb 24 hours)

  unfoldable pub stat_mapping : M Stat
  stat_mapping h = (done (files.stat h files.path), h)

  -- CheckDevicesRepository, which does not look at the error of the download
  unfoldable pub check_devices_repository : M (Unit {0})
  unfolding download_devices_repository stat_mapping
  check_devices_repository = do
    found ← stat_mapping
    old ← is_old found
    if old then (download_devices_repository >>= λ err. pure tt) else pure tt

  -- GenMappingFile
  unfoldable pub gen_mapping_file : M (Option String)
  unfolding download_devices_repository
  gen_mapping_file = do download_devices_repository; pure none
