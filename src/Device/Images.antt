-- ===== src/Device/Images.antt =====
-- The image in device/flasher.go: downloading it, checking its hash, uploading and extracting it.
use Prim.Native.String.{char_at}
use iotit.Base.{
  ℕ, zero, suc, String, ◌<>◌, Bool, true, false, not, ◌&&◌, ◌||◌, Option, none, some, List, [], ◌∷◌,
  str_eq, if◌then◌else◌,
}
use iotit.GoStrings.{trim_space, contains, has_suffix, split}
use iotit.Effects.{
  Event, M, done, downloaded, unzipped, pure, unless, ◌>>=◌, ◌>>◌, Env, Reply, ssh_copy,
  delete_file,
}
use iotit.Config.Storage.{tmp_dir}
use iotit.Vbox.{Config}
use iotit.Device.Flasher.{Flasher, join, remote}

-- The name under which a download is saved, or an error.
pub data Download : Type 0 where
  saved : String → Download
  refused : String → Download

-- The SHA-256 of a file in hexadecimal, or the error of reading it.
pub data Sum : Type 0 where
  sum : String → Sum
  unreadable : String → Sum

-- The host's files and network: help.ValidURL, filepath.Base,
-- help.DownloadFromUrlWithAttemptsAsync up to the wait for it, sha256, help.GetZipFiles,
-- help.GetExtractCommand with its arguments put in, help.Unzip, filepath.Glob("*").
pub record Files : Type 0 where
  pub valid_url : String → Bool
  pub base_name : String → String
  pub download : List Event → String → String → Download
  pub sum_of : List Event → String → Sum
  pub zip_files : List Event → String → List String
  pub extract_command : String → String → String → String
  pub unzip : List Event → String → String → Option String
  pub glob_all : List Event → List String

-- The file's name and its path on the host.
pub data Located : Type 0 where
  located : String → String → Located
  unlocated : String → Located

module _ (env : Env) (files : Files) where
  unfoldable pub host_exists : String → M Bool
  host_exists file h = (done (env.exists h file), h)

  unfoldable pub fetch : String → String → M Download
  fetch url dir h = (done (files.download h url dir), downloaded url dir ∷ h)

  unfoldable pub hash : String → M Sum
  hash file h = (done (files.sum_of h file), h)

  unfoldable pub zipped : String → M (List String)
  zipped file h = (done (files.zip_files h file), h)

  unfoldable pub unzip_here : String → String → M (Option String)
  unzip_here file dir h = (done (files.unzip h file dir), unzipped file dir ∷ h)

  unfoldable pub glob : M (List String)
  glob h = (done (files.glob_all h), h)

  unfoldable pub after_download : Flasher → Download → Located
  after_download d (refused e) = unlocated e
  after_download d (saved name) = located name (join d.repo_dir name)

  unfoldable pub on_host : Flasher → Bool → Located
  on_host d true = located (files.base_name d.image.url) d.image.url
  on_host d false = unlocated "Invalid image location"

  -- DownloadImage
  unfoldable pub download_image : Flasher → M Located
  unfolding host_exists fetch after_download on_host
  download_image d =
      if files.valid_url d.image.url
      then (do got ← fetch d.image.url d.repo_dir; pure (after_download d got))
      else (do there ← host_exists d.image.url; pure (on_host d there))

  unfoldable pub check_sum : String → Sum → Option String
  check_sum wanted (unreadable e) = some e
  check_sum wanted (sum digest) = if str_eq digest wanted then none else some "wrong SHA256 hash"

  -- The check of the hash in prepareImage. An image without a hash is not checked.
  unfoldable pub verify_hash : Flasher → String → M (Option String)
  unfolding hash check_sum
  verify_hash d file =
      if str_eq d.image.hash ""
      then pure none
      else (do s ← hash file; pure (check_sum d.image.hash s))

  -- `err != nil || len(strings.TrimSpace(eut)) > 0`
  abbrev pub complains : Reply → Bool
  complains r = elim r.err [ some e ↦ true | none ↦ not (str_eq (trim_space r.eut) "") ]

  -- uploadImage
  unfoldable pub upload_image : Option Config → String → String → M (Option String)
  upload_image conf name file = do
    r ← remote env conf ("ls " <> tmp_dir <> name)
    if complains r then ssh_copy env file tmp_dir else pure none

  abbrev pub is_img : String → Bool
  is_img s = not (str_eq s "") && has_suffix s ".img"

  -- the first piece that is an image, in the output of the extraction
  unfoldable pub first_img : List String → Option String
  first_img [] = none
  first_img (raw ∷ raws) = if is_img (trim_space raw) then some (trim_space raw) else first_img raws

  -- the last file with the suffix, and "" without one
  unfoldable pub last_img : String → List String → String
  last_img found [] = found
  last_img found (f ∷ fs) = last_img (if has_suffix f ".img" then f else found) fs

  -- the loop over the lines of `ls -1`
  unfoldable pub scan_listing : Flasher → List String → Flasher
  scan_listing d [] = d
  scan_listing d (raw ∷ raws) =
      let s = trim_space raw in
      let d' = record d { folder = if str_eq d.folder "" then s else d.folder } in
      let rest = scan_listing d' raws in if is_img s then record d' { img = s } else rest

  -- the end of extractImage
  unfoldable pub list_extracted : Flasher → M (Flasher × Option String)
  unfolding scan_listing
  list_extracted d = do
    r ← remote env d.conf ("ls -1 " <> tmp_dir)
    elim r.err [
      | some e ↦ pure (d, none)
      | none ↦
          if str_eq (trim_space r.out) ""
          then pure (d, none)
          else pure (scan_listing d (split (trim_space r.out) (char_at "\n" 0)), none)
    ]

  -- the branch `unzip: bad length`: unzip on the host and upload the image
  unfoldable pub unzip_on_host : Flasher → String → M (Flasher × Option String)
  unfolding unzip_here glob last_img list_extracted
  unzip_on_host d local_path = do
    err ← unzip_here local_path env.temp_dir
    unless err d (do
      found ← glob
      let name = last_img "" found
      failed ← upload_image d.conf name (join env.temp_dir name)
      unless failed d (do delete_file (join env.temp_dir name); list_extracted d))

  unfoldable pub find_zipped : Flasher → List String → M Flasher
  find_zipped d (f ∷ []) = do
    r ← remote env d.conf ("ls " <> tmp_dir <> f)
    if complains r then pure d else pure (record d { img = f })
  find_zipped d _ = pure d

  -- the look into a zip file for an image that is there already
  unfoldable pub peek_zip : Flasher → String → M Flasher
  unfolding zipped find_zipped
  peek_zip d name =
      if has_suffix name ".zip"
      then (do inside ← zipped (env.path d.repo_dir (name ∷ [])); find_zipped d inside)
      else pure d

  abbrev pub is_crc_error : String → Bool
  is_crc_error eut = str_eq eut "unzip: crc error" || contains eut "unzip: corrupted data"

  abbrev pub Retry : Type 0
  Retry = Option (Flasher → M (Flasher × Option String))

  -- the branch of a CRC error: start over without the archive, if the retries are not used up
  unfoldable pub on_crc_error : Retry → Flasher → String → M (Flasher × Option String)
  unfolding host_exists list_extracted
  on_crc_error none d name = list_extracted d
  on_crc_error (some again) d name = do
    there ← host_exists (join d.repo_dir name)
    if there
        then (do
          delete_file (join d.repo_dir name)
          remote env d.conf ("rm " <> tmp_dir <> name)
          again d)
        else list_extracted d

  unfoldable pub extract_failed :
      Retry → Flasher → String → String → String → M (Flasher × Option String)
  unfolding on_crc_error unzip_on_host
  extract_failed retry d name local_path eut =
      if is_crc_error eut
      then on_crc_error retry d name
      else if contains eut "unzip: bad length"
      then unzip_on_host d local_path
      else pure (d, some eut)

  unfoldable pub take_img : Flasher → Option String → M (Flasher × Option String)
  unfolding list_extracted
  take_img d (some s) = pure (record d { img = s }, none)
  take_img d none = list_extracted d

  -- The end of extractImage, once the command has run.
  unfoldable pub extracted : Retry → Flasher → String → String → Reply → M (Flasher × Option String)
  unfolding extract_failed take_img first_img
  extracted retry d name local_path r =
      if complains r
      then extract_failed retry d name local_path (trim_space r.eut)
      else take_img d (first_img (split (trim_space r.out) (char_at " " 0)))

  -- extractImage
  unfoldable pub extract_image : Retry → Flasher → String → String → M (Flasher × Option String)
  unfolding extracted peek_zip
  extract_image retry d name local_path =
      if has_suffix name ".img" then pure (record d { img = name }, none) else (do
        d' ← peek_zip d name
        remote env d'.conf ("rm -rf " <> tmp_dir <> "*.img")
        r ← remote env d'.conf (files.extract_command name (env.path tmp_dir (name ∷ [])) tmp_dir)
        extracted retry d' name local_path r)

  -- prepareImage once the image is on the host
  unfoldable pub prepare_located : Retry → Flasher → Located → M (Flasher × Option String)
  unfolding verify_hash upload_image extract_image
  prepare_located retry d (unlocated e) = pure (d, some e)
  prepare_located retry d (located name file) = do
    wrong ← verify_hash d file
    unless wrong d (do
      failed ← upload_image d.conf name file
      unless failed d (if str_eq d.img "" then extract_image retry d name file else pure (d, none)))

  -- prepareImage, with the call that a CRC error makes
  unfoldable pub prepare_with : Retry → Flasher → M (Flasher × Option String)
  unfolding download_image prepare_located
  prepare_with retry d = download_image d >>= prepare_located retry d

  -- prepareImage. `left` is what the variable `retries`, which starts at 0, leaves of two.
  unfoldable pub prepare_image : ℕ → Flasher → M (Flasher × Option String)
  unfolding prepare_with
  prepare_image zero d = prepare_with none d
  prepare_image (suc left) d = prepare_with (some (prepare_image left)) d
