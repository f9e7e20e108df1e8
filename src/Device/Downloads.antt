-- ===== src/Device/Downloads.antt =====
-- prepareImage of device/flasher.go: how often it downloads.
use iotit.Base.{
  ℕ, zero, suc, ◌+◌, ◌≤◌, String, ◌<>◌, Bool, true, false, Option, none, some, List, [], ◌∷◌, arith,
  str_eq, if◌then◌else◌,
}
use iotit.Effects.{
  Event, downloaded, M, Outcome, done, panic, exit, unfinished, ◌>>=◌, continue_with, unless, Env,
  Reply, ssh_copy, ssh_run, delete_file,
}
use iotit.Config.Storage.{tmp_dir}
use iotit.GoStrings.{trim_space, has_suffix, contains}
use iotit.Vbox.{Config}
use iotit.Device.Flasher.{Flasher, join, remote}
use iotit.Device.Images.{
  Files, Located, located, unlocated, Retry, download_image, verify_hash, upload_image,
  extract_image, prepare_with, prepare_image, is_crc_error, complains, list_extracted,
  unzip_on_host, unzip_here, glob, last_img, host_exists, fetch, hash, zipped, peek_zip,
  on_crc_error, extract_failed, extracted, find_zipped, take_img, prepare_located,
}

-- How many downloads a history holds.
abbrev pub downloads : List Event → ℕ
downloads [] = 0
downloads (downloaded url dir ∷ h) = suc (downloads h)
downloads (e ∷ h) = downloads h

-- The action downloads at most so often.
pub record AtMost {A : Type 0} (n : ℕ) (m : M A) : Type 0 where
  pub bound : (h : List Event) → downloads (m h).1 ≤ downloads h + n

continue_with-AtMost :
    {A B : Type 0} (a b : ℕ) (o : Outcome A) (h h' : List Event) (f : A → M B)
    → downloads h' ≤ downloads h + a
    → ((x : A) → AtMost b (f x))
    → downloads (continue_with o h' f).1 ≤ downloads h + (a + b)
continue_with-AtMost a b (done x) h h' f p q = omega (arith, p, (q x).bound h')
continue_with-AtMost a b panic h h' f p q = omega (arith, p)
continue_with-AtMost a b (exit n) h h' f p q = omega (arith, p)
continue_with-AtMost a b unfinished h h' f p q = omega (arith, p)

bind-AtMost :
    {A B : Type 0} (a b : ℕ) (m : M A) (f : A → M B)
    → AtMost a m
    → ((x : A) → AtMost b (f x))
    → AtMost (a + b) (m >>= f)
bind-AtMost a b m f p q = record {
  bound = λ h. continue_with-AtMost a b (m h).0 h (m h).1 f (p.bound h) q;
}

-- An action that downloads nothing, and what follows it.
after-AtMost :
    {A B : Type 0} (n : ℕ) (m : M A) (f : A → M B)
    → AtMost 0 m
    → ((x : A) → AtMost n (f x))
    → AtMost n (m >>= f)
after-AtMost n m f p q = record { bound = λ h. omega (arith, (bind-AtMost 0 n m f p q).bound h) }

if-AtMost :
    {A : Type 0} (n : ℕ) (b : Bool) (m k : M A)
    → AtMost n m
    → AtMost n k
    → AtMost n (if b then m else k)
if-AtMost n true m k p q = p
if-AtMost n false m k p q = q

unless-AtMost :
    {S : Type 0} (n : ℕ) (err : Option String) (s : S) (k : M (S × Option String))
    → AtMost n k
    → AtMost n (unless err s k)
unless-AtMost n none s k p = p
unless-AtMost n (some e) s k p = record { bound = λ h. omega arith }

option-AtMost :
    {A B : Type 0} (n : ℕ) (o : Option A) (m : M B) (k : A → M B)
    → AtMost n m
    → ((a : A) → AtMost n (k a))
    → AtMost n (elim o [ none ↦ m | some a ↦ k a ])
option-AtMost n none m k p q = p
option-AtMost n (some a) m k p q = q a

module _ (env : Env) (files : Files) where
  remote-AtMost : (conf : Option Config) (command : String) → AtMost 0 (remote env conf command)
  unfolding remote ssh_run
  remote-AtMost none command = record { bound = λ h. omega arith }
  remote-AtMost (some conf) command = record { bound = λ h. omega arith }

  upload_image-AtMost :
      (conf : Option Config) (name file : String) → AtMost 0 (upload_image env files conf name file)
  unfolding upload_image ssh_copy
  upload_image-AtMost conf name file =
      after-AtMost 0 (remote env conf ("ls " <> tmp_dir <> name)) _ (remote-AtMost conf _) λ r.
        if-AtMost 0 (complains env files r) _ _ (record { bound = λ h. omega arith })
          (record { bound = λ h. omega arith })

  list_extracted-AtMost : (n : ℕ) (d : Flasher) → AtMost n (list_extracted env files d)
  unfolding list_extracted
  list_extracted-AtMost n d =
      after-AtMost n (remote env d.conf ("ls -1 " <> tmp_dir)) _ (remote-AtMost d.conf _) λ r.
        option-AtMost n r.err _ _
          (if-AtMost n (str_eq (trim_space r.out) "") _ _ (record { bound = λ h. omega arith })
            (record { bound = λ h. omega arith }))
          (λ e. record { bound = λ h. omega arith })

  unzip_on_host-AtMost :
      (n : ℕ) (d : Flasher) (file : String) → AtMost n (unzip_on_host env files d file)
  unfolding unzip_on_host unzip_here glob delete_file
  unzip_on_host-AtMost n d file =
      after-AtMost n (unzip_here env files file env.temp_dir) _
        (record { bound = λ h. omega arith })
        λ err. unless-AtMost n err d _ (
          after-AtMost n (glob env files) _ (record { bound = λ h. omega arith })
            λ found.
              after-AtMost n
                (upload_image env files d.conf (last_img env files "" found)
                  (join env.temp_dir (last_img env files "" found)))
                _ (upload_image-AtMost d.conf _ _)
                λ failed. unless-AtMost n failed d _ (
                  after-AtMost n (delete_file (join env.temp_dir (last_img env files "" found))) _
                    (record { bound = λ h. omega arith }) λ _. list_extracted-AtMost n d))

  find_zipped-AtMost :
      (d : Flasher) (inside : List String) → AtMost 0 (find_zipped env files d inside)
  unfolding find_zipped
  find_zipped-AtMost d [] = record { bound = λ h. omega arith }
  find_zipped-AtMost d (f ∷ []) =
      after-AtMost 0 (remote env d.conf ("ls " <> tmp_dir <> f)) _ (remote-AtMost d.conf _) λ r.
        if-AtMost 0 (complains env files r) _ _ (record { bound = λ h. omega arith })
          (record { bound = λ h. omega arith })
  find_zipped-AtMost d (f ∷ g ∷ fs) = record { bound = λ h. omega arith }

  peek_zip-AtMost : (d : Flasher) (name : String) → AtMost 0 (peek_zip env files d name)
  unfolding peek_zip zipped
  peek_zip-AtMost d name =
      if-AtMost 0 (has_suffix name ".zip") _ _
        (after-AtMost 0 (zipped env files (env.path d.repo_dir (name ∷ []))) _
          (record { bound = λ h. omega arith }) λ inside. find_zipped-AtMost d inside)
        (record { bound = λ h. omega arith })

  abbrev RetryAtMost : ℕ → Retry env files → Type 0
  RetryAtMost n none = Unit
  RetryAtMost n (some again) = (d : Flasher) → AtMost n (again d)

  on_crc_error-AtMost :
      (n : ℕ) (retry : Retry env files) (d : Flasher) (name : String)
      → RetryAtMost n retry
      → AtMost n (on_crc_error env files retry d name)
  unfolding on_crc_error host_exists delete_file
  on_crc_error-AtMost n none d name ok = list_extracted-AtMost n d
  on_crc_error-AtMost n (some again) d name ok =
      after-AtMost n (host_exists env files (join d.repo_dir name)) _
        (record { bound = λ h. omega arith })
        λ there.
          if-AtMost n there _ _
            (after-AtMost n (delete_file (join d.repo_dir name)) _
              (record { bound = λ h. omega arith })
              λ _.
                after-AtMost n (remote env d.conf ("rm " <> tmp_dir <> name)) _
                  (remote-AtMost d.conf _) λ _. ok d)
            (list_extracted-AtMost n d)

  module _ (n : ℕ) (retry : Retry env files) (ok : RetryAtMost n retry) where
    take_img-AtMost : (d : Flasher) (found : Option String) → AtMost n (take_img env files d found)
    unfolding take_img
    take_img-AtMost d (some s) = record { bound = λ h. omega arith }
    take_img-AtMost d none = list_extracted-AtMost n d

    extracted-AtMost :
        (d : Flasher) (name file : String) (r : Reply)
        → AtMost n (extracted env files retry d name file r)
    unfolding extracted extract_failed
    extracted-AtMost d name file r =
        if-AtMost n (complains env files r) _ _
          (if-AtMost n (is_crc_error env files (trim_space r.eut)) _ _
            (on_crc_error-AtMost n retry d name ok)
            (if-AtMost n (contains (trim_space r.eut) "unzip: bad length") _ _
              (unzip_on_host-AtMost n d file) (record { bound = λ h. omega arith })))
          (take_img-AtMost d _)

    extract_image-AtMost :
        (d : Flasher) (name file : String) → AtMost n (extract_image env files retry d name file)
    unfolding extract_image
    extract_image-AtMost d name file =
        if-AtMost n (has_suffix name ".img") _ _ (record { bound = λ h. omega arith })
          (after-AtMost n (peek_zip env files d name) _ (peek_zip-AtMost d name) λ d'.
            after-AtMost n (remote env d'.conf ("rm -rf " <> tmp_dir <> "*.img")) _
              (remote-AtMost d'.conf _)
              λ _.
                after-AtMost n
                  (remote env d'.conf
                    (files.extract_command name (env.path tmp_dir (name ∷ [])) tmp_dir))
                  _ (remote-AtMost d'.conf _) λ r. extracted-AtMost d' name file r)

    verify_hash-AtMost : (d : Flasher) (file : String) → AtMost 0 (verify_hash env files d file)
    unfolding verify_hash hash
    verify_hash-AtMost d file =
        if-AtMost 0 (str_eq d.image.hash "") _ _ (record { bound = λ h. omega arith })
          (record { bound = λ h. omega arith })

    prepare_located-AtMost :
        (d : Flasher) (l : Located) → AtMost n (prepare_located env files retry d l)
    unfolding prepare_located
    prepare_located-AtMost d (unlocated e) = record { bound = λ h. omega arith }
    prepare_located-AtMost d (located name file) =
        after-AtMost n (verify_hash env files d file) _ (verify_hash-AtMost d file) λ wrong.
          unless-AtMost n wrong d _ (
            after-AtMost n (upload_image env files d.conf name file) _
              (upload_image-AtMost d.conf name file)
              λ failed. unless-AtMost n failed d _ (
                if-AtMost n (str_eq d.img "") _ _ (extract_image-AtMost d name file)
                  (record { bound = λ h. omega arith })))

    download_image-AtMost : (d : Flasher) → AtMost 1 (download_image env files d)
    unfolding download_image fetch host_exists
    download_image-AtMost d =
        if-AtMost 1 (files.valid_url d.image.url) _ _ (record { bound = λ h. omega arith })
          (record { bound = λ h. omega arith })

    prepare_with-AtMost : (d : Flasher) → AtMost (1 + n) (prepare_with env files retry d)
    unfolding prepare_with
    prepare_with-AtMost d =
        bind-AtMost 1 n (download_image env files d) _ (download_image-AtMost d)
          λ l. prepare_located-AtMost d l

  -- However prepareImage ends, it downloads the image once and at most once more for each retry that
  -- is left: three times where both are.
  pub prepare_image-AtMost :
      (left : ℕ) (d : Flasher) → AtMost (1 + left) (prepare_image env files left d)
  unfolding prepare_image
  prepare_image-AtMost zero d = prepare_with-AtMost 0 none tt d
  prepare_image-AtMost (suc left) d =
      let p =
        prepare_with-AtMost (1 + left) (some (prepare_image env files left))
          (prepare_image-AtMost left) d in
      record { bound = λ h. omega (arith, p.bound h) }
