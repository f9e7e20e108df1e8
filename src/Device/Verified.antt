-- ===== src/Device/Verified.antt =====
-- prepareImage of device/flasher.go: what is uploaded to the virtual machine.
use mathlib.Core.Option.{none-ne-some}
use iotit.Base.{
  ℕ, zero, suc, String, ◌<>◌, Option, none, some, List, [], ◌∷◌, ◌≡◌, refl, sym, ap, ◌∙◌, inl, inr,
  str_eq, arith, eq_iff, Bool-cases,
}
use iotit.Effects.{Event, Env, Reply, delete_file}
use iotit.Effects.Trace.{Anything}
use iotit.Effects.Invariant.{Holds, Holds-bind, Holds-if, Holds-unless}
use iotit.Config.Storage.{tmp_dir}
use iotit.GoStrings.{trim_space, has_suffix, contains}
use iotit.Mapping.{DeviceImage}
use iotit.Device.Flasher.{Flasher, join, remote}
use iotit.Device.Images.{
  Files, Sum, sum, unreadable, Located, located, unlocated, Retry, download_image, verify_hash,
  upload_image, extract_image, prepare_with, prepare_image, is_crc_error, complains, host_exists,
  fetch, hash, peek_zip, on_crc_error, extract_failed, extracted, take_img, check_sum,
  prepare_located,
}
use iotit.Device.Uploads.{
  IsVerified, OnlyVerified, remote-Verified, upload_image-Verified, list_extracted-Verified,
  unzip_on_host-Verified, peek_zip-Verified,
}

module _ (env : Env) (files : Files) (image : DeviceImage) where
  abbrev I : List Event → Type 0
  I = OnlyVerified env files image

  abbrev Same : Flasher → Type 0
  Same d = d.image ≡ image

  abbrev Keeps : Flasher × Option String → Type 0
  Keeps (d, err) = Same d

  abbrev RetryVerified : Retry env files → Type 0
  RetryVerified none = Unit
  RetryVerified (some again) = (d : Flasher) → Same d → Holds I Keeps (again d)

  on_crc_error-Verified :
      (retry : Retry env files) (d : Flasher) (name : String)
      → RetryVerified retry
      → Same d
      → Holds I Keeps (on_crc_error env files retry d name)
  unfolding on_crc_error host_exists delete_file
  on_crc_error-Verified none d name ok same = list_extracted-Verified env files image d same
  on_crc_error-Verified (some again) d name ok same =
      Holds-bind I Anything Keeps (host_exists env files (join d.repo_dir name)) _
        (record { runs = λ h i. (i, tt) })
        λ there _.
          Holds-if I Keeps there _ _
            (λ e.
              Holds-bind I Anything Keeps (delete_file (join d.repo_dir name)) _
                (record { runs = λ h i. (i, tt) })
                λ _ _.
                  Holds-bind I Anything Keeps (remote env d.conf ("rm " <> tmp_dir <> name)) _
                    (remote-Verified env files image d.conf _) λ _ _. ok d same)
            (λ e. list_extracted-Verified env files image d same)

  take_img-Verified :
      (d : Flasher) (found : Option String) → Same d → Holds I Keeps (take_img env files d found)
  unfolding take_img
  take_img-Verified d (some s) same = record { runs = λ h i. (i, same) }
  take_img-Verified d none same = list_extracted-Verified env files image d same

  module _ (retry : Retry env files) (ok : RetryVerified retry) (d : Flasher) (same : Same d)
      (name file : String) (verified : IsVerified env files image file) where
    extract_failed-Verified :
        (eut : String) → Holds I Keeps (extract_failed env files retry d name file eut)
    unfolding extract_failed
    extract_failed-Verified eut =
        Holds-if I Keeps (is_crc_error env files eut) _ _
          (λ e. on_crc_error-Verified retry d name ok same)
          λ e.
            Holds-if I Keeps (contains eut "unzip: bad length") _ _
              (λ e'. unzip_on_host-Verified env files image d file verified same)
              (λ e'. record { runs = λ h i. (i, same) })

    extracted-Verified : (r : Reply) → Holds I Keeps (extracted env files retry d name file r)
    unfolding extracted
    extracted-Verified r =
        Holds-if I Keeps (complains env files r) _ _
          (λ e. extract_failed-Verified (trim_space r.eut)) (λ e. take_img-Verified d _ same)

  extract_image-Verified :
      (retry : Retry env files) (d : Flasher) (name file : String)
      → RetryVerified retry
      → Same d
      → IsVerified env files image file
      → Holds I Keeps (extract_image env files retry d name file)
  unfolding extract_image
  extract_image-Verified retry d name file ok same verified =
      Holds-if I Keeps (has_suffix name ".img") _ _ (λ e. record { runs = λ h i. (i, same) })
        λ e.
          Holds-bind I Same Keeps (peek_zip env files d name) _
            (peek_zip-Verified env files image d name same)
            λ d' same'.
              Holds-bind I Anything Keeps (remote env d'.conf ("rm -rf " <> tmp_dir <> "*.img")) _
                (remote-Verified env files image d'.conf _)
                λ _ _.
                  Holds-bind I Anything Keeps
                    (remote env d'.conf
                      (files.extract_command name (env.path tmp_dir (name ∷ [])) tmp_dir))
                    _ (remote-Verified env files image d'.conf _)
                    λ r _. extracted-Verified retry ok d' same' name file verified r

  check_sum-Verified :
      (g : List Event) (file : String) (s : Sum)
      → files.sum_of g file ≡ s
      → check_sum env files image.hash s ≡ none
      → IsVerified env files image file
  unfolding check_sum
  check_sum-Verified g file (sum digest) h e = elim (Bool-cases (str_eq digest image.hash)) [
    | inl same ↦ inr (g, h ∙ ap sum ((eq_iff digest image.hash).0 same))
    | inr other ↦ absurd (none-ne-some _ (sym (rw other at e)))
  ]
  check_sum-Verified g file (unreadable m) h e = ground arith

  verify_hash-Verified :
      (d : Flasher) (file : String)
      → Same d
      → Holds I (λ w. w ≡ none → IsVerified env files image file) (verify_hash env files d file)
  unfolding verify_hash hash
  verify_hash-Verified d file same = rw same (
      Holds-if I (λ w. w ≡ none → IsVerified env files image file) (str_eq image.hash "") _ _
        (λ none_given. record { runs = λ h i. (i, λ e. inl ((eq_iff image.hash "").0 none_given)) })
        (λ given. record {
          runs = λ h i. (i, check_sum-Verified h file (files.sum_of h file) refl);
        }))

  download_image-Verified : (d : Flasher) → Holds I Anything (download_image env files d)
  unfolding download_image fetch host_exists
  download_image-Verified d =
      Holds-if I Anything (files.valid_url d.image.url) _ _ (λ e. record { runs = λ h i. (i, tt) })
        (λ e. record { runs = λ h i. (i, tt) })

  prepare_located-Verified :
      (retry : Retry env files) (d : Flasher) (l : Located)
      → RetryVerified retry
      → Same d
      → Holds I Keeps (prepare_located env files retry d l)
  unfolding prepare_located
  prepare_located-Verified retry d (unlocated e) ok same = record { runs = λ h i. (i, same) }
  prepare_located-Verified retry d (located name file) ok same =
      Holds-bind I (λ w. w ≡ none → IsVerified env files image file) Keeps
        (verify_hash env files d file) _ (verify_hash-Verified d file same)
        λ wrong verified.
          Holds-unless I Keeps wrong d _ (λ e. same)
            λ fine.
              Holds-bind I Anything Keeps (upload_image env files d.conf name file) _
                (record {
                  runs = λ h i.
                      upload_image-Verified env files image d.conf name file h (inl (verified fine))
                        i;
                })
                λ failed _.
                  Holds-unless I Keeps failed d _ (λ e. same)
                    λ e.
                      Holds-if I Keeps (str_eq d.img "") _ _
                        (λ e'. extract_image-Verified retry d name file ok same (verified fine))
                        (λ e'. record { runs = λ h i. (i, same) })

  prepare_with-Verified :
      (retry : Retry env files) (d : Flasher)
      → RetryVerified retry
      → Same d
      → Holds I Keeps (prepare_with env files retry d)
  unfolding prepare_with
  prepare_with-Verified retry d ok same =
      Holds-bind I Anything Keeps (download_image env files d) _ (download_image-Verified d)
        λ l _. prepare_located-Verified retry d l ok same

  -- However prepareImage ends, and however often it starts over after a CRC error, each file that it
  -- uploads has, when it is uploaded, one of two reasons. Its SHA-256 was found to be the image's
  -- hash, if the image has one. Or such a file was unzipped into the temporary directory before,
  -- without an error, and it is the path, in that directory, of the last image in the listing of the
  -- working directory that followed.
  pub prepare_image-Verified :
      (left : ℕ) (d : Flasher) → Same d → Holds I Keeps (prepare_image env files left d)
  unfolding prepare_image
  prepare_image-Verified zero d same = prepare_with-Verified none d tt same
  prepare_image-Verified (suc left) d same =
      prepare_with-Verified (some (prepare_image env files left)) d
        (λ d' same'. prepare_image-Verified left d' same') same
