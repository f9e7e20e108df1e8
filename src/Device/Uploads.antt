-- ===== src/Device/Uploads.antt =====
-- The single steps of prepareImage of device/flasher.go: what each uploads.
use iotit.Base.{
  String, ◌<>◌, Bool, true, false, Option, none, some, List, [], ◌∷◌, ◌≡◌, refl, ◌⊎◌, inl, inr,
  str_eq, Bool-cases, Option-cases, if◌then◌else◌,
}
use iotit.Effects.{Event, ssh, scp, unzipped, Env, ssh_run, ssh_copy, delete_file}
use iotit.Effects.Trace.{Grows, here, more, Anything, Returns}
use iotit.Effects.Invariant.{
  Holds, Holds-bind, Holds-if, Holds-option, Holds-unless, continue-Holds,
}
use iotit.Config.Storage.{tmp_dir}
use iotit.GoStrings.{trim_space, has_suffix}
use iotit.Mapping.{DeviceImage}
use iotit.Vbox.{Config}
use iotit.Device.Flasher.{Flasher, join, remote}
use iotit.Device.Images.{
  Files, sum, upload_image, scan_listing, complains, is_img, list_extracted, unzip_on_host,
  unzip_here, glob, last_img, zipped, peek_zip, find_zipped,
}

module _ (env : Env) (files : Files) (image : DeviceImage) where
  -- The image has no hash, or the file was read with the image's hash.
  abbrev pub IsVerified : String → Type 0
  IsVerified file = (image.hash ≡ "") ⊎ ((g : List Event) × (files.sum_of g file ≡ sum image.hash))

  -- Before, a verified file was unzipped into the temporary directory, without an error, and the
  -- working directory then listed; this is the path, in the temporary directory, of the last image
  -- in that list.
  pub record IsUnzipped (src : String) (t : List Event) : Type 0 where
    pub file : String
    pub before : List Event
    pub verified : IsVerified file
    pub earlier : Grows Anything (unzipped file env.temp_dir ∷ before) t
    pub fine : files.unzip before file env.temp_dir ≡ none
    pub named :
        src
        ≡ join env.temp_dir
            (last_img env files "" (files.glob_all (unzipped file env.temp_dir ∷ before)))

  abbrev pub MayUpload : String → List Event → Type 0
  MayUpload src t = IsVerified src ⊎ IsUnzipped src t

  -- Each file that was uploaded might be, by what was done before.
  abbrev pub OnlyVerified : List Event → Type 0
  OnlyVerified [] = Unit
  OnlyVerified (scp src dst ∷ t) = MayUpload src t × OnlyVerified t
  OnlyVerified (_ ∷ t) = OnlyVerified t

  abbrev I : List Event → Type 0
  I = OnlyVerified

  later : (src : String) (e : Event) (t : List Event) → MayUpload src t → MayUpload src (e ∷ t)
  later src e t (inl v) = inl v
  later src e t (inr u) = inr (record {
    file = u.file;
    before = u.before;
    verified = u.verified;
    earlier = more tt u.earlier;
    fine = u.fine;
    named = u.named;
  })

  -- The flasher's image is as it was.
  abbrev Same : Flasher → Type 0
  Same d = d.image ≡ image

  abbrev Keeps : Flasher × Option String → Type 0
  Keeps (d, err) = Same d

  Same-if : (b : Bool) (d d' : Flasher) → Same d → Same d' → Same (if b then d else d')
  Same-if true d d' p q = p
  Same-if false d d' p q = q

  pub remote-Verified :
      (conf : Option Config) (command : String) → Holds I Anything (remote env conf command)
  unfolding remote ssh_run
  remote-Verified none command = record { runs = λ h i. (i, tt) }
  remote-Verified (some conf) command = record { runs = λ h i. (i, tt) }

  pub upload_image-Verified :
      (conf : Option Config) (name file : String) (h : List Event)
      → MayUpload file h
      → I h
      → I (upload_image env files conf name file h).1
        × Returns Anything (upload_image env files conf name file h).0
  unfolding upload_image ssh_copy remote ssh_run
  upload_image-Verified none name file h may i = (i, tt)
  upload_image-Verified (some conf) name file h may i =
      let command = "ls " <> tmp_dir <> name in
      elim (Bool-cases (complains env files (env.run h command))) [
        | inl c ↦ rw c ((later file (ssh command) h may, i), tt)
        | inr c ↦ rw c (i, tt)
      ]

  scan_listing-Same :
      (d : Flasher) (raws : List String) → Same d → Same (scan_listing env files d raws)
  unfolding scan_listing
  scan_listing-Same d [] same = same
  scan_listing-Same d (raw ∷ raws) same = Same-if (is_img env files (trim_space raw)) _ _ same (
      scan_listing-Same
        (record d { folder = if str_eq d.folder "" then trim_space raw else d.folder }) raws same)

  pub list_extracted-Verified : (d : Flasher) → Same d → Holds I Keeps (list_extracted env files d)
  unfolding list_extracted
  list_extracted-Verified d same =
      Holds-bind I Anything Keeps (remote env d.conf ("ls -1 " <> tmp_dir)) _
        (remote-Verified d.conf _)
        λ r _.
          Holds-option I Keeps r.err _ _
            (λ e.
              Holds-if I Keeps (str_eq (trim_space r.out) "") _ _
                (λ e'. record { runs = λ h i. (i, same) })
                (λ e'. record { runs = λ h i. (i, scan_listing-Same d _ same) }))
            (λ m e. record { runs = λ h i. (i, same) })

  pub unzip_on_host-Verified :
      (d : Flasher) (file : String)
      → IsVerified file
      → Same d
      → Holds I Keeps (unzip_on_host env files d file)
  unfolding unzip_on_host unzip_here glob delete_file
  unzip_on_host-Verified d file verified same = record {
    runs = λ h i.
        let t = unzipped file env.temp_dir ∷ h in
        let name = last_img env files "" (files.glob_all t) in
        elim (Option-cases (files.unzip h file env.temp_dir)) [
          | inr (e, failed) ↦ rw failed (i, same)
          | inl fine ↦
              let may : IsUnzipped (join env.temp_dir name) t = record {
                file = file;
                before = h;
                verified = verified;
                earlier = here;
                fine = fine;
                named = refl;
              } in
              let r = upload_image-Verified d.conf name (join env.temp_dir name) t (inr may) i in
              rw fine (
                continue-Holds I Anything Keeps
                  (upload_image env files d.conf name (join env.temp_dir name) t).0 _ _ r.0 r.1
                  λ failed _.
                    Holds-unless I Keeps failed d _ (λ e'. same)
                      λ e'.
                        Holds-bind I Anything Keeps (delete_file (join env.temp_dir name))
                          (λ _. list_extracted env files d) (record { runs = λ g j. (j, tt) })
                          λ _ _. list_extracted-Verified d same)
        ];
  }

  find_zipped-Verified :
      (d : Flasher)
      → Same d
      → (inside : List String) → Holds I Same (find_zipped env files d inside)
  unfolding find_zipped
  find_zipped-Verified d same [] = record { runs = λ h i. (i, same) }
  find_zipped-Verified d same (f ∷ []) =
      Holds-bind I Anything Same (remote env d.conf ("ls " <> tmp_dir <> f)) _
        (remote-Verified d.conf _)
        λ r _.
          Holds-if I Same (complains env files r) _ _ (λ e. record { runs = λ h i. (i, same) })
            (λ e. record { runs = λ h i. (i, same) })
  find_zipped-Verified d same (f ∷ g ∷ fs) = record { runs = λ h i. (i, same) }

  pub peek_zip-Verified :
      (d : Flasher) (name : String) → Same d → Holds I Same (peek_zip env files d name)
  unfolding peek_zip zipped
  peek_zip-Verified d name same =
      Holds-if I Same (has_suffix name ".zip") _ _
        (λ e.
          Holds-bind I Anything Same (zipped env files (env.path d.repo_dir (name ∷ [])))
            (find_zipped env files d) (record { runs = λ h i. (i, tt) })
            λ inside _. find_zipped-Verified d same inside)
        (λ e. record { runs = λ h i. (i, same) })
