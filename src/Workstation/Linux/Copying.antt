-- ===== src/Workstation/Linux/Copying.antt =====
-- CopyToDisk of workstation/w_linux.go: the disk that is formatted.
use iotit.Base.{
  ℕ, String, Option, none, some, List, ◌≡◌, refl, inl, str_eq, eq_iff, get_elem?, Any,
  Any-get_elem?,
}
use iotit.Effects.{Event, Env, select_one, or_panic}
use iotit.Effects.Trace.{here, Runs, Runs-bind, Runs-if, Anything, Returns-mono}
use iotit.Effects.Choice.{RunsOne, RunsOne-of, bind-before}
use iotit.Effects.Rules.{Runs-select_one, Runs-or_panic}
use iotit.Workstation.Defs.{MountInfo, Workstation}
use iotit.Workstation.Linux.Disks.{list_removable_disk}
use iotit.Workstation.Linux.Selection.{
  listed_at, NotRan, Fits, IfSome, IfSome-find_disk, IfSome-mono, ListedOf,
  list_removable_disk-Runs,
}
use iotit.Workstation.Linux.Copy.{
  size_lines, select_to_format, choose_to_format, clean_chosen, copy_listed, copy_to_disk,
}
use iotit.Workstation.Linux.Cleaning.{
  IsListed, Choice, OnListed, OnListed-NotRan, CopiedOf, clean_disk-OnListed,
}

module _ (env : Env) (named : String) where
  abbrev P : Choice env named → Event → Type 0
  P = OnListed env named

  select_to_format-Runs :
      (mounts : List MountInfo)
      → Runs NotRan (IfSome (λ dev. Any (λ m. m ≡ dev) mounts)) (select_to_format env mounts)
  unfolding select_to_format
  select_to_format-Runs mounts =
      Runs-bind NotRan Anything (IfSome (λ dev. Any (λ m. m ≡ dev) mounts))
        (select_one env "Select disk to format: " (size_lines env mounts)) _
        (Runs-select_one NotRan env _ _ tt)
        λ num _.
          Runs-bind NotRan (λ dev. get_elem? mounts num ≡ some dev)
            (IfSome (λ dev. Any (λ m. m ≡ dev) mounts)) (or_panic (get_elem? mounts num)) _
            (Runs-or_panic NotRan _) λ dev e h. (here, Any-get_elem? mounts num e)

  choose_to_format-Runs : (l : Workstation) → Runs NotRan (IfSome (Fits l)) (choose_to_format env l)
  unfolding choose_to_format
  choose_to_format-Runs l =
      Runs-if NotRan (IfSome (Fits l)) (str_eq l.disk "") _ _
        (λ empty h.
          let r = select_to_format-Runs l.mounts h in
          (
            r.0,
            Returns-mono (IfSome (λ dev. Any (λ m. m ≡ dev) l.mounts)) (IfSome (Fits l))
                (select_to_format env l.mounts h).0
                (IfSome-mono env _ (Fits l) (λ dev a. (a, inl ((eq_iff l.disk "").0 empty)))) r.1,
          ))
        (λ given h. (here, IfSome-find_disk env l _ refl))

  clean_chosen-OnListed :
      (left : ℕ) (l : Workstation) (g : List Event) (o : Option MountInfo)
      → l.mounts ≡ listed_at env g
      → l.disk ≡ named
      → IfSome (Fits l) o
      → RunsOne P (CopiedOf env named) (clean_chosen env left l o)
  unfolding clean_chosen
  clean_chosen-OnListed left l g none listed same f = λ h. (none, here, tt)
  clean_chosen-OnListed left l g (some dev) listed same f =
      let on : IsListed env named dev = record {
        listing = g;
        listed = rw (← listed) f.0;
        fits = rw (← same) f.1;
      } in
      RunsOne-of P (CopiedOf env named) (some (dev, on)) _
        (clean_disk-OnListed env named dev on left (record l { mount = dev }))

  copy_listed-OnListed :
      (left : ℕ) (r : Workstation × Option String)
      → ListedOf env named r
      → RunsOne P (CopiedOf env named) (copy_listed env left r)
  unfolding copy_listed
  copy_listed-OnListed left (l, some e) p = λ h. (none, here, tt)
  copy_listed-OnListed left (l, none) (g, listed, same) =
      bind-before P none NotRan (OnListed-NotRan env named) (IfSome (Fits l)) (CopiedOf env named)
        (choose_to_format env l) _ (choose_to_format-Runs l)
        λ o f. clean_chosen-OnListed left l g o listed same f

module _ (env : Env) where
  -- For each run of CopyToDisk, up to the unzipping, there is one disk that it formats, or none. It
  -- runs only the commands that format this disk, and writes only the input and the command of
  -- fdisk for it. The disk stood in a listing of the removable disks and is the one named on the
  -- command line, if one is. This holds however the run ends, and however far the goroutine gets
  -- after an error. Where CopyToDisk reports no error, there is such a disk, the station is writable
  -- and its mount is the first partition of this disk.
  pub copy_to_disk-OnListed :
      (left : ℕ) (l : Workstation)
      → RunsOne (OnListed env l.disk) (CopiedOf env l.disk) (copy_to_disk env left l)
  unfolding copy_to_disk
  copy_to_disk-OnListed left l =
      bind-before (OnListed env l.disk) none NotRan (OnListed-NotRan env l.disk)
        (ListedOf env l.disk) (CopiedOf env l.disk) (list_removable_disk env l) _
        (list_removable_disk-Runs env l) λ r p. copy_listed-OnListed env l.disk left r p
