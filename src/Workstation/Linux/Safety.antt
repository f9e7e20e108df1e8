-- ===== src/Workstation/Linux/Safety.antt =====
-- What WriteToDisk of workstation/w_linux.go may write to.
use iotit.Base.{
  String, Bool, true, Option, none, some, List, ◌∷◌, ◌≡◌, refl, arith, str_eq, eq_iff,
  if◌then◌else◌,
}
use iotit.Effects.{Event, asked, M, done, pure, Env, yes_no_dialog}
use iotit.Effects.Trace.{here, Runs, Runs-bind, Runs-if, Anything}
use iotit.Effects.Rules.{Runs-yes_no_dialog}
use iotit.Workstation.Defs.{Workstation}
use iotit.Workstation.Linux.Write.{
  job, select_loop, confirm, confirm_unless, write_to_disk, disk_selection_tries,
}
use iotit.Workstation.Linux.Selection.{NotRan, IsSelected, LoopOf, WriteOf, first_round-Runs}

module _ (env : Env) where
  abbrev Sure : Workstation → M Bool
  Sure l = if str_eq l.disk "" then yes_no_dialog env "Are you sure? " else pure true

  sure-Runs : (l : Workstation) → Runs NotRan Anything (Sure l)
  sure-Runs l =
      Runs-if NotRan Anything (str_eq l.disk "") _ _
        (λ e. Runs-yes_no_dialog NotRan env "Are you sure? " tt) (λ e h. (here, tt))

  confirm-Runs :
      (disk : String) (l : Workstation)
      → IsSelected env l
      → l.disk ≡ disk
      → Runs NotRan (WriteOf env disk) (confirm env l)
  unfolding confirm
  confirm-Runs disk l p same =
      Runs-bind NotRan Anything (WriteOf env disk) (Sure l) _ (sure-Runs l) λ sure _.
        Runs-if NotRan (WriteOf env disk) sure _ _
          (λ e h. (
            here,
            (
              record {
                listing = p.listing;
                checked = p.checked;
                listed = p.listed;
                unlocked = p.unlocked;
                named = p.named;
              },
              same,
              refl,
            ),
          ))
          (λ e h. (here, refl))

  confirm_unless-Runs :
      (disk : String) (l : Workstation) (err : Option String)
      → LoopOf env disk (l, err)
      → Runs NotRan (WriteOf env disk) (confirm_unless env err l)
  confirm_unless-Runs disk l none p = confirm-Runs disk l p.0 p.1
  confirm_unless-Runs disk l (some e) p = λ h. (here, tt)

  -- WriteToDisk runs no command on the host before its job. A job is started only for a disk that
  -- stood in a listing of the removable disks, whose mode was found to allow writing, and that is
  -- the one named on the command line, if one is. Where the user declines, the station is marked
  -- not writable.
  pub write_to_disk-IsSelected :
      (l : Workstation) → Runs NotRan (WriteOf env l.disk) (write_to_disk env l)
  unfolding write_to_disk
  write_to_disk-IsSelected l =
      Runs-bind NotRan (LoopOf env l.disk) (WriteOf env l.disk)
        (select_loop env disk_selection_tries true none l) _ (first_round-Runs env 2 l)
        λ r p. confirm_unless-Runs l.disk r.0 r.1 p

  -- Where no disk is named on the command line, a job is started only if the user has answered the
  -- last question with yes, and asking it is the last thing done before the job.
  pub confirm-asked :
      (l l' : Workstation) (h t : List Event)
      → confirm env l h ≡ (done (l', job), t)
      → l.disk ≡ ""
      → (t ≡ asked "Are you sure? " ∷ h) × (env.yes_no h "Are you sure? " ≡ some true)
  unfolding confirm yes_no_dialog
  confirm-asked l l' h t e empty = ground (arith, eq_iff l.disk "")
