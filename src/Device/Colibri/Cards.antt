-- ===== src/Device/Colibri/Cards.antt =====
-- device/colibri.go: what Write does to the disks of the host, and what Flash does without a machine.
use iotit.Base.{ℕ, String, Bool, Option, none, some, List, ◌≡◌, refl, ap, ◌⊎◌, inl, inr, str_eq}
use iotit.Effects.{Event, ran, wrote, M, panic, done, pure, ◌>>=◌, Env, host_exec, ssh_copy_from}
use iotit.Effects.Trace.{here, more, Runs, Runs-bind, Runs-if, Runs-mono, Anything}
use iotit.Effects.Choice.{RunsOne, RunsOne-if, RunsOne-mono, bind-before, bind-after}
use iotit.Effects.Rules.{Runs-host_exec}
use iotit.Vbox.{Config}
use iotit.Vbox.Check.{check_vb_installed}
use iotit.Workstation.{MountInfo, Workstation, new_workstation}
use iotit.Workstation.Linux.Write.{umount_args, unmount}
use iotit.Workstation.Linux.Copy.{partition_of, unzip_args, copy_job, copy_to_disk}
use iotit.Workstation.Linux.Selection.{NotRan}
use iotit.Workstation.Linux.Cleaning.{CleanCommand, CleanText, IsListed, Choice, OnListed, CopiedOf}
use iotit.Workstation.Linux.Copying.{copy_to_disk-OnListed}
use iotit.Device.Flasher.{Flasher, join, remote, exec_plain}
use iotit.Device.Prepare.{Setting, prepare}
use iotit.Device.Card.{stop-NotRan}
use iotit.Device.Done.{stop_with, stop_machine, done_flashing}
use iotit.Device.Colibri.Board.{Serial, Patience}
use iotit.Device.Colibri.Defs.{
  Colibri, then_run, fetch_image, take_image, copied, prepare_card, open_port, update_board,
  write_taken, colibri_write, colibri_prepare, install_tools, colibri_flash,
}
use iotit.Device.Colibri.Quiet.{Still, bind-Still, pure-Still, run_update-Still, get_port-Still}

-- What may be run for a card: its formatting, the unzipping of an image onto it, its unmounting.
abbrev pub CardCommand : Env → String → List String → Type 0
CardCommand env disk args =
    CleanCommand env disk args
    ⊎ ((img : String) × (args ≡ unzip_args img))
    ⊎ (args ≡ umount_args (partition_of disk))

-- A command on the host, or a file that is written, is for the disk that was chosen.
abbrev pub OnCard : (env : Env) (named : String) → Choice env named → Event → Type 0
OnCard env named none e = NotRan e
OnCard env named (some k) (ran args) = CardCommand env k.0.disk_name args
OnCard env named (some k) (wrote file content) = CleanText env k.0.disk_name file content
OnCard env named (some k) _ = Unit

OnCard-OnListed :
    (env : Env) (named : String) (k : Choice env named) (e : Event)
    → OnListed env named k e
    → OnCard env named k e
OnCard-OnListed env named none e p = p
OnCard-OnListed env named (some k) (ran args) p = inl p
OnCard-OnListed env named (some k) (wrote file content) p = p
OnCard-OnListed env named (some k) _ p = tt

OnCard-NotRan :
    (env : Env) (named : String) (k : Choice env named) (e : Event)
    → NotRan e
    → OnCard env named k e
OnCard-NotRan env named none e p = p
OnCard-NotRan env named (some k) (ran args) p = absurd p
OnCard-NotRan env named (some k) (wrote file content) p = absurd p
OnCard-NotRan env named (some k) _ p = tt

then_run-Still :
    (err : Option String) {next : M (Option String)} → Still next → Still (then_run err next)
then_run-Still none p = p
then_run-Still (some e) p = pure-Still (some e)

module _ (c : Setting) where
  stop_with-Still : (quiet : Bool) (conf : Option Config) → Still (stop_with c quiet conf)
  unfolding stop_with
  stop_with-Still quiet none = record { runs = λ h. (here, tt) }
  stop_with-Still quiet (some conf) = record { runs = stop-NotRan c.vb c.env conf quiet }

  done_flashing-Still : (d : Flasher) → Still (done_flashing c d)
  unfolding done_flashing stop_machine
  done_flashing-Still d = bind-Still (stop_with-Still d.quiet d.conf) λ _. pure-Still none

  module _ (named : String) where
    Still-OnCard :
        (k : Choice c.env named) {A : Type 0} {m : M A}
        → Still m
        → Runs (OnCard c.env named k) Anything m
    Still-OnCard k {m = m} p =
        Runs-mono NotRan (OnCard c.env named k) Anything m (OnCard-NotRan c.env named k) p.runs

    module _ (dev : MountInfo) (listed : IsListed c.env named dev) where
      abbrev P : Event → Type 0
      P = OnCard c.env named (some (dev, listed))

      copy_job-OnCard : (img : String) → Runs P (λ err. err ≡ none) (copy_job c.env img)
      unfolding copy_job
      copy_job-OnCard img =
          Runs-bind P Anything (λ err. err ≡ none) (host_exec c.env (unzip_args img)) _
            (Runs-host_exec P c.env (unzip_args img) (inr (inl (img, refl)))) λ _ _ h. (here, refl)

      unmount-OnCard :
          (w : Workstation)
          → w.mount.disk_name ≡ partition_of dev.disk_name
          → Runs P Anything (unmount c.env w)
      unfolding unmount
      unmount-OnCard w mounted =
          Runs-if P Anything w.writable _ _
            (λ e.
              Runs-bind P Anything Anything (host_exec c.env (umount_args w.mount.disk_name)) _
                (Runs-host_exec P c.env (umount_args w.mount.disk_name)
                  (inr (inr (ap umount_args mounted))))
                λ _ _ h. (here, tt))
            (λ e h. (here, tt))

      released :
          (w : Workstation) (err : Option String)
          → err ≡ none
          → Runs P Anything (unmount c.env w)
          → Runs P Anything (then_run err (unmount c.env w >>= λ _. pure none))
      released w none e u = Runs-bind P Anything Anything (unmount c.env w) _ u λ _ _ h. (here, tt)
      released w (some m) e u = λ h. (here, tt)

    copied-OnCard :
        (img : String) (k : Choice c.env named) (r : Workstation × Option String)
        → CopiedOf c.env named k r
        → Runs (OnCard c.env named k) Anything (copied c img r)
    copied-OnCard img k (w, some e) p = λ h. (here, tt)
    copied-OnCard img none (w, none) p = absurd p
    copied-OnCard img (some (dev, listed)) (w, none) (mounted, on) =
        Runs-bind (P dev listed) (λ err. err ≡ none) Anything (copy_job c.env img) _
          (copy_job-OnCard dev listed img)
          λ err e. released dev listed w err e (unmount-OnCard dev listed w mounted)

  module _ (io : Serial) (p : Patience) where
    open_port-Still : (port : String) → Still (open_port c io p port)
    unfolding open_port
    open_port-Still port = record { runs = λ h. (here, tt) }

    update_board-Still : (r : Colibri × Option String) → Still (update_board c io p r)
    unfolding update_board
    update_board-Still (d, some e) = pure-Still (some e)
    update_board-Still (d, none) = bind-Still (open_port-Still d.port) λ opened.
        bind-Still (then_run-Still opened (run_update-Still io c.env p))
          λ updated. then_run-Still updated (done_flashing-Still d.flasher)

    abbrev One : {A : Type 0} → String → M A → Type 0
    One named m = RunsOne (OnCard c.env named) (λ k. Anything) m

    prepare_card-OnCard : (left : ℕ) (d : Colibri) → One d.disk (prepare_card c left d)
    unfolding prepare_card new_workstation
    prepare_card-OnCard left d =
        RunsOne-if (OnCard c.env d.disk) (λ k. Anything) d.flash_only _ _ (λ e h. (none, here, tt))
          λ e.
            bind-after (OnCard c.env d.disk) (CopiedOf c.env d.disk) (λ k. Anything)
              (copy_to_disk c.env left (new_workstation d.disk)) _
              (RunsOne-mono (OnListed c.env d.disk) (OnCard c.env d.disk) (CopiedOf c.env d.disk) _
                (OnCard-OnListed c.env d.disk)
                (copy_to_disk-OnListed c.env left (new_workstation d.disk)))
              λ k r q. copied-OnCard d.disk (join c.env.temp_dir d.img) k r q

    write_taken-OnCard :
        (left : ℕ) (disk : String) (r : Colibri × Option String)
        → r.0.disk ≡ disk
        → One disk (write_taken c io p left r)
    unfolding write_taken
    write_taken-OnCard left disk (d, some e) same = λ h. (none, here, tt)
    write_taken-OnCard left disk (d, none) same =
        bind-after (OnCard c.env disk) (λ k. Anything) (λ k. Anything) (prepare_card c left d) _
          (rw (← same) (prepare_card-OnCard left d))
          λ k err _.
            Still-OnCard disk k (
              then_run-Still err (bind-Still (get_port-Still io c.env d) λ r. update_board-Still r))

    fetch_image-Runs :
        (img : String) (conf : Option Config) → Runs NotRan Anything (fetch_image c img conf)
    unfolding fetch_image ssh_copy_from
    fetch_image-Runs img none = λ h. (here, tt)
    fetch_image-Runs img (some conf) = λ h. (more tt here, tt)

    abbrev SameDisk : String → Colibri × Option String → Type 0
    SameDisk disk r = r.0.disk ≡ disk

    take_image-Runs : (d : Colibri) → Runs NotRan (SameDisk d.disk) (take_image c d)
    unfolding take_image
    take_image-Runs d =
        Runs-if NotRan (SameDisk d.disk) (str_eq d.img "") _ _ (λ e h. (here, refl))
          λ e.
            Runs-bind NotRan Anything (SameDisk d.disk) (fetch_image c d.img d.conf) _
              (fetch_image-Runs d.img d.conf) λ _ _ h. (here, refl)

    -- For each run of Write of the Colibri there is one disk, or none, such that it runs only commands
    -- that format this disk, that unzip an image into the directory on which its first partition is
    -- mounted, and that unmount this partition, and writes only the input and the command of fdisk
    -- for it. The disk stood in a listing of the removable disks and is the one named on the command
    -- line, if one is. This holds however the run ends and however long user and board are waited for.
    pub colibri_write-OnCard :
        (left : ℕ) (d : Colibri)
        → RunsOne (OnCard c.env d.disk) (λ k. Anything) (colibri_write c io p left d)
    unfolding colibri_write
    colibri_write-OnCard left d =
        bind-before (OnCard c.env d.disk) none NotRan (OnCard-NotRan c.env d.disk) (SameDisk d.disk)
          (λ k. Anything) (take_image c d) _ (take_image-Runs d)
          λ r same. write_taken-OnCard left d.disk r same

    -- Where VirtualBox is not found, and nothing has set the configuration of the machine before,
    -- Flash of the Colibri panics: the error of Prepare is not looked at.
    pub colibri_flash_panics :
        (ticks left : ℕ) (d : Colibri) (h t : List Event) (e : String)
        → d.conf ≡ none
        → check_vb_installed c.env h ≡ (done (some e), t)
        → (colibri_flash c io p ticks left d h).0 ≡ panic
    unfolding colibri_flash colibri_prepare install_tools prepare exec_plain remote
    colibri_flash_panics ticks left d h t e absent q = rw (q, absent) refl
