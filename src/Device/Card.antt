-- ===== src/Device/Card.antt =====
-- What Write of device/sd_flasher.go does to the disks of the host.
use iotit.Base.{String, Bool, false, Option, none, some, List, ◌≡◌, refl, ◌⊎◌, sym, ◌∙◌}
use mathlib.Core.Bool.{true≢false}
use mathlib.Core.Path.{subst}
use iotit.Effects.{Event, ran, wrote, done, Env}
use iotit.Effects.Trace.{
  Grows, here, more, Grows-trans, Runs, Runs-bind, Runs-if, Anything, Returns,
}
use iotit.Effects.Rules.{Runs-yes_no_dialog}
use iotit.Vbox.{Config, VirtualBox, Found, machine, missing, find_machine, machine_off}
use iotit.Vbox.Settings.{stop, stop_found, ask_stop}
use iotit.Workstation.{Workstation, new_workstation}
use iotit.Workstation.Linux.Write.{
  declined, dd, umount_args, eject_args, write_to_disk, unmount, eject,
}
use iotit.Workstation.Linux.Selection.{IsSelected, NotRan, WriteOf}
use iotit.Workstation.Linux.Safety.{write_to_disk-IsSelected}
use iotit.Device.Flasher.{SdFlasher}
use iotit.Device.Prepare.{Setting}
use iotit.Device.Raspi.{Choices}
use iotit.Device.Sd.{stop_conf, stop_vm, finish, release, await_job, write_image}

-- A command that writes, unmounts or ejects the given disk.
abbrev pub TouchesOnly : String → List String → Type 0
TouchesOnly disk args =
    ((img : String) × (args ≡ dd img disk)) ⊎ (args ≡ umount_args disk) ⊎ (args ≡ eject_args disk)

-- The station whose disk is written, if one is.
abbrev pub Selection : Env → String → Type 0
Selection env named = Option ((l : Workstation) × IsSelected env l × (l.disk ≡ named))

-- A command on the host touches the disk that was selected, if the event is one.
abbrev pub OnSelected : (env : Env) (named : String) → Selection env named → Event → Type 0
OnSelected env named none e = NotRan e
OnSelected env named (some k) (ran args) = TouchesOnly k.0.mount.disk_name args
OnSelected env named (some k) (wrote file content) = ⊥
OnSelected env named (some k) _ = Unit

module _ (vb : VirtualBox) (env : Env) where
  -- Stop asks and powers off; it runs no command of its own.
  stop_found-NotRan : (quiet : Bool) (f : Found) → Runs NotRan Anything (stop_found vb env quiet f)
  unfolding stop_found machine_off
  stop_found-NotRan quiet (missing e) = λ h. (here, tt)
  stop_found-NotRan quiet (machine m) =
      Runs-bind NotRan Anything Anything (ask_stop vb env quiet) _
        (Runs-if NotRan Anything quiet _ _ (λ e h. (here, tt))
          (λ e. Runs-yes_no_dialog NotRan env _ tt))
        λ go _. Runs-if NotRan Anything go _ _ (λ e h. (more tt here, tt)) (λ e h. (here, tt))

  pub stop-NotRan : (vc : Config) (quiet : Bool) → Runs NotRan Anything (stop vb env vc quiet)
  unfolding stop find_machine
  stop-NotRan vc quiet h = stop_found-NotRan quiet (vb.get_machine h vc.uuid) h

module _ (c : Setting) (ch : Choices) where
  stop_conf-NotRan :
      (quiet : Bool) (conf : Option Config) → Runs NotRan Anything (stop_conf c ch quiet conf)
  unfolding stop_conf
  stop_conf-NotRan quiet none = λ h. (here, tt)
  stop_conf-NotRan quiet (some conf) = stop-NotRan c.vb c.env conf quiet

  stop_vm-NotRan : (d : SdFlasher) → Runs NotRan Anything (stop_vm c ch d)
  unfolding stop_vm
  stop_vm-NotRan d = stop_conf-NotRan d.quiet d.conf

  module _ (disk : String) (w : Workstation) (p : IsSelected c.env w) (same : w.disk ≡ disk) where
    abbrev P : Event → Type 0
    P = OnSelected c.env disk (some (w, p, same))

  -- Nothing is unmounted or ejected where the station is not writable, and the image is reported as written.
  release-declined :
      (d : SdFlasher) (w : Workstation)
      → w.writable ≡ false
      → Runs NotRan (λ r. r ≡ none) (release c ch d w none)
  unfolding release unmount eject finish
  release-declined d w off =
      Runs-bind NotRan Anything _ (unmount c.env w) _
        (Runs-if NotRan Anything w.writable _ _ (λ e. absurd (true≢false (sym e ∙ off)))
          (λ e h. (here, tt)))
        λ _ _.
          Runs-bind NotRan Anything _ (eject c.env w) _
            (Runs-if NotRan Anything w.writable _ _ (λ e. absurd (true≢false (sym e ∙ off)))
              (λ e h. (here, tt)))
            λ _ _.
              Runs-bind NotRan Anything (λ r. r ≡ none) (stop_vm c ch d) _ (stop_vm-NotRan d)
                λ _ _ h. (here, refl)

  abbrev Nothing : {K A : Type 0} → K → A → Type 0
  Nothing k = Anything

  -- Where the user declines the last question, no command is run on the host, and the flasher still
  -- ends as after a written card, with no error.
  pub write_image-declined :
      (d : SdFlasher) (h : List Event) {w : Workstation} {t : List Event}
      → write_to_disk c.env (new_workstation d.disk) h ≡ (done (w, declined), t)
      → Grows NotRan h (write_image c ch d h).1 × Returns (λ r. r ≡ none) (write_image c ch d h).0
  unfolding write_image await_job
  write_image-declined d h {w} {t} e =
      let s = write_to_disk-IsSelected c.env (new_workstation d.disk) h in
      let g = subst (λ r. Grows NotRan h r.1) e s.0 in
      let off = subst (λ r. Returns (WriteOf c.env (new_workstation d.disk).disk) r.0) e s.1 in
      rw e (let f = release-declined d w off t in (Grows-trans NotRan g f.0, f.1))
