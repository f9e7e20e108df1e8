-- ===== src/Device/Prepare.antt =====
-- Prepare and startVM of device/flasher.go. The removal of localhost from known_hosts and the
-- pauses are left out.
use iotit.Base.{ℕ, zero, suc, String, Bool, true, false, Option, none, some, str_eq, if◌then◌else◌}
use iotit.GoStrings.{trim_space}
use iotit.Effects.{M, pure, give_up, ◌>>=◌, Env, Reply}
use iotit.Vbox.{Config, Machine, machine, missing, VirtualBox, machine_start}
use iotit.Vbox.Settings.{is_running}
use iotit.Vbox.Machines.{get_vbox}
use iotit.Vbox.Check.{Sources, check_vb_installed, new_config}
use iotit.Device.Flasher.{Flasher, remote}
use iotit.Device.Images.{Files, prepare_image}

-- Everything outside the program that preparing an image talks to.
pub record Setting : Type 0 where
  pub env : Env
  pub vb : VirtualBox
  pub sources : Sources
  pub files : Files

unfoldable pub is_quiet : Reply → Bool
is_quiet r = elim r.err [ some e ↦ false | none ↦ str_eq (trim_space r.eut) "" ]

module _ (c : Setting) where
  -- The goroutine of startVM, which tries `whoami` at each tick of 15 seconds. The timer of 180
  -- seconds is made anew in each round of the select, so it never fires before the ticker.
  unfoldable pub wait_for_ssh : ℕ → Option Config → M (Unit {0})
  wait_for_ssh zero conf = give_up
  wait_for_ssh (suc ticks) conf = do
    r ← remote c.env conf "whoami"
    elim (is_quiet r) [ true ↦ pure tt | false ↦ wait_for_ssh ticks conf ]

  -- startVM
  unfoldable pub start_vm : ℕ → Option Config → Machine → M (Option String)
  unfolding wait_for_ssh
  start_vm ticks conf m = do
    err ← machine_start c.vb m
    elim err [ some e ↦ pure (some e) | none ↦ do ready ← wait_for_ssh ticks conf; pure none ]

  -- Prepare. `left` is what is left of the retries of prepareImage.
  unfoldable pub prepare : ℕ → ℕ → Flasher → M (Flasher × Option String)
  unfolding start_vm
  prepare ticks left d = do
    absent ← check_vb_installed c.env
    elim absent [
      | some e ↦ pure (d, some e)
      | none ↦ do
        conf ← new_config c.env c.vb c.sources d.device
        let d' = record d { conf = some conf }
        found ← get_vbox c.env c.vb d.quiet
        elim found [
          | missing e ↦ pure (d', some e)
          | machine m ↦ do
            err ← (if is_running m.state then pure none else start_vm ticks d'.conf m)
            elim err [ some e ↦ pure (d', some e) | none ↦ prepare_image c.env c.files left d' ]
        ]
    ]
