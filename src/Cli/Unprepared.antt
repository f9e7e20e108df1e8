-- ===== src/Cli/Unprepared.antt =====
-- The commands `configure` and `write` of iotit.go, on a flasher that nothing has prepared.
use iotit.Base.{true, false, some, List, ◌≡◌, refl, ◌⊎◌, inl, inr}
use iotit.Effects.{Event, panic, yes_no_dialog, delete_file}
use iotit.Device.Flasher.{remote, exec_plain}
use iotit.Device.Raspi.{pi_configure}
use iotit.Device.Sd.{write, copy_image}
use iotit.Device.Colibri.Defs.{colibri_configure, configure_image}
use iotit.Device.Edison.{edison_configure}
use iotit.Device.Select.{Chosen, Kind, raspberry_pi, beagle_bone, colibri, edison, serial, sd}
use iotit.Cli.Commands.{
  Flags, World, base_flasher, sd_flasher, colibri_flasher, edison_flasher, configure_kind,
  write_kind,
}

-- The flashers whose Configure does not prepare anything, and those that write a card from the virtual
-- machine.
abbrev pub ConfiguresUnprepared : Kind → Type 0
ConfiguresUnprepared raspberry_pi = Unit
ConfiguresUnprepared colibri = Unit
ConfiguresUnprepared edison = Unit
ConfiguresUnprepared _ = ⊥

abbrev pub WritesUnprepared : Kind → Type 0
WritesUnprepared raspberry_pi = Unit
WritesUnprepared beagle_bone = Unit
WritesUnprepared sd = Unit
WritesUnprepared _ = ⊥

-- The user goes on, or is not asked.
abbrev pub GoesOn : World → Flags → List Event → Type 0
GoesOn w flags h =
    (flags.quiet ≡ true)
    ⊎ ((flags.quiet ≡ false) × (w.setting.env.yes_no h "Proceed to image flashing?" ≡ some true))

module _ (w : World) (flags : Flags) (c : Chosen) (h : List Event) where
  configure-panics : (k : Kind) → ConfiguresUnprepared k → (configure_kind w flags k c h).0 ≡ panic
  unfolding configure_kind pi_configure colibri_configure configure_image edison_configure
      exec_plain remote sd_flasher colibri_flasher edison_flasher base_flasher
  configure-panics raspberry_pi u = refl
  configure-panics colibri u = refl
  configure-panics edison u = refl
  configure-panics beagle_bone u = absurd u
  configure-panics serial u = absurd u
  configure-panics sd u = absurd u

  write_panics : GoesOn w flags h → (write w.setting w.choices (sd_flasher w flags c) h).0 ≡ panic
  unfolding write copy_image sd_flasher base_flasher yes_no_dialog delete_file
  write_panics (inl quiet) = rw quiet refl
  write_panics (inr (loud, goes)) = rw (loud, goes) refl

  write_kind-panics :
      (k : Kind) → WritesUnprepared k → GoesOn w flags h → (write_kind w flags k c h).0 ≡ panic
  unfolding write_kind
  write_kind-panics raspberry_pi u g = write_panics g
  write_kind-panics beagle_bone u g = write_panics g
  write_kind-panics sd u g = write_panics g
  write_kind-panics colibri u g = absurd u
  write_kind-panics edison u g = absurd u
  write_kind-panics serial u g = absurd u

  -- The command `configure` panics for a Raspberry Pi, a Colibri and an Edison, whatever the world
  -- answers. The command `write` panics for a Raspberry Pi, a BeagleBone and every board that is
  -- flashed by its card, unless the user declines to go on. The flasher that getFlasher makes has
  -- no configuration of the virtual machine, and neither command sets one before it is read.
  pub commands_panic :
      (k : Kind)
      → (ConfiguresUnprepared k → (configure_kind w flags k c h).0 ≡ panic)
        × (WritesUnprepared k → GoesOn w flags h → (write_kind w flags k c h).0 ≡ panic)
  commands_panic k = (configure-panics k, write_kind-panics k)
