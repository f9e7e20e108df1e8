-- ===== src/Device/Beagle.antt =====
-- device/beagle.go.
use iotit.Base.{ℕ, String, ◌<>◌, Bool, true, false, Option, none, some, [], ◌∷◌, if◌then◌else◌}
use iotit.Effects.{M, pure, ◌>>=◌, yes_no_dialog}
use iotit.Config.Storage.{Storage, mount_dir}
use iotit.Config.Configurator.{Configurator, new_default, setup, write_entries}
use iotit.Device.Flasher.{SdFlasher, exec_plain}
use iotit.Device.Prepare.{Setting}
use iotit.Device.Mount.{mount_img_at, unmount_img}
use iotit.Device.Raspi.{Choices}
use iotit.Device.Sd.{sd_prepare, write}

module _ (c : Setting) (ch : Choices) where
  abbrev pub link_command : String
  link_command =
      "ln -sf /dev/null "
      <> c.env.path mount_dir ("etc" ∷ "udev" ∷ "rules.d" ∷ [])
      <> "/80-net-setup-link.rules"

  abbrev pub board_configurator : Configurator
  board_configurator = new_default c.env ch.locales ch.fuel

  -- The dialogs, unless they are suppressed or declined.
  unfoldable pub beagle_dialogs : SdFlasher → M (Storage × Option String)
  beagle_dialogs d = do
    configure ←
        (if d.quiet
          then pure false
          else yes_no_dialog c.env "Would you like to configure your board?")
    if configure then setup board_configurator else pure (board_configurator.storage, none)

  -- What follows the dialogs and the wait for the goroutine: the link, Write and UnmountImg.
  unfoldable pub beagle_apply : Storage → SdFlasher → M (SdFlasher × Option String)
  beagle_apply s d = do
    linked ← exec_plain c.env d.conf link_command
    elim linked [
      | some e ↦ pure (d, some e)
      | none ↦ do
        (s', wrong) ← write_entries (ch.visit board_configurator.order) s
        elim wrong [ some e ↦ pure (d, some e) | none ↦ unmount_img c.env d >>= λ e. pure (d, e) ]
    ]

  -- An error of the dialogs comes before one of the goroutine, which is waited for after them.
  abbrev pub joined :
      Storage × Option String → SdFlasher × Option String → M (SdFlasher × Option String)
  joined (s, some e) (d, err) = pure (d, some e)
  joined (s, none) (d, some e) = pure (d, some e)
  joined (s, none) (d, none) = beagle_apply s d

  -- The dialogs before the goroutine has begun: where they fail, it is not waited for.
  abbrev pub mount_after : SdFlasher → Storage × Option String → M (SdFlasher × Option String)
  mount_after d (s, some e) = pure (d, some e)
  mount_after d (s, none) = mount_img_at c.env "p1" d >>= λ mounted. joined (s, none) mounted

  -- Configure after Prepare. The goroutine that mounts the image runs beside the dialogs:
  -- `mount_first` is the schedule in which it is through before they begin, and the other one that
  -- in which it begins after them. Schedules between these two are not modelled.
  unfoldable pub beagle_configure_prepared : Bool → SdFlasher → M (SdFlasher × Option String)
  unfolding beagle_dialogs beagle_apply
  beagle_configure_prepared true d = do
    mounted ← mount_img_at c.env "p1" d
    asked ← beagle_dialogs d
    joined asked mounted
  beagle_configure_prepared false d = do asked ← beagle_dialogs d; mount_after d asked

  abbrev pub if_prepared : Bool → SdFlasher × Option String → M (SdFlasher × Option String)
  if_prepared mount_first (d, some e) = pure (d, some e)
  if_prepared mount_first (d, none) = beagle_configure_prepared mount_first d

  -- Configure
  unfoldable pub beagle_configure : Bool → ℕ → SdFlasher → M (SdFlasher × Option String)
  unfolding beagle_configure_prepared
  beagle_configure mount_first ticks d = sd_prepare c ch ticks d >>= if_prepared mount_first

  abbrev pub write_configured : SdFlasher × Option String → M (Option String)
  write_configured (d, some e) = pure (some e)
  write_configured (d, none) = write c ch d

  -- Flash
  unfoldable pub beagle_flash : Bool → ℕ → SdFlasher → M (Option String)
  unfolding beagle_configure
  beagle_flash mount_first ticks d = beagle_configure mount_first ticks d >>= write_configured
