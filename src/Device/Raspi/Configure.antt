-- ===== src/Device/Raspi/Configure.antt =====
-- The Configure of raspberryPi, and the boot partition.
use iotit.Base.{ℕ, String, ◌<>◌, Bool, Option, none, some, if◌then◌else◌}
use iotit.Effects.{M, pure, fail, ◌>>=◌, ◌>>◌, Env, yes_no_dialog}
use iotit.Config.Storage.{Storage, interface_key, ssh_key, camera_key}
use iotit.Config.Dialogs.{Locales}
use iotit.Config.Configurator.{
  Configurator, Order, callback_fn, new_default, add_config_fn, setup, write_entries,
}
use iotit.Vbox.{Config}
use iotit.Device.Flasher.{SdFlasher, exec_plain}
use iotit.Device.Mount.{mount_img_at, unmount_img}
use iotit.Device.Raspi.Callbacks.{
  boot_mount, set_pi_interface, save_pi_interface, enable_pi_ssh, enable_pi_camera, touch_ssh,
}

-- What a configuration of an image depends on: the locales, the fuel for addresses that are asked
-- for again, and the order in which a run visits the entries of a Go map.
pub record Choices : Type 0 where
  pub locales : Locales
  pub fuel : ℕ
  pub visit : Order → Order

-- The configurator of raspberryPi.Configure.
unfoldable pub pi_configurator : Env → Choices → Configurator
pi_configurator env ch =
    add_config_fn camera_key (record { config = some (enable_pi_camera env); apply = none })
      (add_config_fn ssh_key (record { config = some (enable_pi_ssh env); apply = none })
        (add_config_fn interface_key
          (callback_fn (set_pi_interface env ch.fuel) (save_pi_interface env))
          (new_default env ch.locales ch.fuel)))

module _ (env : Env) where
  -- MountBoot
  unfoldable pub mount_boot : Option Config → M (Option String)
  mount_boot conf = do
    made ← exec_plain env conf ("mkdir -p " <> boot_mount)
    elim made [
      | some e ↦ pure (some e)
      | none ↦ exec_plain env conf ("mount -o rw /dev/loop0p1 " <> boot_mount)
    ]

  -- UnmountBoot
  unfoldable pub unmount_boot : Option Config → M (Option String)
  unmount_boot conf = do
    unlinked ← exec_plain env conf ("umount " <> boot_mount)
    elim unlinked [ some e ↦ pure (some e) | none ↦ exec_plain env conf "losetup -D" ]

  -- The dialogs of Configure, or what it does without them: the storage, and an error of Setup.
  unfoldable pub pi_setup : Bool → Configurator → M (Storage × Option String)
  pi_setup quiet c =
      if quiet
      then (do
        -- an error is only printed
        touch_ssh env
        pure (c.storage, none))
      else (do
        configure ← yes_no_dialog env "Would you like to configure your board?"
        if configure then setup c else pure (c.storage, none))

  -- Setup and Write, and the unmounting after them
  pi_apply : Choices → SdFlasher → Configurator → M (SdFlasher × Option String)
  unfolding pi_setup
  pi_apply ch d c = do
    (storage, failed) ← pi_setup d.quiet c
    elim failed [
      | some e ↦ pure (d, some e)
      | none ↦ do
        (storage', wrong) ← write_entries (ch.visit c.order) storage
        elim wrong [
          | some e ↦ pure (d, some e)
          | none ↦ do
            left ← unmount_img env d
            elim left [
              | some e ↦ pure (d, some e)
              | none ↦ unmount_boot d.conf >>= λ e. pure (d, e)
            ]
        ]
    ]

  -- The goroutine that mounts both partitions.
  pi_mount : SdFlasher → M (SdFlasher × Option String)
  pi_mount d = do
    (d', err) ← mount_img_at env "p2" d
    elim err [ some e ↦ pure (d', some e) | none ↦ mount_boot d'.conf >>= λ e. pure (d', e) ]

  -- Configure. `d.conf.SSH` of a nil `d.conf` panics.
  unfoldable pub pi_configure : Choices → SdFlasher → M (SdFlasher × Option String)
  unfolding pi_apply pi_mount
  pi_configure ch d = elim d.conf [
    | none ↦ fail
    | some conf ↦ do
      (d', err) ← pi_mount d
      elim err [ some e ↦ pure (d', some e) | none ↦ pi_apply ch d' (pi_configurator env ch) ]
  ]
