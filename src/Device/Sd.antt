-- ===== src/Device/Sd.antt =====
-- device/sd_flasher.go: the generic flasher of an SD card, and the flashers that embed it.
use iotit.Base.{
  ℕ, String, ◌<>◌, Bool, true, false, not, ◌&&◌, Option, none, some, List, [], ◌∷◌, if◌then◌else◌,
}
use iotit.GoStrings.{contains}
use iotit.Effects.{M, pure, fail, ◌>>=◌, ◌>>◌, Env, ssh_copy_from, delete_file, yes_no_dialog}
use iotit.Config.Storage.{mount_dir, tmp_dir}
use iotit.Config.Configurator.{new_default, setup, write_entries}
use iotit.Vbox.{Config}
use iotit.Vbox.Settings.{stop}
use iotit.Workstation.{Workstation, new_workstation}
use iotit.Workstation.Linux.Write.{
  Written, job, declined, write_failed, write_to_disk, run_job, unmount, eject,
}
use iotit.Device.Flasher.{SdFlasher, set_mounted, set_configured, join, exec_over_ssh}
use iotit.Device.Prepare.{Setting, prepare}
use iotit.Device.Mount.{find_loops, attach, mount, unmount_img, umount_command}
use iotit.Device.Raspi.{Choices, pi_configure}

module _ (env : Env) where
  -- The loop of MountImg over the partitions.
  unfoldable pub detect : Choices → List String → SdFlasher → M (SdFlasher × Option String)
  detect ch [] d = pure (d, none)
  detect ch (loop ∷ loops) d = do
    failed ← mount env d.conf loop mount_dir
    elim failed [
      | some e ↦ detect ch loops d
      | none ↦ do
        listing ← exec_over_ssh env d.conf ("ls " <> mount_dir)
        elim listing.err [
          | some e ↦ detect ch loops d
          | none ↦
              let rest = detect ch loops d in
              if contains listing.outp "config.txt"
              then (do
                exec_over_ssh env d.conf umount_command
                pi_configure env ch (set_configured d))
              else if not (contains listing.outp "etc") && not (contains listing.outp "opt")
              then (do exec_over_ssh env d.conf umount_command; rest)
              else pure (set_mounted true d, none)
        ]
    ]

  -- MountImg with the empty partition
  unfoldable pub mount_img : Choices → SdFlasher → M (SdFlasher × Option String)
  unfolding detect
  mount_img ch d = do
    (d', err) ← attach env d
    elim err [
      | some e ↦ pure (d', some e)
      | none ↦ do
        listing ← exec_over_ssh env d'.conf "ls /dev/loop0p*"
        elim listing.err [
          | some e ↦ pure (d', some e)
          | none ↦ elim (find_loops listing.outp) [
            | [] ↦ pure (d', none)
            | loop ∷ loops ↦ do
              exec_over_ssh env d'.conf umount_command
              detect ch (loop ∷ loops) d'
          ]
        ]
    ]

abbrev pub cannot_configure : String
cannot_configure =
    "IoTit can't configure this image because no linux partitions were found inside. Do you want to proceed to image writing anyway?"

module _ (c : Setting) (ch : Choices) where
  -- Done, which prints the message of success
  unfoldable pub finish : SdFlasher → M (Option String)
  finish d = pure none

  -- The dialogs and the writing of the configuration, if the user wants them.
  configure_board : SdFlasher → M (Option String)
  configure_board d = do
    configure ←
        (if d.quiet
          then pure false
          else yes_no_dialog c.env "Would you like to configure your board?")
    elim configure [
      | false ↦ pure none
      | true ↦ do
        (storage, failed) ← setup (new_default c.env ch.locales ch.fuel)
        elim failed [
          | some e ↦ pure (some e)
          | none ↦ do
            (storage', wrong) ←
                write_entries (ch.visit (new_default c.env ch.locales ch.fuel).order) storage
            pure wrong
        ]
    ]

  -- Configure after Prepare
  unfoldable pub configure_prepared : SdFlasher → M (SdFlasher × Option String)
  unfolding configure_board
  configure_prepared d = do
    (d', err) ← mount_img c.env ch d
    elim err [
      | some e ↦ pure (d', some e)
      | none ↦
          if d'.configured
          then pure (d', none)
          else if not d'.mounted
          then (do
            proceed ← yes_no_dialog c.env cannot_configure
            if proceed then pure (d', none) else pure (d', some "Aborted"))
          else (do
            wrong ← configure_board d'
            elim wrong [
              | some e ↦ pure (d', some e)
              | none ↦ unmount_img c.env d' >>= λ e. pure (d', e)
            ])
    ]

  -- Prepare, which an sdFlasher inherits
  unfoldable pub sd_prepare : ℕ → SdFlasher → M (SdFlasher × Option String)
  sd_prepare ticks d = do
    (f, err) ← prepare c ticks 2 d.flasher
    pure (record d { flasher = f }, err)

  -- Configure
  unfoldable pub configure : ℕ → SdFlasher → M (SdFlasher × Option String)
  unfolding configure_prepared sd_prepare
  configure ticks d = do
    (d', err) ← sd_prepare ticks d
    elim err [ some e ↦ pure (d', some e) | none ↦ configure_prepared d' ]

  -- `d.conf.SSH.ScpFrom`
  unfoldable pub copy_image : SdFlasher → M (Option String)
  copy_image d = elim d.conf [
    | none ↦ fail
    | some conf ↦ ssh_copy_from c.env (c.env.path tmp_dir (d.img ∷ [])) (join c.env.temp_dir d.img)
  ]

  unfoldable pub stop_conf : Bool → Option Config → M (Option String)
  stop_conf quiet none = fail
  stop_conf quiet (some conf) = stop c.vb c.env conf quiet

  -- `d.conf.Stop(d.Quiet)`, whose error is only logged
  unfoldable pub stop_vm : SdFlasher → M (Option String)
  unfolding stop_conf
  stop_vm d = stop_conf d.quiet d.conf

  -- The end of Write. Errors of Unmount and Eject are only logged.
  unfoldable pub release : SdFlasher → Workstation → Option String → M (Option String)
  unfolding stop_vm finish
  release d w (some e) = pure (some e)
  release d w none = do unmount c.env w; eject c.env w; stop_vm d; finish d

  unfoldable pub await_job : SdFlasher → Workstation × Written → M (Option String)
  unfolding release
  await_job d (w, write_failed e) = release d w (some e)
  await_job d (w, declined) = release d w none
  await_job d (w, job) = run_job c.env (join c.env.temp_dir d.img) w >>= release d w

  -- Write, from the choice of the disk on
  unfoldable pub write_image : SdFlasher → M (Option String)
  unfolding await_job
  write_image d = write_to_disk c.env (new_workstation d.disk) >>= await_job d

  -- Write
  unfoldable pub write : SdFlasher → M (Option String)
  unfolding copy_image write_image
  write d = do
    proceed ← (if d.quiet then pure true else yes_no_dialog c.env "Proceed to image flashing?")
    elim proceed [
      | false ↦ pure none
      | true ↦ do
        delete_file (join c.env.temp_dir d.img)
        copied ← copy_image d
        elim copied [ some e ↦ pure (some e) | none ↦ write_image d ]
    ]

  -- Flash
  unfoldable pub flash : ℕ → SdFlasher → M (Option String)
  unfolding configure write
  flash ticks d = do
    (d', err) ← configure ticks d
    elim err [ some e ↦ pure (some e) | none ↦ write d' ]

  -- The Flash of raspberryPi
  unfoldable pub pi_flash : ℕ → SdFlasher → M (Option String)
  unfolding sd_prepare write
  pi_flash ticks d = do
    (d', err) ← sd_prepare ticks d
    elim err [
      | some e ↦ pure (some e)
      | none ↦ do
        (d'', failed) ← pi_configure c.env ch d'
        elim failed [ some e ↦ pure (some e) | none ↦ write d'' ]
    ]
