-- ===== src/Device/Colibri/Defs.antt =====
-- The flasher of device/colibri.go. The pauses are left out.
use iotit.Base.{
  ℕ, zero, suc, String, ◌<>◌, Bool, true, false, Option, none, some, [], ◌∷◌, str_eq, if◌then◌else◌,
}
use iotit.Effects.{M, done, pure, fail, ◌>>=◌, ◌>>◌, Env, ssh_copy_from, yes_no_dialog}
use iotit.Config.Storage.{mount_dir, tmp_dir}
use iotit.Vbox.{Config}
use iotit.Workstation.{Workstation, new_workstation}
use iotit.Workstation.Linux.Write.{unmount}
use iotit.Workstation.Linux.Copy.{copy_to_disk, copy_job}
use iotit.Device.Flasher.{Flasher, join, exec_plain}
use iotit.Device.Prepare.{Setting, prepare}
use iotit.Device.Done.{done_flashing}
use iotit.Device.Colibri.Board.{Serial, Patience, run_update}

-- `flash_only` is the flag -flash of the command line.
pub record Colibri : Type 0 where
  pub flasher : Flasher
  pub open flasher use *
  pub port : String
  pub disk : String
  pub flash_only : Bool

abbrev pub port_selection_tries : ℕ
port_selection_tries = 3

abbrev pub no_ports : String
no_ports = "No ports found. Reconnect your device and try again. Ready?"

abbrev pub set_port : String → Colibri → Colibri
set_port port d = record d { port = port }

abbrev pub set_img : String → Colibri → Colibri
set_img img d = record d { flasher = record (d.flasher) { img = img } }

abbrev pub colibri_image : String
colibri_image = "colibri_image.zip"

-- The end of getPort.
abbrev pub check_port : Option String → Colibri → M (Colibri × Option String)
check_port perr d = if str_eq d.port "" then pure (d, perr) else pure (d, none)

-- The commands of configureImage, in turn, as far as they succeed.
abbrev pub then_run : Option String → M (Option String) → M (Option String)
then_run (some e) next = pure (some e)
then_run none next = next

module _ (env : Env) (io : Serial) where
  unfoldable pub auto_port : M (String × Option String)
  auto_port h = (done (io.auto_port h), h)

  -- A round's port, and the rest of the loop for an error.
  abbrev pub take_port :
      String × Option String
      → Option String
      → Colibri
      → (Option String → M (Colibri × Option String))
      → M (Colibri × Option String)
  take_port (port, some e) perr d next = next (some e)
  take_port (port, none) perr d next = check_port perr (set_port port d)

  -- The loop of getPort.
  unfoldable pub port_loop : ℕ → Bool → Option String → Colibri → M (Colibri × Option String)
  unfolding auto_port
  port_loop zero first perr d = check_port perr d
  port_loop (suc n) first perr d = do
    go ← (if first then pure true else yes_no_dialog env no_ports)
    if go
        then (auto_port >>= λ found. take_port found perr d (λ err. port_loop n false err d))
        else pure (d, perr)

  -- getPort
  unfoldable pub get_port : Colibri → M (Colibri × Option String)
  unfolding port_loop
  get_port d =
      if str_eq d.port "" then port_loop port_selection_tries true none d else pure (d, none)

module _ (c : Setting) where
  -- installTools
  unfoldable pub install_tools : Colibri → M (Option String)
  install_tools d =
      exec_plain c.env d.conf "apk add dosfstools parted sudo e2fsprogs-extra coreutils libattr zip"

  -- Prepare. The errors of both steps are not looked at.
  unfoldable pub colibri_prepare : ℕ → Colibri → M (Colibri × Option String)
  unfolding install_tools
  colibri_prepare ticks d = do
    (f, err) ← prepare c ticks 2 d.flasher
    let d' = record d { flasher = f }
    install_tools d'
    pure (d', none)

  abbrev pub update_command : Colibri → String
  update_command d =
      "cd " <> c.env.path tmp_dir (d.folder ∷ []) <> " && ./update.sh -o " <> mount_dir

  abbrev pub zip_command : String
  zip_command = "cd " <> mount_dir <> " && zip -0 -r ../" <> colibri_image <> " *"

  -- configureImage, without the timer of the connection
  unfoldable pub configure_image : Colibri → M (Colibri × Option String)
  configure_image d = do
    made ← exec_plain c.env d.conf ("mkdir -p " <> mount_dir)
    updated ← then_run made (exec_plain c.env d.conf (update_command d))
    zipped ← then_run updated (exec_plain c.env d.conf zip_command)
    listed ← then_run zipped (exec_plain c.env d.conf "ls -la /tmp/colibri_image.zip")
    pure (set_img colibri_image d, listed)

  -- Configure, whose goroutine it waits for
  unfoldable pub colibri_configure : Colibri → M (Colibri × Option String)
  unfolding configure_image
  colibri_configure d = configure_image d

  -- `d.conf.SSH.ScpFrom`
  unfoldable pub fetch_image : String → Option Config → M (Option String)
  fetch_image img none = fail
  fetch_image img (some conf) =
      ssh_copy_from c.env (c.env.path tmp_dir (img ∷ [])) (join c.env.temp_dir img)

  -- The beginning of Write: the image on the host.
  unfoldable pub take_image : Colibri → M (Colibri × Option String)
  unfolding fetch_image
  take_image d =
      if str_eq d.img ""
      then pure (set_img colibri_image d, none)
      else fetch_image d.img d.conf >>= λ err. pure (d, err)

  abbrev pub copied : String → Workstation × Option String → M (Option String)
  copied img (w, some e) = pure (some e)
  copied img (w, none) =
      copy_job c.env img >>= λ err. then_run err (unmount c.env w >>= λ _. pure none)

  -- The card that Write prepares. `left` is what the goroutine of CleanDisk gets to after an error.
  unfoldable pub prepare_card : ℕ → Colibri → M (Option String)
  prepare_card left d =
      if d.flash_only
      then pure none
      else copy_to_disk c.env left (new_workstation d.disk) >>= copied (join c.env.temp_dir d.img)

  module _ (io : Serial) (p : Patience) where
    unfoldable pub open_port : String → M (Option String)
    open_port port h = (done (io.open_port h port), h)

    -- The end of Write, once the port is known.
    unfoldable pub update_board : Colibri × Option String → M (Option String)
    unfolding open_port
    update_board (d, some e) = pure (some e)
    update_board (d, none) = do
      opened ← open_port d.port
      updated ← then_run opened (run_update io c.env p)
      then_run updated (done_flashing c d.flasher)

    unfoldable pub write_taken : ℕ → Colibri × Option String → M (Option String)
    unfolding prepare_card update_board
    write_taken left (d, some e) = pure (some e)
    write_taken left (d, none) =
        prepare_card left d >>= λ err. then_run err (get_port c.env io d >>= update_board)

    -- Write
    unfoldable pub colibri_write : ℕ → Colibri → M (Option String)
    unfolding take_image write_taken
    colibri_write left d = take_image d >>= write_taken left

    abbrev pub write_configured : ℕ → Colibri × Option String → M (Option String)
    write_configured left (d, some e) = pure (some e)
    write_configured left (d, none) = colibri_write left d

    abbrev pub configure_prepared : ℕ → Colibri × Option String → M (Option String)
    configure_prepared left (d, some e) = pure (some e)
    configure_prepared left (d, none) = colibri_configure d >>= write_configured left

    -- Flash
    unfoldable pub colibri_flash : ℕ → ℕ → Colibri → M (Option String)
    unfolding colibri_prepare colibri_configure colibri_write
    colibri_flash ticks left d = colibri_prepare ticks d >>= configure_prepared left
