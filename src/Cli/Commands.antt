-- ===== src/Cli/Commands.antt =====
-- The commands of iotit.go, and the objects that getFlasher of device/device.go makes for them. What is
-- printed is left out; an error of the command `flash` is only printed.
use iotit.Base.{ℕ, String, Bool, false, Option, none, some, List, [], ◌∷◌, str_eq, if◌then◌else◌}
use iotit.Effects.{Event, M, done, pure, leave, ◌>>=◌, ◌>>◌, host_exec}
use iotit.Mapping.{info, Load}
use iotit.Mapping.Updates.{MappingFile, check_devices_repository, download_devices_repository}
use iotit.Workstation.{new_workstation}
use iotit.Workstation.Linux.Copy.{print_disks}
use iotit.Device.Flasher.{Flasher, SdFlasher, join}
use iotit.Device.Prepare.{Setting}
use iotit.Device.Raspi.{Choices, pi_configure}
use iotit.Device.Sd.{configure, write, flash, pi_flash}
use iotit.Device.Beagle.{beagle_configure, beagle_flash}
use iotit.Device.Colibri.{
  Colibri, colibri_configure, colibri_write, colibri_flash, Serial, Patience,
}
use iotit.Device.Edison.{Edison, Host, edison_configure, edison_write, edison_flash}
use iotit.Device.Esp.{SerialFlasher, Esp, serial_configure, serial_write, serial_flash}
use iotit.Device.Select.{
  Chosen, Kind, raspberry_pi, beagle_bone, colibri, edison, serial, sd, new_flasher,
}

-- The flags of a command.
pub record Flags : Type 0 where
  pub quiet : Bool
  pub disk : String
  pub port : String
  pub flash_only : Bool

-- Everything outside the program, the schedules of its goroutines, and how long it waits for the user
-- and for devices.
pub record World : Type 0 where
  pub setting : Setting
  pub choices : Choices
  pub io : Serial
  pub patience : Patience
  pub host : Host
  pub esp : Esp
  pub load : Load
  pub mapping : MappingFile
  pub image_dir : String
  pub mount_first : Bool
  pub ticks : ℕ
  pub left : ℕ
  pub asks : ℕ
  pub tries : ℕ
  pub executable : List Event → String × Option String  -- os.Executable()
  pub is_installed : List Event → Bool  -- os.Stat of the installed program finds it

abbrev pub install_path : String
install_path = "/usr/local/bin/iotit"

module _ (w : World) (flags : Flags) where
  -- The fields that getFlasher sets; the others have their zero values, so that `conf` is nil.
  unfoldable pub base_flasher : Chosen → Flasher
  base_flasher c = record {
    quiet = flags.quiet;
    conf = none;
    image = (info c.dev_repo).image;
    repo_dir = join w.image_dir (info c.dev_repo).dir;
    img = "";
    folder = "";
    device = c.device;
    mounted = false;
  }

  unfoldable pub sd_flasher : Chosen → SdFlasher
  unfolding base_flasher
  sd_flasher c = record { flasher = base_flasher c; disk = flags.disk; configured = false }

  unfoldable pub colibri_flasher : Chosen → Colibri
  unfolding base_flasher
  colibri_flasher c = record {
    flasher = base_flasher c;
    port = flags.port;
    disk = flags.disk;
    flash_only = flags.flash_only;
  }

  -- The IP address of the Edison is given by the flag of the port.
  unfoldable pub edison_flasher : Chosen → Edison
  unfolding base_flasher
  edison_flasher c = record { flasher = base_flasher c; ip = flags.port }

  unfoldable pub serial_flasher : Chosen → SerialFlasher
  unfolding base_flasher
  serial_flasher c = record { flasher = base_flasher c; port = flags.port }

  abbrev pub error_of : {A : Type 0} → M (A × Option String) → M (Option String)
  error_of m = m >>= λ r. pure r.1

  -- `flasher.Flash()`, by the type of the flasher
  unfoldable pub flash_kind : Kind → Chosen → M (Option String)
  unfolding sd_flasher colibri_flasher edison_flasher serial_flasher
  flash_kind raspberry_pi c = pi_flash w.setting w.choices w.ticks (sd_flasher c)
  flash_kind beagle_bone c = beagle_flash w.setting w.choices w.mount_first w.ticks (sd_flasher c)
  flash_kind colibri c = colibri_flash w.setting w.io w.patience w.ticks w.left (colibri_flasher c)
  flash_kind edison c =
      edison_flash w.setting w.host w.ticks w.asks w.tries w.choices.fuel (edison_flasher c)
  flash_kind serial c = serial_flash w.setting.env w.io w.esp (serial_flasher c)
  flash_kind sd c = flash w.setting w.choices w.ticks (sd_flasher c)

  -- `flasher.Configure()`
  unfoldable pub configure_kind : Kind → Chosen → M (Option String)
  unfolding sd_flasher colibri_flasher edison_flasher serial_flasher
  configure_kind raspberry_pi c = error_of (pi_configure w.setting.env w.choices (sd_flasher c))
  configure_kind beagle_bone c =
      error_of (beagle_configure w.setting w.choices w.mount_first w.ticks (sd_flasher c))
  configure_kind colibri c = error_of (colibri_configure w.setting (colibri_flasher c))
  configure_kind edison c =
      error_of (edison_configure w.setting.env w.host w.choices.fuel (edison_flasher c))
  configure_kind serial c = error_of (serial_configure w.setting.env w.io (serial_flasher c))
  configure_kind sd c = error_of (configure w.setting w.choices w.ticks (sd_flasher c))

  -- `flasher.Write()`
  unfoldable pub write_kind : Kind → Chosen → M (Option String)
  unfolding sd_flasher colibri_flasher edison_flasher serial_flasher
  write_kind raspberry_pi c = write w.setting w.choices (sd_flasher c)
  write_kind beagle_bone c = write w.setting w.choices (sd_flasher c)
  write_kind colibri c = colibri_write w.setting w.io w.patience w.left (colibri_flasher c)
  write_kind edison c = edison_write w.setting w.host w.tries (edison_flasher c)
  write_kind serial c = serial_write w.setting.env w.io w.esp (serial_flasher c)
  write_kind sd c = write w.setting w.choices (sd_flasher c)

  abbrev pub act_on : (Kind → Chosen → M (Option String)) → Option Chosen → M (Option String)
  act_on act none = pure none
  act_on act (some c) = act c.kind c

  -- `device.New(c)`
  unfoldable pub new : String → String → M (Option Chosen)
  new type_arg img_arg = do
    check_devices_repository w.mapping
    new_flasher w.setting.env w.load type_arg img_arg

  abbrev pub printed : Option String → M (Option String)
  printed err = pure none

  -- The commands `flash`, `configure` and `write`, with the error that each returns.
  unfoldable pub flash_command : String → String → M (Option String)
  unfolding new flash_kind
  flash_command type_arg img_arg =
      if str_eq type_arg "help"
      then pure none
      else (new type_arg img_arg >>= act_on flash_kind >>= printed)

  unfoldable pub configure_command : String → String → M (Option String)
  unfolding new configure_kind
  configure_command type_arg img_arg = new type_arg img_arg >>= act_on configure_kind

  unfoldable pub write_command : String → String → M (Option String)
  unfolding new write_kind
  write_command type_arg img_arg = new type_arg img_arg >>= act_on write_kind

module _ (w : World) where
  -- The command `update`
  unfoldable pub update_command : M (Option String)
  update_command = download_devices_repository w.mapping

  -- The command `list disks`: the lines that it prints
  unfoldable pub list_disks_command : M (List String)
  list_disks_command = print_disks w.setting.env (new_workstation "")

  unfoldable pub look_for_installed : M Bool
  look_for_installed h = (done (w.is_installed h), h)

  unfoldable pub find_executable : M (String × Option String)
  find_executable h = (done (w.executable h), h)

  -- log.Fatal of an error ends the program
  abbrev pub copy_executable : String × Option String → M (Unit {0})
  copy_executable (p, some e) = leave 1
  copy_executable (p, none) =
      host_exec w.setting.env ("sudo" ∷ "cp" ∷ p ∷ install_path ∷ []) >>= λ r. pure tt

  -- The command `install`
  unfoldable pub install_command : M (Unit {0})
  unfolding look_for_installed find_executable
  install_command = do
    there ← look_for_installed
    if there then pure tt else (find_executable >>= copy_executable)

  -- The command `uninstall`
  unfoldable pub uninstall_command : M (Unit {0})
  unfolding look_for_installed
  uninstall_command = do
    there ← look_for_installed
    if there
        then (host_exec w.setting.env ("sudo" ∷ "rm" ∷ install_path ∷ []) >>= λ r. pure tt)
        else pure tt
