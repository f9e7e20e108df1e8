-- ===== src/Device/Esp.antt =====
-- device/serial_flasher.go: the flasher of ESP modules. Its Done only prints; the pauses are left out.
use iotit.Base.{
  String, ◌<>◌, Bool, true, false, Option, none, some, List, [], ◌∷◌, str_eq, if◌then◌else◌,
}
use iotit.GoStrings.{to_lower}
use iotit.Effects.{
  Event, M, done, pure, fail, ◌>>=◌, ◌>>◌, Env, yes_no_dialog, single_answer, ask_wifi_password,
}
use iotit.Config.Storage.{Value, text, serial_port, lookup, text_or_empty, wifi_key}
use iotit.Config.Dialogs.{Callback, answered}
use iotit.Config.Configurator.{
  Configurator, callback_fn, new, add_config_fn, store_value, setup, write_entries,
}
use iotit.Device.Flasher.{Flasher}
use iotit.Device.Colibri.Board.{Serial, receive, send}
pub mod Told

pub record SerialFlasher : Type 0 where
  pub flasher : Flasher
  pub open flasher use *
  pub port : String

-- A bundle of firmware, and the error of reading it.
pub record Firmware : Type 0 where
  pub name : String
  pub platform : String

pub data Bundle : Type 0 where
  loaded : Firmware → Bundle
  unloaded : String → Bundle

-- The package esp-flasher: NewZipFirmwareBundle of a url, and Flash of a chip at a port.
pub record Esp : Type 0 where
  pub bundle : List Event → String → Bundle
  pub flash : List Event → String → String → Firmware → Option String

abbrev pub is_port : Option Value → Bool
is_port (some serial_port) = true
is_port _ = false

-- `if err != nil { return err }`, in a callback
abbrev pub go_on : Option String → Callback → Callback
go_on (some e) next s = pure (s, some e)
go_on none next s = next s

module _ (env : Env) (io : Serial) where
  unfoldable pub find_port : M (String × Option String)
  find_port h = (done (io.auto_port h), h)

  abbrev pub with_port : SerialFlasher → String × Option String → SerialFlasher × Option String
  with_port d (port, some e) = (d, some e)
  with_port d (port, none) = (record d { port = port }, none)

  -- Prepare
  unfoldable pub serial_prepare : SerialFlasher → M (SerialFlasher × Option String)
  unfolding find_port
  serial_prepare d =
      if str_eq d.port "" then (find_port >>= λ found. pure (with_port d found)) else pure (d, none)

  -- setWifi
  unfoldable pub ask_wifi : Callback
  ask_wifi s = do
    name ← single_answer env "WiFi SSID name: "
    pass ← ask_wifi_password env
    answered (
        iotit.Config.Storage.store (wifi_key <> "_pass") (text pass)
          (iotit.Config.Storage.store (wifi_key <> "_name") (text name) s))

  -- A line that is written to the port, and the answer that is read.
  unfoldable pub tell : String → Callback → Callback
  tell line next s = do
    wrong ← send io line
    go_on wrong (λ s'. receive io >>= λ r. go_on r.1 next s') s

  abbrev pub ssid_line : Option Value → String
  ssid_line v = "wifi set ssid " <> text_or_empty v <> "\r\n"

  abbrev pub password_line : Option Value → String
  password_line v = "wifi set password " <> text_or_empty v <> "\r\n"

  -- saveWifi; a missing port fails a type assertion
  unfoldable pub tell_wifi : Callback
  unfolding tell
  tell_wifi s = elim (is_port (lookup "port" s)) [
    | false ↦ fail
    | true ↦ elim (lookup (wifi_key <> "_name") s) [
      | none ↦ answered s
      | some name ↦
          tell (ssid_line (some name))
            (tell (password_line (lookup (wifi_key <> "_pass") s))
              (tell "wifi start\r\n" (λ s'. answered s')))
            s
    ]
  ]

  -- The configurator of Configure, once the port is open.
  unfoldable pub wifi_configurator : Configurator
  wifi_configurator =
      add_config_fn wifi_key (callback_fn ask_wifi tell_wifi) (store_value "port" serial_port new)

  unfoldable pub open_serial : String → M (Option String)
  open_serial port h = (done (io.open_port h port), h)

  abbrev pub write_after_setup :
      Configurator → iotit.Config.Storage.Storage × Option String → M (Option String)
  write_after_setup c (s, some e) = pure (some e)
  write_after_setup c (s, none) = write_entries c.order s >>= λ r. pure r.1

  abbrev pub configure_opened : Option String → M (Option String)
  configure_opened (some e) = pure (some e)
  configure_opened none = setup wifi_configurator >>= write_after_setup wifi_configurator

  -- Configure, after its call of Prepare, whose error is not looked at
  unfoldable pub configure_found : SerialFlasher × Option String → M (SerialFlasher × Option String)
  unfolding open_serial wifi_configurator
  configure_found (d, err) =
      if d.quiet
      then pure (d, none)
      else (do opened ← open_serial d.port; wrong ← configure_opened opened; pure (d, wrong))

  -- Configure
  unfoldable pub serial_configure : SerialFlasher → M (SerialFlasher × Option String)
  unfolding serial_prepare configure_found
  serial_configure d = serial_prepare d >>= configure_found

  module _ (esp : Esp) where
    unfoldable pub flash_chip : String → SerialFlasher → Firmware → M (Option String)
    flash_chip chip d fw h = (done (esp.flash h chip d.port fw), h)

    -- the `switch` over the platform
    unfoldable pub flash_firmware : SerialFlasher → Bundle → M (Option String)
    unfolding flash_chip
    flash_firmware d (unloaded e) = pure (some e)
    flash_firmware d (loaded fw) =
        if str_eq (to_lower fw.platform) "esp32"
        then flash_chip "esp32" d fw
        else if str_eq (to_lower fw.platform) "esp8266"
        then flash_chip "esp8266" d fw
        else pure (some (fw.name <> ": unsupported platform '" <> fw.platform <> "'"))

    unfoldable pub load_firmware : String → M Bundle
    load_firmware url h = (done (esp.bundle h url), h)

    -- Write
    unfoldable pub serial_write : SerialFlasher → M (Option String)
    unfolding flash_firmware load_firmware
    serial_write d = do
      proceed ← (if d.quiet then pure true else yes_no_dialog env "Proceed to firmware flashing?")
      if proceed then (load_firmware d.image.url >>= flash_firmware d) else pure none

    abbrev pub configure_written : SerialFlasher → Option String → M (Option String)
    configure_written d (some e) = pure (some e)
    configure_written d none = serial_configure d >>= λ r. pure r.1

    abbrev pub write_prepared : SerialFlasher × Option String → M (Option String)
    write_prepared (d, some e) = pure (some e)
    write_prepared (d, none) = serial_write d >>= configure_written d

    -- Flash, with the Done at its end, which only prints
    unfoldable pub serial_flash : SerialFlasher → M (Option String)
    unfolding serial_prepare serial_write serial_configure
    serial_flash d = serial_prepare d >>= write_prepared
