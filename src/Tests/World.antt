-- ===== src/Tests/World.antt =====
-- A board on a serial port, an ESP module, a release server and a file of saved machines.
use iotit.Base.{true, false, none, some, [], ◌∷◌, str_eq, if◌then◌else◌}
use iotit.Effects.{Reply}
use iotit.Mapping.{node, nil}
use iotit.Mapping.Updates.{aged}
use iotit.Repository.Release.{Web}
use iotit.Vbox.{Config}
use iotit.Vbox.Json.{Json}
use iotit.Vbox.Upgrade.{Upgrades}
use iotit.Device.Prepare.{Setting}
use iotit.Device.Select.{Chosen, raspberry_pi}
use iotit.Device.Colibri.{Serial, Patience, Colibri}
use iotit.Device.Esp.{SerialFlasher, loaded}
use iotit.Cli.Commands.{Flags, World}
use iotit.Tests.Settings.{
  env, setting_answering, vb, sources, files, choices, conf, flasher, board, load,
}

abbrev pub io : Serial
io = record {
  auto_port = λ h. ("/dev/ttyUSB0", none);
  open_port = λ h port. none;
  read = λ h. ("imx6 login: Colibri iMX6 # resetting", none);
  write = λ h text. none;
}

abbrev pub patience : Patience
patience = record { asks = 2; login = 2; prompt = 2; reset = 2; after = 1 }

abbrev pub colibri_board : Colibri
colibri_board = record { flasher = flasher; port = ""; disk = ""; flash_only = false }

abbrev pub unprepared_colibri : Colibri
unprepared_colibri = record colibri_board { flasher = record flasher { conf = none } }

abbrev pub esp_module : SerialFlasher
esp_module = record { flasher = record flasher { quiet = false }; port = "/dev/ttyUSB0" }

abbrev pub missing_command : Reply
missing_command = record { out = ""; eut = ""; err = some "not found" }

-- A host on which no command is found.
abbrev pub bare : Setting
bare = record {
  env = record env { exec = λ h args. missing_command };
  vb = vb;
  sources = sources;
  files = files;
}

abbrev pub upgrades : Upgrades
upgrades = record {
  latest_in = λ h dir. some "1.2.3\n";
  remove_all = λ h dir. none;
  file_name = λ url. "iotit-box.zip";
  home = "/home/user";
}

-- The installed version 1.0.0 is not newer than that of the server.
abbrev pub web : Web
web = record {
  get = λ h url. (some "{}", none);
  object = λ raw. some (
      ("stable", some "{}")
      ∷ ("md5sums", some "{}")
      ∷ ("linux", some "{}")
      ∷ ("amd64", some "abc")
      ∷ ("version", some "1.1.0")
      ∷ []);
  text = λ raw. some raw;
  not_newer = λ a b. true;
  download = λ h url dst. none;
  goos = "linux";
  goarch = "amd64";
}

abbrev pub other_conf : Config
other_conf = record conf { name = "other" }

-- Two machines as they are saved.
abbrev pub json : Json
json = record {
  marshal = λ c. some (if str_eq c.name "other" then "o" else "c");
  unmarshal = λ line c.
      if str_eq line "o" then record other_conf { ssh = c.ssh } else record conf { ssh = c.ssh };
}

abbrev pub world : World
world = record {
  setting = setting_answering true;
  choices = choices;
  io = io;
  patience = patience;
  host = record { local_ifaces = λ h. ([], none) };
  esp = record {
    bundle = λ h url. loaded (record { name = "esp"; platform = "ESP32" });
    flash = λ h chip port fw. none;
  };
  load = load;
  mapping = record {
    download_file = λ h path url. none;
    touch = λ h path. none;
    stat = λ h path. aged 3;
    path = "mapping.json";
  };
  image_dir = "/home/user/.iotit/images";
  mount_first = true;
  ticks = 3;
  left = 1;
  asks = 2;
  tries = 2;
  executable = λ h. ("/tmp/iotit", none);
  is_installed = λ h. false;
}

abbrev pub flags : Flags
flags = record { quiet = false; disk = ""; port = ""; flash_only = false }

abbrev pub chosen_pi : Chosen
chosen_pi = record { kind = raspberry_pi; device = "Raspberry Pi"; dev_repo = node board nil }
