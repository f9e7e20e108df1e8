-- ===== src/Tests/Settings.antt =====
-- A host with one card, an image server and a user who agrees to everything, or to nothing.
use mathlib.Core.Option.{none-ne-some, some-injective}
use iotit.Base.{
  arith, ◌<◌, ◌≡◌, length, ℕ, String, Bool, true, false, Option, none, some, List, [], ◌∷◌, str_eq,
  if◌then◌else◌,
}
use iotit.Effects.{Reply, Env}
use iotit.Config.Dialogs.{Locales}
use iotit.Vbox.{Config, Machine, running, machine, machines, VirtualBox, vbox_name}
use iotit.Vbox.Check.{Sources}
use iotit.Mapping.{DeviceImage, Info, node, Subs, nil, cons, DeviceCollection, Load}
use iotit.Device.Flasher.{Flasher, SdFlasher}
use iotit.Device.Images.{Files, saved, sum}
use iotit.Device.Prepare.{Setting}
use iotit.Device.Raspi.{Choices}

abbrev pub silence : Reply
silence = record { out = ""; eut = ""; err = none }

abbrev pub card_files : String → Option String
card_files file =
    if str_eq file "/sys/block/sda/removable"
    then some "1\n"
    else if str_eq file "/sys/block/sda/size"
    then some "8\n"
    else none

abbrev pub first_of : List String → Option ℕ
first_of [] = none
first_of (o ∷ options) = some 0

abbrev pub env_answering : Bool → Env
env_answering b = record {
  run = λ h command. silence;
  copy_to = λ h src dst. none;
  copy_from = λ h src dst. none;
  yes_no = λ h question. some b;
  choose = λ h question options. first_of options;
  answer = λ h question. some "home";
  wifi_password = λ h. some "secret";
  ping_ip = λ h ip. true;
  exec = λ h args. silence;
  read_file = λ h file. card_files file;
  read_dir = λ h dir. "sda" ∷ "tty0" ∷ [];
  file_mode = λ h file. (true, none);
  exists = λ h file. true;
  path = λ base parts. base;
  temp_dir = "/tmp";
  colored = λ s. s;
}

abbrev pub env : Env
env = env_answering true

abbrev pub silent_machine : Machine
silent_machine = record {
  name = vbox_name;
  uuid = "0f";
  description = "";
  state = running;
  cpus = 2;
  memory = 512;
  flag_usb = true;
  flag_ehci = false;
  flag_xhci = false;
  flag_rest = 0;
}

abbrev pub vb : VirtualBox
vb = record {
  get_machine = λ h id. machine silent_machine;
  list_machines = λ h. machines (silent_machine ∷ []);
  power_off = λ h uuid. none;
  modify_simple = λ h m. none;
  start = λ h m. none;
  refresh = λ h m. none;
}

abbrev pub files : Files
files = record {
  valid_url = λ url. true;
  base_name = λ path. path;
  download = λ h url dir. saved "card.img";
  sum_of = λ h file. sum "abc";
  zip_files = λ h file. [];
  extract_command = λ name file dir. name;
  unzip = λ h file dir. none;
  glob_all = λ h. [];
}

abbrev pub sources : Sources
sources = record {
  file_exists = λ h file. true;
  get_document = λ h url. ("", some "no network");
  decode_repo = λ body. none;
  download = λ h url dst. none;
  unzip = λ h file dst. none;
  machine_folder = "vms";
  vbox_dir = "vbox";
}

abbrev pub setting_answering : Bool → Setting
setting_answering b = record { env = env_answering b; vb = vb; sources = sources; files = files }

abbrev pub locales : Locales
locales = record {
  get_locale = λ inp. ("English", "en_US") ∷ [];
  get_layout = λ language inp. ("US", "us") ∷ [];
}

abbrev pub choices : Choices
choices = record { locales = locales; fuel = 3; visit = λ order. order }

abbrev pub conf : Config
conf = record {
  name = "";
  uuid = "0f";
  template = vbox_name;
  device = "nanopi";
  description = "";
  cpu = 2;
  memory = 512;
  usb = true;
  ehci = false;
  xhci = false;
  ssh = some 0;
}

abbrev pub debian : DeviceImage
debian = record {
  url = "http://images/card.img";
  alias = "deb";
  title = "Debian";
  user = "root";
  pass = "";
  hash = "abc";
}

abbrev pub flasher : Flasher
flasher = record {
  quiet = true;
  conf = some conf;
  image = debian;
  repo_dir = "images";
  img = "";
  folder = "";
  device = "nanopi";
  mounted = false;
}

abbrev pub sd_flasher : SdFlasher
sd_flasher = record { flasher = record flasher { img = "card.img" }; disk = ""; configured = true }

abbrev pub board : Info
board = record {
  name = "NanoPi";
  alias = "np";
  images = debian ∷ [];
  kind = "";
  dir = "";
  image = debian;
}

abbrev pub neo : Info
neo = record { name = "Neo"; alias = "neo"; images = []; kind = ""; dir = ""; image = debian }

abbrev pub boards : Subs
boards = cons (node neo nil) nil

abbrev pub collection : DeviceCollection
collection = record { devices = node board boards ∷ []; version = "1" }

abbrev pub load : Load
load = record { collection = collection; err = none }

pub first_fits : (options : List String) {i : ℕ} → first_of options ≡ some i → i < length options
first_fits [] e = absurd (none-ne-some _ e)
first_fits (o ∷ options) {i} e = omega (arith, some-injective 0 i e)
