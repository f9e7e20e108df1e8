-- ===== src/Vbox/Defs.antt =====
-- What vbox uses of the package go-virtualbox, and `Config` of vbox/vbox.go.
use iotit.Base.{ℕ, String, Bool, Option, List, ◌∷◌}
use iotit.Effects.{Event, ran, powered_off, started, M, done}

-- virtualbox.MachineState
pub data MachineState : Type 0 where
  poweroff running paused saved aborted : MachineState

-- virtualbox.Machine. `Flag` is the set of its flags: the three that are used here, and the rest.
pub record Machine : Type 0 where
  pub name : String
  pub uuid : String
  pub description : String
  pub state : MachineState
  pub cpus : ℕ
  pub memory : ℕ
  pub flag_usb : Bool
  pub flag_ehci : Bool
  pub flag_xhci : Bool
  pub flag_rest : ℕ

-- A machine or the error of asking for it.
pub data Found : Type 0 where
  machine : Machine → Found
  missing : String → Found

pub data Listed : Type 0 where
  machines : List Machine → Listed
  unlisted : String → Listed

pub record VirtualBox : Type 0 where
  pub get_machine : List Event → String → Found
  pub list_machines : List Event → Listed
  pub power_off : List Event → String → Option String
  pub modify_simple : List Event → Machine → Option String
  pub start : List Event → Machine → Option String
  pub refresh : List Event → Machine → Option String

module _ (vb : VirtualBox) where
  unfoldable pub find_machine : String → M Found
  find_machine id h = (done (vb.get_machine h id), h)

  unfoldable pub machine_list : M Listed
  machine_list h = (done (vb.list_machines h), h)

  unfoldable pub machine_off : Machine → M (Option String)
  machine_off m h = (done (vb.power_off h m.uuid), powered_off m.uuid ∷ h)

  -- ModifySimple runs `VBoxManage modifyvm` with the machine's settings
  unfoldable pub machine_modify : Machine → M (Option String)
  machine_modify m h =
      (done (vb.modify_simple h m), ran ("VBoxManage" ∷ "modifyvm" ∷ m.name ∷ List.[]) ∷ h)

  unfoldable pub machine_start : Machine → M (Option String)
  machine_start m h = (done (vb.start h m), started m.uuid ∷ h)

  unfoldable pub machine_refresh : Machine → M (Option String)
  machine_refresh m h = (done (vb.refresh h m), h)

-- USBTypeController, USBController, ArchConfig and Config, flattened. `ssh`, an interface, is a
-- reference to an object of ssh_helper, `none` for nil.
pub record Config : Type 0 where
  pub name : String
  pub uuid : String
  pub template : String
  pub device : String
  pub description : String
  pub cpu : ℕ
  pub memory : ℕ
  pub usb : Bool
  pub ehci : Bool
  pub xhci : Bool
  pub ssh : Option ℕ

abbrev pub vbox_name : String
vbox_name = "iotit-box"
