-- ===== src/Vbox/Settings.antt =====
-- The settings of a virtual machine in vbox/vbox.go: the dialogs that ask for them, and Modify.
use iotit.Base.{
  ℕ, String, ◌<>◌, Bool, true, false, ◌&&◌, Option, none, some, List, [], ◌∷◌, ◌==◌, str_eq,
  if◌then◌else◌, map, get_elem?,
}
use iotit.Effects.{
  Event, M, pure, ◌>>=◌, Env, yes_no_dialog, single_answer, select_one, or_exit, or_panic,
}
use iotit.Vbox.Defs.{
  MachineState, poweroff, running, Machine, Found, machine, missing, VirtualBox, find_machine,
  machine_off, machine_modify, machine_refresh, Config,
}

-- OnOff.String
unfoldable pub on_off : Bool → String
on_off true = "on"
on_off false = "off"

-- The settings of NewConfig, read off the machine, with the one object that ssh_helper.New makes.
unfoldable pub config_of : Machine → String → Config
config_of m device = record {
  name = "";
  uuid = m.uuid;
  template = m.name;
  device = device;
  description = "";
  cpu = m.cpus;
  memory = m.memory;
  usb = m.flag_usb;
  ehci = m.flag_ehci;
  xhci = m.flag_xhci;
  ssh = some 0;
}

-- The settings of Modify, put into the machine.
unfoldable pub apply_settings : Config → Machine → Machine
apply_settings vc m = record m {
  cpus = vc.cpu;
  memory = vc.memory;
  flag_usb = vc.usb;
  flag_ehci = vc.ehci;
  flag_xhci = vc.xhci;
}

abbrev pub is_off : MachineState → Bool
is_off poweroff = true
is_off _ = false

abbrev pub is_running : MachineState → Bool
is_running running = true
is_running _ = false

module _ (vb : VirtualBox) where
  -- `if m.State != virtualbox.Poweroff { m.Poweroff() }`
  abbrev stop_first : Machine → M (Option String)
  stop_first m = if is_off m.state then pure none else machine_off vb m

  -- Modify
  unfoldable pub modify : Config → M (Option String)
  unfolding apply_settings
  modify vc = do
    found ← find_machine vb vc.template
    elim found [
      | missing e ↦ pure (some e)
      | machine m ↦ do
        let m' = apply_settings vc m
        off ← stop_first m'
        elim off [
          | some e ↦ pure (some e)
          | none ↦ do
            let named = record m' { description = vc.name }
            err ← machine_modify vb named
            elim err [ some e ↦ pure (some e) | none ↦ machine_refresh vb named ]
        ]
    ]

  abbrev pub ask_stop : Env → Bool → M Bool
  ask_stop env quiet =
      if quiet then pure true else yes_no_dialog env "Would you like to stop the virtual machine?"

  unfoldable pub stop_found : Env → Bool → Found → M (Option String)
  stop_found env quiet (missing e) = pure (some e)
  stop_found env quiet (machine m) = do
    go ← ask_stop env quiet
    if go then machine_off vb m else pure none

  -- Stop
  unfoldable pub stop : Env → Config → Bool → M (Option String)
  unfolding stop_found
  stop env vc quiet = find_machine vb vc.uuid >>= stop_found env quiet

-- What the dialogs ask beside texts: GetSingleNumber with PositiveNumber, uuid.New and
-- SelectOneDialogWithBack, which gives `none` inside for "go back".
pub record Answers : Type 0 where
  pub number : List Event → String → Option ℕ
  pub new_uuid : List Event → String
  pub choose_or_back : List Event → String → List String → Option (Option ℕ)

module _ (env : Env) (answers : Answers) where
  single_number : String → M ℕ
  single_number question h = or_exit (answers.number h question) h

  select_one_with_back : String → List String → M (Option ℕ)
  select_one_with_back question options h = or_exit (answers.choose_or_back h question options) h

  fresh_name : String → M String
  fresh_name name h = ((if str_eq name "" then pure (answers.new_uuid h) else pure name) h)

  unfoldable pub name_dialog : Config → M Config
  unfolding fresh_name
  name_dialog vc = do
    name ← fresh_name vc.name
    change ← yes_no_dialog env "Would you like to change virtual machine name?"
    elim change [
      | false ↦ pure (record vc { name = name })
      | true ↦ do entered ← single_answer env "Enter name: "; pure (record vc { name = entered })
    ]

  unfoldable pub description_dialog : Config → M Config
  description_dialog vc = do
    change ← yes_no_dialog env "Would you like to change virtual machine description?"
    elim change [
      | false ↦ pure vc
      | true ↦ do
        entered ← single_answer env "Enter description: "
        pure (record vc { description = entered })
    ]

  unfoldable pub memory_dialog : Config → M Config
  unfolding single_number
  memory_dialog vc = do
    change ← yes_no_dialog env "Would you like to change virtual machine memory?"
    elim change [
      | false ↦ pure vc
      | true ↦ do n ← single_number "Memory size: "; pure (record vc { memory = n })
    ]

  unfoldable pub cpu_dialog : Config → M Config
  unfolding single_number
  cpu_dialog vc = do
    change ← yes_no_dialog env "Would you like to change the number of virtual processors?"
    elim change [
      | false ↦ pure vc
      | true ↦ do n ← single_number "Number of processors: "; pure (record vc { cpu = n })
    ]

  -- onoff
  choose_on_off : M Bool
  choose_on_off = do
    n ← select_one env "Please select an option: " ("on" ∷ "off" ∷ [])
    pure (n == 0)

  unfoldable pub usb_dialog : Config → M Config
  unfolding choose_on_off
  usb_dialog vc = do
    change ← yes_no_dialog env "Would you like to change virtual machine usb type?"
    elim change [
      | false ↦ pure vc
      | true ↦ do
        usb ← choose_on_off
        ehci ← choose_on_off
        xhci ← choose_on_off
        pure (record vc { usb = usb; ehci = ehci; xhci = xhci })
    ]

  -- selectVM: `none` is the index -1
  unfoldable pub select_vm : List Config → M (Option ℕ)
  unfolding select_one_with_back
  select_vm vboxs =
      select_one_with_back "Please select virtual machine: " (
        map (λ (v : Config). "\t" <> env.colored v.name <> " - " <> env.colored v.description)
          vboxs)

-- The loop of Enable, over what FromJSON reads.
unfoldable pub enable : List Config → String → String → List Config
enable [] template device = []
enable (v ∷ vboxs) template device =
    let rest = enable vboxs template device in
    if str_eq v.template template && str_eq v.device device then v ∷ rest else rest

pub data Preset : Type 0 where
  default_preset new_preset user_preset : Preset

-- `optTypes[…]` of selectVboxPreset: the last option is left out where nothing is saved
abbrev pub preset_at : ℕ → Option Preset
preset_at n = get_elem? (default_preset ∷ new_preset ∷ user_preset ∷ []) n

abbrev preset_options : Bool → List String
preset_options true =
    "Use default vbox preset" ∷ "Create a new vbox preset" ∷ "Use saved vbox preset" ∷ []
preset_options false = "Use default vbox preset" ∷ "Create a new vbox preset" ∷ []

unfoldable pub select_vbox_preset : Env → Bool → M Preset
select_vbox_preset env saved = do
  n ← select_one env "Please select an option: " (preset_options saved)
  or_panic (preset_at n)
