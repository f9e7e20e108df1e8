-- ===== src/Device/Edison.antt =====
-- device/edison.go, and edison_posix.go: the flasher of the Edison, outside Windows. The pauses, the
-- removal of the board from known_hosts and the printing are left out.
use Prim.Native.Char.{Char}
use iotit.Base.{
  ℕ, zero, suc, String, ◌<>◌, Bool, true, false, ◌||◌, Option, none, some, List, [], ◌∷◌, ◌==◌,
  str_eq, if◌then◌else◌, map, is_empty, get_elem?,
}
use iotit.Effects.{
  Event, M, done, pure, fail, leave, give_up, ◌>>=◌, ◌>>◌, Env, host_exec, yes_no_dialog,
  select_one, single_answer, or_panic,
}
use iotit.Config.Storage.{Storage, text, wifi_key, ssh_key, interface_key, tmp_dir}
use iotit.Config.Configurator.{Configurator, new, add_config_fn, store_value, setup, write_entries}
use iotit.Vbox.{Config}
use iotit.Device.Flasher.{Flasher}
use iotit.Device.Prepare.{Setting, prepare}
use iotit.Device.Done.{stop_machine, done_flashing}
use iotit.Device.Edison.Callbacks.{setup_interface, enable_edison_ssh, setup_wifi, setup_iotit}
pub mod Callbacks
pub mod Attempts
pub mod Windows
pub mod Unready

pub record Edison : Type 0 where
  pub flasher : Flasher
  pub open flasher use *
  pub ip : String

-- help.LocalIfaces
pub record Iface : Type 0 where
  pub name : String
  pub ipv4 : String

pub record Host : Type 0 where
  pub local_ifaces : List Event → List Iface × Option String

abbrev pub set_ip : String → Edison → Edison
set_ip ip d = record d { ip = ip }

abbrev pub board_ip : String
board_ip = "192.168.2.15"

-- `s[:4]`, which panics for a shorter text
abbrev pub first_four : String → Option String
first_four (String.◌∷◌ a (String.◌∷◌ b (String.◌∷◌ c (String.◌∷◌ e s)))) =
    some (String.◌∷◌ a (String.◌∷◌ b (String.◌∷◌ c (String.◌∷◌ e ""))))
first_four _ = none

abbrev pub only_config : iotit.Config.Dialogs.Callback → iotit.Config.Configurator.CallbackFn
only_config f = record { config = some f; apply = none }

-- The configurator of Configure, with the callbacks that it adds.
unfoldable pub edison_configurator : Env → ℕ → String → Configurator
edison_configurator env fuel ip = store_value "ip" (text ip) (
    add_config_fn "xIotit" (only_config (setup_iotit env)) (
      add_config_fn interface_key (only_config (setup_interface env fuel)) (
        add_config_fn ssh_key (only_config (enable_edison_ssh env))
          (add_config_fn wifi_key (only_config (setup_wifi env)) new))))

abbrev pub unplug : String
unplug = "Please unplug your Edison board. Type yes once unpluged."

abbrev pub flash_all : List String
flash_all = "ssh" ∷ "root@localhost" ∷ "-p" ∷ "2222" ∷ "/tmp/flashall.sh" ∷ []

abbrev pub reconnect : String
reconnect = "Type yes once connected."

module _ (env : Env) (host : Host) where
  unfoldable pub local_ifaces : M (List Iface × Option String)
  local_ifaces h = (done (host.local_ifaces h), h)

  -- The lines of the dialog: an interface whose address is of the board's network is highlighted.
  unfoldable pub iface_lines : List Iface → M (List String)
  iface_lines [] = pure []
  iface_lines (i ∷ ifaces) = do
    front ← or_panic (first_four i.ipv4)
    rest ← iface_lines ifaces
    pure (
        (if str_eq front "169." || str_eq i.ipv4 "192.168.2.2"
          then "\u{1b}[34m" <> i.name <> "\u{1b}[0m"
          else i.name)
        ∷ rest)

  -- The choice of an interface and its address; whether that failed.
  unfoldable pub set_iface : List Iface → M Bool
  unfolding iface_lines
  set_iface ifaces = do
    lines ← iface_lines ifaces
    n ← select_one env "Please chose correct interface: " lines
    i ← or_panic (get_elem? ifaces n)
    r ← host_exec env ("sudo" ∷ "ifconfig" ∷ i.name ∷ "192.168.2.2" ∷ [])
    pure (elim r.err [ none ↦ false | some e ↦ true ])

  -- `err.Error()` of a nil error panics: there are no interfaces, and no error. `none` is no address
  -- yet, `some fallback` that it is `board_ip` for the time being.
  unfoldable pub use_ifaces : List Iface × Option String → M (Option Bool)
  unfolding set_iface
  use_ifaces (ifaces, some e) = pure none
  use_ifaces ([], none) = fail
  use_ifaces (i ∷ ifaces, none) = set_iface (i ∷ ifaces) >>= λ failed. pure (some failed)

  unfoldable pub ask_ip : M String
  ask_ip = single_answer env "Input Edison board IP Address (default: 192.168.2.15): "

  abbrev pub ip_after : Edison → Option Bool → M Edison
  ip_after d (some false) = pure (set_ip board_ip d)
  ip_after d _ = ask_ip >>= λ ip. pure (set_ip ip d)

  -- getIPAddress, which returns no error
  unfoldable pub get_ip_address : Edison → M Edison
  unfolding local_ifaces use_ifaces ask_ip
  get_ip_address d = do
    choice ←
        select_one env "Choose Edison's usb-ethernet interface: "
          ("Select from the list of interfaces" ∷ "Enter Edison IP manually" ∷ [])
    (if choice == 0
        then (local_ifaces >>= use_ifaces >>= ip_after d)
        else if choice == 1
        then (ask_ip >>= λ ip. pure (set_ip ip d))
        else pure d)

  abbrev pub write_after :
      Configurator → Edison → Storage × Option String → M (Edison × Option String)
  write_after c d (s, some e) = pure (d, some e)
  write_after c d (s, none) = write_entries c.order s >>= λ r. pure (d, r.1)

  unfoldable pub configure_at : ℕ → Edison → M (Edison × Option String)
  configure_at fuel d = if str_eq d.ip "" then pure (d, none) else (do
    host_exec env ("ssh-copy-id" ∷ ("root@" <> d.ip) ∷ [])
    configured ← setup (edison_configurator env fuel d.ip)
    write_after (edison_configurator env fuel d.ip) d configured)

  -- Configure. `d.conf.SSH` of a nil `d.conf` panics.
  unfoldable pub edison_configure : ℕ → Edison → M (Edison × Option String)
  unfolding configure_at get_ip_address
  edison_configure fuel d = elim d.conf [
    | none ↦ fail
    | some conf ↦ do
      d' ← (if str_eq d.ip "" then get_ip_address d else pure d)
      configure_at fuel d'
  ]

module _ (env : Env) where
  -- The loop of Prepare.
  unfoldable pub ask_unplugged : ℕ → M (Unit {0})
  ask_unplugged zero = give_up
  ask_unplugged (suc n) = yes_no_dialog env unplug >>= λ ready.
      let next = ask_unplugged n in if ready then pure tt else next

  abbrev pub tried : Option String → M (Unit {0}) → M (Unit {0})
  tried none next = pure tt
  tried (some e) next =
      yes_no_dialog env reconnect >>= λ connected. if connected then next else leave 2

  -- The loop of Write.
  unfoldable pub write_loop : ℕ → M (Unit {0})
  write_loop zero = give_up
  write_loop (suc n) = host_exec env flash_all >>= λ r. let next = write_loop n in tried r.err next

module _ (c : Setting) (host : Host) where
  abbrev pub unplugged : ℕ → Flasher × Option String → M (Flasher × Option String)
  unplugged asks (f, some e) = pure (f, some e)
  unplugged asks (f, none) = ask_unplugged c.env asks >>= λ _. pure (f, none)

  -- Prepare of edison_posix.go
  unfoldable pub edison_prepare : ℕ → ℕ → Edison → M (Edison × Option String)
  unfolding ask_unplugged
  edison_prepare ticks asks d = do
    prepared ← prepare c ticks 2 d.flasher
    (f, err) ← unplugged asks prepared
    pure (record d { flasher = f }, err)

  -- Write of edison_posix.go; the error of Stop is only logged
  unfoldable pub edison_write : ℕ → Edison → M (Option String)
  unfolding write_loop
  edison_write tries d = do write_loop c.env tries; stop_machine c d.flasher; pure none

  abbrev pub done_after : Edison × Option String → M (Option String)
  done_after (d, some e) = pure (some e)
  done_after (d, none) = done_flashing c d.flasher

  abbrev pub configure_after : ℕ → Edison → Option String → M (Option String)
  configure_after fuel d (some e) = pure (some e)
  configure_after fuel d none = edison_configure c.env host fuel d >>= done_after

  abbrev pub write_after_prepare : ℕ → ℕ → Edison × Option String → M (Option String)
  write_after_prepare tries fuel (d, some e) = pure (some e)
  write_after_prepare tries fuel (d, none) = edison_write tries d >>= configure_after fuel d

  -- Flash: the board is configured after it is written. The arguments bound the wait for the
  -- machine, the questions of Prepare, the tries of Write and the addresses that are asked for.
  unfoldable pub edison_flash : ℕ → ℕ → ℕ → ℕ → Edison → M (Option String)
  unfolding edison_prepare edison_write edison_configure
  edison_flash ticks asks tries fuel d =
      edison_prepare ticks asks d >>= write_after_prepare tries fuel
