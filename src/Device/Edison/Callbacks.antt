-- ===== src/Device/Edison/Callbacks.antt =====
-- The callbacks of device/edison.go, which run commands on the board over the host's ssh.
use iotit.Base.{ℕ, String, ◌<>◌, Option, none, some, List, [], ◌∷◌, if◌then◌else◌}
use iotit.Effects.{
  M, pure, fail, ◌>>=◌, ◌>>◌, Env, host_exec, yes_no_dialog, write_file, delete_file,
}
use iotit.Config.Storage.{text, lookup, tmp_dir}
use iotit.Config.Interfaces.{Interfaces, default_interfaces}
use iotit.Config.Dialogs.{Callback, maybe_change}

-- `storage["ip"].(string)`, which panics where there is none
abbrev pub with_ip : (String → Callback) → Callback
with_ip rest s = elim (lookup "ip" s) [ some (text ip) ↦ rest ip s | _ ↦ fail ]

-- A command on the board.
abbrev pub at_board : String → String → List String
at_board ip command = "ssh" ∷ ("root@" <> ip) ∷ "-t" ∷ command ∷ []

-- The commands of setEdisonInterfaces.
abbrev pub address_command : Interfaces → String
address_command i =
    "sed -i.bak -e '53 s/.*/ifconfig $IFNAME " <> i.address <> " netmask " <> i.netmask
    <> "/g' /etc/wpa_supplicant/wpa_cli-actions.sh"

abbrev pub gateway_command : Interfaces → String
gateway_command i =
    "sed -i -e '54i route add default gw " <> i.gateway
    <> "' /etc/wpa_supplicant/wpa_cli-actions.sh"

abbrev pub dns_command : Interfaces → String
dns_command i = "echo nameserver " <> i.dns <> " > /etc/resolv.conf"

abbrev pub iface_up : String → List String
iface_up ip =
    "ssh" ∷ "-o" ∷ "StrictHostKeyChecking=no" ∷ ("root@" <> ip) ∷ "-t" ∷ "ifconfig wlan0 up" ∷ []

abbrev pub iface_commands : String → Interfaces → List (List String)
iface_commands ip i =
    at_board ip (address_command i)
    ∷ at_board ip (gateway_command i)
    ∷ at_board ip (dns_command i)
    ∷ at_board ip "ifconfig wlan0 down"
    ∷ iface_up ip
    ∷ []

abbrev pub help_command : String
help_command =
    "sed -i.bak 's/wireless run configure_edison --password first/wireless run `device config user` first/g' /usr/bin/configure_edison"

abbrev pub base_feeds : String
base_feeds =
    "src/gz all        http://repo.opkg.net/edison/repo/all\nsrc/gz edison     http://repo.opkg.net/edison/repo/edison\nsrc/gz core2-32   http://repo.opkg.net/edison/repo/core2-32\n"

abbrev pub intel_iotdk : String
intel_iotdk =
    "src intel-all     http://iotdk.intel.com/repos/1.1/iotdk/all\nsrc intel-iotdk   http://iotdk.intel.com/repos/1.1/intelgalactic\nsrc intel-quark   http://iotdk.intel.com/repos/1.1/iotdk/quark\nsrc intel-i586    http://iotdk.intel.com/repos/1.1/iotdk/i586\nsrc intel-x86     http://iotdk.intel.com/repos/1.1/iotdk/x86\n"

abbrev pub base_conf : String
base_conf = tmp_dir <> "base-feeds.conf"

abbrev pub iotdk_conf : String
iotdk_conf = tmp_dir <> "intel-iotdk.conf"

abbrev pub and_then : Option String → M (Option String) → M (Option String)
and_then (some e) next = pure (some e)
and_then none next = next

module _ (env : Env) where
  -- Commands one after another, the first error ending them.
  unfoldable pub run_each : List (List String) → M (Option String)
  run_each [] = pure none
  run_each (args ∷ rest) =
      let next = run_each rest in host_exec env args >>= λ r. and_then r.err next

  -- setEdisonInterfaces, whose loop ends after its first round
  unfoldable pub set_edison_interfaces : ℕ → Interfaces → String → M (Option String)
  unfolding run_each
  set_edison_interfaces fuel i ip = do
    static ← yes_no_dialog env "Would you like to assign static IP wlan address for your board?"
    if static
        then (maybe_change env fuel i >>= λ i'. run_each (iface_commands ip i'))
        else pure none

  -- setupInterface
  unfoldable pub setup_interface : ℕ → Callback
  unfolding set_edison_interfaces
  setup_interface fuel = with_ip λ ip s. do
    wrong ← set_edison_interfaces fuel default_interfaces ip
    err ← and_then wrong (run_each (at_board ip help_command ∷ []))
    pure (s, err)

  -- enableEdisonSSH
  unfoldable pub enable_edison_ssh : Callback
  enable_edison_ssh = with_ip λ ip s. do
    enable ← yes_no_dialog env "Would you like to enable SSH on the wireless interface?"
    err ← (if enable then run_each (at_board ip "configure_edison --password" ∷ []) else pure none)
    pure (s, err)

  -- setupWiFi
  unfoldable pub setup_wifi : Callback
  setup_wifi = with_ip λ ip s. do
    configure ← yes_no_dialog env "Would you like to configure WiFi on your board?"
    err ← (if configure then run_each (at_board ip "configure_edison --wifi" ∷ []) else pure none)
    pure (s, err)

  -- A file that is written, copied to the board and removed; it stays where the copying fails.
  unfoldable pub upload_conf : String → String → String → M (Option String)
  upload_conf ip file content = do
    write_file file content
    r ← host_exec env ("scp" ∷ file ∷ ("root@" <> ip <> ":" <> env.path "/etc" ("opkg" ∷ [])) ∷ [])
    and_then r.err (delete_file file >>= λ _. pure none)

  -- setupIotit
  unfoldable pub setup_iotit : Callback
  unfolding upload_conf
  setup_iotit = with_ip λ ip s. do
    wrong ← upload_conf ip base_conf base_feeds
    err ← and_then wrong (upload_conf ip iotdk_conf intel_iotdk)
    pure (s, err)
