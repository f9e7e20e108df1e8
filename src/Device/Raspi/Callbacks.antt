-- ===== src/Device/Raspi/Callbacks.antt =====
-- The callbacks that device/rasppi.go adds to the default configurator.
use Prim.Native.String.{char_at}
use iotit.Base.{
  ℕ, ◌+◌, String, ◌<>◌, Bool, true, false, Option, none, some, List, [], ◌∷◌, leb, ◌==◌,
  if◌then◌else◌, get_elem?,
}
use iotit.GoStrings.{split, format_nat}
use iotit.Effects.{M, pure, ◌>>=◌, Env, ssh_run, yes_no_dialog, select_one, or_panic}
use iotit.Repository.{atoi}
use iotit.Config.Storage.{text, store, text_of, interface_key, mount_dir, isaax_conf_dir}
use iotit.Config.Interfaces.{default_interfaces}
use iotit.Config.Dialogs.{Callback, answered, devices, maybe_change}
use iotit.Config.Save.{if_stored, with_ssh, joined_error, echo_to}

abbrev pub boot_mount : String
boot_mount = "/tmp/isaax-boot/"

-- interfaceConfig
abbrev pub interface_config : String → String → String → String → String
interface_config name address gateway dns =
    "\n\ninterface " <> name <> "\n\tnoipv6rs\n\tstatic ip_address=" <> address
    <> "\n\tstatic routers=" <> gateway <> "\n\tstatic domain_name_servers=" <> dns <> "\n"

-- The leading ones of a byte, if only zeros follow them.
byte_ones : ℕ → Option ℕ
byte_ones b =
    if b == 255
    then some 8
    else if b == 254
    then some 7
    else if b == 252
    then some 6
    else if b == 248
    then some 5
    else if b == 240
    then some 4
    else if b == 224
    then some 3
    else if b == 192
    then some 2
    else if b == 128
    then some 1
    else if b == 0
    then some 0
    else none

abbrev all_zero : List ℕ → Bool
all_zero [] = true
all_zero (b ∷ bs) = if b == 0 then all_zero bs else false

-- IPMask.Size: the leading ones of a mask, and 0 for one that is not canonical
mask_ones : List ℕ → Option ℕ
unfolding byte_ones
mask_ones [] = some 0
mask_ones (b ∷ bs) =
    let rest = mask_ones bs in
    if b == 255
    then elim rest [ none ↦ none | some n ↦ some (8 + n) ]
    else if all_zero bs
    then byte_ones b
    else none

byte_values : List String → Option (List ℕ)
byte_values [] = some []
byte_values (p ∷ ps) = elim (atoi p) [
  | none ↦ none
  | some n ↦ elim (byte_values ps) [
    | none ↦ none
    | some ns ↦ if leb n 255 then some (n ∷ ns) else none
  ]
]

four : List ℕ → Option (List ℕ)
four (a ∷ b ∷ c ∷ d ∷ []) = some (a ∷ b ∷ c ∷ d ∷ [])
four _ = none

-- `net.IPMask(net.ParseIP(netmask).To4()).Size()`, for an IPv4 address in decimal
unfoldable pub mask_size : String → ℕ
unfolding mask_ones byte_values four
mask_size netmask = elim (byte_values (split netmask (char_at "." 0))) [
  | none ↦ 0
  | some ns ↦ elim (four ns) [
    | none ↦ 0
    | some bytes ↦ elim (mask_ones bytes) [ none ↦ 0 | some n ↦ n ]
  ]
]

module _ (env : Env) where
  -- setInterface
  unfoldable pub set_pi_interface : ℕ → Callback
  set_pi_interface fuel s = do
    static ← yes_no_dialog env "Would you like to assign static IP address for your device?"
    elim static [
      | false ↦ answered s
      | true ↦ do
        num ← select_one env "Please select a network interface: " devices
        i ← maybe_change env fuel default_interfaces
        name ← or_panic (get_elem? devices num)
        answered (
            store interface_key
              (text (
                interface_config name (i.address <> "/" <> format_nat 2 (mask_size i.netmask))
                  i.gateway i.dns))
              s)
    ]

  -- saveInterface
  unfoldable pub save_pi_interface : Callback
  save_pi_interface = if_stored interface_key λ v. with_ssh λ s. do
    r ←
        ssh_run env
          (echo_to (text_of v) ">>" (env.path mount_dir (isaax_conf_dir ∷ "dhcpcd.conf" ∷ [])))
    pure (s, joined_error r)

  -- touchSSH
  unfoldable pub touch_ssh : M (Option String)
  touch_ssh = do r ← ssh_run env ("touch " <> boot_mount <> "ssh"); pure (joined_error r)

  -- enablePiSSH
  unfoldable pub enable_pi_ssh : Callback
  unfolding touch_ssh
  enable_pi_ssh s = do
    enable ← yes_no_dialog env "Would you like to enable SSH server?"
    elim enable [
      | false ↦ answered s
      | true ↦ with_ssh (λ s'. touch_ssh >>= λ err. pure (s', err)) s
    ]

  -- enablePiCamera
  unfoldable pub enable_pi_camera : Callback
  enable_pi_camera s = do
    enable ← yes_no_dialog env "Would you like to enable camera interface?"
    elim enable [
      | false ↦ answered s
      | true ↦
          with_ssh
            (λ s'. do
              r ←
                  ssh_run env
                    (echo_to "\nstart_x=1\ngpu_mem=128\n" ">>" (boot_mount <> "config.txt"))
              pure (s', r.err))
            s
    ]
