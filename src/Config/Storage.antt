-- ===== src/Config/Storage.antt =====
-- The storage that the callbacks of device/config/configurator.go share, and the constants of
-- device/config/constants.go. A Go map is an association list with each key at most once.
use iotit.Base.{
  String, ◌<>◌, Bool, Option, none, some, List, [], ◌∷◌, str_eq, if◌then◌else◌, ◌≡◌, refl, arith,
  eq_iff,
}

-- The kinds of value that are stored: texts and byte strings, flags, the ssh connection, the port.
pub data Value : Type 0 where
  text : String → Value
  flag : Bool → Value
  ssh_util : Value
  serial_port : Value

abbrev pub Storage : Type 0
Storage = List (String × Value)

module _ {ℓ} {V : Type ℓ} where
  unfoldable pub lookup : String → List (String × V) → Option V
  lookup k [] = none
  lookup k ((j, v) ∷ m) = if str_eq j k then some v else lookup k m

  -- `m[k] = v`
  unfoldable pub store : String → V → List (String × V) → List (String × V)
  store k v [] = (k, v) ∷ []
  store k v ((j, w) ∷ m) = if str_eq j k then (k, v) ∷ m else (j, w) ∷ store k v m

  -- `delete(m, k)`
  unfoldable pub remove : String → List (String × V) → List (String × V)
  remove k [] = []
  remove k ((j, w) ∷ m) = let rest = remove k m in if str_eq j k then rest else (j, w) ∷ rest

  pub lookup-store :
      (k j : String) (v : V) (m : List (String × V))
      → lookup j (store k v m) ≡ (if str_eq k j then some v else lookup j m)
  unfolding lookup store
  lookup-store k j v [] = refl
  lookup-store k j v ((i, w) ∷ m) =
      ground (arith, eq_iff k j, eq_iff i k, eq_iff i j, lookup-store k j v m)

  pub lookup-remove :
      (k j : String) (m : List (String × V))
      → lookup j (remove k m) ≡ (if str_eq k j then none else lookup j m)
  unfolding lookup remove
  lookup-remove k j [] = ground arith
  lookup-remove k j ((i, w) ∷ m) =
      ground (arith, eq_iff k j, eq_iff i k, eq_iff i j, lookup-remove k j m)

-- The `%s` of a stored value. The callbacks print only texts.
abbrev pub text_of : Value → String
text_of (text s) = s
text_of _ = "%!s"

abbrev pub text_or_empty : Option Value → String
text_or_empty none = "%!s(<nil>)"
text_or_empty (some v) = text_of v

-- `storage["ssh"].(ssh_helper.Util)`
abbrev pub is_ssh : Option Value → Bool
is_ssh (some ssh_util) = Bool.true
is_ssh _ = Bool.false

abbrev pub locale_key : String
locale_key = "Locale"

abbrev pub keymap_key : String
keymap_key = "Keymap"

abbrev pub wifi_key : String
wifi_key = "Wifi"

abbrev pub interface_key : String
interface_key = "Interface"

abbrev pub dns_key : String
dns_key = "DNS"

abbrev pub ssh_key : String
ssh_key = "SSH"

abbrev pub camera_key : String
camera_key = "Camera"

abbrev pub mount_dir : String
mount_dir = "/tmp/isaax-sd/"

abbrev pub isaax_conf_dir : String
isaax_conf_dir = "/etc/"

abbrev pub tmp_dir : String
tmp_dir = "/tmp/"

abbrev pub interface_wlan : String → String → String → String → String
interface_wlan address netmask gateway dns =
    "auto wlan0\niface wlan0 inet static\naddress " <> address <> "\nnetmask " <> netmask
    <> "\ngateway " <> gateway <> "\ndns-nameservers " <> dns <> "\n"

abbrev pub interface_eth : String → String → String → String → String
interface_eth address netmask gateway dns =
    "auto eth0\niface eth0 inet static\naddress " <> address <> "\nnetmask " <> netmask
    <> "\ngateway " <> gateway <> "\ndns-nameservers " <> dns <> "\n\niface default inet dhcp\n"

abbrev pub wpa_conf : String → String → String
wpa_conf ssid psk =
    "ctrl_interface=DIR=/var/run/wpa_supplicant GROUP=netdev\n    country=us\n\tupdate_config=1\n\n\tnetwork={\n\t\tssid=\\\""
    <> ssid <> "\\\"\n\t\tpsk=\\\"" <> psk <> "\\\"\n        \n\t}\n\t"
