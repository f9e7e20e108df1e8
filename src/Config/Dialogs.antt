-- ===== src/Config/Dialogs.antt =====
-- The `Set…` callbacks of device/config/configurator.go, which ask and store. Printing and logging
-- are left out.
use Prim.Native.Char.{code}
use iotit.Base.{
  ℕ, String, ◌<>◌, true, false, ◌||◌, Option, none, some, List, [], ◌∷◌, get_elem?, ◌==◌, str_eq,
  if◌then◌else◌, map,
}
use iotit.GoStrings.{trim_space}
use iotit.Effects.{
  M, pure, ◌>>=◌, Env, yes_no_dialog, single_answer, select_one, ask_wifi_password, ssh_run,
  or_panic,
}
use iotit.Config.Storage.{
  Storage, text, flag, lookup, store, is_ssh, locale_key, keymap_key, wifi_key, interface_key,
  dns_key, mount_dir, interface_wlan, interface_eth,
}
use iotit.Config.Interfaces.{Interfaces, default_interfaces, ask_interface_params}

-- A callback reads and changes the storage, and returns an error.
abbrev pub Callback : Type 0
Callback = Storage → M (Storage × Option String)

abbrev pub answered : Storage → M (Storage × Option String)
answered s = pure (s, none)

-- The package tools/locale: the entries that match an input, each with its line in the dialog.
pub record Locales : Type 0 where
  pub get_locale : String → List (String × String)
  pub get_layout : String → String → List (String × String)

abbrev pub first : String × String → String
first (a, b) = a

abbrev second : String × String → String
second (a, b) = b

-- `loc[:i]` for the index `i` of the first of `_` and `.`, and `loc` where there is none
unfoldable pub before_any : String → String
before_any String.[] = String.[]
before_any (String.◌∷◌ c s) =
    if code c == b'_' || code c == b'.' then "" else String.◌∷◌ c (before_any s)

-- `storage[Locale].(string)`, cut before its territory or encoding
unfoldable pub language_of : Storage → String
unfolding before_any
language_of s = elim (lookup locale_key s) [ some (text loc) ↦ before_any loc | _ ↦ "" ]

-- `"InterfaceName"`, `"NewHostname"`, `"OldHostname"`
abbrev pub interface_name_key : String
interface_name_key = "InterfaceName"

abbrev pub new_hostname_key : String
new_hostname_key = "NewHostname"

abbrev pub old_hostname_key : String
old_hostname_key = "OldHostname"

abbrev pub devices : List String
devices = "eth0" ∷ "wlan0" ∷ []

module _ (env : Env) where
  -- `arr[0]`, or the entry that the user selects
  unfoldable pub choose_entry : String → List (String × String) → M String
  choose_entry question ((line, name) ∷ []) = pure name
  choose_entry question entries = do
    n ← select_one env question (map first entries)
    entry ← or_panic (get_elem? entries n)
    pure (second entry)

  unfoldable pub set_locale : Locales → Callback
  unfolding choose_entry
  set_locale locales s = do
    change ← yes_no_dialog env "Change default language?"
    elim change [
      | false ↦ answered s
      | true ↦ do
        inp ← single_answer env "New locale: "
        l ← choose_entry "Please select a locale from the list: " (locales.get_locale inp)
        answered (store locale_key (text l) s)
    ]

  unfoldable pub set_keyboard : Locales → Callback
  unfolding choose_entry
  set_keyboard locales s = do
    change ← yes_no_dialog env "Change default keyboard layout?"
    elim change [
      | false ↦ answered s
      | true ↦ do
        inp ← single_answer env "New keyboard layout: "
        l ←
            choose_entry "Please select a layout from the list: "
              (locales.get_layout (language_of s) inp)
        answered (store keymap_key (text ("KEYMAP=" <> l <> "\n")) s)
    ]

  unfoldable pub set_wifi : Callback
  set_wifi s = do
    configure ← yes_no_dialog env "Would you like to configure your Wi-Fi?"
    elim configure [
      | false ↦ answered s
      | true ↦ do
        ssid ← single_answer env "WIFI SSID name: "
        pass ← ask_wifi_password env
        answered
            (store (wifi_key <> "_pass") (text pass) (store (wifi_key <> "_name") (text ssid) s))
    ]

  -- the `switch device[num]`
  unfoldable pub store_interface : Interfaces → String → Storage → Storage
  store_interface i name s =
      if str_eq name "eth0"
      then store interface_name_key (text "eth0")
          (store interface_key (text (interface_eth i.address i.netmask i.gateway i.dns)) s)
      else if str_eq name "wlan0"
      then store interface_name_key (text "wlan0")
          (store interface_key (text (interface_wlan i.address i.netmask i.gateway i.dns)) s)
      else s

  -- `if dialogs.YesNoDialog("Change values?") { AskInterfaceParams(&i) }`
  unfoldable pub maybe_change : ℕ → Interfaces → M Interfaces
  maybe_change fuel i = do
    change ← yes_no_dialog env "Change values?"
    elim change [ false ↦ pure i | true ↦ ask_interface_params env fuel i ]

  unfoldable pub set_interface : ℕ → Callback
  unfolding store_interface
  set_interface fuel s = do
    static ← yes_no_dialog env "Would you like to assign static IP address for your device?"
    elim static [
      | false ↦ answered s
      | true ↦ do
        num ← select_one env "Please select a network interface: " devices
        i ← maybe_change fuel default_interfaces
        name ← or_panic (get_elem? devices num)
        answered (store_interface i name s)
    ]

  unfoldable pub set_secondary_dns : Callback
  set_secondary_dns s = do
    add ← yes_no_dialog env "Add Google DNS as a secondary NameServer"
    elim add [ false ↦ answered s | true ↦ answered (store dns_key (flag true) s) ]

  unfoldable pub ask_hostname : String → Callback
  ask_hostname hostname s = do
    change ← yes_no_dialog env "Do you want to change default hostname?"
    elim change [
      | false ↦ answered s
      | true ↦ do
        name ← single_answer env "New hostname: "
        answered (store old_hostname_key (text hostname) (store new_hostname_key (text name) s))
    ]

  -- the rest of SetHostname, by what `cat` gives
  unfoldable pub with_hostname : Option String → String → String → Callback
  with_hostname (some e) out eut s = pure (s, some e)
  with_hostname none out eut s =
      if str_eq (trim_space eut) "" then ask_hostname (trim_space out) s else answered s

  unfoldable pub set_hostname : Callback
  unfolding with_hostname
  set_hostname s = elim (is_ssh (lookup "ssh" s)) [
    | false ↦ pure (s, some "Cannot get ssh config")
    | true ↦ do
      r ← ssh_run env ("cat " <> env.path mount_dir ("/etc/hostname" ∷ []))
      with_hostname r.err r.out r.eut s
  ]
