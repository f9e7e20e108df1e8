-- ===== src/Config/Wifi.antt =====
-- The Wi-Fi of device/config/configurator.go, from the questions to the commands.
use iotit.Base.{
  String, ◌<>◌, true, false, Option, none, some, List, ◌∷◌, ◌≡◌, refl, ap, ◌∙◌, str_eq, arith,
}
use iotit.Effects.{
  Event, ssh, asked, queried, typed_password, done, ◌>>=◌, M, or_return, Env, ssh_run,
  yes_no_dialog, single_answer, ask_wifi_password,
}
use iotit.Config.Storage.{
  Storage, Value, text, lookup, store, is_ssh, wifi_key, interface_key, lookup-store,
}
use iotit.Config.Dialogs.{set_wifi}
use iotit.Config.Save.{save_wifi, wpa_command, wlan0_command}

abbrev pub wifi_question : String
wifi_question = "Would you like to configure your Wi-Fi?"

-- SetWifi, then SaveWifi.
abbrev pub set_and_save_wifi : Env → Storage → M (Storage × Option String)
set_and_save_wifi env s = set_wifi env s >>= λ r. or_return r (save_wifi env)

-- The history once the user has given a name and a password.
abbrev pub after_questions : List Event → List Event
after_questions h = typed_password ∷ queried "WIFI SSID name: " ∷ asked wifi_question ∷ h

abbrev dhcp_command : Option Value → Env → List Event → List Event
dhcp_command (some static) env h = h
dhcp_command none env h = ssh (wlan0_command env) ∷ h

abbrev pub with_wifi : String → String → Storage → Storage
with_wifi name pass s =
    store (wifi_key <> "_pass") (text pass) (store (wifi_key <> "_name") (text name) s)

set_wifi-answered :
    (env : Env) (s : Storage) (h : List Event) {name pass : String}
    → env.yes_no h wifi_question ≡ some true
    → env.answer (asked wifi_question ∷ h) "WIFI SSID name: " ≡ some name
    → env.wifi_password (queried "WIFI SSID name: " ∷ asked wifi_question ∷ h) ≡ some pass
    → set_wifi env s h ≡ (done (with_wifi name pass s, none), after_questions h)
unfolding set_wifi yes_no_dialog single_answer ask_wifi_password
set_wifi-answered env s h agreed named typed = rw agreed (rw named (rw typed refl))

save_wifi-commands :
    (env : Env) (s : Storage) (g : List Event) {ssid : Value} {pass : Option Value}
    → is_ssh (lookup "ssh" s) ≡ true
    → lookup (wifi_key <> "_name") s ≡ some ssid
    → lookup (wifi_key <> "_pass") s ≡ pass
    → (env.run g (wpa_command env ssid pass)).err ≡ none
    → (save_wifi env s g).1
      ≡ dhcp_command (lookup interface_key s) env (ssh (wpa_command env ssid pass) ∷ g)
unfolding save_wifi ssh_run
save_wifi-commands env s g {ssid} {pass} reach named typed fine = ground arith

lookup-with_wifi :
    (name pass k : String) (s : Storage)
    → str_eq (wifi_key <> "_pass") k ≡ false
    → str_eq (wifi_key <> "_name") k ≡ false
    → lookup k (with_wifi name pass s) ≡ lookup k s
lookup-with_wifi name pass k s p n =
    lookup-store (wifi_key <> "_pass") k (text pass) (store (wifi_key <> "_name") (text name) s)
    ∙ rw p (lookup-store (wifi_key <> "_name") k (text name) s ∙ rw n refl)

-- Where the user gives a name and a password, and the image's machine can be reached and writes the
-- file, these two are what is written to wpa_supplicant.conf, whatever was stored before; after it
-- the interface is set to DHCP exactly where no static address is stored.
pub save_wifi-set_wifi :
    (env : Env) (s : Storage) (h : List Event) {name pass : String}
    → is_ssh (lookup "ssh" s) ≡ true
    → env.yes_no h wifi_question ≡ some true
    → env.answer (asked wifi_question ∷ h) "WIFI SSID name: " ≡ some name
    → env.wifi_password (queried "WIFI SSID name: " ∷ asked wifi_question ∷ h) ≡ some pass
    → (env.run (after_questions h) (wpa_command env (text name) (some (text pass)))).err ≡ none
    → (set_and_save_wifi env s h).1
      ≡ dhcp_command
          (lookup interface_key s)
          env
          (ssh (wpa_command env (text name) (some (text pass))) ∷ after_questions h)
save_wifi-set_wifi env s h {name} {pass} reach agreed named typed fine =
    rw (set_wifi-answered env s h agreed named typed) (
      rw (← lookup-with_wifi name pass interface_key s refl refl) (
        save_wifi-commands env (with_wifi name pass s) (after_questions h) {ssid = text name}
          {pass = some (text pass)}
          (ap is_ssh (lookup-with_wifi name pass "ssh" s refl refl) ∙ reach)
          (lookup-store (wifi_key <> "_pass") (wifi_key <> "_name") (text pass)
              (store (wifi_key <> "_name") (text name) s)
            ∙ lookup-store (wifi_key <> "_name") (wifi_key <> "_name") (text name) s)
          (lookup-store (wifi_key <> "_pass") (wifi_key <> "_pass") (text pass)
            (store (wifi_key <> "_name") (text name) s))
          fine))
