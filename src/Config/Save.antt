-- ===== src/Config/Save.antt =====
-- The `Save…` callbacks of device/config/configurator.go, which write the stored values into the
-- mounted image.
use iotit.Base.{String, ◌<>◌, Option, none, some, [], ◌∷◌, true, false, str_eq, if◌then◌else◌}
use iotit.GoStrings.{trim_space}
use iotit.Effects.{pure, fail, ◌>>=◌, ◌>>◌, Env, Reply, ssh_run}
use iotit.Config.Storage.{
  Value, text, lookup, text_of, text_or_empty, is_ssh, locale_key, keymap_key, wifi_key,
  interface_key, dns_key, mount_dir, isaax_conf_dir, wpa_conf,
}
use iotit.Config.Dialogs.{
  Callback, answered, interface_name_key, new_hostname_key, old_hostname_key,
}

-- `if _, ok := storage[key]; !ok { return nil }`, with the value for the rest
abbrev pub if_stored : String → (Value → Callback) → Callback
if_stored key rest s = elim (lookup key s) [ none ↦ answered s | some v ↦ rest v s ]

-- `ssh, ok := storage["ssh"].(ssh_helper.Util)`
abbrev pub with_ssh : Callback → Callback
with_ssh rest s = elim (is_ssh (lookup "ssh" s)) [
  | false ↦ pure (s, some "Cannot get ssh config")
  | true ↦ rest s
]

-- `errors.New(err.Error() + ":" + eut)`
abbrev pub joined_error : Reply → Option String
joined_error r = elim r.err [ none ↦ none | some e ↦ some (e <> ":" <> r.eut) ]

abbrev pub echo_to : String → String → String → String
echo_to content op file = "echo \"" <> content <> "\" " <> op <> " " <> file

module _ (env : Env) where
  unfoldable pub save_locale : Callback
  save_locale = if_stored locale_key λ v. with_ssh λ s. do
    r ← ssh_run env (
        echo_to ("LANGUAGE=" <> text_of v <> "\nLANG=" <> text_of v <> "\n") ">"
          (env.path mount_dir (isaax_conf_dir ∷ "locale.conf" ∷ [])))
    elim (joined_error r) [
      | some e ↦ pure (s, some e)
      | none ↦ do
        r' ← ssh_run env (
            echo_to ("LC_ALL=" <> text_of v <> "\n") ">"
              (env.path mount_dir (isaax_conf_dir ∷ "environment" ∷ [])))
        pure (s, joined_error r')
    ]

  unfoldable pub save_keyboard : Callback
  save_keyboard = if_stored keymap_key λ v. with_ssh λ s. do
    r ←
        ssh_run env
          (echo_to (text_of v) ">" (env.path mount_dir (isaax_conf_dir ∷ "vconsole.conf" ∷ [])))
    pure (s, joined_error r)

  abbrev pub wlan0_command : String
  wlan0_command =
      echo_to "\n    auto wlan0\n    iface wlan0 inet dhcp\n" ">"
        (env.path mount_dir (isaax_conf_dir ∷ "network" ∷ "interfaces.d" ∷ "wlan0" ∷ []))

  abbrev pub wpa_command : Value → Option Value → String
  wpa_command ssid pass =
      echo_to (wpa_conf (text_of ssid) (text_or_empty pass)) ">"
        (env.path mount_dir (isaax_conf_dir ∷ "wpa_supplicant" ∷ "wpa_supplicant.conf" ∷ []))

  unfoldable pub save_wifi : Callback
  save_wifi = if_stored (wifi_key <> "_name") λ v. with_ssh λ s. do
    r ← ssh_run env (wpa_command v (lookup (wifi_key <> "_pass") s))
    elim (joined_error r) [
      | some e ↦ pure (s, some e)
      | none ↦ elim (lookup interface_key s) [
        | some _ ↦ answered s
        | none ↦ do
          -- an error here is only logged
          ssh_run env wlan0_command
          answered s
      ]
    ]

  -- `storage["InterfaceName"].(string)`, which panics for a value of another type
  save_interface_to : Value → Value → Callback
  save_interface_to v (text name) s = do
    r ← ssh_run env (
        echo_to (text_of v) ">"
          (env.path mount_dir (isaax_conf_dir ∷ "network" ∷ "interfaces.d" ∷ name ∷ [])))
    -- with a message on standard error alone, `err` is nil
    pure (s, r.err)
  save_interface_to v _ s = fail

  unfoldable pub save_interface : Callback
  unfolding save_interface_to
  save_interface =
      if_stored interface_key
        λ v. if_stored interface_name_key λ name. with_ssh (save_interface_to v name)

  unfoldable pub save_secondary_dns : Callback
  save_secondary_dns = if_stored dns_key λ v. with_ssh λ s. do
    r ← ssh_run env (
        echo_to "append domain-name-servers 8.8.8.8, 8.8.4.4;" ">>"
          (env.path mount_dir (isaax_conf_dir ∷ "dhcp" ∷ "dhclient.conf" ∷ [])))
    pure (s, joined_error r)

  abbrev pub sed_command : Value → Value → String → String
  sed_command old new file =
      "sed -i 's/" <> text_of old <> "/" <> text_of new <> "/g' " <> env.path mount_dir (file ∷ [])

  unfoldable pub save_hostname : Callback
  save_hostname = if_stored old_hostname_key λ old. if_stored new_hostname_key λ new. with_ssh λ s.
      do
        r ← ssh_run env (sed_command old new "/etc/hosts")
        elim r.err [
          | some e ↦ pure (s, some e)
          | none ↦
              if str_eq (trim_space r.eut) ""
              then (do r' ← ssh_run env (sed_command old new "/etc/hostname"); pure (s, r'.err))
              else answered s
        ]
