-- ===== src/Config/Panics.antt =====
-- The default callbacks of device/config/configurator.go: no answer makes Setup panic.
use iotit.Base.{
  All, ℕ, zero, suc, String, ◌<>◌, Bool, true, false, not, Option, none, some, List, [], ◌∷◌, arith,
  get_elem?, get_elem?-some, length-map, if◌then◌else◌, map, str_eq, ◌==◌,
}
use iotit.Effects.{
  pure, Env, AnswersInRange, yes_no_dialog, single_answer, ask_wifi_password, ssh_run, ping,
  or_panic,
}
use iotit.Effects.Panics.{
  NeverPanics, pure-NeverPanics, bind-NeverPanics, bool-NeverPanics, if-NeverPanics,
  or_panic-NeverPanics, select_one-NeverPanics, yes_no_dialog-NeverPanics,
  single_answer-NeverPanics, ask_wifi_password-NeverPanics, ping-NeverPanics, ssh_run-NeverPanics,
}
use iotit.GoStrings.{trim_space}
use iotit.Config.Storage.{Storage, lookup, is_ssh, mount_dir}
use iotit.Config.Interfaces.{
  Interfaces, ask_address, ask_rest, ask_interface_params, default_interfaces,
}
use iotit.Config.Dialogs.{
  Callback, Locales, first, choose_entry, set_locale, set_keyboard, set_wifi, set_interface,
  maybe_change, set_secondary_dns, ask_hostname, with_hostname, set_hostname, devices, language_of,
}
use iotit.Config.Configurator.{new_default, new, setup}
use iotit.Config.Setup.{in_turn, or_return-NeverPanics, setup-new_default}

module _ (env : Env) (fits : AnswersInRange env) where
  abbrev Safe : Callback → Type 0
  Safe f = (s : Storage) → NeverPanics (f s)

  choose_entry-NeverPanics :
      (question : String) (entries : List (String × String))
      → NeverPanics (choose_entry env question entries)
  unfolding choose_entry
  choose_entry-NeverPanics question [] =
      select_one-NeverPanics env fits question [] _ λ n p. absurd (omega (arith, p))
  choose_entry-NeverPanics question ((line, name) ∷ []) = pure-NeverPanics name
  choose_entry-NeverPanics question (e ∷ e' ∷ entries) =
      select_one-NeverPanics env fits question (map first (e ∷ e' ∷ entries)) _ λ n p.
        let found =
          get_elem?-some (e ∷ e' ∷ entries) n (omega (arith, p, length-map entries first)) in
        bind-NeverPanics (or_panic (get_elem? (e ∷ e' ∷ entries) n)) _
          (or_panic-NeverPanics (get_elem? (e ∷ e' ∷ entries) n) {a = found.0} found.1)
          (λ entry. pure-NeverPanics _)

  set_locale-Safe : (locales : Locales) → Safe (set_locale env locales)
  unfolding set_locale
  set_locale-Safe locales s =
      bind-NeverPanics (yes_no_dialog env "Change default language?") _
        (yes_no_dialog-NeverPanics env _)
        λ change. bool-NeverPanics change _ _ (pure-NeverPanics _) (
          bind-NeverPanics (single_answer env "New locale: ") _ (single_answer-NeverPanics env _)
            λ inp.
              bind-NeverPanics
                (choose_entry env "Please select a locale from the list: " (locales.get_locale inp))
                _ (choose_entry-NeverPanics _ (locales.get_locale inp)) (λ l. pure-NeverPanics _))

  set_keyboard-Safe : (locales : Locales) → Safe (set_keyboard env locales)
  unfolding set_keyboard
  set_keyboard-Safe locales s =
      bind-NeverPanics (yes_no_dialog env "Change default keyboard layout?") _
        (yes_no_dialog-NeverPanics env _)
        λ change. bool-NeverPanics change _ _ (pure-NeverPanics _) (
          bind-NeverPanics (single_answer env "New keyboard layout: ") _
            (single_answer-NeverPanics env _)
            λ inp.
              bind-NeverPanics
                (choose_entry env "Please select a layout from the list: "
                  (locales.get_layout (language_of s) inp))
                _ (choose_entry-NeverPanics _ (locales.get_layout (language_of s) inp))
                (λ l. pure-NeverPanics _))

  set_wifi-Safe : Safe (set_wifi env)
  unfolding set_wifi
  set_wifi-Safe s =
      bind-NeverPanics (yes_no_dialog env "Would you like to configure your Wi-Fi?") _
        (yes_no_dialog-NeverPanics env _)
        λ agreed. bool-NeverPanics agreed _ _ (pure-NeverPanics _) (
          bind-NeverPanics (single_answer env "WIFI SSID name: ") _
            (single_answer-NeverPanics env _)
            λ ssid.
              bind-NeverPanics (ask_wifi_password env) _ (ask_wifi_password-NeverPanics env)
                (λ pass. pure-NeverPanics _))

  set_secondary_dns-Safe : Safe (set_secondary_dns env)
  unfolding set_secondary_dns
  set_secondary_dns-Safe s =
      bind-NeverPanics (yes_no_dialog env "Add Google DNS as a secondary NameServer") _
        (yes_no_dialog-NeverPanics env _)
        λ agreed. bool-NeverPanics agreed _ _ (pure-NeverPanics _) (pure-NeverPanics _)

  ask_address-NeverPanics :
      (retries : ℕ) (again : Bool) (ip : String) → NeverPanics (ask_address env retries again ip)
  unfolding ask_address
  ask_address-NeverPanics zero again ip = pure-NeverPanics _
  ask_address-NeverPanics (suc retries) false ip = pure-NeverPanics _
  ask_address-NeverPanics (suc retries) true ip =
      bind-NeverPanics (single_answer env "IP address of the device: ") _
        (single_answer-NeverPanics env _)
        λ ip'.
          bind-NeverPanics (ping env ip') _ (ping-NeverPanics env ip')
            λ free. ask_address-NeverPanics retries (not free) ip'

  ask_rest-NeverPanics : (i : Interfaces) (ip : String) → NeverPanics (ask_rest env i ip)
  unfolding ask_rest
  ask_rest-NeverPanics i ip =
      bind-NeverPanics (single_answer env "Please enter your gateway: ") _
        (single_answer-NeverPanics env _)
        λ gateway.
          bind-NeverPanics (single_answer env "Please enter your netmask: ") _
            (single_answer-NeverPanics env _)
            λ netmask.
              bind-NeverPanics (single_answer env "Please enter your dns server: ") _
                (single_answer-NeverPanics env _) (λ dns. pure-NeverPanics _)

  ask_interface_params-NeverPanics :
      (fuel : ℕ) (i : Interfaces) → NeverPanics (ask_interface_params env fuel i)
  unfolding ask_interface_params
  ask_interface_params-NeverPanics zero i = λ h p. ground arith
  ask_interface_params-NeverPanics (suc fuel) i =
      bind-NeverPanics (ask_address env 5 true "") _ (ask_address-NeverPanics 5 true "") (λ r.
        bind-NeverPanics
          (if r.1 == 0 then yes_no_dialog env "Do you want to try again?" else pure false) _
          (if-NeverPanics (r.1 == 0) _ _ (yes_no_dialog-NeverPanics env _) (pure-NeverPanics false))
          λ again.
            bool-NeverPanics again _ _ (ask_rest-NeverPanics i r.0)
              (ask_interface_params-NeverPanics fuel i))

  maybe_change-NeverPanics : (fuel : ℕ) (i : Interfaces) → NeverPanics (maybe_change env fuel i)
  unfolding maybe_change
  maybe_change-NeverPanics fuel i =
      bind-NeverPanics (yes_no_dialog env "Change values?") _ (yes_no_dialog-NeverPanics env _)
        λ change.
          bool-NeverPanics change _ _ (pure-NeverPanics i) (ask_interface_params-NeverPanics fuel i)

  set_interface-Safe : (fuel : ℕ) → Safe (set_interface env fuel)
  unfolding set_interface
  set_interface-Safe fuel s =
      bind-NeverPanics
        (yes_no_dialog env "Would you like to assign static IP address for your device?") _
        (yes_no_dialog-NeverPanics env _)
        λ static. bool-NeverPanics static _ _ (pure-NeverPanics _) (
          select_one-NeverPanics env fits "Please select a network interface: " devices _ λ num p.
            bind-NeverPanics (maybe_change env fuel default_interfaces) _
              (maybe_change-NeverPanics fuel default_interfaces)
              λ i.
                let found = get_elem?-some devices num p in
                bind-NeverPanics (or_panic (get_elem? devices num)) _
                  (or_panic-NeverPanics (get_elem? devices num) {a = found.0} found.1)
                  (λ name. pure-NeverPanics _))

  with_hostname-Safe :
      (err : Option String) (out eut : String) → Safe (with_hostname env err out eut)
  unfolding with_hostname ask_hostname
  with_hostname-Safe (some e) out eut s = pure-NeverPanics _
  with_hostname-Safe none out eut s =
      if-NeverPanics (str_eq (trim_space eut) "") _ _
        (bind-NeverPanics (yes_no_dialog env "Do you want to change default hostname?") _
          (yes_no_dialog-NeverPanics env _)
          λ change. bool-NeverPanics change _ _ (pure-NeverPanics _) (
            bind-NeverPanics (single_answer env "New hostname: ") _
              (single_answer-NeverPanics env _) (λ name. pure-NeverPanics _)))
        (pure-NeverPanics _)

  set_hostname-Safe : Safe (set_hostname env)
  unfolding set_hostname
  set_hostname-Safe s = bool-NeverPanics (is_ssh (lookup "ssh" s)) _ _ (pure-NeverPanics _) (
      bind-NeverPanics (ssh_run env ("cat " <> env.path mount_dir ("/etc/hostname" ∷ []))) _
        (ssh_run-NeverPanics env _) λ r. with_hostname-Safe r.err r.out r.eut s)

  in_turn-Safe : (fs : List Callback) → All Safe fs → Safe (in_turn fs)
  in_turn-Safe [] safe s = pure-NeverPanics _
  in_turn-Safe (f ∷ fs) safe s =
      bind-NeverPanics (f s) _ (safe.0 s)
        λ r. or_return-NeverPanics r (in_turn fs) (in_turn-Safe fs safe.1)

  -- Where each answer to a dialog is one of its options, Setup of the default configurator does not
  -- panic, whatever else is answered and whatever the commands give.
  pub new_default-NeverPanics :
      (locales : Locales) (fuel : ℕ) → NeverPanics (setup (new_default env locales fuel))
  new_default-NeverPanics locales fuel = rw (setup-new_default env locales fuel) (
      in_turn-Safe
        (set_secondary_dns env
          ∷ set_hostname env
          ∷ set_interface env fuel
          ∷ set_keyboard env locales
          ∷ set_locale env locales
          ∷ set_wifi env
          ∷ [])
        (
          set_secondary_dns-Safe,
          (
            set_hostname-Safe,
            (
              set_interface-Safe fuel,
              (set_keyboard-Safe locales, (set_locale-Safe locales, (set_wifi-Safe, tt))),
            ),
          ),
        )
        new.storage)
