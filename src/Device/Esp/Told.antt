-- ===== src/Device/Esp/Told.antt =====
-- device/serial_flasher.go: what the module is told of the wireless network.
use iotit.Base.{
  String, ◌<>◌, false, none, some, List, [], ◌∷◌, ◌≡◌, refl, ◌∙◌, eq_iff, str_eq, Bool-cases, inl,
  inr,
}
use iotit.Effects.{
  Event, sent, received, queried, typed_password, done, Env, single_answer, ask_wifi_password,
}
use iotit.Config.Storage.{Storage, text, ssh_util, serial_port, lookup, store}
use iotit.Config.Dialogs.{Callback}
use iotit.Config.Configurator.{
  new, add_config_fn, store_value, insert_sorted, sort, setup_keys, setup, write_entries,
}
use iotit.Device.Colibri.Board.{Serial, receive, send}
use iotit.Device.Esp.{
  SerialFlasher, serial_prepare, ask_wifi, tell, tell_wifi, wifi_configurator, open_serial,
  configure_opened, configure_found, serial_configure,
}

-- The history of a module that is told a network.
abbrev pub told : String → String → List Event → List Event
told name pass h =
    received
    ∷ sent "wifi start\r\n"
    ∷ received
    ∷ sent ("wifi set password " <> pass <> "\r\n")
    ∷ received
    ∷ sent ("wifi set ssid " <> name <> "\r\n")
    ∷ typed_password
    ∷ queried "WiFi SSID name: "
    ∷ h

abbrev stored : String → String → Storage
stored name pass =
    ("ssh", ssh_util)
    ∷ ("port", serial_port)
    ∷ ("Wifi_name", text name)
    ∷ ("Wifi_pass", text pass)
    ∷ []

module _ (env : Env) (io : Serial) where
  tell-next :
      (line : String) (next : Callback) (s : Storage) (h : List Event)
      → io.write h line ≡ none
      → (io.read (sent line ∷ h)).1 ≡ none
      → tell env io line next s h ≡ next s (received ∷ sent line ∷ h)
  unfolding tell send receive
  tell-next line next s h w r = rw (w, r) refl

  ask_wifi-stored :
      (name pass : String) (h : List Event)
      → env.answer h "WiFi SSID name: " ≡ some name
      → env.wifi_password (queried "WiFi SSID name: " ∷ h) ≡ some pass
      → ask_wifi env io (wifi_configurator env io).storage h
        ≡ (done (stored name pass, none), typed_password ∷ queried "WiFi SSID name: " ∷ h)
  unfolding ask_wifi wifi_configurator new add_config_fn store_value store single_answer
      ask_wifi_password
  ask_wifi-stored name pass h n p = rw (n, p) refl

  -- A port that takes and gives without an error.
  abbrev Works : Type 0
  Works =
      ((g : List Event) (line : String) → io.write g line ≡ none)
      × ((g : List Event) → (io.read g).1 ≡ none)

  tell_wifi-stored :
      (name pass : String) (h : List Event)
      → Works
      → tell_wifi env io (stored name pass) h ≡ (
        done (stored name pass, none),
        received
            ∷ sent "wifi start\r\n"
            ∷ received
            ∷ sent ("wifi set password " <> pass <> "\r\n")
            ∷ received
            ∷ sent ("wifi set ssid " <> name <> "\r\n")
            ∷ h,
      )
  unfolding tell_wifi lookup
  tell_wifi-stored name pass h w =
      tell-next _ _ (stored name pass) h (w.0 _ _) (w.1 _)
      ∙ tell-next _ _ (stored name pass) _ (w.0 _ _) (w.1 _)
      ∙ tell-next _ _ (stored name pass) _ (w.0 _ _) (w.1 _)

  configured :
      (name pass : String) (h : List Event)
      → env.answer h "WiFi SSID name: " ≡ some name
      → env.wifi_password (queried "WiFi SSID name: " ∷ h) ≡ some pass
      → Works
      → configure_opened env io none h ≡ (done none, told name pass h)
  unfolding setup setup_keys write_entries add_config_fn store_value new store lookup sort
      insert_sorted wifi_configurator
  configured name pass h n p w =
      rw
        (
          ask_wifi-stored name pass h n p,
          tell_wifi-stored name pass (typed_password ∷ queried "WiFi SSID name: " ∷ h) w,
        )
        refl

  -- Where the port is known and opens, the user gives a name and a password, and the port takes and
  -- gives without an error, Configure of the serial flasher succeeds, and what it tells the module
  -- is the name, then the password, then to start, once each, and nothing else.
  pub serial_configure-told :
      (d : SerialFlasher) (h : List Event) (name pass : String)
      → ¬ (d.port ≡ "")
      → d.quiet ≡ false
      → io.open_port h d.port ≡ none
      → env.answer h "WiFi SSID name: " ≡ some name
      → env.wifi_password (queried "WiFi SSID name: " ∷ h) ≡ some pass
      → ((g : List Event) (line : String) → io.write g line ≡ none)
      → ((g : List Event) → (io.read g).1 ≡ none)
      → serial_configure env io d h ≡ (done (d, none), told name pass h)
  unfolding serial_configure serial_prepare configure_found open_serial
  serial_configure-told d h name pass given loud opens named typed writes reads =
      elim (Bool-cases (str_eq d.port "")) [
        | inl empty ↦ absurd (given ((eq_iff d.port "").0 empty))
        | inr e ↦ rw (e, loud, opens, configured name pass h named typed (writes, reads)) refl
      ]
