-- ===== src/Tests/Dialogs.antt =====
-- The configurator, its callbacks and the versions.
use iotit.Base.{true, false, some, [], ◌∷◌, ◌≡◌, refl, arith}
use iotit.Effects.{ssh, panic}
use iotit.Effects.Trace.{Grows, Returns}
use iotit.Config.Storage.{Storage, text, ssh_util}
use iotit.Config.Interfaces.{ask_address}
use iotit.Config.Save.{wpa_command, wlan0_command}
use iotit.Config.Configurator.{new, new_default, setup}
use iotit.Config.Declined.{Looks, setup-declined}
use iotit.Config.Address.{AnyEvent, FreeUnlessUsedUp, ask_address-Free}
use iotit.Config.Wifi.{set_and_save_wifi, after_questions, save_wifi-set_wifi}
use iotit.Config.Panics.{new_default-NeverPanics}
use iotit.Effects.{AnswersInRange}
use iotit.Tests.Settings.{first_fits, env, env_answering, locales}

setup-declined_example :
    Grows
      (Looks (env_answering false))
      []
      (setup (new_default (env_answering false) locales 3) []).1
    × Returns (λ r. r.0 ≡ new.storage) (setup (new_default (env_answering false) locales 3) []).0
setup-declined_example = setup-declined (env_answering false) (λ h question. refl) locales 3 []

ask_address-Free_example :
    Grows AnyEvent [] (ask_address env 5 true "" []).1
    × Returns (FreeUnlessUsedUp env) (ask_address env 5 true "" []).0
ask_address-Free_example = ask_address-Free env 5 true "" (λ e. ground arith) []

save_wifi-set_wifi_example :
    (set_and_save_wifi env (("ssh", ssh_util) ∷ []) []).1
    ≡ ssh (wlan0_command env)
      ∷ ssh (wpa_command env (text "home") (some (text "secret")))
      ∷ after_questions []
unfolding iotit.Config.Storage.lookup
save_wifi-set_wifi_example =
    save_wifi-set_wifi env (("ssh", ssh_util) ∷ []) [] {name = "home"} {pass = "secret"} refl refl
      refl refl refl

chooses_first : AnswersInRange env
chooses_first = record { choose_lt = λ h question options i e. first_fits options e }

new_default-NeverPanics_example : ¬ ((setup (new_default env locales 3) []).0 ≡ panic)
new_default-NeverPanics_example = new_default-NeverPanics env chooses_first locales 3 []
