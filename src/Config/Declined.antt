-- ===== src/Config/Declined.antt =====
-- The default configurator where the user declines every question: nothing is changed.
use iotit.Base.{
  ℕ, String, ◌<>◌, false, Option, none, some, List, [], ◌∷◌, ◌≡◌, refl, inl, inr, All, Bool-cases,
  str_eq,
}
use iotit.Effects.{Event, ssh, asked, done, or_return, Env, ssh_run, yes_no_dialog}
use iotit.Effects.Trace.{here, more, Runs, Runs-bind, Runs-if, Anything}
use iotit.Effects.Rules.{Runs-ssh_run}
use iotit.GoStrings.{trim_space}
use iotit.Config.Storage.{mount_dir, Storage, lookup, is_ssh}
use iotit.Config.Dialogs.{
  Callback, Locales, set_locale, set_keyboard, set_wifi, set_interface, set_secondary_dns,
  set_hostname, ask_hostname, with_hostname,
}
use iotit.Config.Save.{
  save_locale, save_keyboard, save_wifi, save_interface, save_secondary_dns, save_hostname,
}
use iotit.Config.Configurator.{new, new_default, setup, write_entries}
use iotit.Config.Setup.{in_turn, setup-new_default}

-- Every question is answered with no.
abbrev pub AllDeclined : Env → Type 0
AllDeclined env = (h : List Event) (question : String) → env.yes_no h question ≡ some false

-- A look at the host name of the image, or a question.
abbrev pub Looks : Env → Event → Type 0
Looks env (ssh command) = command ≡ "cat " <> env.path mount_dir ("/etc/hostname" ∷ [])
Looks env (asked question) = Unit
Looks env _ = ⊥

module _ (env : Env) (no : AllDeclined env) where
  abbrev Keeps : Callback → Type 0
  Keeps f = (s : Storage) → Runs (Looks env) (λ r. r.0 ≡ s) (f s)

  declined-dialog :
      (question : String) → Runs (Looks env) (λ b. b ≡ false) (yes_no_dialog env question)
  unfolding yes_no_dialog
  declined-dialog question h = rw (no h question) (more tt here, refl)

  set_locale-Keeps : (locales : Locales) → Keeps (set_locale env locales)
  unfolding set_locale yes_no_dialog
  set_locale-Keeps locales s h = rw (no h "Change default language?") (more tt here, refl)

  set_keyboard-Keeps : (locales : Locales) → Keeps (set_keyboard env locales)
  unfolding set_keyboard yes_no_dialog
  set_keyboard-Keeps locales s h = rw (no h "Change default keyboard layout?") (more tt here, refl)

  set_wifi-Keeps : Keeps (set_wifi env)
  unfolding set_wifi yes_no_dialog
  set_wifi-Keeps s h = rw (no h "Would you like to configure your Wi-Fi?") (more tt here, refl)

  set_interface-Keeps : (fuel : ℕ) → Keeps (set_interface env fuel)
  unfolding set_interface yes_no_dialog
  set_interface-Keeps fuel s h =
      rw (no h "Would you like to assign static IP address for your device?") (more tt here, refl)

  set_secondary_dns-Keeps : Keeps (set_secondary_dns env)
  unfolding set_secondary_dns yes_no_dialog
  set_secondary_dns-Keeps s h =
      rw (no h "Add Google DNS as a secondary NameServer") (more tt here, refl)

  ask_hostname-Keeps : (hostname : String) → Keeps (ask_hostname env hostname)
  unfolding ask_hostname yes_no_dialog
  ask_hostname-Keeps hostname s h =
      rw (no h "Do you want to change default hostname?") (more tt here, refl)

  with_hostname-Keeps :
      (err : Option String) (out eut : String) → Keeps (with_hostname env err out eut)
  unfolding with_hostname
  with_hostname-Keeps (some e) out eut s h = (here, refl)
  with_hostname-Keeps none out eut s h =
      Runs-if (Looks env) (λ r. r.0 ≡ s) (str_eq (trim_space eut) "") _ _
        (λ e. ask_hostname-Keeps (trim_space out) s) (λ e g. (here, refl)) h

  set_hostname-Keeps : Keeps (set_hostname env)
  unfolding set_hostname
  set_hostname-Keeps s h = elim (Bool-cases (is_ssh (lookup "ssh" s))) [
    | inr e ↦ rw (e, set_hostname) (here, refl)
    | inl e ↦
        rw (e, set_hostname)
          (Runs-bind (Looks env) Anything (λ r. r.0 ≡ s)
            (ssh_run env ("cat " <> env.path mount_dir ("/etc/hostname" ∷ []))) _
            (Runs-ssh_run (Looks env) env _ refl) (λ r _. with_hostname-Keeps r.err r.out r.eut s)
            h)
  ]

  or_return-Keeps :
      (r : Storage × Option String) (s : Storage) (f : Callback)
      → r.0 ≡ s
      → Keeps f
      → Runs (Looks env) (λ r'. r'.0 ≡ s) (or_return r f)
  or_return-Keeps (s', some e) s f same keep = λ h. (here, same)
  or_return-Keeps (s', none) s f same keep = rw (← same) (keep s')

  in_turn-Keeps : (fs : List Callback) → All Keeps fs → Keeps (in_turn fs)
  in_turn-Keeps [] keep s = λ h. (here, refl)
  in_turn-Keeps (f ∷ fs) (keep, keeps) s =
      Runs-bind (Looks env) (λ r. r.0 ≡ s) (λ r. r.0 ≡ s) (f s) _ (keep s)
        (λ r same. or_return-Keeps r s (in_turn fs) same (in_turn-Keeps fs keeps))

  -- Where every question is answered with no, the default configurator runs no command but the one
  -- that reads the host name, and leaves its storage as it was.
  pub setup-declined :
      (locales : Locales) (fuel : ℕ)
      → Runs (Looks env) (λ r. r.0 ≡ new.storage) (setup (new_default env locales fuel))
  setup-declined locales fuel = rw (setup-new_default env locales fuel) (
      in_turn-Keeps
        (set_secondary_dns env
          ∷ set_hostname env
          ∷ set_interface env fuel
          ∷ set_keyboard env locales
          ∷ set_locale env locales
          ∷ set_wifi env
          ∷ [])
        (
          set_secondary_dns-Keeps,
          (
            set_hostname-Keeps,
            (
              set_interface-Keeps fuel,
              (set_keyboard-Keeps locales, (set_locale-Keeps locales, (set_wifi-Keeps, tt))),
            ),
          ),
        )
        new.storage)

-- Writing the storage of a new configurator with any of the default functions does nothing at all.
pub write_entries-declined :
    (env : Env) (locales : Locales) (fuel : ℕ) (h : List Event)
    → write_entries (new_default env locales fuel).order new.storage h
      ≡ (done (new.storage, none), h)
unfolding new_default write_entries new save_locale save_keyboard save_wifi save_interface
    save_secondary_dns save_hostname lookup
write_entries-declined env locales fuel h = refl
