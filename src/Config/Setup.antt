-- ===== src/Config/Setup.antt =====
-- Setup of device/config/configurator.go: the order of the questions.
use iotit.Base.{
  ℕ, String, Option, none, some, List, [], ◌∷◌, ◌≡◌, refl, map, inl, inr, All, All-mono, arith,
  Bool-cases, str_eq, eq_refl,
}
use iotit.Effects.{pure, ◌>>=◌, or_return, Env}
use iotit.Effects.Panics.{NeverPanics, continue_with-NeverPanics}
use iotit.Config.Storage.{Storage, lookup, store}
use iotit.Config.Dialogs.{
  Callback, Locales, set_locale, set_keyboard, set_wifi, set_interface, set_secondary_dns,
  set_hostname,
}
use iotit.Config.Configurator.{
  CallbackFn, Order, Configurator, new, new_default, add_config_fn, insert_sorted, sort, key, call,
  setup_keys, setup, before,
}

-- One callback after another, the first error ending them.
abbrev pub in_turn : List Callback → Callback
in_turn [] s = pure (s, none)
in_turn (f ∷ fs) s = f s >>= λ r. or_return r (λ s'. in_turn fs s')

-- The default configurator asks for the name server, the host name, the interface, the keyboard, the
-- locale and the Wi-Fi, in this order, which is that of the sorted keys and not that in which
-- they were added: the locale is asked for after the keyboard.
pub setup-new_default :
    (env : Env) (locales : Locales) (fuel : ℕ)
    → setup (new_default env locales fuel)
      ≡ in_turn
          (set_secondary_dns env
            ∷ set_hostname env
            ∷ set_interface env fuel
            ∷ set_keyboard env locales
            ∷ set_locale env locales
            ∷ set_wifi env
            ∷ [])
          new.storage
unfolding setup setup_keys new_default new add_config_fn sort insert_sorted lookup store
setup-new_default env locales fuel = refl

abbrev pub ConfigSafe : String × CallbackFn → Type 0
ConfigSafe (k, f) = (s : Storage) → NeverPanics (call f.config s)

All-insert_sorted :
    (P : String → Type 0) (k : String) (ks : List String)
    → P k
    → All P ks
    → All P (insert_sorted k ks)
unfolding insert_sorted
All-insert_sorted P k [] p ps = (p, tt)
All-insert_sorted P k (j ∷ ks) p ps = elim (Bool-cases (before k j)) [
  | inl e ↦ rw e (p, (ps.0, ps.1))
  | inr e ↦ rw e (ps.0, All-insert_sorted P k ks p ps.1)
]

All-sort : (P : String → Type 0) (ks : List String) → All P ks → All P (sort ks)
unfolding sort
All-sort P [] ps = tt
All-sort P (k ∷ ks) ps = All-insert_sorted P k (sort ks) ps.0 (All-sort P ks ps.1)

-- The key is in the map, with a callback that does not panic.
abbrev Known : Order → String → Type 0
Known order k =
    (f : CallbackFn) × (lookup k order ≡ some f) × ((s : Storage) → NeverPanics (call f.config s))

Known-cons :
    (j k : String) (f : CallbackFn) (order : Order)
    → ConfigSafe (j, f)
    → Known order k
    → Known ((j, f) ∷ order) k
unfolding lookup
Known-cons j k f order safe (g, e, p) = elim (Bool-cases (str_eq j k)) [
  | inl same ↦ (f, rw same refl, safe)
  | inr other ↦ (g, rw other e, p)
]

All-Known : (order : Order) → All ConfigSafe order → All (Known order) (map key order)
unfolding lookup
All-Known [] safe = tt
All-Known ((j, f) ∷ order) safe = (
  (f, rw (eq_refl j) refl, safe.0),
  All-mono (Known order) (Known ((j, f) ∷ order)) (map key order)
      (λ k. Known-cons j k f order safe.0) (All-Known order safe.1),
)

pub or_return-NeverPanics :
    (r : Storage × Option String) (f : Callback)
    → ((s : Storage) → NeverPanics (f s))
    → NeverPanics (or_return r f)
or_return-NeverPanics (s, none) f p h q = p s h q
or_return-NeverPanics (s, some e) f p h q = ground arith

setup_keys-NeverPanics :
    (order : Order) (ks : List String) (s : Storage)
    → All (Known order) ks
    → NeverPanics (setup_keys order ks s)
unfolding setup_keys
setup_keys-NeverPanics order [] s known = λ h e. ground arith
setup_keys-NeverPanics order (k ∷ ks) s ((f, found, p), known) =
    rw (found, setup_keys)
      λ h.
        continue_with-NeverPanics (call f.config s h).0 (call f.config s h).1
          (λ r. or_return r (λ s'. setup_keys order ks s')) (p s h)
          λ r. or_return-NeverPanics r _ (λ s'. setup_keys-NeverPanics order ks s' known)

-- Where no callback of the configurator panics, Setup does not panic: each of the sorted keys is found
-- in the map, so no missing entry is dereferenced.
pub setup-NeverPanics : (c : Configurator) → All ConfigSafe c.order → NeverPanics (setup c)
unfolding setup
setup-NeverPanics c safe =
    setup_keys-NeverPanics c.order (sort (map key c.order)) c.storage
      (All-sort (Known c.order) (map key c.order) (All-Known c.order safe))
