-- ===== src/Effects/Panics.antt =====
-- Actions that never panic.
use mathlib.Core.Option.{none-ne-some}
use iotit.Base.{
  ℕ, ◌<◌, String, Option, none, some, List, ◌∷◌, length, ◌≡◌, refl, arith, Option-cases, inl, inr,
  Bool, true, false, get_elem?, get_elem?-some,
}
use iotit.Effects.Defs.{
  Event, offered, Outcome, done, panic, exit, unfinished, M, pure, ◌>>=◌, continue_with, or_panic,
  Env, AnswersInRange, select_one, or_exit, yes_no_dialog, single_answer, ask_wifi_password, ping,
  ssh_run, asked, queried, typed_password,
}

abbrev pub NeverPanics : {A : Type 0} → M A → Type 0
NeverPanics m = (h : List Event) → ¬ ((m h).0 ≡ panic)

pub pure-NeverPanics : {A : Type 0} (a : A) → NeverPanics (pure a)
pure-NeverPanics a h e = ground arith

pub continue_with-NeverPanics :
    {A B : Type 0} (o : Outcome A) (h : List Event) (f : A → M B)
    → ¬ (o ≡ panic)
    → ((a : A) → NeverPanics (f a))
    → ¬ ((continue_with o h f).0 ≡ panic)
continue_with-NeverPanics (done a) h f p q e = q a h e
continue_with-NeverPanics panic h f p q e = p refl
continue_with-NeverPanics (exit n) h f p q e = ground arith
continue_with-NeverPanics unfinished h f p q e = ground arith

pub bind-NeverPanics :
    {A B : Type 0} (m : M A) (f : A → M B)
    → NeverPanics m
    → ((a : A) → NeverPanics (f a))
    → NeverPanics (m >>= f)
bind-NeverPanics m f p q h = continue_with-NeverPanics (m h).0 (m h).1 f (p h) q

pub if-NeverPanics :
    {A : Type 0} (b : Bool) (m n : M A)
    → NeverPanics m
    → NeverPanics n
    → NeverPanics (iotit.Base.if◌then◌else◌ b m n)
if-NeverPanics true m n p q = p
if-NeverPanics false m n p q = q

pub or_panic-NeverPanics :
    {A : Type 0} (o : Option A) {a : A} → o ≡ some a → NeverPanics (or_panic o)
or_panic-NeverPanics none e h p = none-ne-some _ e
or_panic-NeverPanics (some b) e h p = ground arith

-- What follows a dialog is run with the index of one of the options, or not at all.
pub select_one-NeverPanics :
    (env : Env)
    → AnswersInRange env
    → {A : Type 0} (question : String) (options : List String) (f : ℕ → M A)
    → ((i : ℕ) → i < length options → NeverPanics (f i))
    → NeverPanics (select_one env question options >>= f)
unfolding select_one
select_one-NeverPanics env fits question options f p h e =
    elim (Option-cases (env.choose h question options)) [
      | inl gone ↦ ground (arith, gone)
      | inr (i, given) ↦
          p i (fits.choose_lt h question options i given) (offered question options ∷ h)
            (rw given at e)
    ]

pub or_exit-NeverPanics : {A : Type 0} (o : Option A) → NeverPanics (or_exit o)
or_exit-NeverPanics none h p = ground arith
or_exit-NeverPanics (some a) h p = ground arith

pub bool-NeverPanics :
    {A : Type 0} (b : Bool) (m n : M A)
    → NeverPanics m
    → NeverPanics n
    → NeverPanics (elim b [ false ↦ m | true ↦ n ])
bool-NeverPanics true m n p q = q
bool-NeverPanics false m n p q = p

module _ (env : Env) where
  pub yes_no_dialog-NeverPanics : (question : String) → NeverPanics (yes_no_dialog env question)
  unfolding yes_no_dialog
  yes_no_dialog-NeverPanics question h =
      or_exit-NeverPanics (env.yes_no h question) (asked question ∷ h)

  pub single_answer-NeverPanics : (question : String) → NeverPanics (single_answer env question)
  unfolding single_answer
  single_answer-NeverPanics question h =
      or_exit-NeverPanics (env.answer h question) (queried question ∷ h)

  pub ask_wifi_password-NeverPanics : NeverPanics (ask_wifi_password env)
  unfolding ask_wifi_password
  ask_wifi_password-NeverPanics h = or_exit-NeverPanics (env.wifi_password h) (typed_password ∷ h)

  pub ping-NeverPanics : (ip : String) → NeverPanics (ping env ip)
  unfolding ping
  ping-NeverPanics ip h p = ground arith

  pub ssh_run-NeverPanics : (command : String) → NeverPanics (ssh_run env command)
  unfolding ssh_run
  ssh_run-NeverPanics command h p = ground arith
