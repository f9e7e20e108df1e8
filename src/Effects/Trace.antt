-- ===== src/Effects/Trace.antt =====
-- Reasoning about histories: what an action adds, and what holds of its result.
use iotit.Base.{String, List, ◌∷◌, ◌≡◌, refl, Bool, true, false, Option, none, some}
use iotit.Effects.Defs.{
  Event, Outcome, done, panic, exit, unfinished, M, pure, ◌>>=◌, continue_with, unless,
}

-- `Grows P h h'`: `h'` is `h` with newer events, all of which satisfy `P`.
pub data Grows (P : Event → Type 0) (h : List Event) : List Event → Type 0 where
  here : Grows P h h
  more : {t : List Event} {e : Event} → P e → Grows P h t → Grows P h (e ∷ t)

pub Grows-trans :
    (P : Event → Type 0) {a b c : List Event} → Grows P a b → Grows P b c → Grows P a c
Grows-trans P g here = g
Grows-trans P g (more p r) = more p (Grows-trans P g r)

pub Grows-mono :
    (P Q : Event → Type 0)
    → ((e : Event) → P e → Q e)
    → {a b : List Event} → Grows P a b
    → Grows Q a b
Grows-mono P Q f here = here
Grows-mono P Q f (more p r) = more (f _ p) (Grows-mono P Q f r)

-- What holds of the value, if the action returns one.
abbrev pub Returns : {A : Type 0} → (A → Type 0) → Outcome A → Type 0
Returns Q (done a) = Q a
Returns Q panic = Unit
Returns Q (exit n) = Unit
Returns Q unfinished = Unit

-- The action adds only events in `P`, however it ends, and a value that it returns satisfies `Q`.
abbrev pub Runs : {A : Type 0} → (Event → Type 0) → (A → Type 0) → M A → Type 0
Runs P Q m = (h : List Event) → Grows P h (m h).1 × Returns Q (m h).0

abbrev pub Anything : {A : Type 0} → A → Type 0
Anything a = Unit

module _ (P : Event → Type 0) where
  pub Runs-pure : {A : Type 0} (Q : A → Type 0) (a : A) → Q a → Runs P Q (pure a)
  Runs-pure Q a q h = (here, q)

  pub continue-Runs :
      {A B : Type 0} (Q : A → Type 0) (R : B → Type 0) (o : Outcome A) (h h' : List Event)
      (f : A → M B)
      → Grows P h h'
      → Returns Q o
      → ((a : A) → Q a → Runs P R (f a))
      → Grows P h (continue_with o h' f).1 × Returns R (continue_with o h' f).0
  continue-Runs Q R (done a) h h' f g q k = (Grows-trans P g (k a q h').0, (k a q h').1)
  continue-Runs Q R panic h h' f g q k = (g, tt)
  continue-Runs Q R (exit n) h h' f g q k = (g, tt)
  continue-Runs Q R unfinished h h' f g q k = (g, tt)

  pub Runs-bind :
      {A B : Type 0} (Q : A → Type 0) (R : B → Type 0) (m : M A) (f : A → M B)
      → Runs P Q m
      → ((a : A) → Q a → Runs P R (f a))
      → Runs P R (m >>= f)
  Runs-bind Q R m f p k h = continue-Runs Q R (m h).0 h (m h).1 f (p h).0 (p h).1 k

  pub Runs-if :
      {A : Type 0} (R : A → Type 0) (b : Bool) (m n : M A)
      → (b ≡ true → Runs P R m)
      → (b ≡ false → Runs P R n)
      → Runs P R (iotit.Base.if◌then◌else◌ b m n)
  Runs-if R true m n p q = p refl
  Runs-if R false m n p q = q refl

  pub Runs-option :
      {A B : Type 0} (R : B → Type 0) (o : Option A) (n : M B) (k : A → M B)
      → (o ≡ none → Runs P R n)
      → ((a : A) → o ≡ some a → Runs P R (k a))
      → Runs P R (elim o [ none ↦ n | some a ↦ k a ])
  Runs-option R none n k p q = p refl
  Runs-option R (some a) n k p q = q a refl

  pub Runs-unless :
      {S : Type 0} (R : S × Option String → Type 0) (err : Option String) (s : S)
      (k : M (S × Option String))
      → ((e : String) → R (s, some e))
      → (err ≡ none → Runs P R k)
      → Runs P R (unless err s k)
  Runs-unless R (some e) s k p q = λ h. (here, p e)
  Runs-unless R none s k p q = q refl

pub Runs-mono :
    (P P' : Event → Type 0) {A : Type 0} (Q : A → Type 0) (m : M A)
    → ((e : Event) → P e → P' e)
    → Runs P Q m
    → Runs P' Q m
Runs-mono P P' Q m f r h = (Grows-mono P P' f (r h).0, (r h).1)

pub Returns-mono :
    {A : Type 0} (Q R : A → Type 0) (o : Outcome A)
    → ((a : A) → Q a → R a)
    → Returns Q o
    → Returns R o
Returns-mono Q R (done a) f q = f a q
Returns-mono Q R panic f q = tt
Returns-mono Q R (exit n) f q = tt
Returns-mono Q R unfinished f q = tt

pub Runs-Anything :
    (P : Event → Type 0) {A : Type 0} (Q : A → Type 0) (m : M A) → Runs P Q m → Runs P Anything m
Runs-Anything P Q m r h = ((r h).0, Returns-mono Q Anything (m h).0 (λ a q. tt) (r h).1)
