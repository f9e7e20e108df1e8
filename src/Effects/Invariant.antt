-- ===== src/Effects/Invariant.antt =====
-- Invariants of histories that actions keep, with what holds of their results.
use iotit.Base.{String, Bool, true, false, Option, none, some, List, ◌≡◌, refl}
use iotit.Effects.Defs.{
  Event, Outcome, done, panic, exit, unfinished, M, ◌>>=◌, continue_with, unless,
}
use iotit.Effects.Trace.{Returns}

-- The action keeps the invariant, however it ends, and a value that it returns satisfies `Q`.
pub record Holds {A : Type 0} (I : List Event → Type 0) (Q : A → Type 0) (m : M A) : Type 0 where
  pub runs : (h : List Event) → I h → I (m h).1 × Returns Q (m h).0

module _ (I : List Event → Type 0) where
  pub continue-Holds :
      {A B : Type 0} (Q : A → Type 0) (R : B → Type 0) (o : Outcome A) (t : List Event)
      (f : A → M B)
      → I t
      → Returns Q o
      → ((a : A) → Q a → Holds I R (f a))
      → I (continue_with o t f).1 × Returns R (continue_with o t f).0
  continue-Holds Q R (done a) t f i q k = (k a q).runs t i
  continue-Holds Q R panic t f i q k = (i, tt)
  continue-Holds Q R (exit n) t f i q k = (i, tt)
  continue-Holds Q R unfinished t f i q k = (i, tt)

  pub Holds-bind :
      {A B : Type 0} (Q : A → Type 0) (R : B → Type 0) (m : M A) (f : A → M B)
      → Holds I Q m
      → ((a : A) → Q a → Holds I R (f a))
      → Holds I R (m >>= f)
  Holds-bind Q R m f p k = record {
    runs = λ h i. let r = p.runs h i in continue-Holds Q R (m h).0 (m h).1 f r.0 r.1 k;
  }

  pub Holds-if :
      {A : Type 0} (R : A → Type 0) (b : Bool) (m n : M A)
      → (b ≡ true → Holds I R m)
      → (b ≡ false → Holds I R n)
      → Holds I R (iotit.Base.if◌then◌else◌ b m n)
  Holds-if R true m n p q = p refl
  Holds-if R false m n p q = q refl

  pub Holds-option :
      {A B : Type 0} (R : B → Type 0) (o : Option A) (n : M B) (k : A → M B)
      → (o ≡ none → Holds I R n)
      → ((a : A) → o ≡ some a → Holds I R (k a))
      → Holds I R (elim o [ none ↦ n | some a ↦ k a ])
  Holds-option R none n k p q = p refl
  Holds-option R (some a) n k p q = q a refl

  pub Holds-unless :
      {S : Type 0} (R : S × Option String → Type 0) (err : Option String) (s : S)
      (k : M (S × Option String))
      → ((e : String) → R (s, some e))
      → (err ≡ none → Holds I R k)
      → Holds I R (unless err s k)
  Holds-unless R (some e) s k p q = record { runs = λ h i. (i, p e) }
  Holds-unless R none s k p q = q refl
