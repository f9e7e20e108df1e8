-- ===== src/Effects/Choice.antt =====
-- Actions that choose one thing and then keep to it: the events of a whole run satisfy a predicate of
-- one choice.
use iotit.Base.{Bool, true, false, List, ◌≡◌, refl}
use iotit.Effects.Defs.{Event, Outcome, done, panic, exit, unfinished, M, ◌>>=◌, continue_with}
use iotit.Effects.Trace.{Grows, Grows-trans, Grows-mono, Runs, Returns, continue-Runs}

-- For each history there is one choice `k` such that the action adds only events in `P k`, however it
-- ends, and a value that it returns satisfies `Q k`.
abbrev pub RunsOne : {K A : Type 0} → (K → Event → Type 0) → (K → A → Type 0) → M A → Type 0
RunsOne {K = K} P Q m = (h : List Event) → (k : K) × Grows (P k) h (m h).1 × Returns (Q k) (m h).0

module _ {K : Type 0} (P : K → Event → Type 0) where
  pub RunsOne-of :
      {A : Type 0} (Q : K → A → Type 0) (k : K) (m : M A) → Runs (P k) (Q k) m → RunsOne P Q m
  RunsOne-of Q k m r h = let s = r h in (k, s.0, s.1)

  pub RunsOne-if :
      {A : Type 0} (Q : K → A → Type 0) (b : Bool) (m n : M A)
      → (b ≡ true → RunsOne P Q m)
      → (b ≡ false → RunsOne P Q n)
      → RunsOne P Q (iotit.Base.if◌then◌else◌ b m n)
  RunsOne-if Q true m n p q = p refl
  RunsOne-if Q false m n p q = q refl

  -- An action before the choice, which keeps to every choice.
  module _ (k0 : K) (P0 : Event → Type 0) (keeps : (k : K) (e : Event) → P0 e → P k e) where
    continue-before :
        {A B : Type 0} (Q0 : A → Type 0) (Q : K → B → Type 0) (o : Outcome A) (h t : List Event)
        (f : A → M B)
        → Grows P0 h t
        → Returns Q0 o
        → ((a : A) → Q0 a → RunsOne P Q (f a))
        → (k : K) × Grows (P k) h (continue_with o t f).1 × Returns (Q k) (continue_with o t f).0
    continue-before Q0 Q (done a) h t f g q p =
        let r = p a q t in (r.0, Grows-trans (P r.0) (Grows-mono P0 (P r.0) (keeps r.0) g) r.1, r.2)
    continue-before Q0 Q panic h t f g q p = (k0, Grows-mono P0 (P k0) (keeps k0) g, tt)
    continue-before Q0 Q (exit n) h t f g q p = (k0, Grows-mono P0 (P k0) (keeps k0) g, tt)
    continue-before Q0 Q unfinished h t f g q p = (k0, Grows-mono P0 (P k0) (keeps k0) g, tt)

    pub bind-before :
        {A B : Type 0} (Q0 : A → Type 0) (Q : K → B → Type 0) (m : M A) (f : A → M B)
        → Runs P0 Q0 m
        → ((a : A) → Q0 a → RunsOne P Q (f a))
        → RunsOne P Q (m >>= f)
    bind-before Q0 Q m f p k h = continue-before Q0 Q (m h).0 h (m h).1 f (p h).0 (p h).1 k

  -- An action after the choice, which keeps to the one that was made.
  pub bind-after :
      {A B : Type 0} (Q : K → A → Type 0) (R : K → B → Type 0) (m : M A) (f : A → M B)
      → RunsOne P Q m
      → ((k : K) (a : A) → Q k a → Runs (P k) (R k) (f a))
      → RunsOne P R (m >>= f)
  bind-after Q R m f p k h =
      let r = p h in
      let s = continue-Runs (P r.0) (Q r.0) (R r.0) (m h).0 h (m h).1 f r.1 r.2 (k r.0) in
      (r.0, s.0, s.1)

pub RunsOne-mono :
    {K A : Type 0} (P P' : K → Event → Type 0) (Q : K → A → Type 0) (m : M A)
    → ((k : K) (e : Event) → P k e → P' k e)
    → RunsOne P Q m
    → RunsOne P' Q m
RunsOne-mono P P' Q m f r h = let s = r h in (s.0, Grows-mono (P s.0) (P' s.0) (f s.0) s.1, s.2)
