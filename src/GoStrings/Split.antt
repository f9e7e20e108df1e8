-- ===== src/GoStrings/Split.antt =====
-- strings.Split: its pieces hold no separator, and joined by it they give the text again.
use Prim.Native.Char.{Char, code}
use iotit.Base.{
  ℕ, String, false, List, [], ◌∷◌, ◌++◌, ◌≡◌, refl, ap, ◌∙◌, arith, All, is_empty, Bool-cases, inl,
  inr, ◌==◌,
}
use iotit.GoStrings.{codes, push_head, split}

-- The characters of the pieces, with a separator between each two.
abbrev pub joined : ℕ → List String → List ℕ
joined k [] = []
joined k (f ∷ []) = codes f
joined k (f ∷ g ∷ fs) = codes f ++ (k ∷ joined k (g ∷ fs))

-- The text holds no separator.
abbrev pub Free : ℕ → String → Type 0
Free k f = All (λ c. ¬ (c ≡ k)) (codes f)

joined-push_head :
    (c : Char) (k : ℕ) (fs : List String) → joined k (push_head c fs) ≡ code c ∷ joined k fs
joined-push_head c k [] = refl
joined-push_head c k (f ∷ []) = refl
joined-push_head c k (f ∷ g ∷ fs) = refl

joined-cons :
    (k : ℕ) (fs : List String) → is_empty fs ≡ false → joined k ("" ∷ fs) ≡ k ∷ joined k fs
joined-cons k [] h = ground arith
joined-cons k (f ∷ fs) h = refl

All-push_head :
    (c : Char) (k : ℕ) (fs : List String)
    → ¬ (code c ≡ k)
    → All (Free k) fs
    → All (Free k) (push_head c fs)
All-push_head c k [] h p = ((h, tt), tt)
All-push_head c k (f ∷ fs) h p = ((h, p.0), p.1)

push_head-non_empty : (c : Char) (fs : List String) → is_empty (push_head c fs) ≡ false
push_head-non_empty c [] = refl
push_head-non_empty c (f ∷ fs) = refl

split-non_empty : (s : String) (sep : Char) → is_empty (split s sep) ≡ false
unfolding split
split-non_empty String.[] sep = refl
split-non_empty (String.◌∷◌ c s) sep = elim (Bool-cases (code c == code sep)) [
  | inl e ↦ rw (e, split) refl
  | inr e ↦ rw (e, split) (push_head-non_empty c (split s sep))
]

-- The pieces of a split text hold no separator, and joined by it they are the characters of the text.
pub split-joined :
    (s : String) (sep : Char)
    → (joined (code sep) (split s sep) ≡ codes s) × All (Free (code sep)) (split s sep)
unfolding split
split-joined String.[] sep = (refl, (tt, tt))
split-joined (String.◌∷◌ c s) sep =
    let r = split-joined s sep in
    elim (Bool-cases (code c == code sep)) [
      | inl e ↦
          rw (e, split)
            (
              joined-cons (code sep) (split s sep) (split-non_empty s sep) ∙ ground (arith, r.0),
              (tt, r.1),
            )
      | inr e ↦
          rw (e, split)
            (
              joined-push_head c (code sep) (split s sep) ∙ ap (λ t. code c ∷ t) r.0,
              All-push_head c (code sep) (split s sep) (λ same. ground arith) r.1,
            )
    ]
