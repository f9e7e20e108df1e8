-- ===== src/Vbox/Saved.antt =====
-- vbox/vbox.go: what WriteToFile has saved, FromJSON reads.
use Prim.Native.Char.{Char, code}
use Prim.Native.String.{char_at}
use text.Mathlib.TextLemmas.{nil-append, cons-append, append_assoc}
use iotit.Base.{
  ℕ, ◌<◌, ltb, map, String, ◌<>◌, Option, none, some, List, [], ◌∷◌, ◌++◌, ◌≡◌, refl, ap, sym, ◌∙◌,
  arith, inl, inr, Bool-cases, str_eq, eq_iff, ◌==◌, All, append-nil, append_cons,
}
use iotit.Vbox.Defs.{Config}
use iotit.Vbox.Json.{
  Json, byte_length, max_token, scanned, raw_lines, drop_return, lines_of, to_json, write_to_file,
  read_configs, from_json,
}

abbrev newline : Char
newline = char_at "\n" 0

-- A text of one line: no line feed or carriage return in it.
abbrev pub IsLine : String → Type 0
IsLine String.[] = Unit
IsLine (String.◌∷◌ c s) = ¬ (code c ≡ 10) × ¬ (code c ≡ 13) × IsLine s

-- A Config with another connection.
abbrev pub with_ssh : Option ℕ → Config → Config
with_ssh ssh c = record c { ssh = ssh }

-- What the code relies on of encoding/json, for a Config: it is marshalled into a text of one line,
-- which is not empty, and unmarshalling that text gives all the fields of the Config but `ssh`, whose
-- reference stays. The line is one that a Scanner takes.
pub record IsSaved (json : Json) (c : Config) : Type 0 where
  pub text : String
  pub marshals : json.marshal c ≡ some text
  pub line : IsLine text
  pub some_text : ¬ (text ≡ "")
  pub short : byte_length text < max_token
  pub unmarshals : (vc : Config) → json.unmarshal text vc ≡ with_ssh vc.ssh c

raw_lines-line : (t rest : String) → IsLine t → raw_lines (t <> ("\n" <> rest)) ≡ t ∷ raw_lines rest
unfolding raw_lines
raw_lines-line String.[] rest p =
    rw (nil-append ("\n" <> rest), cons-append (newline) "" rest, nil-append rest) refl
raw_lines-line (String.◌∷◌ c t) rest p = elim (Bool-cases (code c == 10)) [
  | inl e ↦ absurd (p.0 (ground arith))
  | inr e ↦ rw (cons-append c t ("\n" <> rest), e, raw_lines, raw_lines-line t rest p.2) refl
]

drop_return-line : (t : String) → IsLine t → drop_return t ≡ t
unfolding drop_return
drop_return-line String.[] p = refl
drop_return-line (String.◌∷◌ c String.[]) p = ground (arith, p.1)
drop_return-line (String.◌∷◌ c (String.◌∷◌ d t)) p =
    ap (λ r. String.◌∷◌ c r) (drop_return-line (String.◌∷◌ d t) p.2)

one_line :
    (t rest : String)
    → IsLine t
    → byte_length t < max_token
    → lines_of (some (t <> ("\n" <> rest))) ≡ t ∷ lines_of (some rest)
unfolding scanned
one_line t rest p short = elim (Bool-cases (ltb (byte_length t) max_token)) [
  | inl fits ↦ rw (raw_lines-line t rest p, fits, drop_return-line t p) refl
  | inr long ↦ absurd (ground (arith, long))
]

-- One Config after another is saved.
abbrev pub save_all : Json → List Config → Option String → Option String
save_all json [] file = file
save_all json (c ∷ cs) file = save_all json cs (write_to_file json c file)

-- The text of a file with the given lines.
document : List String → String
document [] = ""
document (t ∷ ts) = t <> ("\n" <> document ts)

document-snoc :
    (ts : List String) (t : String) → document ts <> (t <> "\n") ≡ document (ts ++ (t ∷ []))
unfolding document
document-snoc [] t = nil-append (t <> "\n")
document-snoc (u ∷ ts) t =
    append_assoc u ("\n" <> document ts) (t <> "\n")
    ∙ ap (λ r. u <> r) (append_assoc "\n" (document ts) (t <> "\n"))
    ∙ ap (λ r. u <> ("\n" <> r)) (document-snoc ts t)

module _ (json : Json) where
  abbrev texts : (cs : List Config) → All (IsSaved json) cs → List String
  texts [] saved = []
  texts (c ∷ cs) saved = saved.0.text ∷ texts cs saved.1

  from_json-document :
      (cs : List Config) (saved : All (IsSaved json) cs) (vc : Config)
      → from_json json vc (some (document (texts cs saved))) ≡ map (with_ssh vc.ssh) cs
  unfolding from_json read_configs document raw_lines scanned
  from_json-document [] saved vc = refl
  from_json-document (c ∷ cs) saved vc =
      rw
        (
          one_line saved.0.text (document (texts cs saved.1)) saved.0.line saved.0.short,
          saved.0.unmarshals vc,
        )
        (ap (λ l. with_ssh vc.ssh c ∷ l) (from_json-document cs saved.1 (with_ssh vc.ssh c)))

  write_to_file-document :
      (ts : List String) (c : Config) (s : IsSaved json c)
      → write_to_file json c (some (document ts)) ≡ some (document (ts ++ (s.text ∷ [])))
  unfolding write_to_file to_json
  write_to_file-document ts c s = rw (s.marshals) (ap some (document-snoc ts s.text))

  save_all-document :
      (cs : List Config) (saved : All (IsSaved json) cs) (ts : List String)
      → save_all json cs (some (document ts)) ≡ some (document (ts ++ texts cs saved))
  save_all-document [] saved ts = ap (λ l. some (document l)) (sym (append-nil ts))
  save_all-document (c ∷ cs) saved ts = rw (write_to_file-document ts c saved.0) (
      save_all-document cs saved.1 (ts ++ (saved.0.text ∷ []))
      ∙ ap (λ l. some (document l)) (append_cons ts saved.0.text (texts cs saved.1)))

  first_save :
      (c : Config) (s : IsSaved json c) → write_to_file json c none ≡ some (document (s.text ∷ []))
  unfolding write_to_file to_json document
  first_save c s = elim (Bool-cases (str_eq s.text "")) [
    | inl e ↦ absurd (s.some_text ((eq_iff s.text "").0 e))
    | inr e ↦ rw (s.marshals, e) refl
  ]

  -- What WriteToFile saves, one Config after another from a file that is not there, FromJSON reads,
  -- in the order of the saving, whatever Config it starts from, whose connection they all get. Each of
  -- them is marshalled into one line of less than 64 KiB, from which it can be unmarshalled.
  pub from_json-save_all :
      (cs : List Config) (vc : Config)
      → All (IsSaved json) cs
      → from_json json vc (save_all json cs none) ≡ map (with_ssh vc.ssh) cs
  unfolding from_json read_configs
  from_json-save_all [] vc saved = refl
  from_json-save_all (c ∷ cs) vc saved =
      rw (first_save c saved.0, save_all-document cs saved.1 (saved.0.text ∷ []))
        (from_json-document (c ∷ cs) saved vc)
