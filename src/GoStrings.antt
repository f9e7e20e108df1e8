-- ===== src/GoStrings.antt =====
-- What the program uses of Go's package strings. The letters that change case are the ASCII ones;
-- the other characters of the program's own texts have no case.
use Prim.Native.Char.{Char, code}
use Prim.Native.String.{char_at}
use text.Mathlib.Text.{starts_with}
use iotit.Base.{
  ℕ, zero, suc, ◌-◌, ◌/◌, ◌%◌, String, ◌<>◌, Bool, ◌&&◌, ◌||◌, List, [], ◌∷◌, ltb, leb, ◌==◌,
  str_eq, if◌then◌else◌,
}
pub mod Split

abbrev letters : String
letters = "abcdefghijklmnopqrstuvwxyz"

lower : Char → Char
lower c = if leb b'A' (code c) && leb (code c) b'Z' then char_at letters (code c - b'A') else c

-- strings.ToLower
unfoldable pub to_lower : String → String
unfolding lower
to_lower String.[] = String.[]
to_lower (String.◌∷◌ c s) = String.◌∷◌ (lower c) (to_lower s)

-- strings.Contains
unfoldable pub contains : String → String → Bool
contains String.[] t = str_eq t ""
contains (String.◌∷◌ c s) t = starts_with (String.◌∷◌ c s) t || contains s t

-- strings.HasSuffix
unfoldable pub has_suffix : String → String → Bool
has_suffix String.[] t = str_eq t ""
has_suffix (String.◌∷◌ c s) t = str_eq (String.◌∷◌ c s) t || has_suffix s t

-- unicode.IsSpace, on the Latin-1 range
is_space : ℕ → Bool
is_space c = leb 9 c && leb c 13 || c == 32 || c == 133 || c == 160

trim_left : (ℕ → Bool) → String → String
trim_left p String.[] = String.[]
trim_left p (String.◌∷◌ c s) =
    let rest = trim_left p s in if p (code c) then rest else String.◌∷◌ c s

trim_right : (ℕ → Bool) → String → String
trim_right p String.[] = String.[]
trim_right p (String.◌∷◌ c s) =
    let rest = trim_right p s in if p (code c) && str_eq rest "" then "" else String.◌∷◌ c rest

-- strings.Trim, for the characters that a test accepts
unfoldable pub trim : (ℕ → Bool) → String → String
unfolding trim_left trim_right
trim p s = trim_right p (trim_left p s)

-- strings.TrimSpace
unfoldable pub trim_space : String → String
unfolding trim is_space
trim_space s = trim is_space s

-- strconv.FormatInt of a number below 10 ^ places
unfoldable pub format_nat : ℕ → ℕ → String
format_nat zero n = ""
format_nat (suc places) n =
    let front = format_nat places (n / 10) in
    (if ltb n 10 then "" else front) <> String.◌∷◌ (char_at "0123456789" (n % 10)) ""

-- strings.Split with a separator of one character, over the characters' numbers
abbrev pub codes : String → List ℕ
codes String.[] = []
codes (String.◌∷◌ c s) = code c ∷ codes s

-- the text up to the first separator and the rest: one step of the fields below
abbrev pub push_head : Char → List String → List String
push_head c [] = String.◌∷◌ c "" ∷ []
push_head c (f ∷ fs) = String.◌∷◌ c f ∷ fs

unfoldable pub split : String → Char → List String
split String.[] sep = "" ∷ []
split (String.◌∷◌ c s) sep =
    let rest = split s sep in if code c == code sep then "" ∷ rest else push_head c rest
