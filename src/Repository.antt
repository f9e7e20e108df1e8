-- ===== src/Repository.antt =====
-- repo/repository.go: versions and names of releases.
use Prim.Native.Char.{Char, code}
use Prim.Native.String.{char_at}
use iotit.Base.{
  ℕ, zero, suc, ◌+◌, ◌-◌, ◌*◌, ◌^◌, String, Bool, true, false, ◌&&◌, ◌||◌, Option, none, some, List,
  [], ◌∷◌, ◌++◌, ltb, leb, ◌==◌, if◌then◌else◌, last,
}
use iotit.GoStrings.{split}
pub mod Versions
pub mod Release
pub mod Downgrade

abbrev pub letter : String → Char
letter s = char_at s 0

-- one round of the loop over the separators: each lexeme is split, the pieces joined in order
unfoldable pub split_all : List String → Char → List String
split_all [] sep = []
split_all (lex ∷ lexs) sep = split lex sep ++ split_all lexs sep

further : List String → List Char → List String
unfolding split_all
further lexs [] = lexs
further lexs (sep ∷ seps) = further (split_all lexs sep) seps

-- getVersionLexem
unfoldable pub get_version_lexem : String → List Char → List String
unfolding further
get_version_lexem token [] = []
get_version_lexem token (sep ∷ seps) = further (split token sep) seps

is_digit : ℕ → Bool
is_digit c = leb b'0' c && leb c b'9'

digits : String → ℕ → Option ℕ
unfolding is_digit
digits String.[] n = some n
digits (String.◌∷◌ c s) n =
    let rest = digits s (n * 10 + (code c - b'0')) in if is_digit (code c) then rest else none

unsigned : String → Option ℕ
unfolding digits
unsigned String.[] = none
unsigned (String.◌∷◌ c s) = elim (digits (String.◌∷◌ c s) 0) [
  | some n ↦ if ltb n (2 ^ 63) then some n else none
  | none ↦ none
]

-- strconv.Atoi, for a text with no `-`: a lexeme has none, since versions are split at it
unfoldable pub atoi : String → Option ℕ
unfolding unsigned
atoi String.[] = none
atoi (String.◌∷◌ c s) = if code c == b'+' then unsigned s else unsigned (String.◌∷◌ c s)

-- The loop of IsVersionUpToDate. `none` is an error of Atoi.
unfoldable pub compare_lexems : List String → List String → Option Bool
compare_lexems (a ∷ v1) (b ∷ v2) = elim (atoi a) [
  | none ↦ none
  | some n1 ↦ elim (atoi b) [
    | none ↦ none
    | some n2 ↦ let rest = compare_lexems v1 v2 in if n1 == n2 then rest else some (ltb n2 n1)
  ]
]
compare_lexems _ _ = some false

abbrev pub separators : List Char
separators = letter "." ∷ letter "_" ∷ letter "-" ∷ []

unfoldable pub is_version_up_to_date : String → String → Option Bool
unfolding compare_lexems get_version_lexem
is_version_up_to_date v1 v2 =
    compare_lexems (get_version_lexem v1 separators) (get_version_lexem v2 separators)

-- the class `[\d|_]`
in_class : ℕ → Bool
unfolding is_digit
in_class c = is_digit c || c == b'|' || c == b'_'

-- The match of `^[\d|_]+\.[\d|_]+\.[\d|_]+$`, with the dots still to come and whether the part
-- being read has a character. A dot is in no part, so the match never goes back.
match_parts : ℕ → Bool → String → Bool
unfolding in_class
match_parts zero seen String.[] = seen
match_parts (suc dots) seen String.[] = false
match_parts zero seen (String.◌∷◌ c s) = in_class (code c) && match_parts zero true s
match_parts (suc dots) seen (String.◌∷◌ c s) =
    if in_class (code c)
    then match_parts (suc dots) true s
    else (code c == b'.' && seen && match_parts dots false s)

unfoldable pub current_release : String → String
unfolding match_parts
current_release version = if match_parts 2 false version then "stable" else "latest"

-- `Name` of both repositories: the last piece of the URL
unfoldable pub last_token : List String → String
last_token [] = ""
last_token (t ∷ ts) = last t ts

unfoldable pub repository_name : String → String
unfolding last_token
repository_name url = last_token (split url (letter "/"))
