-- ===== src/Vbox/Update.antt =====
-- CheckUpdate of vbox/machine.go: the comparison of versions.
use Prim.Native.String.{count}
use iotit.Base.{ℕ, zero, suc, ◌-◌, String, ◌<>◌, Bool, Option, none, some, List, [], ◌∷◌, ltb}
use iotit.GoStrings.{split}
use iotit.Repository.{atoi, letter}

zeros : ℕ → String
zeros zero = ""
zeros (suc n) = "0" <> zeros n

-- `fmt.Sprintf("%0<width>s", value)`
unfoldable pub pad : ℕ → String → String
unfolding zeros
pad width value = zeros (width - count value) <> value

-- the loop over `strList`
unfoldable pub join_padded : ℕ → String → List String → String
join_padded width v [] = v
join_padded width v (value ∷ values) = join_padded width (v <> pad width value) values

-- The function `comparison`. strconv.ParseInt(v, 10, 64) of a text with no sign is Atoi.
unfoldable pub comparison : String → ℕ → Option ℕ
unfolding join_padded pad
comparison s width = atoi (join_padded width "" (split s (letter ".")))

-- The end of CheckUpdate: `none` is an exit on an error.
unfoldable pub needs_update : String → String → Option Bool
unfolding comparison
needs_update current new = elim (comparison current 3) [
  | none ↦ none
  | some c ↦ elim (comparison new 3) [ none ↦ none | some n ↦ some (ltb c n) ]
]
