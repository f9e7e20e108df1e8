-- ===== src/Repository/Versions.antt =====
-- IsVersionUpToDate of repo/repository.go as an order on versions, and the pieces of a version.
use iotit.Base.{String, true, false, some, List, [], ◌∷◌, ◌≡◌, arith}
use iotit.Repository.{compare_lexems, get_version_lexem, is_version_up_to_date, separators}

compare_lexems_asym :
    (v1 v2 : List String) → compare_lexems v1 v2 ≡ some true → compare_lexems v2 v1 ≡ some false
unfolding compare_lexems
compare_lexems_asym [] [] h = ground arith
compare_lexems_asym [] (b ∷ v2) h = ground arith
compare_lexems_asym (a ∷ v1) [] h = ground arith
compare_lexems_asym (a ∷ v1) (b ∷ v2) h = ground (arith, compare_lexems_asym v1 v2)

compare_lexems_trans :
    (v1 v2 v3 : List String)
    → compare_lexems v1 v2 ≡ some true
    → compare_lexems v2 v3 ≡ some true
    → compare_lexems v1 v3 ≡ some true
unfolding compare_lexems
compare_lexems_trans [] v2 v3 h k = ground arith
compare_lexems_trans (a ∷ v1) [] v3 h k = ground arith
compare_lexems_trans (a ∷ v1) (b ∷ v2) [] h k = ground arith
compare_lexems_trans (a ∷ v1) (b ∷ v2) (c ∷ v3) h k = ground (arith, compare_lexems_trans v1 v2 v3)

-- A version that is newer than another is not reported as older than it: the answers for the two
-- orders of the versions are never both positive.
pub is_version_up_to_date_asym :
    (v1 v2 : String)
    → is_version_up_to_date v1 v2 ≡ some true
    → is_version_up_to_date v2 v1 ≡ some false
unfolding is_version_up_to_date
is_version_up_to_date_asym v1 v2 h =
    compare_lexems_asym (get_version_lexem v1 separators) (get_version_lexem v2 separators) h

-- Being newer is transitive, also where the versions have different numbers of pieces.
pub is_version_up_to_date_trans :
    (v1 v2 v3 : String)
    → is_version_up_to_date v1 v2 ≡ some true
    → is_version_up_to_date v2 v3 ≡ some true
    → is_version_up_to_date v1 v3 ≡ some true
unfolding is_version_up_to_date
is_version_up_to_date_trans v1 v2 v3 h k =
    compare_lexems_trans (get_version_lexem v1 separators) (get_version_lexem v2 separators)
      (get_version_lexem v3 separators) h k

compare_lexems_self : (v : List String) → compare_lexems v v ≡ some true → ⊥
unfolding compare_lexems
compare_lexems_self [] h = ground arith
compare_lexems_self (a ∷ v) h = ground (arith, compare_lexems_self v)

-- No version is up to date with respect to itself: where both versions are equal, the program
-- takes the installed one for outdated.
pub is_version_up_to_date_irrefl : (v : String) → ¬ (is_version_up_to_date v v ≡ some true)
unfolding is_version_up_to_date
is_version_up_to_date_irrefl v h = compare_lexems_self (get_version_lexem v separators) h
