-- ===== src/Cli/TailLog.antt =====
-- tailLog of iotit.go. A file is the list of its bytes. The number of lines is not negative.
use iotit.Base.{
  ℕ, zero, suc, ◌+◌, ◌-◌, Bool, true, false, ◌&&◌, Option, none, some, List, [], ◌∷◌, ◌++◌, length,
  get_elem?, ltb, ◌==◌, if◌then◌else◌,
}
pub mod Lines

-- What is printed before tailLog returns true, or that it returns false.
pub data Tail : Type 0 where
  printed : List ℕ → Tail
  nothing : Tail

-- The variables of the loop: `offset` without its sign, and the position after `finalReadStartPos`.
pub record Scan : Type 0 where
  pub offset : ℕ
  pub lines : ℕ
  pub start : ℕ
  pub bytes_read : ℕ

-- One look at the loop's state: its condition is false, Seek or ReadAt fails, the beginning of
-- the file is reached, or a byte is read.
pub data Look : Type 0 where
  stops : Look
  fails : Look
  at_start : Look
  reads : ℕ → Look

abbrev pub look_at : Option ℕ → Look
look_at none = fails
look_at (some b) = reads b

unfoldable pub look : List ℕ → ℕ → Scan → Look
look content n s =
    if ltb s.lines n
    then (if ltb (length content) s.offset
        then fails
        else if length content - s.offset == 0
        then at_start
        else look_at (get_elem? content (length content - s.offset)))
    else stops

-- The rest of the loop's body, for the byte that was read.
unfoldable pub next : List ℕ → Scan → ℕ → Scan
next content s b =
    let passed = record s { offset = s.offset + 1; bytes_read = s.bytes_read + 1 } in
    if s.offset == 1 && b == 10
    then passed
    else if b == 10
    then record passed { lines = s.lines + 1; start = (length content - s.offset) + 1 }
    else passed

-- How the loop ends.
pub data Scanned : Type 0 where
  found : Scan → Scanned
  broken : Scanned
  unfinished : Scanned

unfoldable pub scan : ℕ → List ℕ → ℕ → Scan → Scanned
scan zero content n s = unfinished
scan (suc fuel) content n s = elim (look content n s) [
  | stops ↦ found s
  | fails ↦ broken
  | at_start ↦ found (record s { start = 0 })
  | reads b ↦ scan fuel content n (next content s b)
]

abbrev pub drop : ℕ → List ℕ → List ℕ
drop zero xs = xs
drop (suc n) [] = []
drop (suc n) (x ∷ xs) = drop n xs

abbrev pub zeros : ℕ → List ℕ
zeros zero = []
zeros (suc n) = 0 ∷ zeros n

-- The read into a buffer of `bytes_read + 1` bytes. Only a read that reaches the end of the file is
-- printed, with all of the buffer.
unfoldable pub print_from : List ℕ → Scan → Tail
print_from content s =
    let rest = drop s.start content in
    if ltb (length rest) (s.bytes_read + 1)
    then printed (rest ++ zeros (s.bytes_read + 1 - length rest))
    else nothing

abbrev pub first_scan : Scan
first_scan = record { offset = 1; lines = 0; start = 1; bytes_read = 1 }

abbrev pub finish : List ℕ → Scanned → Tail
finish content (found s) = print_from content s
finish content broken = nothing
finish content unfinished = nothing

-- tailLog, for the file's content or the error of opening it. Each round of the loop goes one
-- byte back, so that the file's length and two rounds are enough fuel.
unfoldable pub tail_log : ℕ → Option (List ℕ) → Tail
unfolding scan print_from
tail_log zero file = nothing
tail_log (suc n) none = nothing
tail_log (suc n) (some content) =
    finish content (scan (length content + 2) content (suc n) first_scan)
