-- ===== src/Cli/TailLog/Lines.antt =====
-- What tailLog of iotit.go prints, as lines of the file.
use iotit.Base.{
  ℕ, zero, suc, ◌+◌, ◌-◌, ◌<◌, ◌≤◌, false, some, List, [], ◌∷◌, ◌++◌, ◌≡◌, refl, ap, sym, ◌∙◌, ◌⊎◌,
  inl, inr, arith, length, get_elem?, ltb, ◌==◌, if◌then◌else◌, Bool-cases, ltb→lt, append-nil,
}
use iotit.Cli.TailLog.{
  Tail, printed, Scan, at_start, reads, look, next, Scanned, found, broken, unfinished, scan, drop,
  zeros, print_from, first_scan, finish, tail_log,
}

-- The newlines of a text, its last byte left out: one less than its lines.
abbrev pub inner_newlines : List ℕ → ℕ
inner_newlines [] = 0
inner_newlines (b ∷ []) = 0
inner_newlines (b ∷ c ∷ rest) = (if b == 10 then 1 else 0) + inner_newlines (c ∷ rest)

-- A text read backwards, in front of the text after it.
abbrev pub onto : List ℕ → List ℕ → List ℕ
onto [] post = post
onto (b ∷ before) post = onto before (b ∷ post)

length-onto : (before post : List ℕ) → length (onto before post) ≡ length before + length post
length-onto [] post = omega arith
length-onto (b ∷ before) post = omega (arith, length-onto before (b ∷ post))

get_elem?-onto :
    (before post : List ℕ) (i k : ℕ)
    → k ≡ length before + i
    → get_elem? (onto before post) k ≡ get_elem? post i
get_elem?-onto [] post i k e = ap (get_elem? post) (omega arith)
get_elem?-onto (b ∷ before) post i k e = get_elem?-onto before (b ∷ post) (suc i) k (omega arith)

drop-onto :
    (before post : List ℕ) (i k : ℕ)
    → k ≡ length before + i
    → drop k (onto before post) ≡ drop i post
drop-onto [] post i k e = ap (λ m. drop m post) (omega arith)
drop-onto (b ∷ before) post i k e = drop-onto before (b ∷ post) (suc i) k (omega arith)

-- A newline, or nothing, stands before.
abbrev pub StartsLine : List ℕ → Type 0
StartsLine [] = Unit
StartsLine (b ∷ before) = b ≡ 10

-- What the loop has found: the text `post`, after `before`.
pub record Found (n : ℕ) (content : List ℕ) (s : Scan) : Type 0 where
  pub before : List ℕ
  pub post : List ℕ
  pub parts : content ≡ onto before post
  pub starts : s.start ≡ length before
  pub fits : length post ≤ s.bytes_read
  pub lines : StartsLine before
  pub counted : ((before ≡ []) × (inner_newlines (drop 1 post) < n)) ⊎ (inner_newlines post + 1 ≡ n)

abbrev pub FoundAs : ℕ → List ℕ → Scanned → Type 0
FoundAs n content (found s) = Found n content s
FoundAs n content broken = ⊥
FoundAs n content unfinished = ⊥

-- The loop at the text `post`, with `before` still to go.
pub record At (n : ℕ) (content before post : List ℕ) (s : Scan) : Type 0 where
  pub parts : content ≡ onto before post
  pub offset_is : s.offset ≡ suc (length post)
  pub bytes_are : s.bytes_read ≡ suc (length post)
  pub lines_are : s.lines ≡ inner_newlines post
  pub few : s.lines < n

look-first :
    (n b : ℕ) (content post : List ℕ) (s : Scan)
    → At n content (b ∷ []) post s
    → look content n s ≡ at_start
unfolding look
look-first n b content post s a = ground (arith, a, length-onto (b ∷ []) post)

look-reads :
    (n b c : ℕ) (content before post : List ℕ) (s : Scan)
    → At n content (b ∷ c ∷ before) post s
    → look content n s ≡ reads b
unfolding look
look-reads n b c content before post s a = ground (
  arith,
  a,
  length-onto (b ∷ c ∷ before) post,
  ap length a.parts,
  get_elem?-onto (c ∷ before) (b ∷ post) 0 (length content - s.offset),
)

next-stops :
    (n b : ℕ) (content before post : List ℕ) (s : Scan)
    → At n content (b ∷ before) post s
    → ((next content s b).lines ≡ inner_newlines (b ∷ post))
      × ((next content s b).bytes_read ≡ suc (suc (length post)))
      × ((next content s b).offset ≡ suc (suc (length post)))
unfolding next
next-stops n b content before [] s a = ground (arith, a)
next-stops n b content before (c ∷ post) s a = ground (arith, a)

next-start :
    (n b : ℕ) (content before post : List ℕ) (s : Scan)
    → At n content (b ∷ before) post s
    → ¬ (inner_newlines (b ∷ post) < n)
    → (b ≡ 10) × (inner_newlines post + 1 ≡ n) × ((next content s b).start ≡ length (b ∷ before))
unfolding next
next-start n b content before [] s a h = ground (arith, a)
next-start n b content before (c ∷ post) s a h =
    ground (arith, a, ap length a.parts, length-onto (b ∷ before) (c ∷ post))

scan-stops :
    (fuel n : ℕ) (content : List ℕ) (s : Scan)
    → 0 < fuel
    → ltb s.lines n ≡ false
    → scan fuel content n s ≡ found s
unfolding scan look
scan-stops zero n content s p h = absurd (omega arith)
scan-stops (suc fuel) n content s p h = rw (h, scan) refl

scan-Found :
    (before post : List ℕ) (fuel n b : ℕ) (content : List ℕ) (s : Scan)
    → At n content (b ∷ before) post s
    → length before + 2 ≤ fuel
    → FoundAs n content (scan fuel content n s)
unfolding scan
scan-Found before post zero n b content s a f = absurd (omega arith)
scan-Found [] post (suc fuel) n b content s a f =
    rw (look-first n b content post s a, scan)
      (record {
        before = [];
        post = b ∷ post;
        parts = a.parts;
        starts = refl;
        fits = omega (arith, a.bytes_are);
        lines = tt;
        counted = inl (refl, omega (arith, a.lines_are, a.few));
      })
scan-Found (c ∷ before) post (suc fuel) n b content s a f =
    let t = next content s b in
    let e = next-stops n b content (c ∷ before) post s a in
    rw (look-reads n b c content before post s a, scan)
      (elim (Bool-cases (ltb (inner_newlines (b ∷ post)) n)) [
        | inl more ↦
            scan-Found before (b ∷ post) fuel n c content t
              (record {
                parts = a.parts;
                offset_is = e.2;
                bytes_are = e.1;
                lines_are = e.0;
                few = omega (arith, e.0, ltb→lt (inner_newlines (b ∷ post)) n more);
              })
              (omega (arith, f))
        | inr enough ↦
            let m : ¬ (inner_newlines (b ∷ post) < n) = λ p. ground arith in
            let q = next-start n b content (c ∷ before) post s a m in
            rw (scan-stops fuel n content t (omega (arith, f)) (rw e.0 enough)) (record {
              before = b ∷ c ∷ before;
              post = post;
              parts = a.parts;
              starts = q.2;
              fits = omega (arith, e.1);
              lines = q.0;
              counted = inr q.1;
            })
      ])

-- What tailLog prints of a text: all of `post`, and zero bytes after it.
pub record Printed (n : ℕ) (content : List ℕ) (t : Tail) : Type 0 where
  pub before : List ℕ
  pub post : List ℕ
  pub padding : ℕ
  pub parts : content ≡ onto before post
  pub prints : t ≡ printed (post ++ zeros padding)
  pub lines : StartsLine before
  pub counted : ((before ≡ []) × (inner_newlines (drop 1 post) < n)) ⊎ (inner_newlines post + 1 ≡ n)

print_from-Printed :
    (n : ℕ) (content : List ℕ) (r : Scanned)
    → FoundAs n content r
    → Printed n content (finish content r)
unfolding print_from
print_from-Printed n content broken f = absurd f
print_from-Printed n content unfinished f = absurd f
print_from-Printed n content (found s) f =
    let rest : drop s.start content ≡ f.post =
      ap (drop s.start) f.parts ∙ drop-onto f.before f.post 0 s.start (omega (arith, f.starts)) in
    record {
      before = f.before;
      post = f.post;
      padding = s.bytes_read + 1 - length f.post;
      parts = f.parts;
      prints = rw (rest, print_from) (ground (arith, f.fits));
      lines = f.lines;
      counted = f.counted;
    }

onto-onto : (xs acc post : List ℕ) → onto (onto xs acc) post ≡ onto acc (xs ++ post)
onto-onto [] acc post = refl
onto-onto (x ∷ xs) acc post = onto-onto xs (x ∷ acc) post

tail_log-backwards :
    (n : ℕ) (content before : List ℕ)
    → 0 < length content
    → content ≡ onto before []
    → Printed (suc n) content (tail_log (suc n) (some content))
unfolding tail_log
tail_log-backwards n content [] p e = absurd (omega (arith, p, ap length e))
tail_log-backwards n content (b ∷ before) p e =
    print_from-Printed (suc n) content (scan (length content + 2) content (suc n) first_scan) (
      scan-Found before [] (length content + 2) (suc n) b content first_scan
        (record {
          parts = e;
          offset_is = refl;
          bytes_are = refl;
          lines_are = refl;
          few = omega arith;
        })
        (omega (arith, ap length e, length-onto (b ∷ before) [])))

-- Of a log file that is not empty, tailLog prints an end that starts a line, byte for byte, and zero
-- bytes after it. The end has the number of lines that is asked for; or it is the whole file, which
-- then, its first byte left out, has at most as many.
pub tail_log-Printed :
    (n : ℕ) (content : List ℕ)
    → 0 < length content
    → Printed (suc n) content (tail_log (suc n) (some content))
tail_log-Printed n content p =
    tail_log-backwards n content (onto content []) p
      (sym (onto-onto content [] [] ∙ append-nil content))
