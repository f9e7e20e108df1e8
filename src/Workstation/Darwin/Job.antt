-- ===== src/Workstation/Darwin/Job.antt =====
-- The goroutine of WriteToDisk of workstation/w_darwin.go: the commands that it runs.
use mathlib.Core.Path.{subst}
use iotit.Base.{
  ℕ, zero, suc, ◌<◌, String, Bool, true, false, Option, none, some, List, ◌∷◌, ◌≡◌, refl, ◌⊎◌, inl,
  inr, arith, Option-cases,
}
use iotit.Effects.{
  Event, asked, ran, M, Outcome, done, panic, exit, unfinished, continue_with, Env, host_exec,
  yes_no_dialog,
}
use iotit.Effects.Trace.{Grows, here, Runs, Runs-bind, Runs-if, Anything}
use iotit.Effects.Rules.{Runs-host_exec, Runs-yes_no_dialog}
use iotit.Workstation.Linux.Write.{may_try}
use iotit.Workstation.Defs.{Workstation}
use iotit.Workstation.Darwin.Write.{sudo_unmount_disk, dd, again_after, and_then, retry, run_job}

module _ (env : Env) where
  -- The last action of the history is a run of the command, whose call returned no error.
  abbrev pub EndsWith : List String → List Event → Type 0
  EndsWith args t = (g : List Event) × (t ≡ ran args ∷ g) × ((env.exec g args).err ≡ none)

  one_run-EndsWith :
      (args : List String) (next : String → M (Option String)) (g : List Event) {t : List Event}
      → ((m : String) → next m (ran args ∷ g) ≡ (done none, t) → EndsWith args t)
      → again_after (env.exec g args).err next (ran args ∷ g) ≡ (done none, t)
      → EndsWith args t
  one_run-EndsWith args next g k e = elim (Option-cases (env.exec g args).err) [
    | inl fine ↦ (g, ground arith, fine)
    | inr (m, failed) ↦ k m (rw failed at e)
  ]

  -- A loop of tries that ends without an error ends with a run whose call returned none.
  retry-EndsWith :
      (n : ℕ) (first : Bool) (err : Option String) (args : List String) (h : List Event)
      {t : List Event}
      → ((first ≡ true) × (0 < n)) ⊎ ((e : String) × (err ≡ some e))
      → retry env n first err args h ≡ (done none, t)
      → EndsWith args t
  unfolding retry host_exec yes_no_dialog
  retry-EndsWith zero first err args h s e = absurd (ground arith)
  retry-EndsWith (suc n) true err args h {t} s e =
      one_run-EndsWith args (λ m. retry env n false (some m) args) h {t = t}
        (λ m. retry-EndsWith n false (some m) args (ran args ∷ h) {t = t} (inr (m, refl))) e
  retry-EndsWith (suc n) false err args h {t} s e = elim (Option-cases (env.yes_no h "Continue?")) [
    | inl gone ↦ absurd (ground (arith, gone))
    | inr (false, stopped) ↦ absurd (ground (arith, stopped))
    | inr (true, going) ↦
        one_run-EndsWith args (λ m. retry env n false (some m) args) (asked "Continue?" ∷ h) {t = t}
          (λ m.
            retry-EndsWith n false (some m) args (ran args ∷ asked "Continue?" ∷ h) {t = t}
              (inr (m, refl)))
          (rw going at e)
  ]

  may_try-Grows : (first : Bool) → Runs Anything Anything (may_try env first)
  may_try-Grows true = λ h. (here, tt)
  may_try-Grows false = Runs-yes_no_dialog Anything env "Continue?" tt

  again_after-Grows :
      (err : Option String) (next : String → M (Option String))
      → ((e : String) → Runs Anything Anything (next e))
      → Runs Anything Anything (again_after err next)
  again_after-Grows none next k = λ h. (here, tt)
  again_after-Grows (some e) next k = k e

  -- Each history goes on from the one before it.
  retry-Grows :
      (n : ℕ) (first : Bool) (err : Option String) (args : List String)
      → Runs Anything Anything (retry env n first err args)
  unfolding retry
  retry-Grows zero first err args = λ h. (here, tt)
  retry-Grows (suc n) first err args =
      Runs-bind Anything Anything Anything (may_try env first) _ (may_try-Grows first) λ go _.
        Runs-if Anything Anything go _ _
          (λ e.
            Runs-bind Anything Anything Anything (host_exec env args) _
              (Runs-host_exec Anything env args tt)
              λ r _. again_after-Grows r.err _ (λ m. retry-Grows n false (some m) args))
          (λ e h. (here, tt))

  after_unmount :
      (o : Outcome (Option String)) (g : List Event) (next : M (Option String)) {t : List Event}
      → continue_with {B = Option String} o g (λ err. and_then err next) ≡ (done none, t)
      → (o ≡ done none) × (next g ≡ (done none, t))
  after_unmount (done none) g next e = (refl, e)
  after_unmount (done (some m)) g next e = absurd (ground arith)
  after_unmount panic g next e = absurd (ground arith)
  after_unmount (exit n) g next e = absurd (ground arith)
  after_unmount unfinished g next e = absurd (ground arith)

  -- In a job that reports no error, sudo.Exec returned no error, at some time, from an unmounting of
  -- the selected disk, and the last action, later, is a dd of the image onto its raw device, from
  -- which sudo.Exec returned no error either; that is no word about the exit status of the commands.
  pub run_job-EndsWith :
      (img : String) (d : Workstation) (h t : List Event)
      → run_job env img d h ≡ (done none, t)
      → (g : List Event) × EndsWith (sudo_unmount_disk d.mount.disk_name) g
        × Grows Anything g t
        × EndsWith (dd img d.mount.disk_name_raw) t
  unfolding run_job
  run_job-EndsWith img d h t e =
      let first = retry env 3 true none (sudo_unmount_disk d.mount.disk_name) h in
      let writing = retry env 3 true none (dd img d.mount.disk_name_raw) in
      let s = after_unmount first.0 first.1 writing {t = t} e in
      let g = (retry-Grows 3 true none (dd img d.mount.disk_name_raw) first.1).0 in
      (
        first.1,
        retry-EndsWith 3 true none (sudo_unmount_disk d.mount.disk_name) h {t = first.1}
            (inl (refl, omega arith)) (λ i. (s.0 i, first.1)),
        subst (λ r. Grows Anything first.1 r.1) s.1 g,
        retry-EndsWith 3 true none (dd img d.mount.disk_name_raw) first.1 {t = t}
            (inl (refl, omega arith)) s.1,
      )
