-- ===== src/Workstation/Windows/Job.antt =====
-- The goroutine of WriteToDisk of workstation/w_windows.go: how a job without an error ends.
use iotit.Base.{
  ℕ, zero, suc, String, Bool, true, false, Option, none, some, List, ◌∷◌, ◌≡◌, refl, inl, inr,
  Bool-cases, Option-cases, if◌then◌else◌,
}
use iotit.GoStrings.{contains}
use iotit.Effects.{
  Event, ran, M, Outcome, done, panic, exit, unfinished, continue_with, pure, ◌>>=◌, Env, host_exec,
  yes_no_dialog,
}
use iotit.Workstation.Defs.{Workstation}
use iotit.Workstation.Windows.Disks.{Windows, Station}
use iotit.Workstation.Windows.Write.{
  dd, retry_question, not_flashed, on_error_text, after_dd, write_loop, run_job, write_attempts,
}

-- The last action is a dd of the image onto the disk, which succeeded and printed no "Error ".
abbrev pub WrittenTo : Env → String → String → String → List Event → Type 0
WrittenTo env path img disk t =
    (g : List Event) × (t ≡ ran (dd path img disk) ∷ g)
    × ((env.exec g (dd path img disk)).err ≡ none)
    × (contains (env.exec g (dd path img disk)).out "Error " ≡ false)

-- A loop without an error has written the mount that it leaves.
abbrev EndsWell :
    Env → String → String → Outcome (Workstation × Option String) × List Event → Type 0
EndsWell env path img (done (w, none), t) = WrittenTo env path img w.mount.disk_name t
EndsWell env path img (done (w, some e), t) = Unit
EndsWell env path img (panic, t) = Unit
EndsWell env path img (exit n, t) = Unit
EndsWell env path img (unfinished, t) = Unit

abbrev pub JobEndsWell :
    Env → String → String → Outcome (Station × Option String) × List Event → Type 0
JobEndsWell env path img (done (s, none), t) = WrittenTo env path img s.base.mount.disk_name t
JobEndsWell env path img (done (s, some e), t) = Unit
JobEndsWell env path img (panic, t) = Unit
JobEndsWell env path img (exit n, t) = Unit
JobEndsWell env path img (unfinished, t) = Unit

module _ (windows : Windows) (env : Env) (path img : String) where
  abbrev Good : M (Workstation × Option String) → Type 0
  Good m = (h : List Event) → EndsWell env path img (m h)

  continue-Good :
      {A : Type 0} (o : Outcome A) (t : List Event) (f : A → M (Workstation × Option String))
      → ((a : A) → Good (f a))
      → EndsWell env path img (continue_with o t f)
  continue-Good (done a) t f k = k a t
  continue-Good panic t f k = tt
  continue-Good (exit n) t f k = tt
  continue-Good unfinished t f k = tt

  not_flashed-Good : (err : Option String) (w : Workstation) → Good (pure (w, not_flashed err))
  not_flashed-Good none w h = tt
  not_flashed-Good (some e) w h = tt

  after_dd-Good :
      (asks : ℕ) (w : Workstation)
      (next : Option String → Workstation → M (Workstation × Option String))
      → ((err : Option String) (w' : Workstation) → Good (next err w'))
      → Good (
          host_exec env (dd path img w.mount.disk_name) >>= λ r. after_dd windows env asks r w next)
  unfolding host_exec
  after_dd-Good asks w next k h =
      let args = dd path img w.mount.disk_name in
      let r = env.exec h args in
      elim (Option-cases r.err) [
        | inr (e, failed) ↦ rw failed (k (some e) w (ran args ∷ h))
        | inl fine ↦ elim (Bool-cases (contains r.out "Error ")) [
          | inl told ↦
              rw (fine, told)
                (continue-Good (on_error_text windows env asks r.out w (ran args ∷ h)).0 _
                  (next none) (k none))
          | inr quiet ↦ rw (fine, quiet) (h, refl, fine, quiet)
        ]
      ]

  if-Good :
      (b : Bool) (m k : M (Workstation × Option String))
      → Good m
      → Good k
      → Good (if b then m else k)
  if-Good true m k p q = p
  if-Good false m k p q = q

  write_loop-Good :
      (asks attempts : ℕ) (first : Bool) (err : Option String) (w : Workstation)
      → Good (write_loop windows env asks attempts first err path img w)
  unfolding write_loop
  write_loop-Good asks zero first err w h = not_flashed-Good err w h
  write_loop-Good asks (suc attempts) first err w h =
      continue-Good ((if first then pure true else yes_no_dialog env retry_question) h).0 _ _ λ go.
        if-Good go _ _ (after_dd-Good asks w _ (write_loop-Good asks attempts false))
          (not_flashed-Good err w)

  set_base-JobEndsWell :
      (s : Station) (o : Outcome (Workstation × Option String)) (t : List Event)
      → EndsWell env path img (o, t)
      → JobEndsWell env path img (continue_with o t (λ r. pure ((record s { base = r.0 }), r.1)))
  set_base-JobEndsWell s (done (w, none)) t e = e
  set_base-JobEndsWell s (done (w, some m)) t e = tt
  set_base-JobEndsWell s panic t e = tt
  set_base-JobEndsWell s (exit n) t e = tt
  set_base-JobEndsWell s unfinished t e = tt

-- A writing job of Windows that reports no error ends with a dd of the image onto the disk that the
-- station then has as its mount; it succeeded, and nothing that it printed has the text "Error ".
pub run_job-JobEndsWell :
    (windows : Windows) (env : Env) (asks : ℕ) (img : String) (s : Station) (h : List Event)
    → JobEndsWell env s.dd_path img (run_job windows env asks img s h)
unfolding run_job
run_job-JobEndsWell windows env asks img s h =
    let r = write_loop windows env asks write_attempts true none s.dd_path img s.base h in
    set_base-JobEndsWell windows env s.dd_path img s r.0 r.1
      (write_loop-Good windows env s.dd_path img asks write_attempts true none s.base h)
