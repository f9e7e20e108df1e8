-- ===== src/Workstation/Linux/Job.antt =====
-- The job of WriteToDisk, Unmount and Eject: the commands that they run.
use iotit.Base.{
  ℕ, zero, suc, ◌+◌, ◌≤◌, String, Bool, true, false, Option, none, some, List, [], ◌∷◌, ◌≡◌, refl,
  ◌⊎◌, arith, if◌then◌else◌, Option-cases, inl, inr, ◌<◌, sym, ◌∙◌,
}
use iotit.Effects.{Event, asked, ran, M, Outcome, done, exit, Env, host_exec, yes_no_dialog}
use iotit.Workstation.Defs.{MountInfo, Workstation}
use iotit.Workstation.Linux.Write.{dd, after_dd, write_loop, run_job}

-- How many commands have been run on the host.
abbrev pub commands : List Event → ℕ
commands [] = 0
commands (ran args ∷ h) = suc (commands h)
commands (e ∷ h) = commands h

after_dd-commands :
    (n : ℕ) (r : Option String) (next : String → M (Option String)) (h : List Event)
    → ((e : String) (g : List Event) → commands (next e g).1 ≤ commands g + n)
    → commands (after_dd r next h).1 ≤ commands h + n
after_dd-commands n none next h k = omega arith
after_dd-commands n (some e) next h k = k e h

module _ (env : Env) (img : String) (mount : MountInfo) where
  abbrev dd_at : ℕ → List Event → Outcome (Option String) × List Event
  dd_at n h =
      after_dd (env.exec h (dd img mount.disk_name)).err
        (λ e. write_loop env n false (some e) img mount) (ran (dd img mount.disk_name) ∷ h)

  -- A round of the loop: the command runs, or the question before it ends the loop.
  write_loop-round :
      (n : ℕ) (first : Bool) (err : Option String) (h : List Event)
      → (write_loop env (suc n) first err img mount h
          ≡ dd_at n (if first then h else asked "Continue?" ∷ h))
        ⊎ ((first ≡ false)
            × ((write_loop env (suc n) first err img mount h).1 ≡ asked "Continue?" ∷ h)
            × (((write_loop env (suc n) first err img mount h).0 ≡ done err)
                ⊎ ((write_loop env (suc n) first err img mount h).0 ≡ exit 3)))
  unfolding write_loop host_exec yes_no_dialog
  write_loop-round n true err h = inl refl
  write_loop-round n false err h = elim (Option-cases (env.yes_no h "Continue?")) [
    | inl gone ↦ rw gone (inr (refl, refl, inr refl))
    | inr (true, going) ↦ rw going (inl refl)
    | inr (false, stopped) ↦ rw stopped (inr (refl, refl, inl refl))
  ]

  dd_at-commands :
      (n : ℕ) (h : List Event)
      → ((e : String) (g : List Event)
          → commands (write_loop env n false (some e) img mount g).1 ≤ commands g + n)
      → commands (dd_at n h).1 ≤ suc (commands h) + n
  dd_at-commands n h k =
      after_dd-commands n (env.exec h (dd img mount.disk_name)).err
        (λ e. write_loop env n false (some e) img mount) (ran (dd img mount.disk_name) ∷ h) k

  write_loop-commands :
      (n : ℕ) (first : Bool) (err : Option String) (h : List Event)
      → commands (write_loop env n first err img mount h).1 ≤ commands h + n
  unfolding write_loop
  write_loop-commands zero first err h = omega arith
  write_loop-commands (suc n) first err h =
      let g = (if first then h else asked "Continue?" ∷ h) in
      let k = dd_at-commands n g (λ e. write_loop-commands n false (some e)) in
      elim (write_loop-round n first err h) [
        | inl e ↦ rw e (ground (arith, k))
        | inr (f, e, r) ↦ rw e (omega arith)
      ]

  -- The end of a job that reports no error: the call that ran the command returned none.
  abbrev NoError : List Event → Type 0
  NoError t =
      (g : List Event) × (t ≡ ran (dd img mount.disk_name) ∷ g)
      × ((env.exec g (dd img mount.disk_name)).err ≡ none)

  dd_at-NoError :
      (n : ℕ) (g : List Event) {t : List Event}
      → ((e : String) (h : List Event)
          → write_loop env n false (some e) img mount h ≡ (done none, t)
          → NoError t)
      → dd_at n g ≡ (done none, t)
      → NoError t
  dd_at-NoError n g {t} k e = elim (Option-cases (env.exec g (dd img mount.disk_name)).err) [
    | inl fine ↦ (g, ground arith, fine)
    | inr (message, failed) ↦ k message (ran (dd img mount.disk_name) ∷ g) (rw failed at e)
  ]

  write_loop-NoError :
      (n : ℕ) (first : Bool) (err : Option String) (h : List Event) {t : List Event}
      → ((first ≡ true) × (0 < n)) ⊎ ((e : String) × (err ≡ some e))
      → write_loop env n first err img mount h ≡ (done none, t)
      → NoError t
  unfolding write_loop
  write_loop-NoError zero first err h s e = absurd (ground arith)
  write_loop-NoError (suc n) first err h {t} s e = elim (write_loop-round n first err h) [
    | inl r ↦
        dd_at-NoError n (if first then h else asked "Continue?" ∷ h) {t = t}
          (λ e' h' p. write_loop-NoError n false (some e') h' {t = t} (inr (e', refl)) p)
          (sym r ∙ e)
    | inr (f, l, r) ↦ absurd (ground arith)
  ]

module _ (env : Env) (img : String) (l : Workstation) where
  -- The job runs at most three commands.
  pub run_job-commands : (h : List Event) → commands (run_job env img l h).1 ≤ commands h + 3
  unfolding run_job
  run_job-commands h = write_loop-commands env img l.mount 3 true none h

  -- The last action of a job that reports no error is a dd of the image onto the selected disk, and
  -- sudo.Exec returned no error from it; that is no word about the exit status of dd.
  pub run_job-NoError :
      (h t : List Event)
      → run_job env img l h ≡ (done none, t)
      → (g : List Event) × (t ≡ ran (dd img l.mount.disk_name) ∷ g)
        × ((env.exec g (dd img l.mount.disk_name)).err ≡ none)
  unfolding run_job
  run_job-NoError h t e =
      write_loop-NoError env img l.mount 3 true none h {t = t} (inl (refl, omega arith)) e
