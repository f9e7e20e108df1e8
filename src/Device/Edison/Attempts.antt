-- ===== src/Device/Edison/Attempts.antt =====
-- Write of device/edison_posix.go: the tries.
use iotit.Base.{ℕ, zero, suc, true, false, none, List, ◌∷◌, ◌≡◌, refl, ◌⊎◌, inl, inr, Option-cases}
use iotit.Effects.{
  Event, ran, asked, Outcome, done, panic, exit, unfinished, Env, host_exec, yes_no_dialog,
}
use iotit.Device.Edison.{flash_all, reconnect, write_loop}

-- How a run of the loop ends.
abbrev pub EndsAs : Env → Outcome (Unit {0}) × List Event → Type 0
EndsAs env (done r, t) =
    (g : List Event) × (t ≡ ran flash_all ∷ g) × ((env.exec g flash_all).err ≡ none)
EndsAs env (panic, t) = ⊥
EndsAs env (exit n, t) = (n ≡ 2) ⊎ (n ≡ 3)
EndsAs env (unfinished, t) = Unit

module _ (env : Env) where
  -- The loop of Write ends only with a run of the flashing script that succeeded, its last action;
  -- or it ends the program, with status 2 or, without an answer, 3. It does not panic.
  pub write_loop-EndsAs : (n : ℕ) (h : List Event) → EndsAs env (write_loop env n h)
  unfolding write_loop host_exec yes_no_dialog
  write_loop-EndsAs zero h = tt
  write_loop-EndsAs (suc n) h = elim (Option-cases (env.exec h flash_all).err) [
    | inl fine ↦ rw fine (h, refl, fine)
    | inr (e, failed) ↦ rw failed (elim (Option-cases (env.yes_no (ran flash_all ∷ h) reconnect)) [
      | inl gone ↦ rw gone (inr refl)
      | inr (true, go) ↦ rw go (write_loop-EndsAs n (asked reconnect ∷ ran flash_all ∷ h))
      | inr (false, stop) ↦ rw stop (inl refl)
    ])
  ]
