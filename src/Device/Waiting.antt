-- ===== src/Device/Waiting.antt =====
-- startVM of device/flasher.go: waiting for the virtual machine.
use iotit.Base.{ℕ, zero, suc, ◌<◌, ◌≤◌, true, some, List, ◌∷◌, ◌≡◌, arith, Bool-cases, inl, inr}
use iotit.Effects.{Event, ssh, done, ssh_run}
use iotit.Vbox.{Config}
use iotit.Device.Flasher.{remote}
use iotit.Device.Prepare.{Setting, is_quiet, wait_for_ssh}

-- The history after some tries.
abbrev pub tried : ℕ → List Event → List Event
tried zero h = h
tried (suc n) h = tried n (ssh "whoami" ∷ h)

module _ (c : Setting) (conf : Config) where
  -- Where the machine answers `whoami` without an error at one of the ticks, the wait ends, after as
  -- many tries as it took or fewer.
  pub wait_for_ssh-answered :
      (n ticks : ℕ) (h : List Event)
      → n < ticks
      → is_quiet (c.env.run (tried n h) "whoami") ≡ true
      → (k : ℕ) × (k ≤ n) × (wait_for_ssh c ticks (some conf) h ≡ (done tt, tried (suc k) h))
  unfolding wait_for_ssh remote ssh_run
  wait_for_ssh-answered n zero h p q = absurd (omega (arith, p))
  wait_for_ssh-answered zero (suc ticks) h p q = (0, omega arith, ground arith)
  wait_for_ssh-answered (suc n) (suc ticks) h p q =
      elim (Bool-cases (is_quiet (c.env.run h "whoami"))) [
        | inl e ↦ (0, omega arith, ground arith)
        | inr e ↦
            let r = wait_for_ssh-answered n ticks (ssh "whoami" ∷ h) (omega (arith, p)) q in
            (suc r.0, omega (arith, r.1), ground arith)
      ]
