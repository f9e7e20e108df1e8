-- ===== src/Vbox/Stopping.antt =====
-- StopMachines of vbox/machine.go: which machines it powers off.
use iotit.Base.{
  String, Bool, true, false, Option, none, some, List, [], ◌∷◌, ◌≡◌, refl, inl, inr, Any,
  if◌then◌else◌,
}
use iotit.Effects.{Event, powered_off, M, pure, Env}
use iotit.Effects.Trace.{Runs, Runs-bind, Runs-if, Runs-mono, Anything, here, more}
use iotit.Effects.Rules.{Runs-yes_no_dialog}
use iotit.Vbox.Defs.{Machine, VirtualBox, machine_off}
use iotit.Vbox.Settings.{is_running}
use iotit.Vbox.Machines.{stop_question, ask_stop, next_machine, stop_loop}

-- The machine is powered off, if the event is that, only if it is one of these, running, and not quiet.
abbrev pub OnlyRunning : Bool → List Machine → Event → Type 0
OnlyRunning quiet ms (powered_off uuid) =
    (quiet ≡ false) × Any (λ (m : Machine). (m.uuid ≡ uuid) × (is_running m.state ≡ true)) ms
OnlyRunning quiet ms _ = Unit

OnlyRunning-cons :
    (quiet : Bool) (m : Machine) (ms : List Machine) (e : Event)
    → OnlyRunning quiet ms e
    → OnlyRunning quiet (m ∷ ms) e
OnlyRunning-cons quiet m ms (powered_off uuid) p = (p.0, inr p.1)
OnlyRunning-cons quiet m ms _ p = tt

abbrev Fine : Option String → Type 0
Fine o = Unit

module _ (env : Env) (vb : VirtualBox) where
  ask_stop-OnlyRunning :
      (quiet : Bool) (m : Machine) (ms : List Machine)
      → is_running m.state ≡ true
      → Runs (OnlyRunning quiet (m ∷ ms)) Anything (ask_stop env vb quiet m)
  unfolding ask_stop machine_off
  ask_stop-OnlyRunning true m ms p = λ h. (here, tt)
  ask_stop-OnlyRunning false m ms p =
      Runs-bind (OnlyRunning false (m ∷ ms)) Anything Anything _ _
        (Runs-yes_no_dialog (OnlyRunning false (m ∷ ms)) env (stop_question env vb m) tt)
        λ go _.
          Runs-if (OnlyRunning false (m ∷ ms)) Anything go _ _
            (λ e h. (more (refl, inl (refl, p)) here, tt)) (λ e h. (here, tt))

  stop_first-OnlyRunning :
      (quiet : Bool) (m : Machine) (ms : List Machine)
      → Runs
          (OnlyRunning quiet (m ∷ ms))
          Anything
          (if is_running m.state then ask_stop env vb quiet m else pure none)
  stop_first-OnlyRunning quiet m ms =
      Runs-if (OnlyRunning quiet (m ∷ ms)) Anything (is_running m.state) _ _
        (ask_stop-OnlyRunning quiet m ms) (λ e h. (here, tt))

  next_machine-OnlyRunning :
      (quiet : Bool) (ms : List Machine) (err : Option String) (rest : M (Option String))
      → Runs (OnlyRunning quiet ms) Anything rest
      → Runs (OnlyRunning quiet ms) Anything (next_machine env vb err rest)
  unfolding next_machine
  next_machine-OnlyRunning quiet ms (some e) rest p = λ h. (here, tt)
  next_machine-OnlyRunning quiet ms none rest p = p

  -- The loop of StopMachines powers off only machines of the list that are running, and with -quiet
  -- none at all.
  pub stop_loop-OnlyRunning :
      (quiet : Bool) (ms : List Machine)
      → Runs (OnlyRunning quiet ms) Anything (stop_loop env vb quiet ms)
  unfolding stop_loop
  stop_loop-OnlyRunning quiet [] = λ h. (here, tt)
  stop_loop-OnlyRunning quiet (m ∷ ms) =
      Runs-bind (OnlyRunning quiet (m ∷ ms)) Anything Anything
        (if is_running m.state then ask_stop env vb quiet m else pure none)
        (λ err. next_machine env vb err (stop_loop env vb quiet ms))
        (stop_first-OnlyRunning quiet m ms)
        λ err _. next_machine-OnlyRunning quiet (m ∷ ms) err (stop_loop env vb quiet ms) (
          Runs-mono (OnlyRunning quiet ms) (OnlyRunning quiet (m ∷ ms)) Anything _
            (OnlyRunning-cons quiet m ms) (stop_loop-OnlyRunning quiet ms))
