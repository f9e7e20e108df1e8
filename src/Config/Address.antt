-- ===== src/Config/Address.antt =====
-- AskInterfaceParams of device/config/configurator.go: the address that is taken.
use iotit.Base.{ℕ, zero, suc, String, Bool, true, false, not, List, ◌≡◌, refl, arith}
use iotit.Effects.{Event, Env, single_answer, ping}
use iotit.Effects.Trace.{Runs, Runs-bind, Anything, here, more}
use iotit.Effects.Rules.{Runs-single_answer}
use iotit.Config.Interfaces.{ask_address}

-- Nobody answered a ping of the address.
abbrev pub Free : Env → String → Type 0
Free env ip = (g : List Event) × (env.ping_ip g ip ≡ true)

abbrev pub AnyEvent : Event → Type 0
AnyEvent e = Unit

abbrev pub FreeUnlessUsedUp : Env → String × ℕ → Type 0
FreeUnlessUsedUp env (ip, zero) = Unit
FreeUnlessUsedUp env (ip, suc left) = Free env ip

module _ (env : Env) where
  -- Where AskInterfaceParams has not used up its tries, the address that it takes is one whose ping
  -- found nobody.
  pub ask_address-Free :
      (retries : ℕ) (again : Bool) (ip : String)
      → (again ≡ false → Free env ip)
      → Runs AnyEvent (FreeUnlessUsedUp env) (ask_address env retries again ip)
  unfolding ask_address ping
  ask_address-Free zero again ip free = λ h. (here, tt)
  ask_address-Free (suc retries) false ip free = λ h. (here, free refl)
  ask_address-Free (suc retries) true ip free =
      Runs-bind AnyEvent Anything (FreeUnlessUsedUp env)
        (single_answer env "IP address of the device: ") _ (Runs-single_answer AnyEvent env _ tt)
        λ ip' _.
          Runs-bind AnyEvent (λ b. (b ≡ true) → Free env ip') (FreeUnlessUsedUp env) (ping env ip')
            _ (λ h. (more tt here, λ e. (h, e)))
            λ b found. ask_address-Free retries (not b) ip' (λ e. found (ground arith))
