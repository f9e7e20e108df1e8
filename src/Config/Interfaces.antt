-- ===== src/Config/Interfaces.antt =====
-- `Interfaces` and `AskInterfaceParams` of device/config/configurator.go.
use iotit.Base.{ℕ, zero, suc, String, Bool, true, false, not, if◌then◌else◌, ◌==◌}
use iotit.Effects.{M, pure, give_up, ◌>>=◌, Env, yes_no_dialog, single_answer, ping}

pub record Interfaces : Type 0 where
  pub address : String
  pub gateway : String
  pub netmask : String
  pub dns : String

abbrev pub default_interfaces : Interfaces
default_interfaces = record {
  address = "192.168.0.254";
  netmask = "255.255.255.0";
  gateway = "192.168.0.1";
  dns = "192.168.0.1";
}

module _ (env : Env) where
  -- The loop `for retries > 0 && loop`: the last address asked for and the retries left. The
  -- goroutine that pings is waited for at once, so it runs in line.
  unfoldable pub ask_address : ℕ → Bool → String → M (String × ℕ)
  ask_address zero loop ip = pure (ip, 0)
  ask_address (suc retries) false ip = pure (ip, suc retries)
  ask_address (suc retries) true ip = do
    ip' ← single_answer env "IP address of the device: "
    free ← ping env ip'
    ask_address retries (not free) ip'

  unfoldable pub ask_rest : Interfaces → String → M Interfaces
  ask_rest i ip = do
    gateway ← single_answer env "Please enter your gateway: "
    netmask ← single_answer env "Please enter your netmask: "
    dns ← single_answer env "Please enter your dns server: "
    pure (record { address = ip; gateway = gateway; netmask = netmask; dns = dns })

  -- `fuel` bounds how often the user asks to try again.
  unfoldable pub ask_interface_params : ℕ → Interfaces → M Interfaces
  unfolding ask_rest
  ask_interface_params zero i = give_up
  ask_interface_params (suc fuel) i = do
    (ip, retries) ← ask_address 5 true ""
    again ← (if retries == 0 then yes_no_dialog env "Do you want to try again?" else pure false)
    elim again [ true ↦ ask_interface_params fuel i | false ↦ ask_rest i ip ]
