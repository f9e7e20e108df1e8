-- ===== src/Device/Colibri/Board.antt =====
-- The board of device/colibri.go, on its serial port. The pauses and read timeouts are left out.
use iotit.Base.{
  ℕ, zero, suc, String, Bool, false, ◌||◌, Option, none, some, List, ◌∷◌, str_eq, if◌then◌else◌,
}
use iotit.GoStrings.{trim_space, contains}
use iotit.Effects.{Event, sent, received, M, done, pure, give_up, ◌>>=◌, ◌>>◌, Env, yes_no_dialog}

-- The packages that the code calls for serial ports. A read gives the whole buffer, which is of
-- 10000 bytes, zero bytes included.
pub record Serial : Type 0 where
  pub auto_port : List Event → String × Option String  -- serialport.GetPort("auto")
  pub open_port : List Event → String → Option String
  pub read : List Event → String × Option String
  pub write : List Event → String → Option String

-- How often the loops go round that a user or the board can prolong, and how many rounds the
-- goroutine of bootInRecovery gets to after an error.
pub record Patience : Type 0 where
  pub asks : ℕ
  pub login : ℕ
  pub prompt : ℕ
  pub reset : ℕ
  pub after : ℕ

abbrev pub insert_card : String
insert_card = "Please insert prepared SD card into your Colibri iMX6 board. Type yes once ready."

abbrev pub has_prompt : String → Bool
has_prompt s = contains s "Colibri iMX6 #" || contains s "iMX6 #"

-- Whether a read of bootInRecovery ends its loop.
abbrev pub is_prompt : String × Option String → Bool
is_prompt (s, none) = has_prompt s
is_prompt (s, some e) = false

-- Whether a line of rebootBoard is the one that it waits for.
unfoldable pub is_login : String → Bool
is_login line = if str_eq line "" then false else contains line "imx6 login:"

module _ (io : Serial) where
  unfoldable pub receive : M (String × Option String)
  receive h = (done (io.read h), received ∷ h)

  -- `serialPort.Write([]byte(text))`
  unfoldable pub send : String → M (Option String)
  send text h = (done (io.write h text), sent text ∷ h)

  -- readResponse; its error is only logged
  unfoldable pub read_response : M String
  unfolding receive
  read_response = receive >>= λ r. pure (trim_space r.0)

  -- The loop of rebootBoard until the login prompt.
  unfoldable pub wait_login : ℕ → M (Unit {0})
  wait_login zero = give_up
  wait_login (suc n) =
      read_response >>= λ line. let next = wait_login n in if is_login line then pure tt else next

  abbrev pub once_more : Option String → M (Option String)
  once_more none = pure none
  once_more (some e) = send "\r\n"

  -- rebootBoard. What it does after the prompt stands in the loop, which it leaves by returning.
  unfoldable pub reboot_board : ℕ → M (Unit {0})
  unfolding wait_login
  reboot_board n = do
    err ← send "\r\n"
    once_more err
    wait_login n
    send "root\r\n"
    read_response
    read_response
    send "reboot\r\n"
    read_response
    read_response
    pure tt

  -- The goroutine of bootInRecovery after it has reported an error, until its next one.
  unfoldable pub boot_on : ℕ → M (Unit {0})
  boot_on zero = pure tt
  boot_on (suc left) = receive >>= λ r.
      let next = boot_on left in
      if is_prompt r
      then pure tt
      else (send " " >>= λ err. elim err [ none ↦ next | some e ↦ pure tt ])

  -- bootInRecovery, and WaitJobAndSpin for it: the first error that it reports.
  unfoldable pub boot_in_recovery : ℕ → ℕ → M (Option String)
  unfolding boot_on
  boot_in_recovery zero left = give_up
  boot_in_recovery (suc n) left = send " " >>= λ err. elim err [
    | some e ↦ boot_on left >>= λ _. pure (some e)
    | none ↦ receive >>= λ r.
        let next = boot_in_recovery n left in if is_prompt r then pure none else next
  ]

  -- The last loop of runUpdate.
  unfoldable pub wait_reset : ℕ → M (Unit {0})
  wait_reset zero = give_up
  wait_reset (suc n) = read_response >>= λ line.
      let next = wait_reset n in if contains line "resetting" then pure tt else next

  -- runUpdate from the command that starts it on
  unfoldable pub flash_emmc : ℕ → M (Option String)
  unfolding wait_reset
  flash_emmc n = do
    send "run setupdate\r\n"
    read_response
    read_response
    send "run update\r\n"
    read_response
    wait_reset n
    pure none

  abbrev pub after_boot : ℕ → Option String → M (Option String)
  after_boot n (some e) = pure (some e)
  after_boot n none = flash_emmc n

  module _ (env : Env) where
    -- `for !dialogs.YesNoDialog(…)`
    unfoldable pub ask_until_yes : ℕ → M (Unit {0})
    ask_until_yes zero = give_up
    ask_until_yes (suc n) = yes_no_dialog env insert_card >>= λ ready.
        let next = ask_until_yes n in if ready then pure tt else next

    -- runUpdate
    unfoldable pub run_update : Patience → M (Option String)
    unfolding ask_until_yes reboot_board boot_in_recovery flash_emmc
    run_update p = do
      ask_until_yes p.asks
      button ← yes_no_dialog env "Do you have a reset button on your carrier board?"
      (if button then pure tt else reboot_board p.login)
      failed ← boot_in_recovery p.prompt p.after
      after_boot p.reset failed
