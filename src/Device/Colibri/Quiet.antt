-- ===== src/Device/Colibri/Quiet.antt =====
-- device/colibri.go: what the flasher does with the board runs no command on the host.
use iotit.Base.{ℕ, zero, suc, String, Bool, true, false, Option, none, some, str_eq, if◌then◌else◌}
use iotit.GoStrings.{contains, trim_space}
use iotit.Effects.{M, pure, give_up, ◌>>=◌, Env, yes_no_dialog}
use iotit.Effects.Trace.{here, more, Runs, Runs-bind, Anything}
use iotit.Effects.Rules.{Runs-yes_no_dialog}
use iotit.Workstation.Linux.Selection.{NotRan}
use iotit.Device.Colibri.Board.{
  Serial, Patience, insert_card, is_prompt, is_login, receive, send, read_response, wait_login,
  once_more, reboot_board, boot_on, boot_in_recovery, wait_reset, flash_emmc, after_boot,
  ask_until_yes, run_update,
}
use iotit.Device.Colibri.Defs.{
  Colibri, auto_port, check_port, set_port, no_ports, take_port, port_loop, get_port,
  port_selection_tries,
}

-- However it ends, the action runs no command on the host and writes no file.
pub record Still {A : Type 0} (m : M A) : Type 0 where
  pub runs : Runs NotRan Anything m

pub pure-Still : {A : Type 0} (a : A) → Still (pure a)
pure-Still a = record { runs = λ h. (here, tt) }

give_up-Still : {A : Type 0} → Still (give_up {A = A})
give_up-Still = record { runs = λ h. (here, tt) }

pub bind-Still :
    {A B : Type 0} {m : M A} {f : A → M B} → Still m → ((a : A) → Still (f a)) → Still (m >>= f)
bind-Still {m = m} {f = f} p q = record {
  runs = Runs-bind NotRan Anything Anything m f p.runs (λ a _. (q a).runs);
}

pub if-Still : {A : Type 0} (b : Bool) {m n : M A} → Still m → Still n → Still (if b then m else n)
if-Still true p q = p
if-Still false p q = q

module _ (io : Serial) where
  receive-Still : Still (receive io)
  unfolding receive
  receive-Still = record { runs = λ h. (more tt here, tt) }

  send-Still : (text : String) → Still (send io text)
  unfolding send
  send-Still text = record { runs = λ h. (more tt here, tt) }

  read_response-Still : Still (read_response io)
  unfolding read_response
  read_response-Still = bind-Still receive-Still λ r. pure-Still (trim_space r.0)

  wait_login-Still : (n : ℕ) → Still (wait_login io n)
  unfolding wait_login
  wait_login-Still zero = give_up-Still
  wait_login-Still (suc n) =
      bind-Still read_response-Still
        λ line. if-Still (is_login line) (pure-Still tt) (wait_login-Still n)

  once_more-Still : (err : Option String) → Still (once_more io err)
  once_more-Still none = pure-Still none
  once_more-Still (some e) = send-Still "\r\n"

  reboot_board-Still : (n : ℕ) → Still (reboot_board io n)
  unfolding reboot_board
  reboot_board-Still n = bind-Still (send-Still _) λ err. bind-Still (once_more-Still err) λ _.
      bind-Still (wait_login-Still n) λ _. bind-Still (send-Still _) λ _.
        bind-Still read_response-Still λ _. bind-Still read_response-Still λ _.
          bind-Still (send-Still _) λ _.
            bind-Still read_response-Still λ _. bind-Still read_response-Still λ _. pure-Still tt

  stop_on-Still :
      (err : Option String) (next : M (Unit {0}))
      → Still next
      → Still (elim err [ none ↦ next | some e ↦ pure tt ])
  stop_on-Still none next p = p
  stop_on-Still (some e) next p = pure-Still tt

  boot_on-Still : (left : ℕ) → Still (boot_on io left)
  unfolding boot_on
  boot_on-Still zero = pure-Still tt
  boot_on-Still (suc left) = bind-Still receive-Still λ r.
      if-Still (is_prompt r) (pure-Still tt) (
        bind-Still (send-Still " ") λ err. stop_on-Still err (boot_on io left) (boot_on-Still left))

  boot_in_recovery-Still : (n left : ℕ) → Still (boot_in_recovery io n left)
  unfolding boot_in_recovery
  boot_in_recovery-Still zero left = give_up-Still
  boot_in_recovery-Still (suc n) left =
      bind-Still (send-Still " ") λ err. sent_one err (boot_in_recovery-Still n left)
    where
      sent_one :
          (err : Option String)
          → Still (boot_in_recovery io n left)
          → Still (elim err [
            | some e ↦ boot_on io left >>= λ _. pure (some e)
            | none ↦
                receive io >>= λ r. if is_prompt r then pure none else boot_in_recovery io n left
          ])
      sent_one (some e) k = bind-Still (boot_on-Still left) λ _. pure-Still (some e)
      sent_one none k = bind-Still receive-Still λ r. if-Still (is_prompt r) (pure-Still none) k

  wait_reset-Still : (n : ℕ) → Still (wait_reset io n)
  unfolding wait_reset
  wait_reset-Still zero = give_up-Still
  wait_reset-Still (suc n) =
      bind-Still read_response-Still
        λ line. if-Still (contains line "resetting") (pure-Still tt) (wait_reset-Still n)

  after_boot-Still : (n : ℕ) (err : Option String) → Still (after_boot io n err)
  unfolding flash_emmc
  after_boot-Still n (some e) = pure-Still _
  after_boot-Still n none = bind-Still (send-Still _) λ _. bind-Still read_response-Still λ _.
      bind-Still read_response-Still λ _. bind-Still (send-Still _) λ _.
        bind-Still read_response-Still λ _. bind-Still (wait_reset-Still n) λ _. pure-Still none

  module _ (env : Env) where
    ask-Still : (q : String) → Still (yes_no_dialog env q)
    ask-Still q = record { runs = Runs-yes_no_dialog NotRan env q tt }

    ask_until_yes-Still : (n : ℕ) → Still (ask_until_yes io env n)
    unfolding ask_until_yes
    ask_until_yes-Still zero = give_up-Still
    ask_until_yes-Still (suc n) =
        bind-Still (ask-Still insert_card)
          λ ready. if-Still ready (pure-Still tt) (ask_until_yes-Still n)

    pub run_update-Still : (p : Patience) → Still (run_update io env p)
    unfolding run_update
    run_update-Still p = bind-Still (ask_until_yes-Still p.asks) λ _.
        bind-Still (ask-Still _) λ button.
          bind-Still (if-Still button (pure-Still tt) (reboot_board-Still p.login)) λ _.
            bind-Still (boot_in_recovery-Still p.prompt p.after) λ err. after_boot-Still p.reset err

    auto_port-Still : Still (auto_port env io)
    unfolding auto_port
    auto_port-Still = record { runs = λ h. (here, tt) }

    check_port-Still : (perr : Option String) (d : Colibri) → Still (check_port perr d)
    check_port-Still perr d = if-Still (str_eq d.port "") (pure-Still _) (pure-Still _)

    take_port-Still :
        (found : String × Option String) (perr : Option String) (d : Colibri)
        (next : Option String → M (Colibri × Option String))
        → ((err : Option String) → Still (next err))
        → Still (take_port env io found perr d next)
    take_port-Still (port, some e) perr d next k = k (some e)
    take_port-Still (port, none) perr d next k = check_port-Still perr (set_port port d)

    port_loop-Still :
        (n : ℕ) (first : Bool) (perr : Option String) (d : Colibri)
        → Still (port_loop env io n first perr d)
    unfolding port_loop
    port_loop-Still zero first perr d = check_port-Still perr d
    port_loop-Still (suc n) first perr d =
        bind-Still (if-Still first (pure-Still true) (ask-Still no_ports)) λ go.
          if-Still go
            (bind-Still auto_port-Still
              λ found. take_port-Still found perr d _ (λ err. port_loop-Still n false err d))
            (pure-Still _)

    pub get_port-Still : (d : Colibri) → Still (get_port env io d)
    unfolding get_port
    get_port-Still d =
        if-Still (str_eq d.port "") (port_loop-Still port_selection_tries true none d)
          (pure-Still _)
