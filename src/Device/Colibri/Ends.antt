-- ===== src/Device/Colibri/Ends.antt =====
-- The loops of device/colibri.go that wait for the user and for the board.
use iotit.Base.{
  ℕ, zero, suc, String, Bool, true, false, Option, none, some, List, ◌∷◌, ◌≡◌, refl, arith,
  Bool-cases, inl, inr, if◌then◌else◌,
}
use iotit.GoStrings.{trim_space, contains}
use iotit.Effects.{Event, sent, received, asked, M, done, ◌>>=◌, pure, Env, yes_no_dialog}
use iotit.Device.Colibri.Board.{
  Serial, Patience, insert_card, is_prompt, is_login, receive, send, read_response, wait_login,
  once_more, reboot_board, boot_in_recovery, wait_reset, flash_emmc, ask_until_yes, run_update,
}

abbrev pub iterate : ℕ → (List Event → List Event) → List Event → List Event
iterate zero f h = h
iterate (suc n) f h = iterate n f (f h)

abbrev pub read_one : List Event → List Event
read_one h = received ∷ h

abbrev pub knock : List Event → List Event
knock h = received ∷ sent " " ∷ h

abbrev pub ask : List Event → List Event
ask h = asked insert_card ∷ h

-- A user who answers and at some time has inserted the card, and a board that takes what is sent
-- and at some time prints what it is waited for.
pub record Responsive (io : Serial) (env : Env) : Type 0 where
  pub answers : (h : List Event) (q : String) → (b : Bool) × (env.yes_no h q ≡ some b)
  pub inserts : (h : List Event) → (n : ℕ) × (env.yes_no (iterate n ask h) insert_card ≡ some true)
  pub login :
      (h : List Event) → (n : ℕ) × (is_login (trim_space (io.read (iterate n read_one h)).0) ≡ true)
  pub writes : (h : List Event) → io.write h " " ≡ none
  pub prompt :
      (h : List Event) → (n : ℕ) × (is_prompt (io.read (sent " " ∷ iterate n knock h)) ≡ true)
  pub resets :
      (h : List Event)
      → (n : ℕ) × (contains (trim_space (io.read (iterate n read_one h)).0) "resetting" ≡ true)

-- The action returns `a` from the history `h`.
abbrev Ends : {A : Type 0} → M A → A → List Event → Type 0
Ends m a h = (t : List Event) × (m h ≡ (done a, t))

Ends-bind :
    {A B : Type 0} (m : M A) (f : A → M B) (a : A) (b : B) (h : List Event)
    → (e : Ends m a h) → Ends (f a) b e.0
    → Ends (m >>= f) b h
Ends-bind m f a b h (t, e) (u, q) = (u, rw e q)

module _ (io : Serial) where
  wait_login-Ends :
      (n : ℕ) (h : List Event)
      → is_login (trim_space (io.read (iterate n read_one h)).0) ≡ true
      → Ends (wait_login io (suc n)) tt h
  unfolding wait_login read_response receive
  wait_login-Ends zero h e = (received ∷ h, ground arith)
  wait_login-Ends (suc n) h e = elim (Bool-cases (is_login (trim_space (io.read h).0))) [
    | inl here ↦ (received ∷ h, ground arith)
    | inr not_yet ↦ let r = wait_login-Ends n (received ∷ h) e in (r.0, ground (arith, r.1))
  ]

  wait_reset-Ends :
      (n : ℕ) (h : List Event)
      → contains (trim_space (io.read (iterate n read_one h)).0) "resetting" ≡ true
      → Ends (wait_reset io (suc n)) tt h
  unfolding wait_reset read_response receive
  wait_reset-Ends zero h e = (received ∷ h, ground arith)
  wait_reset-Ends (suc n) h e =
      elim (Bool-cases (contains (trim_space (io.read h).0) "resetting")) [
        | inl here ↦ (received ∷ h, ground arith)
        | inr not_yet ↦ let r = wait_reset-Ends n (received ∷ h) e in (r.0, ground (arith, r.1))
      ]

  boot_in_recovery-Ends :
      (n left : ℕ) (h : List Event)
      → ((g : List Event) → io.write g " " ≡ none)
      → is_prompt (io.read (sent " " ∷ iterate n knock h)) ≡ true
      → Ends (boot_in_recovery io (suc n) left) none h
  unfolding boot_in_recovery receive send
  boot_in_recovery-Ends zero left h w e = (knock h, ground (arith, w h))
  boot_in_recovery-Ends (suc n) left h w e =
      elim (Bool-cases (is_prompt (io.read (sent " " ∷ h)))) [
        | inl here ↦ (knock h, ground (arith, w h))
        | inr not_yet ↦
            let r = boot_in_recovery-Ends n left (knock h) w e in (r.0, ground (arith, r.1, w h))
      ]

  flash_emmc-Ends :
      (h : List Event)
      → ((g : List Event)
          → (n : ℕ) × (contains (trim_space (io.read (iterate n read_one g)).0) "resetting" ≡ true))
      → (k : ℕ) × Ends (flash_emmc io k) none h
  unfolding flash_emmc send read_response receive
  flash_emmc-Ends h resets =
      let g =
        received ∷ sent "run update\r\n" ∷ received ∷ received ∷ sent "run setupdate\r\n" ∷ h in
      let k = resets g in let r = wait_reset-Ends k.0 g k.1 in (suc k.0, (r.0, ground (arith, r.1)))

  once_more-Ends :
      (err : Option String) (h : List Event) → (e : Option String) × Ends (once_more io err) e h
  unfolding send
  once_more-Ends none h = (none, (h, refl))
  once_more-Ends (some e) h = (io.write h "\r\n", (sent "\r\n" ∷ h, refl))

  reboot_board-Ends :
      (h : List Event)
      → ((g : List Event)
          → (n : ℕ) × (is_login (trim_space (io.read (iterate n read_one g)).0) ≡ true))
      → (k : ℕ) × Ends (reboot_board io k) tt h
  unfolding reboot_board send read_response receive
  reboot_board-Ends h login =
      let o = once_more-Ends (io.write h "\r\n") (sent "\r\n" ∷ h) in
      let k = login o.1.0 in
      let r = wait_login-Ends k.0 o.1.0 k.1 in
      let t =
        received ∷ received ∷ sent "reboot\r\n" ∷ received ∷ received ∷ sent "root\r\n" ∷ r.0 in
      (suc k.0, (t, rw (o.1.1, r.1) refl))

  module _ (env : Env) where
    ask_until_yes-Ends :
        (n : ℕ) (h : List Event)
        → ((g : List Event) (q : String) → (b : Bool) × (env.yes_no g q ≡ some b))
        → env.yes_no (iterate n ask h) insert_card ≡ some true
        → Ends (ask_until_yes io env (suc n)) tt h
    unfolding ask_until_yes yes_no_dialog
    ask_until_yes-Ends zero h a e = (ask h, ground (arith, e))
    ask_until_yes-Ends (suc n) h a e =
        answered (a h insert_card).0 (a h insert_card).1 (ask_until_yes-Ends n (ask h) a e)
      where
        answered :
            (b : Bool)
            → env.yes_no h insert_card ≡ some b
            → Ends (ask_until_yes io env (suc n)) tt (ask h)
            → Ends (ask_until_yes io env (suc (suc n))) tt h
        answered true q r = (ask h, rw q refl)
        answered false q (t, r) = (t, rw q r)

    reboot_unless-Ends :
        (button : Bool) (h : List Event)
        → Responsive io env
        → (k : ℕ) × Ends (if button then pure tt else reboot_board io k) tt h
    reboot_unless-Ends true h r = (0, (h, refl))
    reboot_unless-Ends false h r = reboot_board-Ends h r.login

    yes_no_dialog-Ends :
        (q : String) (b : Bool) (h : List Event)
        → env.yes_no h q ≡ some b
        → Ends (yes_no_dialog env q) b h
    unfolding yes_no_dialog
    yes_no_dialog-Ends q b h e = (asked q ∷ h, rw e refl)

    -- Where the user answers the questions and at some time has inserted the card, the board takes
    -- the spaces that are sent to it, and it prints the login prompt, the prompt of its boot loader
    -- and the word of its reset some reads after they are waited for, whenever that is, runUpdate
    -- ends, without an error.
    pub run_update-Ends :
        Responsive io env
        → (left : ℕ) (h : List Event)
        → (p : Patience) × (t : List Event) × (p.after ≡ left)
          × (run_update io env p h ≡ (done none, t))
    unfolding run_update
    run_update-Ends r left h =
        let ready = r.inserts h in
        let asking = ask_until_yes-Ends ready.0 h r.answers ready.1 in
        let button = r.answers asking.0 "Do you have a reset button on your carrier board?" in
        let choice =
          yes_no_dialog-Ends "Do you have a reset button on your carrier board?" button.0 asking.0
            button.1 in
        let reboot = reboot_unless-Ends button.0 choice.0 r in
        let prompt = r.prompt reboot.1.0 in
        let boot = boot_in_recovery-Ends prompt.0 left reboot.1.0 r.writes prompt.1 in
        let flash = flash_emmc-Ends boot.0 r.resets in
        (
          record {
            asks = suc ready.0;
            login = reboot.0;
            prompt = suc prompt.0;
            reset = flash.0;
            after = left;
          },
          flash.1.0,
          refl,
          rw (asking.1, choice.1, reboot.1.1, boot.1) flash.1.1,
        )
