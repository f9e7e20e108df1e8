-- ===== src/Device/Edison/Unready.antt =====
-- Flash of the Edison on Windows, where Prepare starts no virtual machine.
use iotit.Base.{ℕ, String, Option, none, some, List, ◌≡◌}
use iotit.Effects.{Event, M, Outcome, done, panic, exit, unfinished, continue_with}
use iotit.Effects.Trace.{Returns}
use iotit.Workstation.Windows.Disks.{Windows}
use iotit.Device.Prepare.{Setting}
use iotit.Device.Edison.{Host, Edison, edison_configure, configure_after}
use iotit.Device.Edison.Windows.{prepare_board, write_board, write_prepared, flash_board}

abbrev pub IsError : Option String → Type 0
IsError none = ⊥
IsError (some e) = Unit

continue-Returns :
    {A : Type 0} (o : Outcome A) (t : List Event) (f : A → M (Option String))
    → ((a : A) (h : List Event) → Returns IsError (f a h).0)
    → Returns IsError (continue_with o t f).0
continue-Returns (done a) t f k = k a t
continue-Returns panic t f k = tt
continue-Returns (exit n) t f k = tt
continue-Returns unfinished t f k = tt

module _ (c : Setting) (windows : Windows) (host : Host) (fuel : ℕ) (d : Edison) where
  configure_after-Returns :
      d.conf ≡ none
      → (r : Option String) (h : List Event) → Returns IsError (configure_after c host fuel d r h).0
  unfolding edison_configure
  configure_after-Returns unset (some e) h = tt
  configure_after-Returns unset none h = rw unset tt

  write_prepared-Returns :
      d.conf ≡ none
      → (r : String × Option String) (h : List Event)
      → Returns IsError (write_prepared c windows host fuel d r h).0
  write_prepared-Returns unset (extracted, some e) h = tt
  write_prepared-Returns unset (extracted, none) h =
      continue-Returns (write_board c windows extracted h).0 _ _ (configure_after-Returns unset)

  -- Flash of the Edison on Windows never succeeds on a flasher without a configuration of the virtual
  -- machine, which is how the flasher is made and how Prepare leaves it: where it returns, it
  -- returns an error.
  pub flash_board-IsError :
      (extracted : String) (h : List Event)
      → d.conf ≡ none
      → Returns IsError (flash_board c windows host fuel d extracted h).0
  unfolding flash_board
  flash_board-IsError extracted h unset =
      continue-Returns (prepare_board c windows d extracted h).0 _ _ (write_prepared-Returns unset)
