-- ===== src/Device/Done.antt =====
-- The methods of `flasher` of device/flasher.go that other flashers override or call at their end.
use iotit.Base.{Bool, String, Option, none, some}
use iotit.Effects.{M, pure, fail, ◌>>◌}
use iotit.Vbox.{Config}
use iotit.Vbox.Settings.{stop}
use iotit.Device.Flasher.{Flasher}
use iotit.Device.Prepare.{Setting}

-- Configure, Write and Flash
unfoldable pub mock : M (Option String)
mock = pure none

module _ (c : Setting) where
  -- `d.conf.Stop(d.Quiet)`
  unfoldable pub stop_with : Bool → Option Config → M (Option String)
  stop_with quiet none = fail
  stop_with quiet (some conf) = stop c.vb c.env conf quiet

  unfoldable pub stop_machine : Flasher → M (Option String)
  unfolding stop_with
  stop_machine d = stop_with d.quiet d.conf

  -- Done: the error of Stop is only logged, and a message is printed
  unfoldable pub done_flashing : Flasher → M (Option String)
  unfolding stop_machine
  done_flashing d = do stop_machine d; pure none
