-- ===== src/Tests/Boards.antt =====
-- The flashers of the boards, and the commands.
use iotit.Base.{String, true, Option, none, some, List, [], ◌∷◌, ◌≡◌, refl, arith, eq_iff}
use iotit.Effects.{Event, queried, M, Outcome, done, panic, Env}
use iotit.Workstation.Linux.Cleaning.{Choice}
use iotit.Effects.Trace.{Grows, Returns, Anything}
use iotit.Vbox.Check.{check_vb_installed, which_args}
use iotit.Device.Colibri.{Colibri, Patience, run_update, colibri_write, colibri_flash}
use iotit.Device.Colibri.Ends.{Responsive, run_update-Ends}
use iotit.Device.Colibri.Cards.{OnCard, colibri_write-OnCard, colibri_flash_panics}
use iotit.Device.Esp.{serial_configure}
use iotit.Device.Esp.Told.{told, serial_configure-told}
use iotit.Device.Edison.{write_loop}
use iotit.Device.Edison.Attempts.{EndsAs, write_loop-EndsAs}
use iotit.Device.Select.{raspberry_pi}
use iotit.Cli.Commands.{configure_kind, write_kind}
use iotit.Cli.Unprepared.{ConfiguresUnprepared, WritesUnprepared, GoesOn, commands_panic}
use iotit.Tests.Settings.{env, setting_answering}
use iotit.Tests.World.{
  io, patience, colibri_board, unprepared_colibri, esp_module, bare, world, flags, chosen_pi,
}

prints_login :
    iotit.Device.Colibri.Board.is_login
      (iotit.GoStrings.trim_space "imx6 login: Colibri iMX6 # resetting")
    ≡ true
unfolding iotit.Device.Colibri.Board.is_login iotit.GoStrings.trim_space iotit.GoStrings.contains
prints_login = refl

prints_prompt :
    iotit.Device.Colibri.Board.is_prompt ("imx6 login: Colibri iMX6 # resetting", none) ≡ true
unfolding iotit.GoStrings.contains
prints_prompt = refl

prints_reset :
    iotit.GoStrings.contains
      (iotit.GoStrings.trim_space "imx6 login: Colibri iMX6 # resetting")
      "resetting"
    ≡ true
unfolding iotit.GoStrings.trim_space iotit.GoStrings.contains
prints_reset = refl

responsive : Responsive io env
responsive = record {
  answers = λ h q. (true, refl);
  inserts = λ h. (0, refl);
  login = λ h. (0, prints_login);
  writes = λ h. refl;
  prompt = λ h. (0, prints_prompt);
  resets = λ h. (0, prints_reset);
}

run_update-Ends_example :
    (p : Patience) × (t : List Event) × (p.after ≡ 1) × (run_update io env p [] ≡ (done none, t))
run_update-Ends_example = run_update-Ends io env responsive 1 []

colibri_write-OnCard_example :
    (k : Choice env "") × Grows
      (OnCard env "" k)
      []
      (colibri_write (setting_answering true) io patience 1 colibri_board []).1
    × Returns {A = Option String} Anything
        (colibri_write (setting_answering true) io patience 1 colibri_board []).0
colibri_write-OnCard_example =
    colibri_write-OnCard (setting_answering true) io patience 1 colibri_board []

nothing_installed : check_vb_installed bare.env [] ≡ (
  done (some "Could not find virtualbox, please install it first"),
  Event.ran which_args ∷ Event.ran which_args ∷ [],
)
unfolding check_vb_installed iotit.Effects.host_exec
nothing_installed = refl

colibri_flash_panics_example : (colibri_flash bare io patience 3 1 unprepared_colibri []).0 ≡ panic
colibri_flash_panics_example =
    colibri_flash_panics bare io patience 3 1 unprepared_colibri []
      (Event.ran which_args ∷ Event.ran which_args ∷ [])
      "Could not find virtualbox, please install it first" refl nothing_installed

serial_configure-told_example :
    serial_configure env io esp_module [] ≡ (done (esp_module, none), told "home" "secret" [])
serial_configure-told_example =
    serial_configure-told env io esp_module [] "home" "secret"
      (λ e. ground (arith, (eq_iff "/dev/ttyUSB0" "").1 e)) refl refl refl refl (λ g line. refl)
      (λ g. refl)

write_loop-EndsAs_example : EndsAs env (write_loop env 2 [])
write_loop-EndsAs_example = write_loop-EndsAs env 2 []

commands_panic_example :
    (ConfiguresUnprepared raspberry_pi
      → (configure_kind world flags raspberry_pi chosen_pi []).0 ≡ panic)
    × (WritesUnprepared raspberry_pi
        → GoesOn world flags []
        → (write_kind world flags raspberry_pi chosen_pi []).0 ≡ panic)
commands_panic_example = commands_panic world flags chosen_pi [] raspberry_pi
