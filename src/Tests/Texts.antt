-- ===== src/Tests/Texts.antt =====
-- Versions, texts and machines.
use iotit.Base.{String, true, false, Option, some, [], ◌∷◌, ◌≡◌, refl}
use iotit.Effects.Trace.{Grows, Returns, Anything}
use iotit.GoStrings.{split}
use iotit.Repository.{letter, is_version_up_to_date}
use iotit.Repository.Versions.{is_version_up_to_date_trans, is_version_up_to_date_irrefl}
use iotit.Vbox.Machines.{stop_loop}
use iotit.Vbox.Stopping.{OnlyRunning, stop_loop-OnlyRunning}
use iotit.Tests.Settings.{env, vb, silent_machine}

newer : is_version_up_to_date "1.10" "1.9.3" ≡ some true
unfolding is_version_up_to_date split iotit.Repository.atoi
newer = refl

newer_still : is_version_up_to_date "2-0" "1.10" ≡ some true
unfolding is_version_up_to_date split iotit.Repository.atoi
newer_still = refl

is_version_up_to_date_trans_example : is_version_up_to_date "2-0" "1.9.3" ≡ some true
is_version_up_to_date_trans_example =
    is_version_up_to_date_trans "2-0" "1.10" "1.9.3" newer_still newer

is_version_up_to_date_irrefl_example : ¬ (is_version_up_to_date "1.2" "1.2" ≡ some true)
is_version_up_to_date_irrefl_example = is_version_up_to_date_irrefl "1.2"

stop_loop-OnlyRunning_example :
    Grows
      (OnlyRunning false (silent_machine ∷ []))
      []
      (stop_loop env vb false (silent_machine ∷ []) []).1
    × Returns {A = Option String} Anything (stop_loop env vb false (silent_machine ∷ []) []).0
stop_loop-OnlyRunning_example = stop_loop-OnlyRunning env vb false (silent_machine ∷ []) []
