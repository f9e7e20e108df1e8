-- ===== src/Workstation/Windows/Kept.antt =====
-- CleanDisk of workstation/w_windows.go, where its first listing finds no disk.
use iotit.Base.{String, Option, none, some, ◌≡◌}
use iotit.Effects.{Event, ran, wrote}
use iotit.Workstation.Defs.{Workstation}
use iotit.Workstation.Windows.Disks.{Windows, wmic}

-- Nothing but listing disks and asking: no other command, and no file that is written.
abbrev pub OnlyLists : Event → Type 0
OnlyLists (ran args) = args ≡ wmic
OnlyLists (wrote file content) = ⊥
OnlyLists _ = Unit

abbrev pub Fails : Workstation × Option String → Type 0
Fails (w, none) = ⊥
Fails (w, some e) = Unit
