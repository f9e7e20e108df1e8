-- ===== src/Tests/Windows.antt =====
-- Runs of workstation/w_windows.go with one card in its second slot, and of device/edison_windows.go.
use iotit.Base.{
  String, true, Option, none, some, List, [], ◌∷◌, ◌≡◌, refl, is_empty, str_eq, if◌then◌else◌,
}
use iotit.Effects.{Event, ran, asked, offered, wrote, downloaded, panic, Reply, done, Env}
use iotit.Effects.Trace.{Returns}
use iotit.Workstation.{MountInfo, new_workstation}
use iotit.Workstation.Windows.Disks.{
  Windows, Station, new_station, wmic, no_disks, gigabytes, list_removable_disk,
}
use iotit.Workstation.Windows.Clean.{clean_template, clean_script, diskpart, clean_disk}
use iotit.Workstation.Windows.Write.{dd, run_job}
use iotit.Workstation.Windows.Job.{JobEndsWell, run_job-JobEndsWell}
use iotit.Tests.Settings.{env, silence, setting_answering, files, flasher}
use iotit.Device.Prepare.{Setting}
use iotit.Device.Images.{saved}
use iotit.Device.Edison.{Host, Edison}
use iotit.Device.Edison.Windows.{flash_board, flash_all_bat, unzip_image}
use iotit.Device.Edison.Unready.{IsError, flash_board-IsError}

abbrev line : String → String → List String
line index media = "PC" ∷ "DEVICE" ∷ index ∷ "USB" ∷ media ∷ "Card Reader" ∷ "15931539456" ∷ []

-- The csv of one fixed disk and one card, or of nothing.
abbrev records : List (Option (List String))
records =
    some (line "0" "Model")
    ∷ some (line "0" "Fixed hard disk media")
    ∷ none
    ∷ some (line "1" "Removable Media")
    ∷ []

abbrev windows : Windows
windows = record {
  csv = λ text. if str_eq text "" then [] else records;
  download = λ h url dst. none;
}

abbrev card : MountInfo
card = record {
  device_name = "Card Reader [15GB]";
  disk_name = "\\\\?\\Device\\Harddisk1\\Partition0";
  disk_name_raw = "1";
  device_size = "15931539456";
}

-- The first command fails; later ones print something.
abbrev slow_env : Env
slow_env = record env {
  exec = λ h args. if is_empty h then silence else record silence { out = "csv" };
}

sizes : (gigabytes "15931539456" ≡ 15) × (gigabytes "1073741824" ≡ 1) × (gigabytes "x" ≡ 0)
unfolding gigabytes
sizes = (refl, refl, refl)

listed :
    list_removable_disk windows slow_env (new_workstation "") (asked "" ∷ [])
    ≡ (done (record (new_workstation "") { mounts = card ∷ [] }, none), ran wmic ∷ asked "" ∷ [])
unfolding list_removable_disk iotit.Effects.host_exec iotit.GoStrings.trim_space
    iotit.GoStrings.contains iotit.GoStrings.format_nat
listed = refl

-- The card that the second listing finds is selected, and the error of the first one returned.
selected_in_vain :
    (clean_disk slow_env windows "" (new_workstation "") []).0
    ≡ done (record (new_workstation "") { mounts = card ∷ []; mount = card }, some no_disks)
unfolding clean_disk list_removable_disk iotit.Effects.host_exec iotit.Effects.yes_no_dialog
    iotit.Effects.select_one iotit.GoStrings.trim_space iotit.GoStrings.contains
    iotit.GoStrings.format_nat
selected_in_vain = refl

abbrev station : Station
station = record { base = record (new_workstation "") { mount = card }; dd_path = "dd.exe" }

writes_card :
    run_job windows slow_env 2 "card.img" station []
    ≡ (done (station, none), ran (dd "dd.exe" "card.img" card.disk_name) ∷ [])
unfolding run_job iotit.Effects.host_exec iotit.GoStrings.contains
writes_card = refl

-- An access that is denied, the first time: the disk is cleaned, and the image written to it.
abbrev denying : Env
denying = record env {
  exec =
      λ h args. record silence { out = if is_empty h then "Error 5: Access is denied" else "csv" };
}

abbrev written_after_cleaning : List Event
written_after_cleaning =
    ran (dd "dd.exe" "card.img" card.disk_name)
    ∷ asked "Retry flashing?"
    ∷ asked "[+] Disk formatted, now please reconnect the device. Type yes once you've done it."
    ∷ ran (diskpart env)
    ∷ wrote (clean_script env) (clean_template "1")
    ∷ asked "Are you sure you want to clean this disk? "
    ∷ offered "Select disk to clean: "
        ("Card Reader [15GB] - \\\\?\\Device\\Harddisk1\\Partition0" ∷ [])
    ∷ ran wmic
    ∷ asked "Or we can try to clean it's partitions right now, should we proceed?"
    ∷ ran (dd "dd.exe" "card.img" "")
    ∷ []

cleans_and_writes :
    run_job windows denying 2 "card.img" (record (new_station "") { dd_path = "dd.exe" }) [] ≡ (
      done (
        record station { base = record (new_workstation "") { mounts = card ∷ []; mount = card } },
        none,
      ),
      written_after_cleaning,
    )
unfolding run_job new_station list_removable_disk iotit.Effects.host_exec
    iotit.Effects.yes_no_dialog iotit.Effects.select_one iotit.Effects.write_file
    iotit.GoStrings.trim_space iotit.GoStrings.contains iotit.GoStrings.format_nat clean_disk
    new_workstation
cleans_and_writes = refl

run_job-JobEndsWell_example :
    JobEndsWell denying "dd.exe" "card.img"
      (run_job windows denying 2 "card.img" (record (new_station "") { dd_path = "dd.exe" }) [])
run_job-JobEndsWell_example =
    run_job-JobEndsWell windows denying 2 "card.img"
      (record (new_station "") { dd_path = "dd.exe" }) []

-- An image that is a zip file.
abbrev zip_setting : Setting
zip_setting = record (setting_answering true) {
  files = record files { download = λ h url dir. saved "edison.zip" };
}

abbrev edison_board : Edison
edison_board = record { flasher = record flasher { conf = none }; ip = "" }

abbrev no_ifaces : Host
no_ifaces = record { local_ifaces = λ h. ([], none) }

-- The image is extracted and the board written before the panic.
board_written : flash_board zip_setting windows no_ifaces 1 edison_board "" [] ≡ (
  panic,
  ran (flash_all_bat "/tmp\\edison\\")
      ∷ ran (unzip_image "images/edison.zip" "/tmp\\edison\\")
      ∷ downloaded "http://images/card.img" "images"
      ∷ [],
)
unfolding flash_board iotit.Device.Images.download_image iotit.GoStrings.has_suffix
    iotit.Effects.host_exec iotit.Device.Edison.edison_configure
board_written = refl

flash_board-IsError_example :
    Returns IsError (flash_board zip_setting windows no_ifaces 1 edison_board "" []).0
flash_board-IsError_example =
    flash_board-IsError zip_setting windows no_ifaces 1 edison_board "" [] refl
