-- ===== src/Tests/Cards.antt =====
-- Preparing and writing a card.
use iotit.Base.{ℕ, suc, ◌≤◌, true, false, none, some, List, [], ◌∷◌, ◌≡◌, refl, arith}
use iotit.Effects.{
  deleted, downloaded, scp, unzipped, Env, Event, ssh, asked, ran, offered, Outcome, done, Env,
}
use iotit.Effects.Invariant.{Holds}
use iotit.Effects.Trace.{Grows, Returns}
use iotit.Workstation.{Workstation, MountInfo, new_workstation}
use iotit.Workstation.Linux.Disks.{list_removable_disk, removable_disks, dev_disks, mount_info}
use iotit.Workstation.Linux.Write.{
  Written, job, declined, dd, umount_args, eject_args, run_job, write_to_disk, confirm, write_loop,
  select_loop,
}
use iotit.Workstation.Linux.Job.{run_job-NoError}
use iotit.Workstation.Linux.Selection.{NotRan, WriteOf}
use iotit.Workstation.Linux.Safety.{write_to_disk-IsSelected}
use iotit.Device.Flasher.{Flasher, SdFlasher, join}
use iotit.Device.Mount.{mount_img_at, unmount_img}
use iotit.Device.Unmount.{unmount_img-mount_img_at}
use iotit.Device.Images.{Files, saved, prepare_image}
use iotit.Device.Uploads.{OnlyVerified}
use iotit.Device.Verified.{prepare_image-Verified}
use iotit.Device.Sd.{write_image}
use iotit.Device.Card.{Selection, write_image-declined}
use iotit.Device.Waiting.{tried, wait_for_ssh-answered}
use iotit.Device.Prepare.{wait_for_ssh, is_quiet}
use iotit.Device.Downloads.{downloads, prepare_image-AtMost}
use iotit.Tests.Settings.{
  silence, env, env_answering, setting_answering, choices, flasher, sd_flasher, debian, files, conf,
}

abbrev card : Workstation
card = record (new_workstation "") { mount = mount_info env [] "sda" }

abbrev mounted_history : List Event
mounted_history =
    ssh "mount -o rw /dev/loop0p1 /tmp/isaax-sd/"
    ∷ ssh "mkdir -p /tmp/isaax-sd/"
    ∷ ssh "losetup -f -P /tmp/"
    ∷ ssh "losetup -D"
    ∷ []

abbrev mounted_flasher : SdFlasher
mounted_flasher = record sd_flasher {
  flasher = record flasher { img = "card.img"; mounted = true };
}

mounts_it : mount_img_at env "p1" sd_flasher [] ≡ (done (mounted_flasher, none), mounted_history)
unfolding mount_img_at iotit.Device.Flasher.exec_over_ssh iotit.Effects.ssh_run
    iotit.GoStrings.trim_space iotit.Device.Mount.mount
mounts_it = refl

unmount_img-mount_img_at_example :
    unmount_img env mounted_flasher mounted_history ≡ (done none, mounted_history)
unmount_img-mount_img_at_example =
    unmount_img-mount_img_at env "p1" sd_flasher [] {d' = mounted_flasher} {t = mounted_history}
      mounts_it

writes_it : run_job env "card.img" card [] ≡ (done none, ran (dd "card.img" "/dev/sda") ∷ [])
unfolding run_job iotit.Effects.host_exec
writes_it = refl

run_job-NoError_example :
    (g : List Event) × (ran (dd "card.img" "/dev/sda") ∷ [] ≡ ran (dd "card.img" "/dev/sda") ∷ g)
    × ((env.exec g (dd "card.img" "/dev/sda")).err ≡ none)
run_job-NoError_example =
    run_job-NoError env "card.img" card [] (ran (dd "card.img" "/dev/sda") ∷ []) writes_it

write_to_disk-IsSelected_example :
    Grows NotRan [] (write_to_disk env (new_workstation "") []).1
    × Returns (WriteOf env "") (write_to_disk env (new_workstation "") []).0
unfolding new_workstation
write_to_disk-IsSelected_example = write_to_disk-IsSelected env (new_workstation "") []

abbrev refused_card : Workstation
refused_card = record card { writable = false; mounts = mount_info env [] "sda" ∷ [] }

abbrev refused_history : List Event
refused_history =
    asked "Are you sure? " ∷ offered "Select mount to format: " (" - /dev/sda" ∷ []) ∷ []

refuses_it :
    write_to_disk (env_answering false) (new_workstation "") []
    ≡ (done (refused_card, declined), refused_history)
unfolding write_to_disk iotit.Workstation.Linux.Write.select_round list_removable_disk dev_disks
    iotit.Workstation.Linux.Disks.is_disk_name iotit.GoStrings.trim
    iotit.Workstation.Linux.Write.choose_disk new_workstation iotit.Effects.select_one
    iotit.Workstation.Linux.Write.check_mode iotit.Effects.yes_no_dialog
refuses_it = refl

write_image-declined_example :
    Grows NotRan [] (write_image (setting_answering false) choices sd_flasher []).1
    × Returns (λ r. r ≡ none) (write_image (setting_answering false) choices sd_flasher []).0
write_image-declined_example =
    write_image-declined (setting_answering false) choices sd_flasher [] {w = refused_card}
      {t = refused_history} refuses_it

confirms_it : confirm env card [] ≡ (done (card, job), asked "Are you sure? " ∷ [])
unfolding confirm new_workstation iotit.Effects.yes_no_dialog
confirms_it = refl

answers_it : is_quiet silence ≡ true
unfolding is_quiet iotit.GoStrings.trim_space
answers_it = refl

wait_for_ssh-answered_example :
    (k : ℕ) × (k ≤ 0)
    × (wait_for_ssh (setting_answering true) 12 (some conf) [] ≡ (done tt, tried (suc k) []))
wait_for_ssh-answered_example =
    wait_for_ssh-answered (setting_answering true) conf 0 12 [] (omega arith) answers_it

prepare_image-AtMost_example : downloads (prepare_image env files 2 flasher []).1 ≤ 3
prepare_image-AtMost_example = (prepare_image-AtMost env files 2 flasher).bound []

-- A machine that complains of each command, of a bad length, and an image in a zip file.
abbrev complaining : Env
complaining = record env { run = λ h command. record silence { eut = "unzip: bad length" } }

abbrev zip_files : Files
zip_files = record files {
  download = λ h url dir. saved "card.zip";
  glob_all = λ h. "card.img" ∷ "notes.txt" ∷ [];
}

-- The archive is uploaded, then unzipped on the host, and the image uploaded.
uploads_both :
    (prepare_image complaining zip_files 2 flasher []).1
    ≡ ssh "ls -1 /tmp/"
      ∷ deleted "/tmp/card.img"
      ∷ scp "/tmp/card.img" "/tmp/"
      ∷ ssh "ls /tmp/card.img"
      ∷ unzipped "images/card.zip" "/tmp"
      ∷ ssh "card.zip"
      ∷ ssh "rm -rf /tmp/*.img"
      ∷ scp "images/card.zip" "/tmp/"
      ∷ ssh "ls /tmp/card.zip"
      ∷ downloaded "http://images/card.img" "images"
      ∷ []
unfolding prepare_image iotit.Device.Flasher.remote iotit.Effects.ssh_run iotit.GoStrings.trim_space
    iotit.Effects.ssh_copy iotit.GoStrings.has_suffix iotit.GoStrings.contains
    iotit.Effects.delete_file
uploads_both = refl

prepare_image-Verified_example :
    Holds
      (OnlyVerified complaining zip_files debian)
      (λ r. r.0.image ≡ debian)
      (prepare_image complaining zip_files 2 flasher)
prepare_image-Verified_example = prepare_image-Verified complaining zip_files debian 2 flasher refl
