-- ===== src/Tests/Disks.antt =====
-- Disks that are formatted and written, and files that are printed and saved.
use iotit.Base.{
  ℕ, String, true, false, Option, none, some, map, List, [], ◌∷◌, ◌≡◌, refl, arith, eq_iff, inr,
  not, str_eq, ◌==◌, if◌then◌else◌,
}
use iotit.Effects.{Event, ran, wrote, Outcome, done, Env}
use iotit.Effects.Trace.{Grows, Returns, Anything}
use iotit.Config.Storage.{serial_port}
use iotit.Config.Configurator.{CallbackFn, new}
use iotit.Config.Client.{
  Call, add, set, removing, storing, run, replay, replay_values, callbacks, values, run-replay,
}
use iotit.Workstation.{Workstation, new_workstation, MountInfo}
use iotit.Workstation.Linux.Disks.{mount_info}
use iotit.Workstation.Linux.Copy.{
  set_kernel, clean_disk, copy_to_disk, clean_template, umount_all, wipefs, fdisk_in, fdisk_cmd,
  fdisk, run_fdisk, mkdosfs, mkdir_kernel, mount_args,
}
use iotit.Workstation.Linux.Formatting.{
  Formatted, clean_disk-Formatted, wiped, tabled, made, mounted,
}
use iotit.Workstation.Linux.Cleaning.{Choice, OnListed, CopiedOf}
use iotit.Workstation.Linux.Copying.{copy_to_disk-OnListed}
use iotit.Workstation.Darwin.Write.{sudo_unmount_disk, dd, run_job}
use iotit.Workstation.Darwin.Job.{EndsWith, run_job-EndsWith}
use mathlib.Core.Path.{subst}
use iotit.GoStrings.{trim}
use mathlib.Core.Option.{some-injective}
use iotit.Vbox.Json.{byte_length, from_json}
use iotit.Vbox.Saved.{IsSaved, with_ssh, save_all, from_json-save_all}
use iotit.Vbox.Upgrade.{update}
use iotit.Vbox.Check.{VmRepo, Sources, fetch_repo}
use iotit.Vbox.Update.{needs_update}
use iotit.Repository.Release.{Web}
use iotit.Vbox.Unchanged.{IsCurrent, Checks, update-Checks}
use iotit.Repository.Release.{download_new_version}
use iotit.Repository.Downgrade.{Names, OnlyFetched, download_new_version-Nothing}
use iotit.Cli.TailLog.{tail_log}
use iotit.Cli.TailLog.Lines.{Printed, tail_log-Printed}
use iotit.Tests.Settings.{env, vb, sources, conf}
use iotit.Tests.World.{upgrades, web, json, other_conf}

abbrev station : Workstation
station = record (new_workstation "") { mount = mount_info env [] "sda" }

abbrev formatted : List Event
formatted =
    mounted env "/dev/sda" (made env "/dev/sda" (tabled env "/dev/sda" (wiped env "/dev/sda" [])))

formats_it :
    clean_disk env 0 "/dev/sda" station []
    ≡ (done (set_kernel true "/dev/sda" station, none), formatted)
unfolding clean_disk iotit.Workstation.Linux.Copy.wipe iotit.Effects.host_exec
    iotit.Workstation.Linux.Copy.make_table iotit.Effects.write_file
    iotit.Workstation.Linux.Copy.format iotit.Workstation.Linux.Copy.mount_kernel
formats_it = refl

clean_disk-Formatted_example :
    Formatted env "/dev/sda" [] formatted
    × (set_kernel true "/dev/sda" station ≡ set_kernel true "/dev/sda" station)
clean_disk-Formatted_example =
    clean_disk-Formatted env "/dev/sda" 0 station (set_kernel true "/dev/sda" station) [] formatted
      formats_it

copy_to_disk-OnListed_example :
    (k : Choice env "") × Grows
      (OnListed env "" k)
      []
      (copy_to_disk env 1 (new_workstation "") []).1
    × Returns (CopiedOf env "" k) (copy_to_disk env 1 (new_workstation "") []).0
unfolding new_workstation
copy_to_disk-OnListed_example = copy_to_disk-OnListed env 1 (new_workstation "") []

abbrev raw_disk : Workstation
raw_disk = record station { mount = record (station.mount) { disk_name_raw = "/dev/rdisk2" } }

abbrev written : List Event
written = ran (dd "card.img" "/dev/rdisk2") ∷ ran (sudo_unmount_disk "/dev/sda") ∷ []

writes_raw : run_job env "card.img" raw_disk [] ≡ (done none, written)
unfolding run_job iotit.Effects.host_exec
writes_raw = refl

run_job-EndsWith_example :
    (g : List Event) × EndsWith env (sudo_unmount_disk "/dev/sda") g
    × Grows Anything g written
    × EndsWith env (dd "card.img" "/dev/rdisk2") written
run_job-EndsWith_example = run_job-EndsWith env "card.img" raw_disk [] written writes_raw

abbrev silent : CallbackFn
silent = record { config = none; apply = none }

abbrev calls : List Call
calls = add "Wifi" silent ∷ set "Wifi" silent ∷ storing "port" serial_port ∷ removing "DNS" ∷ []

run-replay_example :
    (callbacks (run calls new) ≡ replay calls (callbacks new))
    × (values (run calls new) ≡ replay_values calls (values new))
run-replay_example = run-replay calls new

conf-IsSaved : IsSaved json conf
unfolding byte_length
conf-IsSaved = record {
  text = "c";
  marshals = refl;
  line = (λ e. ground arith, λ e. ground arith, tt);
  some_text = λ e. ground (arith, (eq_iff "c" "").1 e);
  short = omega arith;
  unmarshals = λ c. refl;
}

other_conf-IsSaved : IsSaved json other_conf
unfolding byte_length
other_conf-IsSaved = record {
  text = "o";
  marshals = refl;
  line = (λ e. ground arith, λ e. ground arith, tt);
  some_text = λ e. ground (arith, (eq_iff "o" "").1 e);
  short = omega arith;
  unmarshals = λ c. refl;
}

from_json-save_all_example :
    from_json json conf (save_all json (conf ∷ other_conf ∷ []) none)
    ≡ map (with_ssh conf.ssh) (conf ∷ other_conf ∷ [])
from_json-save_all_example =
    from_json-save_all json (conf ∷ other_conf ∷ []) conf (conf-IsSaved, (other_conf-IsSaved, tt))

abbrev current_repo : VmRepo
current_repo = record { url = "http://vm/iotit-box.zip"; version = "1.2.3"; md5_sum = "" }

abbrev current_sources : Sources
current_sources = record sources {
  get_document = λ h url. ("{}", none);
  decode_repo = λ body. some current_repo;
}

-- The installed version is that of the repository.
same_version : IsCurrent current_sources upgrades
unfolding fetch_repo needs_update iotit.GoStrings.trim iotit.GoStrings.split iotit.Repository.atoi
same_version h h' repo out r l =
    subst (λ (q : VmRepo). needs_update (trim (λ c. c == 10) out) q.version ≡ some false)
      (some-injective _ _ r)
      (subst (λ (o : String). needs_update (trim (λ c. c == 10) o) "1.2.3" ≡ some false)
        (some-injective _ _ l) refl)

update-Checks_example :
    Grows Checks [] (update env vb current_sources upgrades []).1
    × Returns {A = Option String} Anything (update env vb current_sources upgrades []).0
update-Checks_example = update-Checks env vb current_sources upgrades (inr same_version) []

-- A document whose objects lie in one another, and versions of one length.
abbrev named_web : Web
named_web = record web {
  object = λ raw.
      if str_eq raw "top"
      then some (("stable", some "stable") ∷ ("latest", some "none") ∷ [])
      else if str_eq raw "stable"
      then some (("md5sums", some "sums") ∷ ("version", some "1.1.0") ∷ [])
      else if str_eq raw "sums"
      then some (("linux", some "linux") ∷ [])
      else if str_eq raw "linux"
      then some (("amd64", some "abc") ∷ [])
      else none;
  get = λ h url. (some "top", none);
  not_newer = λ a b. not (str_eq a "2.0.0");
}

named_web-Names : Names named_web "1.0.0" "top" "1.1.0"
unfolding iotit.Repository.current_release iotit.Repository.Release.merge
    iotit.Config.Storage.lookup iotit.Config.Storage.store
named_web-Names = record {
  top = ("stable", some "stable") ∷ ("latest", some "none") ∷ [];
  release = ("md5sums", some "sums") ∷ ("version", some "1.1.0") ∷ [];
  sums = ("linux", some "linux") ∷ [];
  arches = ("amd64", some "abc") ∷ [];
  at_release = "stable";
  at_sums = "sums";
  at_os = "linux";
  at_version = "1.1.0";
  reads_top = refl;
  finds_release = refl;
  reads_release = refl;
  finds_sums = refl;
  reads_sums = refl;
  finds_os = refl;
  reads_os = refl;
  finds_version = refl;
  reads_version = refl;
}

download_new_version-Nothing_example :
    OnlyFetched (λ r. r.0 ≡ "") [] (download_new_version named_web env "iotit" "1.0.0" "/tmp" [])
download_new_version-Nothing_example =
    download_new_version-Nothing named_web env "iotit" "1.0.0" "/tmp" "top" "1.1.0" [] refl
      named_web-Names refl

-- The last two lines of a file of three, and a zero byte.
abbrev three_lines : List ℕ
three_lines = b'a' ∷ 10 ∷ b'b' ∷ 10 ∷ b'c' ∷ 10 ∷ []

tail_log-Printed_example : Printed 2 three_lines (tail_log 2 (some three_lines))
tail_log-Printed_example = tail_log-Printed 1 three_lines (omega arith)
