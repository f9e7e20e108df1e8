-- ===== src/Workstation/Linux/Copy.antt =====
-- CopyToDisk and CleanDisk of workstation/w_linux.go, and printDisks of workstation/workstation.go.
use iotit.Base.{
  ℕ, zero, suc, String, ◌<>◌, Bool, true, false, Option, none, some, List, [], ◌∷◌, str_eq,
  if◌then◌else◌, map, get_elem?,
}
use iotit.GoStrings.{contains}
use iotit.Effects.{M, pure, ◌>>=◌, ◌>>◌, Env, host_exec, select_one, or_panic, write_file}
use iotit.Workstation.Defs.{MountInfo, Workstation, find_disk, to_string}
use iotit.Workstation.Linux.Disks.{list_removable_disk}
use iotit.Workstation.Linux.Write.{unknown_disk}

-- cleanTemplate
abbrev pub clean_template : String
clean_template = "n\np\n1\n\n\nw\nq\n"

abbrev pub umount_all : String → List String
umount_all disk = "sh" ∷ "-c" ∷ ("for n in " <> disk <> "* ; do umount $n ; done") ∷ []

abbrev pub wipefs : String → List String
wipefs disk = "sudo" ∷ "wipefs" ∷ "-a" ∷ disk ∷ []

abbrev pub fdisk_in : Env → String
fdisk_in env = env.temp_dir <> "/fdisk.in"

abbrev pub fdisk_cmd : Env → String
fdisk_cmd env = env.temp_dir <> "/fdisk.cmd"

-- The text of fdisk.cmd.
abbrev pub fdisk : Env → String → String
fdisk env disk = "fdisk " <> disk <> " < " <> env.temp_dir <> "/fdisk.in"

abbrev pub run_fdisk : Env → List String
run_fdisk env = "sudo" ∷ fdisk_cmd env ∷ []

-- The first partition of a disk.
unfoldable pub partition_of : String → String
partition_of disk = if contains disk "blk" then disk <> "p1" else disk <> "1"

abbrev pub mkdosfs : String → List String
mkdosfs partition = "sudo" ∷ "mkdosfs" ∷ "-n" ∷ "KERNEL" ∷ partition ∷ "-F" ∷ "32" ∷ []

abbrev pub mkdir_kernel : List String
mkdir_kernel = "mkdir" ∷ "/media/KERNEL/" ∷ []

abbrev pub mount_args : String → List String
mount_args partition = "mount" ∷ partition ∷ "/media/KERNEL/" ∷ []

abbrev pub unzip_args : String → List String
unzip_args img = "unzip" ∷ img ∷ "-d" ∷ "/media/KERNEL/" ∷ []

-- A stage of the goroutine of CleanDisk: commands, and the error that it reports to the job.
abbrev pub Stage : Type 0
Stage = M (Option String)

abbrev pub cannot_mount : Option String → String → Option String
cannot_mount none partition = none
cannot_mount (some e) partition = some ("Can't mount " <> partition)

-- What the goroutine leaves at its end: the station as it was, or with the new partition mounted.
abbrev pub set_kernel : Bool → String → Workstation → Workstation
set_kernel false disk l = l
set_kernel true disk l = record l {
  writable = true;
  mount = record (l.mount) { device_name = "/media/KERNEL"; disk_name = partition_of disk };
}

abbrev pub stop_at : M Bool → Option String → M Bool
stop_at next none = next
stop_at next (some e) = pure false

-- The goroutine after it has reported an error. The waiting side has left, so that it stops for good
-- at its next report; `left` is how many stages it gets to before the program ends. It answers
-- whether it got through all of them.
unfoldable pub run_on : ℕ → List Stage → M Bool
run_on left [] = pure true
run_on zero (s ∷ stages) = pure false
run_on (suc left) (s ∷ stages) = let next = run_on left stages in s >>= λ err. stop_at next err

abbrev pub after_stage :
    ℕ → List Stage → M (Bool × Option String) → Option String → M (Bool × Option String)
after_stage left stages next none = next
after_stage left stages next (some e) = run_on left stages >>= λ whole. pure (whole, some e)

-- The goroutine, and WaitJobAndSpin, which returns the first error that it reports.
unfoldable pub run_stages : ℕ → List Stage → M (Bool × Option String)
unfolding run_on
run_stages left [] = pure (true, none)
run_stages left (s ∷ stages) =
    let next = run_stages left stages in s >>= λ err. after_stage left stages next err

module _ (env : Env) where
  -- The stages of the goroutine: unmounting and wiping, the partition table, the file system and
  -- the mounting of it.
  unfoldable pub wipe : String → Stage
  wipe disk = do host_exec env (umount_all disk); r ← host_exec env (wipefs disk); pure r.err

  unfoldable pub make_table : String → Stage
  make_table disk = do
    write_file (fdisk_in env) clean_template
    write_file (fdisk_cmd env) (fdisk env disk)
    r ← host_exec env (run_fdisk env)
    pure r.err

  unfoldable pub format : String → Stage
  format disk = do r ← host_exec env (mkdosfs (partition_of disk)); pure r.err

  unfoldable pub mount_kernel : String → Stage
  mount_kernel disk = do
    host_exec env mkdir_kernel
    r ← host_exec env (mount_args (partition_of disk))
    pure (cannot_mount r.err (partition_of disk))

  abbrev pub clean_stages : String → List Stage
  clean_stages disk = wipe disk ∷ make_table disk ∷ format disk ∷ mount_kernel disk ∷ []

  -- CleanDisk. `left` is what the goroutine gets to after an error.
  unfoldable pub clean_disk : ℕ → String → Workstation → M (Workstation × Option String)
  unfolding run_stages
  clean_disk left disk l = if str_eq disk "" then pure (l, some "No disk to format") else (do
    (whole, err) ← run_stages left (clean_stages disk)
    pure (set_kernel whole disk l, err))

  abbrev pub size_lines : List MountInfo → List String
  size_lines = map λ (e : MountInfo).
      env.colored e.device_name <> " - " <> env.colored e.disk_name <> " (" <> e.device_size <> ")"

  -- `l.workstation.mounts[num]`, for the number that the user selects
  unfoldable pub select_to_format : List MountInfo → M (Option MountInfo)
  select_to_format mounts = do
    num ← select_one env "Select disk to format: " (size_lines mounts)
    dev ← or_panic (get_elem? mounts num)
    pure (some dev)

  unfoldable pub choose_to_format : Workstation → M (Option MountInfo)
  unfolding select_to_format
  choose_to_format l =
      if str_eq l.disk "" then select_to_format l.mounts else pure (find_disk l.disk l.mounts)

  unfoldable pub clean_chosen : ℕ → Workstation → Option MountInfo → M (Workstation × Option String)
  unfolding clean_disk
  clean_chosen left l none = pure (l, some (unknown_disk env))
  clean_chosen left l (some dev) = clean_disk left dev.disk_name (record l { mount = dev })

  unfoldable pub copy_listed : ℕ → Workstation × Option String → M (Workstation × Option String)
  unfolding clean_chosen
  copy_listed left (l, some e) = pure (l, some e)
  copy_listed left (l, none) = choose_to_format l >>= clean_chosen left l

  -- CopyToDisk up to its goroutine, which is started where there is no error
  unfoldable pub copy_to_disk : ℕ → Workstation → M (Workstation × Option String)
  unfolding copy_listed
  copy_to_disk left l = list_removable_disk env l >>= copy_listed left

  -- The goroutine of CopyToDisk. What unzip reports is not looked at.
  unfoldable pub copy_job : String → M (Option String)
  copy_job img = do host_exec env (unzip_args img); pure none

  abbrev pub disk_texts : Workstation × Option String → List String
  disk_texts (l, some e) = "[-] SD card not found, please insert an unlocked SD card" ∷ []
  disk_texts (l, none) = map to_string l.mounts

  -- printDisks: the lines that it prints after those of ListRemovableDisk
  unfoldable pub print_disks : Workstation → M (List String)
  print_disks l = do r ← list_removable_disk env l; pure (disk_texts r)
