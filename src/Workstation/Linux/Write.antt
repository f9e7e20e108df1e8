-- ===== src/Workstation/Linux/Write.antt =====
-- WriteToDisk, Unmount and Eject of workstation/w_linux.go.
use iotit.Base.{
  ℕ, zero, suc, String, ◌<>◌, Bool, true, false, Option, none, some, List, [], ◌∷◌, str_eq,
  if◌then◌else◌, map, get_elem?,
}
use iotit.Effects.{M, done, pure, ◌>>=◌, Env, host_exec, yes_no_dialog, select_one, or_panic}
use iotit.Workstation.Defs.{MountInfo, Workstation, find_disk}
use iotit.Workstation.Linux.Disks.{list_removable_disk}

abbrev pub disk_selection_tries : ℕ
disk_selection_tries = 3

abbrev pub write_attempts : ℕ
write_attempts = 3

-- What WriteToDisk returns: a job, `nil, nil`, or an error.
pub data Written : Type 0 where
  job : Written
  declined : Written
  write_failed : String → Written

abbrev pub locked : String
locked = "[-] Your card seems locked.\n[-]  Please unlock your SD card and start command again"

abbrev pub unknown_disk : Env → String
unknown_disk env =
    "Disk name not recognised, try to list disks with " <> env.colored "disks" <> " argument"

-- `attempt > 0 && !dialogs.YesNoDialog("Continue?")`, the other way round
abbrev pub may_try : Env → Bool → M Bool
may_try env first = if first then pure true else yes_no_dialog env "Continue?"

-- How one round of the loop ends: `break` with the mount set, the next round with an error, or a
-- return of one.
pub data Round : Type 0 where
  mounted : Workstation → Round
  again : Workstation → String → Round
  returns : Workstation → String → Round

-- The mode of the device: an error, a card that may be written, or a locked one.
abbrev pub by_mode : Workstation → MountInfo → Bool × Option String → M Round
by_mode l dev (ok, some e) = pure (returns l e)
by_mode l dev (true, none) = pure (mounted (record l { mount = dev }))
by_mode l dev (false, none) = pure (again l locked)

abbrev pub after_round :
    Round
    → (Workstation → String → M (Workstation × Option String))
    → M (Workstation × Option String)
after_round (mounted l) next = pure (l, none)
after_round (again l e) next = next l e
after_round (returns l e) next = pure (l, some e)

abbrev pub umount_args : String → List String
umount_args disk = "sudo" ∷ "umount" ∷ disk ∷ []

abbrev pub eject_args : String → List String
eject_args disk = "sudo" ∷ "eject" ∷ disk ∷ []

abbrev pub dd : String → String → List String
dd img disk = "sudo" ∷ "dd" ∷ ("if=" <> img) ∷ ("of=" <> disk) ∷ "bs=4M" ∷ []

abbrev pub after_dd : Option String → (String → M (Option String)) → M (Option String)
after_dd none next = pure none
after_dd (some e) next = next e

module _ (env : Env) where
  abbrev pub disk_lines : List MountInfo → List String
  disk_lines =
      map (λ (e : MountInfo). env.colored e.device_name <> " - " <> env.colored e.disk_name)

  -- `l.workstation.mounts[num]`, for the number that the user selects
  unfoldable pub select_disk : List MountInfo → M (Option MountInfo)
  select_disk mounts = do
    num ← select_one env "Select mount to format: " (disk_lines mounts)
    dev ← or_panic (get_elem? mounts num)
    pure (some dev)

  -- The choice of `dev` among the mounts; `none` is the return for a disk that is not there.
  unfoldable pub choose_disk : Workstation → M (Option MountInfo)
  unfolding select_disk
  choose_disk l =
      if str_eq l.disk "" then select_disk l.mounts else pure (find_disk l.disk l.mounts)

  unfoldable pub file_mode_mask : String → M (Bool × Option String)
  file_mode_mask file h = (done (env.file_mode h file), h)

  unfoldable pub check_mode : Workstation → MountInfo → M Round
  unfolding file_mode_mask
  check_mode l dev = file_mode_mask dev.disk_name_raw >>= λ mode. by_mode l dev mode

  unfoldable pub select_chosen : Workstation → Option MountInfo → M Round
  select_chosen l none = pure (returns l (unknown_disk env))
  select_chosen l (some dev) = check_mode l dev

  unfoldable pub select_listed : Workstation × Option String → M Round
  unfolding select_chosen
  select_listed (l, some e) = pure (again l e)
  select_listed (l, none) = choose_disk l >>= select_chosen l

  -- One round of the loop of WriteToDisk.
  unfoldable pub select_round : Workstation → M Round
  unfolding select_listed
  select_round l = list_removable_disk env l >>= select_listed

  -- The loop of WriteToDisk over `tries` rounds, with the `err` of the last round and whether the
  -- next round is the first.
  unfoldable pub select_loop :
      ℕ → Bool → Option String → Workstation → M (Workstation × Option String)
  select_loop zero first err l = pure (l, err)
  select_loop (suc tries) first err l = do
    go ← may_try env first
    if go
        then (select_round l >>= λ r. after_round r (λ l' e. select_loop tries false (some e) l'))
        else pure (l, err)

  -- The question after the loop of WriteToDisk, and what it does to the station.
  unfoldable pub confirm : Workstation → M (Workstation × Written)
  confirm l = do
    sure ← (if str_eq l.disk "" then yes_no_dialog env "Are you sure? " else pure true)
    if sure
        then pure (record l { writable = true }, job)
        else pure (record l { writable = false }, declined)

  abbrev pub confirm_unless : Option String → Workstation → M (Workstation × Written)
  confirm_unless none l = confirm l
  confirm_unless (some e) l = pure (l, write_failed e)

  -- WriteToDisk, without the goroutine that it starts
  unfoldable pub write_to_disk : Workstation → M (Workstation × Written)
  unfolding select_loop confirm
  write_to_disk l = do
    (l', err) ← select_loop disk_selection_tries true none l
    confirm_unless err l'

  -- The goroutine of WriteToDisk, with the error that it reports to the job.
  unfoldable pub write_loop : ℕ → Bool → Option String → String → MountInfo → M (Option String)
  write_loop zero first err img mount = pure err
  write_loop (suc attempts) first err img mount = do
    go ← may_try env first
    if go
        then (host_exec env (dd img mount.disk_name) >>= λ r.
            after_dd r.err (λ e. write_loop attempts false (some e) img mount))
        else pure err

  unfoldable pub run_job : String → Workstation → M (Option String)
  unfolding write_loop
  run_job img l = write_loop write_attempts true none img l.mount

  -- Unmount; the workstation's folder is `config.MountDir`
  unfoldable pub unmount : Workstation → M (Option String)
  unmount l =
      if l.writable
      then (do
        r ← host_exec env (umount_args l.mount.disk_name)
        pure (elim r.err [
          | none ↦ none
          | some e ↦ some (
              "Error unmounting disk:" <> l.mount.disk_name <> " from /tmp/isaax-sd/ with error "
              <> e <> ", stdout: " <> r.out)
        ]))
      else pure none

  -- Eject
  unfoldable pub eject : Workstation → M (Option String)
  eject l =
      if l.writable
      then (do
        r ← host_exec env (eject_args l.mount.disk_name)
        pure (elim r.err [
          | none ↦ none
          | some e ↦ some ("eject disk failed: " <> l.mount.disk_name <> "\n[-] Cause: " <> r.out)
        ]))
      else pure none
