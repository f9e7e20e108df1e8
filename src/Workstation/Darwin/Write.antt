-- ===== src/Workstation/Darwin/Write.antt =====
-- WriteToDisk, CopyToDisk, CleanDisk, Unmount and Eject of workstation/w_darwin.go.
use iotit.Base.{
  ℕ, zero, suc, String, ◌<>◌, Bool, true, false, Option, none, some, List, [], ◌∷◌, str_eq,
  if◌then◌else◌,
}
use iotit.Effects.{M, pure, ◌>>=◌, ◌>>◌, Env, host_exec}
use iotit.Workstation.Defs.{MountInfo, Workstation}
use iotit.Workstation.Linux.Write.{
  Written, Round, mounted, again, returns, after_round, may_try, unknown_disk, choose_disk,
  file_mode_mask, confirm_unless, disk_selection_tries, write_attempts,
}
use iotit.Workstation.Linux.Copy.{choose_to_format}
use iotit.Workstation.Darwin.Disks.{list_removable_disk}

abbrev pub locked : String
locked = "[-] Your card seems locked.\n[-]  Please unlock your SD card and start command again\n"

abbrev pub by_mode : Workstation → MountInfo → Bool × Option String → M Round
by_mode d dev (ok, some e) = pure (returns d e)
by_mode d dev (true, none) = pure (mounted (record d { mount = dev }))
by_mode d dev (false, none) = pure (again d locked)

abbrev pub unmount_disk : String → List String
unmount_disk disk = "diskutil" ∷ "unmountDisk" ∷ disk ∷ []

abbrev pub sudo_unmount_disk : String → List String
sudo_unmount_disk disk = "sudo" ∷ unmount_disk disk

abbrev pub dd : String → String → List String
dd img raw = "sudo" ∷ "dd" ∷ ("if=" <> img) ∷ ("of=" <> raw) ∷ "bs=1048576" ∷ []

abbrev pub partition_disk : String → List String
partition_disk disk =
    "sudo" ∷ "diskutil" ∷ "partitionDisk" ∷ disk ∷ "1" ∷ "mbr" ∷ "fat32" ∷ "KERNEL" ∷ "100%" ∷ []

abbrev pub unzip_args : String → List String
unzip_args img = "unzip" ∷ img ∷ "-d" ∷ "/Volumes/KERNEL/" ∷ []

abbrev pub again_after : Option String → (String → M (Option String)) → M (Option String)
again_after none next = pure none
again_after (some e) next = next e

abbrev pub and_then : Option String → M (Option String) → M (Option String)
and_then (some e) next = pure (some e)
and_then none next = next

module _ (env : Env) where
  unfoldable pub select_chosen : Workstation → Option MountInfo → M Round
  select_chosen d none = pure (returns d (unknown_disk env))
  select_chosen d (some dev) = file_mode_mask env dev.disk_name_raw >>= λ mode. by_mode d dev mode

  unfoldable pub select_listed : Workstation × Option String → M Round
  unfolding select_chosen
  select_listed (d, some e) = pure (again d e)
  select_listed (d, none) = choose_disk env d >>= select_chosen d

  -- The loop of WriteToDisk, with the `err` of the last round and whether the next is the first.
  unfoldable pub select_loop :
      ℕ → Bool → Option String → Workstation → M (Workstation × Option String)
  unfolding select_listed
  select_loop zero first err d = pure (d, err)
  select_loop (suc tries) first err d = do
    go ← may_try env first
    if go
        then (list_removable_disk env d >>= select_listed >>= λ r.
            after_round r (λ d' e. select_loop tries false (some e) d'))
        else pure (d, err)

  -- WriteToDisk, without the goroutine that it starts; it ends as that of Linux
  unfoldable pub write_to_disk : Workstation → M (Workstation × Written)
  unfolding select_loop
  write_to_disk d = do
    (d', err) ← select_loop disk_selection_tries true none d
    confirm_unless env err d'

  -- The loops of the goroutine: a command that is run again while it fails and the user goes on.
  unfoldable pub retry : ℕ → Bool → Option String → List String → M (Option String)
  retry zero first err args = pure err
  retry (suc attempts) first err args = do
    go ← may_try env first
    if go
        then (host_exec env args >>= λ r.
            again_after r.err (λ e. retry attempts false (some e) args))
        else pure err

  -- The goroutine of WriteToDisk, with the error that it reports to the job.
  unfoldable pub run_job : String → Workstation → M (Option String)
  unfolding retry
  run_job img d = do
    stuck ← retry write_attempts true none (sudo_unmount_disk d.mount.disk_name)
    and_then stuck (retry write_attempts true none (dd img d.mount.disk_name_raw))

  -- CleanDisk: WaitJobAndSpin returns the error that its goroutine reports
  unfoldable pub clean_disk : String → Workstation → M (Workstation × Option String)
  clean_disk disk d = if str_eq disk "" then pure (d, some "No disk to format") else (do
    r ← host_exec env (partition_disk disk)
    pure (elim r.err [ none ↦ (record d { writable = true }, none) | some e ↦ (d, some e) ]))

  unfoldable pub clean_chosen : Workstation → Option MountInfo → M (Workstation × Option String)
  unfolding clean_disk
  clean_chosen d none = pure (d, some (unknown_disk env))
  clean_chosen d (some dev) = clean_disk dev.disk_name (record d { mount = dev })

  unfoldable pub copy_listed : Workstation × Option String → M (Workstation × Option String)
  unfolding clean_chosen
  copy_listed (d, some e) = pure (d, some e)
  copy_listed (d, none) = choose_to_format env d >>= clean_chosen d

  -- CopyToDisk up to its goroutine
  unfoldable pub copy_to_disk : Workstation → M (Workstation × Option String)
  unfolding copy_listed
  copy_to_disk d = list_removable_disk env d >>= copy_listed

  -- The goroutine of CopyToDisk. What unzip reports is not looked at.
  unfoldable pub copy_job : String → M (Option String)
  copy_job img = do host_exec env (unzip_args img); pure none

  -- Unmount
  unfoldable pub unmount : Workstation → M (Option String)
  unmount d =
      if d.writable
      then (do
        r ← host_exec env (unmount_disk d.mount.disk_name)
        pure (elim r.err [
          | none ↦ none
          | some e ↦
              some ("error unmounting disk: " <> d.mount.disk_name <> "\n[-] Cause: " <> r.out)
        ]))
      else pure none

  -- Eject
  unfoldable pub eject : Workstation → M (Option String)
  eject d =
      if d.writable
      then (do
        r ← host_exec env ("sudo" ∷ "eject" ∷ d.mount.disk_name ∷ [])
        pure (elim r.err [
          | none ↦ none
          | some e ↦ some ("eject disk failed: " <> d.mount.disk_name <> "\n[-] Cause: " <> r.out)
        ]))
      else pure none
