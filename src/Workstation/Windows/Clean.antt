-- ===== src/Workstation/Windows/Clean.antt =====
-- CleanDisk and CopyToDisk of workstation/w_windows.go. Unmount and Eject there do nothing.
use iotit.Base.{
  ℕ, zero, suc, String, ◌<>◌, Bool, true, false, Option, none, some, List, [], ◌∷◌, if◌then◌else◌,
  get_elem?,
}
use iotit.Effects.{
  M, done, pure, ◌>>=◌, ◌>>◌, Env, host_exec, yes_no_dialog, select_one, or_panic, write_file,
}
use iotit.Workstation.Defs.{MountInfo, Workstation}
use iotit.Workstation.Linux.Write.{disk_selection_tries, may_try, disk_lines, unknown_disk}
use iotit.Workstation.Linux.Copy.{choose_to_format, disk_texts}
use iotit.Workstation.Windows.Disks.{Windows, list_removable_disk}

-- cleanTemplate, for the number of a disk
unfoldable pub clean_template : String → String
clean_template disk =
    "\nselect disk " <> disk
    <> "\nclean\ncreate partition primary\nactive\nassign letter=N\nremove letter=N\nformat fs=fat32 label=KERNEL quick\n"

abbrev pub clean_script : Env → String
clean_script env = env.temp_dir <> "\\" <> "clean_script.txt"

abbrev pub diskpart : Env → List String
diskpart env = "diskpart" ∷ "/s" ∷ clean_script env ∷ []

abbrev pub unzip_args : String → List String
unzip_args img = "unzip" ∷ img ∷ "-d" ∷ "N:\\" ∷ []

-- Unmount and Eject
unfoldable pub unmount : Workstation → M (Option String)
unmount w = pure none

unfoldable pub eject : Workstation → M (Option String)
eject w = pure none

module _ (env : Env) where
  -- `w.workstation.mounts[num]`, for the number that the user selects
  unfoldable pub select_mount : String → Workstation → M Workstation
  select_mount question w = do
    num ← select_one env question (disk_lines env w.mounts)
    dev ← or_panic (get_elem? w.mounts num)
    pure (record w { mount = dev })

  unfoldable pub file_exists : String → M Bool
  file_exists file h = (done (env.exists h file), h)

  unfoldable pub run_diskpart : M (Option String)
  run_diskpart = do r ← host_exec env (diskpart env); pure r.err

  -- The question of CleanDisk, the script and the run of it.
  unfoldable pub clean_selected : Workstation → M (Option String)
  unfolding clean_template file_exists run_diskpart
  clean_selected w = do
    sure ← yes_no_dialog env "Are you sure you want to clean this disk? "
    if sure
        then (do
          write_file (clean_script env) (clean_template w.mount.disk_name_raw)
          there ← file_exists (clean_script env)
          if there then run_diskpart else pure none)
        else pure none

  module _ (windows : Windows) where
    abbrev pub select_listed :
        Option String
        → Workstation × Option String
        → (String → Workstation → M (Workstation × Option String))
        → M (Workstation × Option String)
    select_listed last (w, some e) next = next e w
    select_listed last (w, none) next =
        select_mount "Select disk to clean: " w >>= λ w'. pure (w', last)

    -- The loop of CleanDisk: the station, and `last`, the error of the last listing that failed,
    -- which a listing that does not fail leaves as it is.
    unfoldable pub clean_loop :
        ℕ → Bool → Option String → Workstation → M (Workstation × Option String)
    unfolding select_mount
    clean_loop zero first last w = pure (w, last)
    clean_loop (suc tries) first last w = do
      go ← may_try env first
      if go
          then (list_removable_disk windows env w >>= λ r.
              select_listed last r (λ e w'. clean_loop tries false (some e) w'))
          else pure (w, last)

    abbrev pub clean_unless : Workstation × Option String → M (Workstation × Option String)
    clean_unless (w, some e) = pure (w, some e)
    clean_unless (w, none) = clean_selected w >>= λ err. pure (w, err)

    -- CleanDisk, which does not read the disk that it is given
    unfoldable pub clean_disk : String → Workstation → M (Workstation × Option String)
    unfolding clean_loop clean_selected
    clean_disk disk w = clean_loop disk_selection_tries true none w >>= clean_unless

    unfoldable pub clean_chosen : Workstation → Option MountInfo → M (Workstation × Option String)
    clean_chosen w none = pure (w, some (unknown_disk env))
    clean_chosen w (some dev) = clean_disk dev.disk_name (record w { mount = dev })

    unfoldable pub copy_listed : Workstation × Option String → M (Workstation × Option String)
    unfolding clean_chosen
    copy_listed (w, some e) = pure (w, some e)
    copy_listed (w, none) = choose_to_format env w >>= clean_chosen w

    -- CopyToDisk up to its goroutine, which is started where there is no error
    unfoldable pub copy_to_disk : Workstation → M (Workstation × Option String)
    unfolding copy_listed
    copy_to_disk w = list_removable_disk windows env w >>= copy_listed

    -- PrintDisks: the lines that it prints after those of ListRemovableDisk
    unfoldable pub print_disks : Workstation → M (List String)
    print_disks w = do r ← list_removable_disk windows env w; pure (disk_texts env r)

  -- The goroutine of CopyToDisk. What unzip reports is not looked at.
  unfoldable pub copy_job : String → M (Option String)
  copy_job img = do host_exec env (unzip_args img); pure none
