-- ===== src/Workstation/Windows/Write.antt =====
-- WriteToDisk of workstation/w_windows.go, with its goroutine, and getDDBinary.
use iotit.Base.{
  ℕ, zero, suc, String, ◌<>◌, Bool, true, false, ◌||◌, Option, none, some, List, [], ◌∷◌, str_eq,
  if◌then◌else◌,
}
use iotit.GoStrings.{contains}
use iotit.Effects.{downloaded, Reply, M, done, pure, give_up, ◌>>=◌, Env, host_exec, yes_no_dialog}
use iotit.Workstation.Defs.{MountInfo, Workstation}
use iotit.Workstation.Linux.Write.{
  Written, job, declined, write_failed, disk_selection_tries, may_try,
}
use iotit.Workstation.Windows.Disks.{Windows, Station, list_removable_disk}
use iotit.Workstation.Windows.Clean.{select_mount, file_exists, clean_disk}

abbrev pub write_attempts : ℕ
write_attempts = 5

-- The loop that looks for the disk named on the command line, by either of its names.
unfoldable pub find_disk : String → List MountInfo → Option MountInfo
find_disk disk [] = none
find_disk disk (e ∷ mounts) =
    if str_eq e.disk_name disk || str_eq e.disk_name_raw disk then some e else find_disk disk mounts

-- The mount after that loop. It is never nil, so that the error for a disk that is not there is not
-- reached: the mount stays what it was.
abbrev pub set_found : Workstation → Option MountInfo → Workstation
set_found w none = w
set_found w (some e) = record w { mount = e }

abbrev pub dd_dir : Env → String
dd_dir env = env.temp_dir <> "\\"

abbrev pub dd_url : String
dd_url = "https://cdn.isaax.io/isaax-distro/utilities/dd/ddrelease64.zip"

abbrev pub dd_exe : Env → String
dd_exe env = dd_dir env <> "ddrelease64.exe"

abbrev pub unzip_dd : Env → List String
unzip_dd env = "unzip" ∷ "-o" ∷ (dd_dir env <> "ddrelease64.zip") ∷ "-d" ∷ dd_dir env ∷ []

abbrev pub dd : String → String → String → List String
dd path img disk = path ∷ "--filter=removable" ∷ ("if=" <> img) ∷ ("of=" <> disk) ∷ "bs=1M" ∷ []

abbrev pub retry_question : String
retry_question = "Retry flashing?"

abbrev pub clean_question : String
clean_question = "Or we can try to clean it's partitions right now, should we proceed?"

abbrev pub reconnect_question : String
reconnect_question =
    "[+] Disk formatted, now please reconnect the device. Type yes once you've done it."

-- The texts of a dd that has run and offers to clean the disk.
unfoldable pub is_denied : String → Bool
is_denied out = contains out "Access is denied" || contains out "The device is not ready"

-- The first error that the goroutine reports to the job after its loop.
abbrev pub not_flashed : Option String → Option String
not_flashed none = some "Image wasn't flashed"
not_flashed (some e) = some e

module _ (windows : Windows) (env : Env) where
  abbrev pub choose_mount : Workstation → M Workstation
  choose_mount w =
      if str_eq w.disk ""
      then select_mount env "Select disk to use: " w
      else pure (set_found w (find_disk w.disk w.mounts))

  abbrev pub choose_listed :
      Workstation × Option String
      → (String → Workstation → M (Workstation × Option String))
      → M (Workstation × Option String)
  choose_listed (w, some e) next = next e w
  choose_listed (w, none) next = choose_mount w >>= λ w'. pure (w', none)

  -- The loop of WriteToDisk, with the `err` of the last listing.
  unfoldable pub select_loop :
      ℕ → Bool → Option String → Workstation → M (Workstation × Option String)
  unfolding find_disk
  select_loop zero first err w = pure (w, err)
  select_loop (suc tries) first err w = do
    go ← may_try env first
    if go
        then (list_removable_disk windows env w >>= λ r.
            choose_listed r (λ e w'. select_loop tries false (some e) w'))
        else pure (w, err)

  unfoldable pub download_dd : M (Option String)
  download_dd h =
      (done (windows.download h dd_url (dd_dir env)), downloaded dd_url (dd_dir env) ∷ h)

  abbrev pub with_dd : Station → Option String → Station × Option String
  with_dd s none = (record s { dd_path = dd_exe env }, none)
  with_dd s (some e) = (s, some e)

  abbrev pub unpack_dd : Station → Option String → M (Station × Option String)
  unpack_dd s (some e) = pure (s, some e)
  unpack_dd s none = host_exec env (unzip_dd env) >>= λ r. pure (with_dd s r.err)

  -- getDDBinary
  unfoldable pub get_dd_binary : Station → M (Station × Option String)
  unfolding download_dd
  get_dd_binary s = do
    there ← file_exists env (dd_exe env)
    if there then pure (with_dd s none) else (download_dd >>= unpack_dd s)

  abbrev pub sure_of : Station → M (Station × Written)
  sure_of s =
      if str_eq s.base.disk ""
      then (do
        sure ← yes_no_dialog env "Are you sure? "
        pure (s, (if sure then job else declined)))
      else pure (s, job)

  abbrev pub confirm_unless : Station × Option String → M (Station × Written)
  confirm_unless (s, some e) = pure (s, write_failed e)
  confirm_unless (s, none) = sure_of s

  -- WriteToDisk behind its loop
  unfoldable pub after_loop : Station → Option String → M (Station × Written)
  unfolding get_dd_binary
  after_loop s (some e) = pure (s, write_failed e)
  after_loop s none =
      (if str_eq s.dd_path "" then get_dd_binary s else pure (s, none)) >>= confirm_unless

  -- WriteToDisk, without the goroutine that it starts
  unfoldable pub write_to_disk : Station → M (Station × Written)
  unfolding select_loop after_loop
  write_to_disk s = do
    (w, err) ← select_loop disk_selection_tries true none s.base
    after_loop (record s { base = w }) err

  -- `for !dialogs.YesNoDialog(…) {}`, on fuel
  unfoldable pub ask_until_yes : ℕ → M Unit
  ask_until_yes zero = give_up
  ask_until_yes (suc asks) =
      let next = ask_until_yes asks in
      yes_no_dialog env reconnect_question >>= λ ready. if ready then pure tt else next

  abbrev pub reconnected : ℕ → Workstation × Option String → M Workstation
  reconnected asks (w, some e) = pure w
  reconnected asks (w, none) = ask_until_yes asks >>= λ _. pure w

  -- What the goroutine does after a dd that has run and printed "Error ".
  unfoldable pub on_error_text : ℕ → String → Workstation → M Workstation
  unfolding is_denied ask_until_yes
  on_error_text asks out w =
      if is_denied out
      then (do
        clean ← yes_no_dialog env clean_question
        if clean then (clean_disk env windows "" w >>= reconnected asks) else pure w)
      else pure w

  -- The reply to the dd, whose `out` is the combined output, and what comes next.
  abbrev pub after_dd :
      ℕ
      → Reply
      → Workstation
      → (Option String → Workstation → M (Workstation × Option String))
      → M (Workstation × Option String)
  after_dd asks r w next = elim r.err [
    | some e ↦ next (some e) w
    | none ↦
        if contains r.out "Error "
        then (on_error_text asks r.out w >>= next none)
        else pure (w, none)
  ]

  -- The loop of the goroutine: the station, whose mount a cleaning may change, and the first error
  -- that is reported to the job.
  unfoldable pub write_loop :
      ℕ → ℕ → Bool → Option String → String → String → Workstation → M (Workstation × Option String)
  unfolding on_error_text
  write_loop asks zero first err path img w = pure (w, not_flashed err)
  write_loop asks (suc attempts) first err path img w = do
    go ← (if first then pure true else yes_no_dialog env retry_question)
    if go
        then (host_exec env (dd path img w.mount.disk_name) >>= λ r.
            after_dd asks r w (λ err' w'. write_loop asks attempts false err' path img w'))
        else pure (w, not_flashed err)

  -- The goroutine of WriteToDisk.
  unfoldable pub run_job : ℕ → String → Station → M (Station × Option String)
  unfolding write_loop
  run_job asks img s = do
    (w, err) ← write_loop asks write_attempts true none s.dd_path img s.base
    pure (record s { base = w }, err)
