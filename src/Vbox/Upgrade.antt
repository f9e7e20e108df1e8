-- ===== src/Vbox/Upgrade.antt =====
-- Update of vbox/machine.go, with CheckUpdate, deregister and download. The progress bars, the pauses
-- and the printing are left out, and so is the message for a missing directory.
use iotit.Base.{String, ◌<>◌, Bool, Option, none, some, List, [], ◌∷◌, ◌==◌, if◌then◌else◌}
use iotit.GoStrings.{trim}
use iotit.Effects.{
  Event, listed, M, done, pure, leave, ◌>>=◌, ◌>>◌, Env, host_exec, yes_no_dialog, delete_file,
}
use iotit.Vbox.Defs.{Found, machine, missing, VirtualBox, find_machine, machine_off, vbox_name}
use iotit.Vbox.Settings.{is_running}
use iotit.Vbox.Update.{needs_update}
use iotit.Vbox.Check.{VmRepo, Sources, check_vb_installed, vm_repo, get_file, unpack}

-- What Update uses beside the sources of CheckMachine: `ls dir | sort -n | tail -1`, which has no
-- value where it fails, os.RemoveAll, the name of a downloaded file, help.UserHomeDir().
pub record Upgrades : Type 0 where
  pub latest_in : List Event → String → Option String
  pub remove_all : List Event → String → Option String
  pub file_name : String → String
  pub home : String

-- help.ExitOnError
unfoldable pub exit_on_error : Option String → M (Unit {0})
exit_on_error none = pure tt
exit_on_error (some e) = leave 1

-- A value, or the end of the program where there is none but an error.
unfoldable pub or_leave : {A : Type 0} → Option A → M A
or_leave none = leave 1
or_leave (some a) = pure a

abbrev pub update_question : String
update_question = "Would you update virtual machine?"

module _ (env : Env) (vb : VirtualBox) (src : Sources) (up : Upgrades) where
  unfoldable pub latest_in : String → M (Option String)
  latest_in dir h = (done (up.latest_in h dir), listed dir ∷ h)

  unfoldable pub remove_all : String → M (Option String)
  remove_all dir h = (done (up.remove_all h dir), Event.deleted dir ∷ h)

  abbrev pub repository : M VmRepo
  repository = vm_repo env vb src >>= or_leave

  abbrev pub trimmed : String → String
  trimmed s = trim (λ c. c == 10) s

  -- CheckUpdate
  unfoldable pub check_update : M Bool
  check_update = do
    absent ← check_vb_installed env
    exit_on_error absent
    repo ← repository
    out ← latest_in (up.home <> "/.iotit/virtualbox/edison")
    current ← or_leave out
    or_leave (needs_update (trimmed current) repo.version)

  abbrev pub machine_path : String
  machine_path = src.machine_folder <> "/" <> vbox_name <> "/" <> vbox_name <> ".vbox"

  abbrev pub unregister_args : List String
  unregister_args = "VBoxManage" ∷ "unregistervm" ∷ machine_path ∷ []

  abbrev pub register_args : List String
  register_args = "VBoxManage" ∷ "registervm" ∷ machine_path ∷ []

  unfoldable pub deregister_found : Found → M (Unit {0})
  deregister_found (missing e) = leave 1
  deregister_found (machine m) = do
    off ← (if is_running m.state then machine_off vb m else pure none)
    exit_on_error off
    host_exec env unregister_args
    pure tt

  abbrev pub if_active : Found → M (Unit {0}) → M (Unit {0})
  if_active (missing e) next = pure tt
  if_active (machine m) next = next

  -- deregister; isActive asks for the machine a first time
  unfoldable pub deregister : M (Unit {0})
  unfolding deregister_found
  deregister = do
    active ← find_machine vb vbox_name
    if_active active (find_machine vb vbox_name >>= deregister_found)

  -- What Update does where the old machine could not be removed. The error of the removal is shadowed
  -- by those of the steps here, so that the last ExitOnError has none.
  unfoldable pub roll_back : VmRepo → Option String → M (Unit {0})
  roll_back repo none = pure tt
  roll_back repo (some e) = do
    out ← latest_in src.vbox_dir
    current ← or_leave out
    unpacked ←
        unpack env vb src
          (src.vbox_dir
            <> "/"
            <> repo.version
            <> "/"
            <> trimmed current
            <> "/"
            <> vbox_name
            <> ".zip")
          src.machine_folder
    exit_on_error unpacked
    r ← host_exec env register_args
    exit_on_error r.err

  -- download
  unfoldable pub download : VmRepo → M (Unit {0})
  download repo = do
    got ← get_file env vb src repo.url (src.vbox_dir <> "/" <> repo.version)
    exit_on_error got
    unpacked ←
        unpack env vb src (src.vbox_dir <> "/" <> repo.version <> "/" <> up.file_name repo.url)
          src.machine_folder
    exit_on_error unpacked

  -- Update after the question and the check.
  unfoldable pub replace_machine : VmRepo → M (Option String)
  unfolding deregister roll_back download
  replace_machine repo = do
    deregister
    removed ← remove_all (src.machine_folder <> "/" <> vbox_name)
    roll_back repo removed
    download repo
    r ← host_exec env register_args
    exit_on_error r.err
    delete_file (up.home <> "/.iotit/virtualbox/iotit-vbox.json")
    pure none

  -- Update
  unfoldable pub update : M (Option String)
  unfolding check_update replace_machine
  update = do
    absent ← check_vb_installed env
    exit_on_error absent
    repo ← repository
    wanted ← yes_no_dialog env update_question
    if wanted
        then (check_update >>= λ newer. if newer then replace_machine repo else leave 0)
        else pure none
