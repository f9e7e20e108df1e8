-- ===== src/Vbox/Check.antt =====
-- vbox/machine.go: CheckVBInstalled, outside Windows, and CheckMachine; NewConfig of vbox/vbox.go;
-- NewRepositoryVM of repo/repository.go.
use iotit.Base.{String, ◌<>◌, Bool, Option, none, some, List, [], ◌∷◌, str_eq, if◌then◌else◌}
use iotit.GoStrings.{contains}
use iotit.Effects.{
  Event, downloaded, unzipped, fetched, M, done, pure, fail, leave, ◌>>=◌, Env, Reply, host_exec,
}
use iotit.Repository.{repository_name}
use iotit.Vbox.Defs.{machine, missing, VirtualBox, find_machine, Config, vbox_name}
use iotit.Vbox.Settings.{config_of}

-- VMRepo: the URL, version and sum of the machine's image.
pub record VmRepo : Type 0 where
  pub url : String
  pub version : String
  pub md5_sum : String

-- The files and downloads that the machine comes from: os.Stat, a GET of a url with its body or an
-- error, encoding/json for a VMRepo, DownloadAsync up to the wait for it, help.Unzip,
-- SystemProperties.
pub record Sources : Type 0 where
  pub file_exists : List Event → String → Bool
  pub get_document : List Event → String → String × Option String
  pub decode_repo : String → Option VmRepo
  pub download : List Event → String → String → Option String
  pub unzip : List Event → String → String → Option String
  pub machine_folder : String  -- getPath()
  pub vbox_dir : String  -- repo.VboxDir

abbrev pub s3_bucket : String
s3_bucket = "https://cdn.isaax.io/iotit/versions.json"

-- What NewRepositoryVM makes of the reply: the repository, or nil and an error.
abbrev pub decoded : Sources → String × Option String → Option VmRepo
decoded src (body, some e) = none
decoded src (body, none) = src.decode_repo body

-- The answer of NewRepositoryVM after a history.
unfoldable pub fetch_repo : Sources → List Event → Option VmRepo
fetch_repo src h = decoded src (src.get_document h s3_bucket)

abbrev pub which_args : List String
which_args = "which" ∷ "VBoxManage" ∷ []

abbrev pub packs_args : List String
packs_args = "VBoxManage" ∷ "list" ∷ "extpacks" ∷ []

-- `which` is run a second time where it failed.
abbrev pub look_again : Env → Reply → Option String → M Reply
look_again env r none = pure r
look_again env r (some e) = host_exec env which_args

unfoldable pub check_packs : Env → Option String → M (Option String)
check_packs env (some e) = pure (some "Could not find virtualbox, please install it first")
check_packs env none = do
  packs ← host_exec env packs_args
  if contains packs.out "Oracle VM VirtualBox Extension Pack"
      then pure none
      else pure (
          some
            "Could not find virtualbox extension pack, please install virtualbox extension pack, try")

unfoldable pub check_vb_installed : Env → M (Option String)
unfolding check_packs
check_vb_installed env = do
  r ← host_exec env which_args
  again ← look_again env r r.err
  check_packs env again.err

module _ (env : Env) (vb : VirtualBox) (src : Sources) where
  unfoldable pub exists_file : String → M Bool
  exists_file file h = (done (src.file_exists h file), h)

  -- NewRepositoryVM
  unfoldable pub vm_repo : M (Option VmRepo)
  vm_repo h = (done (fetch_repo src h), fetched s3_bucket ∷ h)

  unfoldable pub get_file : String → String → M (Option String)
  get_file url dst h = (done (src.download h url dst), downloaded url dst ∷ h)

  unfoldable pub unpack : String → String → M (Option String)
  unpack file dst h = (done (src.unzip h file dst), unzipped file dst ∷ h)

  -- Downloading and unzipping the image. `repository.GetURL()` of a nil repository panics: the
  -- error of NewRepositoryVM is not looked at.
  fetch_machine : M (Option String)
  unfolding exists_file vm_repo get_file unpack
  fetch_machine = do
    repo ← vm_repo
    elim repo [
      | none ↦ fail
      | some r ↦
          if str_eq r.url "" then pure (some "URL is not set for downloading VBox image") else (do
            let dst = src.vbox_dir <> "/" <> r.version
            let archive = dst <> "/" <> repository_name r.url
            there ← exists_file archive
            got ← (if there then pure none else get_file r.url dst)
            elim got [ some e ↦ pure (some e) | none ↦ unpack archive src.machine_folder ])
    ]

  -- CheckMachine
  unfoldable pub check_machine : String → M (Option String)
  unfolding fetch_machine
  check_machine name = do
    let file = src.machine_folder <> "/" <> name <> "/" <> name <> ".vbox"
    there ← exists_file file
    got ← (if there then pure none else fetch_machine)
    elim got [
      | some e ↦ pure (some e)
      | none ↦ do
        active ← find_machine vb file
        elim active [
          | machine m ↦ pure none
          | missing e ↦ do r ← host_exec env ("VBoxManage" ∷ "registervm" ∷ file ∷ []); pure r.err
        ]
    ]

  -- NewConfig: an error of CheckMachine ends the program; a machine that is not found is nil.
  unfoldable pub new_config : String → M Config
  unfolding check_machine
  new_config device = do
    err ← check_machine vbox_name
    elim err [
      | some e ↦ leave 1
      | none ↦ do
        found ← find_machine vb vbox_name
        elim found [ missing e ↦ fail | machine m ↦ pure (config_of m device) ]
    ]
