-- ===== src/Device/Flasher.antt =====
-- `flasher` of device/flasher.go and `sdFlasher` of device/sd_flasher.go. A method takes the object
-- and gives it back as it leaves it, with its error.
use iotit.Base.{String, ◌<>◌, Bool, Option, none, some, str_eq, if◌then◌else◌}
use iotit.GoStrings.{trim_space}
use iotit.Effects.{M, pure, fail, ◌>>=◌, Env, Reply, ssh_run}
use iotit.Mapping.{DeviceImage}
use iotit.Vbox.{Config}

-- The fields that the methods read and write; `conf` is nil until Prepare has set it. `image` is
-- `devRepo.Image`, and `repo_dir` is `devRepo.Dir()`.
pub record Flasher : Type 0 where
  pub quiet : Bool
  pub conf : Option Config
  pub image : DeviceImage
  pub repo_dir : String
  pub img : String
  pub folder : String
  pub device : String
  pub mounted : Bool

-- `sdFlasher` embeds a `*flasher`.
pub record SdFlasher : Type 0 where
  pub flasher : Flasher
  pub open flasher use *
  pub disk : String
  pub configured : Bool

abbrev pub set_mounted : Bool → SdFlasher → SdFlasher
set_mounted b d = record d { flasher = record (d.flasher) { mounted = b } }

abbrev pub set_configured : SdFlasher → SdFlasher
set_configured d = record d { configured = Bool.true }

-- filepath.Join of a directory and a plain file name, which may be empty
abbrev pub join : String → String → String
join dir name = if str_eq name "" then dir else dir <> "/" <> name

-- What execOverSSH returns, and what it writes through its pointer: "" if it writes nothing.
pub record Executed : Type 0 where
  pub err : Option String
  pub outp : String

abbrev pub executed : Reply → Executed
executed r = elim r.err [
  | some e ↦ record { err = some e; outp = "" }
  | none ↦
      if str_eq (trim_space r.eut) ""
      then record { err = none; outp = trim_space r.out }
      else record { err = some (trim_space r.eut); outp = trim_space r.eut }
]

module _ (env : Env) where
  -- `d.conf.SSH.Run(command)`
  unfoldable pub remote : Option Config → String → M Reply
  remote none command = fail
  remote (some conf) command = ssh_run env command

  -- execOverSSH
  unfoldable pub exec_over_ssh : Option Config → String → M Executed
  unfolding remote
  exec_over_ssh conf command = do r ← remote conf command; pure (executed r)

  -- `exec` of raspberryPi and colibri: what is printed on standard error is no error
  unfoldable pub exec_plain : Option Config → String → M (Option String)
  unfolding remote
  exec_plain conf command = do r ← remote conf command; pure r.err
