-- ===== src/Effects/Defs.antt =====
-- Histories of events, actions on them, and the world that answers: the packages that the code calls
-- for ssh, dialogs, files, pings and commands.
use iotit.Base.{ℕ, String, Bool, Option, none, some, List, ◌∷◌, length, ◌<◌, ◌≡◌}

-- What is recorded of an action.
pub data Event : Type 0 where
  ssh : String → Event  -- Util.Run, the command
  scp : String → String → Event  -- Util.Scp, from the host to the virtual machine
  scp_from : String → String → Event  -- Util.ScpFrom, from the virtual machine to the host
  asked : String → Event  -- YesNoDialog
  offered : String → List String → Event  -- SelectOneDialog
  queried : String → Event  -- GetSingleAnswer
  ran : List String → Event  -- a command on the host: exec.Command, help.ExecCmd, sudo.Exec
  deleted : String → Event  -- help.DeleteFile
  powered_off : String → Event  -- Machine.Poweroff
  started : String → Event  -- Machine.Start
  typed_password : Event  -- WiFiPassword
  pinged : String → Event  -- PingIp
  downloaded : String → String → Event  -- a url, and the file or directory it is saved to
  wrote : String → String → Event  -- help.WriteFile, the file and its text
  unzipped : String → String → Event  -- help.Unzip, the file and the directory
  fetched : String → Event  -- a GET of a url
  listed : String → Event  -- `ls`, sorted, of a directory
  sent : String → Event  -- Write of a serial port
  received : Event  -- Read of a serial port

pub data Outcome (A : Type 0) : Type 0 where
  done : A → Outcome A
  panic : Outcome A
  exit : ℕ → Outcome A
  unfinished : Outcome A  -- the fuel of a loop that the user or the network can prolong ran out

abbrev pub M : Type 0 → Type 0
M A = List Event → Outcome A × List Event

abbrev pub pure : {A : Type 0} → A → M A
pure a h = (done a, h)

abbrev pub fail : {A : Type 0} → M A
fail h = (panic, h)

abbrev pub leave : {A : Type 0} → ℕ → M A
leave n h = (exit n, h)

abbrev pub give_up : {A : Type 0} → M A
give_up h = (unfinished, h)

abbrev pub continue_with :
    {A B : Type 0} → Outcome A → List Event → (A → M B) → Outcome B × List Event
continue_with (done a) h f = f a h
continue_with panic h f = (panic, h)
continue_with (exit n) h f = (exit n, h)
continue_with unfinished h f = (unfinished, h)

infixl 5 ◌>>=◌ ◌>>◌
abbrev pub ◌>>=◌ : {A B : Type 0} → M A → (A → M B) → M B
◌>>=◌ m f h = continue_with (m h).0 (m h).1 f

abbrev pub ◌>>◌ : {A B : Type 0} → M A → M B → M B
m >> k = m >>= λ _. k

-- A dialog that gets no valid answer ends the program with status 3.
abbrev pub or_exit : {A : Type 0} → Option A → M A
or_exit none = leave 3
or_exit (some a) = pure a

-- An index into a slice, which panics out of range.
abbrev pub or_panic : {A : Type 0} → Option A → M A
or_panic none = fail
or_panic (some a) = pure a

-- `if err := m; err != nil { return err }; k`, for a function that returns its object and an error.
abbrev pub or_return : {S A : Type 0} → S × Option A → (S → M (S × Option A)) → M (S × Option A)
or_return (s, none) k = k s
or_return (s, some e) k = pure (s, some e)

-- `if err != nil { return err }; k`, for a method that leaves its object as `s`.
abbrev pub unless : {S : Type 0} → Option String → S → M (S × Option String) → M (S × Option String)
unless (some e) s k = pure (s, some e)
unless none s k = k

-- What a command gives: its standard output and error, and the error of the call that runs it. That of
-- sudo.Exec tells nothing of the exit status of a command that has started.
pub record Reply : Type 0 where
  pub out : String
  pub eut : String
  pub err : Option String

pub record Env : Type 0 where
  pub run : List Event → String → Reply
  pub copy_to : List Event → String → String → Option String
  pub copy_from : List Event → String → String → Option String
  pub yes_no : List Event → String → Option Bool
  pub choose : List Event → String → List String → Option ℕ
  pub answer : List Event → String → Option String
  pub wifi_password : List Event → Option String
  pub ping_ip : List Event → String → Bool  -- PingIp, false on success
  pub exec : List Event → List String → Reply
  pub read_file : List Event → String → Option String
  pub read_dir : List Event → String → List String
  pub file_mode : List Event → String → Bool × Option String  -- help.FileModeMask(path, 0200)
  pub exists : List Event → String → Bool  -- help.Exists
  pub path : String → List String → String  -- help.AddPathSuffix("unix", …)
  pub temp_dir : String  -- help.GetTempDir()
  pub colored : String → String  -- dialogs.PrintColored

-- SelectOneDialog returns the index of one of the options.
pub record AnswersInRange (env : Env) : Type 0 where
  pub choose_lt :
      (h : List Event) (question : String) (options : List String) (i : ℕ)
      → env.choose h question options ≡ some i
      → i < length options

module _ (env : Env) where
  unfoldable pub ssh_run : String → M Reply
  ssh_run command h = (done (env.run h command), ssh command ∷ h)

  unfoldable pub ssh_copy : String → String → M (Option String)
  ssh_copy src dst h = (done (env.copy_to h src dst), scp src dst ∷ h)

  unfoldable pub ssh_copy_from : String → String → M (Option String)
  ssh_copy_from src dst h = (done (env.copy_from h src dst), scp_from src dst ∷ h)

  unfoldable pub yes_no_dialog : String → M Bool
  yes_no_dialog question h = or_exit (env.yes_no h question) (asked question ∷ h)

  unfoldable pub select_one : String → List String → M ℕ
  select_one question options h =
      or_exit (env.choose h question options) (offered question options ∷ h)

  unfoldable pub single_answer : String → M String
  single_answer question h = or_exit (env.answer h question) (queried question ∷ h)

  unfoldable pub ask_wifi_password : M String
  ask_wifi_password h = or_exit (env.wifi_password h) (typed_password ∷ h)

  unfoldable pub ping : String → M Bool
  ping ip h = (done (env.ping_ip h ip), pinged ip ∷ h)

  unfoldable pub host_exec : List String → M Reply
  host_exec args h = (done (env.exec h args), ran args ∷ h)

unfoldable pub delete_file : String → M (Unit {0})
delete_file path h = (done tt, deleted path ∷ h)

unfoldable pub write_file : String → String → M (Unit {0})
write_file file content h = (done tt, wrote file content ∷ h)
