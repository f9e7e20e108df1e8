-- ===== src/Vbox/Machines.antt =====
-- vbox/machine.go: stopping machines; GetVbox of vbox/vbox.go.
use iotit.Base.{
  String, ◌<>◌, Bool, true, false, Option, none, some, List, [], ◌∷◌, str_eq, if◌then◌else◌,
}
use iotit.Effects.{M, pure, fail, leave, ◌>>=◌, Env, yes_no_dialog}
use iotit.Vbox.Defs.{
  Machine, Found, machine, missing, Listed, machines, unlisted, VirtualBox, find_machine,
  machine_list, machine_off, vbox_name,
}
use iotit.Vbox.Settings.{is_running}

module _ (env : Env) (vb : VirtualBox) where
  abbrev pub stop_question : Machine → String
  stop_question m =
      env.colored
        (m.name <> " (" <> (if str_eq m.description "" then "default" else m.description) <> ")")
      <> " is running, would like you stop this virtual machine?"

  -- The body of the loop of StopMachines, for a machine that is running.
  unfoldable pub ask_stop : Bool → Machine → M (Option String)
  ask_stop true m = pure none
  ask_stop false m = do
    go ← yes_no_dialog env (stop_question m)
    if go then machine_off vb m else pure none

  -- `if err != nil { return err }`, inside the loop
  unfoldable pub next_machine : Option String → M (Option String) → M (Option String)
  next_machine (some e) rest = pure (some e)
  next_machine none rest = rest

  unfoldable pub stop_loop : Bool → List Machine → M (Option String)
  unfolding ask_stop next_machine
  stop_loop quiet [] = pure none
  stop_loop quiet (m ∷ ms) = do
    err ← (if is_running m.state then ask_stop quiet m else pure none)
    next_machine err (stop_loop quiet ms)

  unfoldable pub stop_listed : Bool → Listed → M (Option String)
  unfolding stop_loop
  stop_listed quiet (unlisted e) = pure (some e)
  stop_listed quiet (machines ms) = stop_loop quiet ms

  unfoldable pub stop_machines : Bool → M (Option String)
  unfolding stop_listed
  stop_machines quiet = do listed ← machine_list vb; stop_listed quiet listed

  -- GetVbox. The preset is `VBoxTypeDefault`: the call that would choose another is commented out.
  -- A machine that cannot be found is a nil pointer where its state is read.
  unfoldable pub get_vbox : Bool → M Found
  unfolding stop_machines
  get_vbox quiet = do
    err ← stop_machines quiet
    elim err [
      | some e ↦ leave 1
      | none ↦ do
        found ← find_machine vb vbox_name
        elim found [
          | missing e ↦ fail
          | machine m ↦ if is_running m.state then pure (machine m) else find_machine vb vbox_name
        ]
    ]
