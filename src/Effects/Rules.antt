-- ===== src/Effects/Rules.antt =====
-- What the single actions add to a history, as `Runs`.
use iotit.Base.{String, Option, none, some, List, ◌≡◌, refl}
use iotit.Effects.Defs.{
  Event, ssh, asked, offered, queried, ran, typed_password, pinged, Env, ssh_run, yes_no_dialog,
  select_one, single_answer, ask_wifi_password, ping, host_exec, or_exit, or_panic, wrote,
  write_file,
}
use iotit.Effects.Trace.{Grows, here, more, Runs, Anything, Returns}

Returns-or_exit :
    {A : Type 0} (o : Option A) (h : List Event) → Returns {A = A} Anything (or_exit o h).0
Returns-or_exit none h = tt
Returns-or_exit (some a) h = tt

or_exit-log : {A : Type 0} (o : Option A) (h : List Event) → (or_exit o h).1 ≡ h
or_exit-log none h = refl
or_exit-log (some a) h = refl

module _ (P : Event → Type 0) where
  Runs-or_exit :
      {A : Type 0} (o : Option A) (e : Event) (h : List Event)
      → P e
      → Grows P h (or_exit o (List.◌∷◌ e h)).1
        × Returns {A = A} Anything (or_exit o (List.◌∷◌ e h)).0
  Runs-or_exit none e h p = (more p here, tt)
  Runs-or_exit (some a) e h p = (more p here, tt)

  pub Runs-or_panic : {A : Type 0} (o : Option A) → Runs P (λ a. o ≡ some a) (or_panic o)
  Runs-or_panic none h = (here, tt)
  Runs-or_panic (some a) h = (here, refl)

  module _ (env : Env) where
    pub Runs-yes_no_dialog : (q : String) → P (asked q) → Runs P Anything (yes_no_dialog env q)
    unfolding yes_no_dialog
    Runs-yes_no_dialog q p h = Runs-or_exit (env.yes_no h q) (asked q) h p

    pub Runs-select_one :
        (q : String) (options : List String)
        → P (offered q options)
        → Runs P Anything (select_one env q options)
    unfolding select_one
    Runs-select_one q options p h = Runs-or_exit (env.choose h q options) (offered q options) h p

    pub Runs-single_answer : (q : String) → P (queried q) → Runs P Anything (single_answer env q)
    unfolding single_answer
    Runs-single_answer q p h = Runs-or_exit (env.answer h q) (queried q) h p

    pub Runs-ask_wifi_password : P typed_password → Runs P Anything (ask_wifi_password env)
    unfolding ask_wifi_password
    Runs-ask_wifi_password p h = Runs-or_exit (env.wifi_password h) typed_password h p

    pub Runs-ping : (ip : String) → P (pinged ip) → Runs P Anything (ping env ip)
    unfolding ping
    Runs-ping ip p h = (more p here, tt)

    pub Runs-ssh_run : (command : String) → P (ssh command) → Runs P Anything (ssh_run env command)
    unfolding ssh_run
    Runs-ssh_run command p h = (more p here, tt)

    pub Runs-host_exec : (args : List String) → P (ran args) → Runs P Anything (host_exec env args)
    unfolding host_exec
    Runs-host_exec args p h = (more p here, tt)

  pub Runs-write_file :
      (file content : String) → P (wrote file content) → Runs P Anything (write_file file content)
  unfolding write_file
  Runs-write_file file content p h = (more p here, tt)
