-- ===== src/Vbox/Unchanged.antt =====
-- Update of vbox/machine.go: when the virtual machine stays as it is.
use iotit.Base.{
  String, ◌<>◌, Bool, true, false, Option, none, some, List, [], ◌∷◌, ◌≡◌, refl, sym, ◌∙◌, ◌⊎◌, inl,
  inr, arith, if◌then◌else◌,
}
use iotit.GoStrings.{contains}
use iotit.Effects.{
  Event, asked, ran, fetched, listed, pure, leave, ◌>>=◌, Env, Reply, or_exit, host_exec,
  yes_no_dialog,
}
use iotit.Effects.Trace.{Grows, here, more, Returns, Runs, Runs-bind, Runs-if, Anything}
use iotit.Effects.Rules.{Runs-host_exec}
use iotit.Vbox.Defs.{VirtualBox}
use iotit.Vbox.Update.{needs_update}
use iotit.Vbox.Check.{
  VmRepo, Sources, s3_bucket, fetch_repo, which_args, packs_args, look_again, check_packs,
  check_vb_installed, vm_repo,
}
use iotit.Vbox.Upgrade.{
  Upgrades, exit_on_error, or_leave, update_question, latest_in, repository, check_update,
  replace_machine, update,
}

-- A question, a command that only looks for VirtualBox, the fetching of the document of the
-- repository, or the listing of a directory.
abbrev pub Checks : Event → Type 0
Checks (asked q) = Unit
Checks (ran args) = (args ≡ which_args) ⊎ (args ≡ packs_args)
Checks (fetched url) = url ≡ s3_bucket
Checks (listed dir) = Unit
Checks _ = ⊥

-- The user declines, whenever asked.
abbrev pub Declines : Env → Type 0
Declines env = (h : List Event) → env.yes_no h update_question ≡ some false

-- The directory whose listing gives the version that is there.
abbrev pub edison_dir : Upgrades → String
edison_dir up = up.home <> "/.iotit/virtualbox/edison"

-- The version that is there is not older than that of the repository, whenever both are looked at.
abbrev pub IsCurrent : Sources → Upgrades → Type 0
IsCurrent src up =
    (h h' : List Event) (repo : VmRepo) (out : String)
    → fetch_repo src h ≡ some repo
    → up.latest_in h' (edison_dir up) ≡ some out
    → needs_update (iotit.GoStrings.trim (λ c. iotit.Base.◌==◌ c 10) out) repo.version ≡ some false

exit_on_error-Runs :
    (P : Event → Type 0) (err : Option String) → Runs P Anything (exit_on_error err)
unfolding exit_on_error
exit_on_error-Runs P none = λ h. (here, tt)
exit_on_error-Runs P (some e) = λ h. (here, tt)

or_leave-Runs :
    (P : Event → Type 0) {A : Type 0} (o : Option A) → Runs P (λ a. o ≡ some a) (or_leave o)
unfolding or_leave
or_leave-Runs P none = λ h. (here, tt)
or_leave-Runs P (some a) = λ h. (here, refl)

or_leave-false : (P : Event → Type 0) → Runs P (λ b. b ≡ false) (or_leave (some false))
unfolding or_leave
or_leave-false P h = (here, refl)

module _ (env : Env) where
  which-Runs : Runs Checks Anything (host_exec env which_args)
  which-Runs = Runs-host_exec Checks env which_args (inl refl)

  look_again-Runs : (r : Reply) (err : Option String) → Runs Checks Anything (look_again env r err)
  look_again-Runs r none = λ h. (here, tt)
  look_again-Runs r (some e) = which-Runs

  check_packs-Runs : (err : Option String) → Runs Checks Anything (check_packs env err)
  unfolding check_packs
  check_packs-Runs (some e) = λ h. (here, tt)
  check_packs-Runs none =
      Runs-bind Checks Anything Anything (host_exec env packs_args) _
        (Runs-host_exec Checks env packs_args (inr refl))
        λ packs _.
          Runs-if Checks Anything (contains packs.out "Oracle VM VirtualBox Extension Pack") _ _
            (λ e h. (here, tt)) (λ e h. (here, tt))

  check_vb_installed-Runs : Runs Checks Anything (check_vb_installed env)
  unfolding check_vb_installed
  check_vb_installed-Runs =
      Runs-bind Checks Anything Anything (host_exec env which_args) _ which-Runs λ r _.
        Runs-bind Checks Anything Anything (look_again env r r.err) _ (look_again-Runs r r.err)
          λ again _. check_packs-Runs again.err

  -- The answer to the question, as the world gives it.
  question-Runs :
      Runs Checks
        (λ b. (h : List Event) × (env.yes_no h update_question ≡ some b))
        (yes_no_dialog env update_question)
  unfolding yes_no_dialog
  question-Runs h = answer (env.yes_no h update_question) refl
    where
      answer :
          (o : Option Bool)
          → env.yes_no h update_question ≡ o
          → Grows Checks h (or_exit o (asked update_question ∷ h)).1
            × Returns
                (λ b. (g : List Event) × (env.yes_no g update_question ≡ some b))
                (or_exit o (asked update_question ∷ h)).0
      answer none e = (more tt here, tt)
      answer (some b) e = (more tt here, (h, e))

  module _ (vb : VirtualBox) (src : Sources) (up : Upgrades) where
    -- The repository is one that was fetched, and the output one that was read.
    abbrev Fetched : VmRepo → Type 0
    Fetched repo = (h : List Event) × (fetch_repo src h ≡ some repo)

    repository-Runs : Runs Checks Fetched (repository env vb src up)
    unfolding vm_repo or_leave
    repository-Runs h = answer (fetch_repo src h) refl
      where
        answer :
            (o : Option VmRepo)
            → fetch_repo src h ≡ o
            → Grows Checks h (or_leave o (fetched s3_bucket ∷ h)).1
              × Returns Fetched (or_leave o (fetched s3_bucket ∷ h)).0
        answer none e = (more refl here, tt)
        answer (some repo) e = (more refl here, (h, e))

    latest_in-Runs :
        Runs Checks
          (λ o. (h : List Event) × (up.latest_in h (edison_dir up) ≡ o))
          (latest_in env vb src up (edison_dir up))
    unfolding latest_in
    latest_in-Runs h = (more tt here, (h, refl))

    check_update-Runs : IsCurrent src up → Runs Checks (λ b. b ≡ false) (check_update env vb src up)
    unfolding check_update
    check_update-Runs c =
        Runs-bind Checks Anything (λ b. b ≡ false) (check_vb_installed env) _
          check_vb_installed-Runs
          λ absent _.
            Runs-bind Checks Anything (λ b. b ≡ false) (exit_on_error absent) _
              (exit_on_error-Runs Checks absent)
              λ _ _.
                Runs-bind Checks Fetched (λ b. b ≡ false) (repository env vb src up) _
                  repository-Runs
                  λ repo f.
                    Runs-bind Checks (λ o. (h : List Event) × (up.latest_in h (edison_dir up) ≡ o))
                      (λ b. b ≡ false) (latest_in env vb src up (edison_dir up)) _ latest_in-Runs
                      λ out l.
                        Runs-bind Checks (λ a. out ≡ some a) (λ b. b ≡ false) (or_leave out) _
                          (or_leave-Runs Checks out)
                          λ current given.
                            rw (c f.0 l.0 repo current f.1 (l.1 ∙ given)) (or_leave-false Checks)

    -- The question and what follows it.
    ask_then :
        Declines env ⊎ IsCurrent src up
        → (repo : VmRepo) (wanted : Bool)
        → (h : List Event) × (env.yes_no h update_question ≡ some wanted)
        → Runs Checks Anything (
            if wanted
            then (check_update env vb src up >>= λ newer.
                if newer then replace_machine env vb src up repo else leave 0)
            else pure none)
    ask_then c repo false a = λ h. (here, tt)
    ask_then (inl declined) repo true (h, e) = absurd (ground (arith, declined h))
    ask_then (inr current) repo true a =
        Runs-bind Checks (λ b. b ≡ false) Anything (check_update env vb src up) _
          (check_update-Runs current) λ newer same. rw same (λ h. (here, tt))

    -- Where the user declines, or where the version that is there is not older than that of the
    -- repository, Update asks, looks for VirtualBox, fetches the repository's document, lists
    -- directories and does nothing else, however it ends: no machine is powered off or unregistered,
    -- nothing is removed, downloaded or unzipped.
    pub update-Checks :
        Declines env ⊎ IsCurrent src up → Runs Checks Anything (update env vb src up)
    unfolding update
    update-Checks c =
        Runs-bind Checks Anything Anything (check_vb_installed env) _ check_vb_installed-Runs
          λ absent _.
            Runs-bind Checks Anything Anything (exit_on_error absent) _
              (exit_on_error-Runs Checks absent)
              λ _ _.
                Runs-bind Checks Fetched Anything (repository env vb src up) _ repository-Runs
                  λ repo f.
                    Runs-bind Checks
                      (λ b. (h : List Event) × (env.yes_no h update_question ≡ some b)) Anything
                      (yes_no_dialog env update_question) _ question-Runs
                      λ wanted a. ask_then c repo wanted a
