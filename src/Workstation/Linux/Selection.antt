-- ===== src/Workstation/Linux/Selection.antt =====
-- Selecting a disk in WriteToDisk of workstation/w_linux.go: what a station has selected.
use mathlib.Core.Path.{subst}
use mathlib.Core.Option.{none-ne-some}
use iotit.Base.{
  ℕ, zero, suc, String, Bool, true, false, Option, none, some, List, [], ◌∷◌, ◌≡◌, refl, ◌⊎◌, inl,
  inr, arith, str_eq, eq_iff, get_elem?, Any, Any-get_elem?, Bool-cases, is_empty,
}
use iotit.Effects.{
  Event, ran, wrote, M, Outcome, done, panic, exit, unfinished, Env, select_one, or_panic,
}
use iotit.Effects.Trace.{Grows, here, Runs, Runs-bind, Runs-if, Anything, Returns}
use iotit.Effects.Rules.{Runs-select_one, Runs-or_panic, Runs-yes_no_dialog}
use iotit.Workstation.Defs.{MountInfo, Workstation, find_disk}
use iotit.Workstation.Linux.Disks.{list_removable_disk, removable_disks, dev_disks}
use iotit.Workstation.Linux.Write.{
  Written, job, declined, write_failed, Round, mounted, again, returns, after_round, disk_lines,
  select_disk, choose_disk, by_mode, check_mode, select_chosen, select_listed, select_round,
  may_try, select_loop,
}

pub find_disk-name :
    (disk : String) (mounts : List MountInfo) {e : MountInfo}
    → find_disk disk mounts ≡ some e
    → Any (λ m. m ≡ e) mounts × (e.disk_name ≡ disk)
unfolding find_disk
find_disk-name disk [] h = absurd (none-ne-some _ h)
find_disk-name disk (m ∷ mounts) {e} h =
    ground (arith, eq_iff m.disk_name disk, find_disk-name disk mounts {e = e})

abbrev pub listed_at : Env → List Event → List MountInfo
listed_at env h = removable_disks env h (dev_disks (env.read_dir h "/dev/"))

-- The disk that a station has selected: it stood in a listing of the removable disks, its mode was
-- found to allow writing, and it is the disk named on the command line, if one is.
pub record IsSelected (env : Env) (l : Workstation) : Type 0 where
  pub listing : List Event
  pub checked : List Event
  pub listed : Any (λ m. m ≡ l.mount) (listed_at env listing)
  pub unlocked : env.file_mode checked l.mount.disk_name_raw ≡ (true, none)
  pub named : (l.disk ≡ "") ⊎ (l.mount.disk_name ≡ l.disk)

-- Any event but a command on the host and the writing of a file.
abbrev pub NotRan : Event → Type 0
NotRan (ran args) = ⊥
NotRan (wrote file content) = ⊥
NotRan _ = Unit

-- The disk `dev` may be chosen by a station.
abbrev pub Fits : Workstation → MountInfo → Type 0
Fits l dev = Any (λ m. m ≡ dev) l.mounts × ((l.disk ≡ "") ⊎ (dev.disk_name ≡ l.disk))

abbrev pub IfSome : {A : Type 0} → (A → Type 0) → Option A → Type 0
IfSome P none = Unit
IfSome P (some a) = P a

abbrev RoundOf : Env → String → Round → Type 0
RoundOf env disk (mounted l) = IsSelected env l × (l.disk ≡ disk)
RoundOf env disk (again l e) = l.disk ≡ disk
RoundOf env disk (returns l e) = l.disk ≡ disk

abbrev pub LoopOf : Env → String → Workstation × Option String → Type 0
LoopOf env disk (l, none) = IsSelected env l × (l.disk ≡ disk)
LoopOf env disk (l, some e) = l.disk ≡ disk

abbrev pub WriteOf : Env → String → Workstation × Written → Type 0
WriteOf env disk (l, job) = IsSelected env l × (l.disk ≡ disk) × (l.writable ≡ true)
WriteOf env disk (l, declined) = l.writable ≡ false
WriteOf env disk (l, write_failed e) = Unit

module _ (env : Env) where
  select_disk-Runs :
      (mounts : List MountInfo)
      → Runs NotRan (IfSome (λ dev. Any (λ m. m ≡ dev) mounts)) (select_disk env mounts)
  unfolding select_disk
  select_disk-Runs mounts =
      Runs-bind NotRan Anything _
        (select_one env "Select mount to format: " (disk_lines env mounts)) _
        (Runs-select_one NotRan env _ _ tt)
        λ num _.
          Runs-bind NotRan (λ dev. get_elem? mounts num ≡ some dev) _
            (or_panic (get_elem? mounts num)) _ (Runs-or_panic NotRan _)
            λ dev e h. (here, Any-get_elem? mounts num e)

  pub IfSome-find_disk :
      (l : Workstation) (o : Option MountInfo) → find_disk l.disk l.mounts ≡ o → IfSome (Fits l) o
  IfSome-find_disk l none e = tt
  IfSome-find_disk l (some dev) e = let f = find_disk-name l.disk l.mounts e in (f.0, inr f.1)

  pub IfSome-mono :
      {A : Type 0} (P Q : A → Type 0)
      → ((a : A) → P a → Q a)
      → (o : Option A) → IfSome P o
      → IfSome Q o
  IfSome-mono P Q f none p = tt
  IfSome-mono P Q f (some a) p = f a p

  pub choose_disk-Runs : (l : Workstation) → Runs NotRan (IfSome (Fits l)) (choose_disk env l)
  unfolding choose_disk
  choose_disk-Runs l =
      Runs-if NotRan (IfSome (Fits l)) (str_eq l.disk "") _ _
        (λ empty h.
          let r = select_disk-Runs l.mounts h in
          (r.0, widen (select_disk env l.mounts h).0 ((eq_iff l.disk "").0 empty) r.1))
        (λ given h. (here, IfSome-find_disk l _ refl))
    where
      widen :
          (o : Outcome (Option MountInfo))
          → l.disk ≡ ""
          → Returns (IfSome (λ dev. Any (λ m. m ≡ dev) l.mounts)) o
          → Returns (IfSome (Fits l)) o
      widen (done o) empty r = IfSome-mono _ _ (λ dev a. (a, inl empty)) o r
      widen panic empty r = tt
      widen (exit n) empty r = tt
      widen unfinished empty r = tt

  by_mode-Runs :
      (l : Workstation) (g : List Event) (dev : MountInfo) (h : List Event)
      → l.mounts ≡ listed_at env g
      → Fits l dev
      → (mode : Bool × Option String) → env.file_mode h dev.disk_name_raw ≡ mode
      → Grows NotRan h (by_mode l dev mode h).1
        × Returns (RoundOf env l.disk) (by_mode l dev mode h).0
  by_mode-Runs l g dev h listed fits (ok, some e) m = (here, refl)
  by_mode-Runs l g dev h listed fits (true, none) m = (
    here,
    (
      record {
        listing = g;
        checked = h;
        listed = rw (← listed) fits.0;
        unlocked = m;
        named = fits.1;
      },
      refl,
    ),
  )
  by_mode-Runs l g dev h listed fits (false, none) m = (here, refl)

  select_chosen-Runs :
      (l : Workstation) (g : List Event)
      → l.mounts ≡ listed_at env g
      → (o : Option MountInfo) → IfSome (Fits l) o
      → Runs NotRan (RoundOf env l.disk) (select_chosen env l o)
  unfolding select_chosen check_mode
  select_chosen-Runs l g listed none f h = (here, refl)
  select_chosen-Runs l g listed (some dev) f h =
      by_mode-Runs l g dev h listed f (env.file_mode h dev.disk_name_raw) refl

  -- What ListRemovableDisk leaves.
  abbrev pub ListedOf : String → Workstation × Option String → Type 0
  ListedOf disk (l, none) = (g : List Event) × (l.mounts ≡ listed_at env g) × (l.disk ≡ disk)
  ListedOf disk (l, some e) = l.disk ≡ disk

  pub list_removable_disk-Runs :
      (l : Workstation) → Runs NotRan (ListedOf l.disk) (list_removable_disk env l)
  unfolding list_removable_disk
  list_removable_disk-Runs l h = elim (Bool-cases (is_empty (listed_at env h))) [
    | inl gone ↦ rw gone (here, refl)
    | inr some_disks ↦ rw some_disks (here, (h, refl, refl))
  ]

  select_listed-Runs :
      (disk : String) (r : Workstation × Option String)
      → ListedOf disk r
      → Runs NotRan (RoundOf env disk) (select_listed env r)
  unfolding select_listed
  select_listed-Runs disk (l, some e) p = λ h. (here, p)
  select_listed-Runs disk (l, none) (g, listed, same) =
      Runs-bind NotRan (IfSome (Fits l)) (RoundOf env disk) (choose_disk env l)
        (select_chosen env l) (choose_disk-Runs l)
        λ o f. rw (← same) (select_chosen-Runs l g listed o f)

  select_round-Runs : (l : Workstation) → Runs NotRan (RoundOf env l.disk) (select_round env l)
  unfolding select_round
  select_round-Runs l =
      Runs-bind NotRan (ListedOf l.disk) (RoundOf env l.disk) (list_removable_disk env l)
        (select_listed env) (list_removable_disk-Runs l) (select_listed-Runs l.disk)

  pub after_round-Runs :
      (disk : String) (r : Round) (next : Workstation → String → M (Workstation × Option String))
      → RoundOf env disk r
      → ((l : Workstation) (e : String) → l.disk ≡ disk → Runs NotRan (LoopOf env disk) (next l e))
      → Runs NotRan (LoopOf env disk) (after_round r next)
  after_round-Runs disk (mounted l) next p k = λ h. (here, p)
  after_round-Runs disk (again l e) next p k = k l e p
  after_round-Runs disk (returns l e) next p k = λ h. (here, p)

  pub may_try-Runs : (first : Bool) → Runs NotRan Anything (may_try env first)
  may_try-Runs true = λ h. (here, tt)
  may_try-Runs false = Runs-yes_no_dialog NotRan env "Continue?" tt

  select_loop-Runs :
      (tries : ℕ) (disk e : String) (l : Workstation)
      → l.disk ≡ disk
      → Runs NotRan (LoopOf env disk) (select_loop env tries false (some e) l)
  unfolding select_loop
  select_loop-Runs zero disk e l same = λ h. (here, same)
  select_loop-Runs (suc tries) disk e l same =
      Runs-bind NotRan Anything (LoopOf env disk) (may_try env false) _ (may_try-Runs false) λ go _.
        Runs-if NotRan (LoopOf env disk) go _ _
          (λ yes_go.
            Runs-bind NotRan (RoundOf env disk) (LoopOf env disk) (select_round env l) _
              (subst (λ d. Runs NotRan (RoundOf env d) (select_round env l)) same
                (select_round-Runs l))
              λ r p.
                after_round-Runs disk r _ p
                  (λ l' e' same'. select_loop-Runs tries disk e' l' same'))
          (λ stop h. (here, same))

  -- A selection runs no command on the host, and selects a disk or ends with an error.
  pub first_round-Runs :
      (tries : ℕ) (l : Workstation)
      → Runs NotRan (LoopOf env l.disk) (select_loop env (suc tries) true none l)
  unfolding select_loop
  first_round-Runs tries l =
      Runs-bind NotRan (RoundOf env l.disk) (LoopOf env l.disk) (select_round env l) _
        (select_round-Runs l)
        λ r p. after_round-Runs l.disk r _ p (λ l' e same. select_loop-Runs tries l.disk e l' same)
