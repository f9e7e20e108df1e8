-- ===== src/Workstation/Linux/Formatting.antt =====
-- CleanDisk of workstation/w_linux.go: a disk that is reported as formatted.
use iotit.Base.{
  ℕ, String, Bool, true, Option, none, some, List, [], ◌∷◌, ◌≡◌, refl, ◌∙◌, arith, ap, str_eq,
  Bool-cases, inl, inr,
}
use iotit.Effects.{
  Event, ran, wrote, Outcome, done, panic, exit, unfinished, pure, continue_with, Env, host_exec,
  write_file,
}
use iotit.Workstation.Defs.{Workstation}
use iotit.Workstation.Linux.Copy.{
  Stage, clean_template, umount_all, wipefs, fdisk_in, fdisk_cmd, fdisk, run_fdisk, partition_of,
  mkdosfs, mkdir_kernel, mount_args, cannot_mount, set_kernel, run_on, after_stage, run_stages,
  wipe, make_table, format, mount_kernel, clean_stages, clean_disk,
}

reported :
    (o : Outcome Bool) (g : List Event) (e : String) {w : Bool} {t : List Event}
    → ¬ (
        continue_with {B = Bool × Option String} o g (λ whole. pure (whole, some e))
        ≡ (done (w, none), t))
reported (done b) g e q = ground arith
reported panic g e q = ground arith
reported (exit n) g e q = ground arith
reported unfinished g e q = ground arith

-- A stage of a job without an error has reported none, and the rest has none either.
stage-Succeeded :
    (left : ℕ) (stages : List Stage) (o : Outcome (Option String)) (g : List Event) {w : Bool}
    {t : List Event}
    → continue_with o g (λ err. after_stage left stages (run_stages left stages) err)
      ≡ (done (w, none), t)
    → (o ≡ done none) × (run_stages left stages g ≡ (done (w, none), t))
stage-Succeeded left stages (done none) g e = (refl, e)
stage-Succeeded left stages (done (some m)) g {w} {t} e =
    absurd (reported (run_on left stages g).0 (run_on left stages g).1 m {w = w} {t = t} e)
stage-Succeeded left stages panic g e = absurd (ground arith)
stage-Succeeded left stages (exit n) g e = absurd (ground arith)
stage-Succeeded left stages unfinished g e = absurd (ground arith)

run_stages-cons :
    (left : ℕ) (s : Stage) (stages : List Stage) (h : List Event) {w : Bool} {t : List Event}
    → run_stages left (s ∷ stages) h ≡ (done (w, none), t)
    → ((s h).0 ≡ done none) × (run_stages left stages (s h).1 ≡ (done (w, none), t))
unfolding run_stages
run_stages-cons left s stages h {w} {t} e =
    stage-Succeeded left stages (s h).0 (s h).1 {w = w} {t = t} e

module _ (env : Env) (disk : String) where
  abbrev pub wiped : List Event → List Event
  wiped h = ran (wipefs disk) ∷ ran (umount_all disk) ∷ h

  abbrev pub tabled : List Event → List Event
  tabled h =
      ran (run_fdisk env)
      ∷ wrote (fdisk_cmd env) (fdisk env disk)
      ∷ wrote (fdisk_in env) clean_template
      ∷ h

  abbrev pub made : List Event → List Event
  made h = ran (mkdosfs (partition_of disk)) ∷ h

  abbrev pub mounted : List Event → List Event
  mounted h = ran (mount_args (partition_of disk)) ∷ ran mkdir_kernel ∷ h

  abbrev Fine : List Event → List String → Type 0
  Fine h args = (env.exec h args).err ≡ none

  -- The history of a formatting in which no call that is looked at returned an error.
  pub record Formatted (h t : List Event) : Type 0 where
    pub all : t ≡ mounted (made (tabled (wiped h)))
    pub wipe_fine : Fine (ran (umount_all disk) ∷ h) (wipefs disk)
    pub table_fine :
        Fine
          (wrote (fdisk_cmd env) (fdisk env disk) ∷ wrote (fdisk_in env) clean_template ∷ wiped h)
          (run_fdisk env)
    pub format_fine : Fine (tabled (wiped h)) (mkdosfs (partition_of disk))
    pub mount_fine :
        Fine (ran mkdir_kernel ∷ made (tabled (wiped h))) (mount_args (partition_of disk))

  cannot_mount-none :
      (err : Option String) → done (cannot_mount err (partition_of disk)) ≡ done none → err ≡ none
  cannot_mount-none none e = refl
  cannot_mount-none (some m) e = absurd (ground arith)

  run_stages-Formatted :
      (left : ℕ) (h : List Event) {w : Bool} {t : List Event}
      → run_stages left (clean_stages env disk) h ≡ (done (w, none), t)
      → Formatted h t × (w ≡ true)
  unfolding run_stages wipe make_table format mount_kernel host_exec write_file
  run_stages-Formatted left h {w} {t} e =
      let a =
        run_stages-cons left (wipe env disk)
          (make_table env disk ∷ format env disk ∷ mount_kernel env disk ∷ []) h {w = w} {t = t}
          e in
      let b =
        run_stages-cons left (make_table env disk) (format env disk ∷ mount_kernel env disk ∷ [])
          (wiped h) {w = w} {t = t} a.1 in
      let c =
        run_stages-cons left (format env disk) (mount_kernel env disk ∷ []) (tabled (wiped h))
          {w = w} {t = t} b.1 in
      let d =
        run_stages-cons left (mount_kernel env disk) [] (made (tabled (wiped h))) {w = w} {t = t}
          c.1 in
      (
        record {
          all = ground (arith, d.1);
          wipe_fine = ground (arith, a.0);
          table_fine = ground (arith, b.0);
          format_fine = ground (arith, c.0);
          mount_fine = cannot_mount-none _ d.0;
        },
        ground (arith, d.1),
      )

  cleaned :
      (o : Outcome (Bool × Option String)) (g : List Event) (l l' : Workstation) {t : List Event}
      → continue_with {B = Workstation × Option String} o g (λ r. pure (set_kernel r.0 disk l, r.1))
        ≡ (done (l', none), t)
      → (w : Bool) × (o ≡ done (w, none)) × (g ≡ t) × (l' ≡ set_kernel w disk l)
  cleaned (done (w, none)) g l l' e = (w, refl, ground arith, ground arith)
  cleaned (done (w, some m)) g l l' e = absurd (ground arith)
  cleaned panic g l l' e = absurd (ground arith)
  cleaned (exit n) g l l' e = absurd (ground arith)
  cleaned unfinished g l l' e = absurd (ground arith)

  -- Where CleanDisk reports no error, the commands that unmount, wipe, partition, format and mount the
  -- disk have been run, in this order, and nothing else was done but making the directory for the
  -- mount. The calls that ran wipefs, fdisk, mkdosfs and mount returned no error; those of sudo.Exec,
  -- the first three, return none for a command that exits with a failure. The station is writable
  -- and has the first partition of the disk as its mount.
  pub clean_disk-Formatted :
      (left : ℕ) (l l' : Workstation) (h t : List Event)
      → clean_disk env left disk l h ≡ (done (l', none), t)
      → Formatted h t × (l' ≡ set_kernel true disk l)
  unfolding clean_disk
  clean_disk-Formatted left l l' h t e = elim (Bool-cases (str_eq disk "")) [
    | inl empty ↦ absurd (ground arith)
    | inr given ↦
        let r = run_stages left (clean_stages env disk) h in
        let c = cleaned r.0 r.1 l l' {t = t} (rw given at e) in
        let f = run_stages-Formatted left h {w = c.0} {t = t} (λ i. (c.1 i, c.2 i)) in
        (f.0, c.3 ∙ ap (λ w. set_kernel w disk l) f.1)
  ]
