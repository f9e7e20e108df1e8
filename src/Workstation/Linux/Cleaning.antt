-- ===== src/Workstation/Linux/Cleaning.antt =====
-- CleanDisk of workstation/w_linux.go: what it does to a listed disk.
use iotit.Base.{
  ℕ, zero, suc, String, Bool, true, false, Option, none, some, List, [], ◌∷◌, ◌≡◌, refl, ◌⊎◌, inl,
  inr, str_eq, Any, arith,
}
use iotit.Effects.{Event, ran, wrote, M, Env, host_exec, write_file}
use iotit.Effects.Trace.{here, Runs, Runs-bind, Runs-if, Anything}
use iotit.Effects.Rules.{Runs-host_exec, Runs-write_file}
use iotit.Workstation.Defs.{MountInfo, Workstation}
use iotit.Workstation.Linux.Selection.{listed_at, NotRan}
use iotit.Workstation.Linux.Copy.{
  Stage, clean_template, umount_all, wipefs, fdisk_in, fdisk_cmd, fdisk, run_fdisk, partition_of,
  mkdosfs, mkdir_kernel, mount_args, set_kernel, stop_at, run_on, after_stage, run_stages, wipe,
  make_table, format, mount_kernel, clean_stages, clean_disk,
}

-- What CleanDisk runs for a disk, and what it writes for fdisk.
abbrev pub CleanCommand : Env → String → List String → Type 0
CleanCommand env disk args =
    (args ≡ umount_all disk)
    ⊎ (args ≡ wipefs disk)
    ⊎ (args ≡ run_fdisk env)
    ⊎ (args ≡ mkdosfs (partition_of disk))
    ⊎ (args ≡ mkdir_kernel)
    ⊎ (args ≡ mount_args (partition_of disk))

abbrev pub CleanText : Env → String → String → String → Type 0
CleanText env disk file content =
    ((file ≡ fdisk_in env) × (content ≡ clean_template))
    ⊎ ((file ≡ fdisk_cmd env) × (content ≡ fdisk env disk))

-- A disk that stood in a listing of the removable disks and is the one named on the command line,
-- if one is.
pub record IsListed (env : Env) (named : String) (dev : MountInfo) : Type 0 where
  pub listing : List Event
  pub listed : Any (λ m. m ≡ dev) (listed_at env listing)
  pub fits : (named ≡ "") ⊎ (dev.disk_name ≡ named)

-- The disk that is formatted, if one is.
abbrev pub Choice : Env → String → Type 0
Choice env named = Option ((dev : MountInfo) × IsListed env named dev)

-- A command on the host, or a file that is written, is of the formatting of the disk that was chosen.
abbrev pub OnListed : (env : Env) (named : String) → Choice env named → Event → Type 0
OnListed env named none e = NotRan e
OnListed env named (some k) (ran args) = CleanCommand env k.0.disk_name args
OnListed env named (some k) (wrote file content) = CleanText env k.0.disk_name file content
OnListed env named (some k) _ = Unit

pub OnListed-NotRan :
    (env : Env) (named : String) (k : Choice env named) (e : Event)
    → NotRan e
    → OnListed env named k e
OnListed-NotRan env named none e p = p
OnListed-NotRan env named (some k) (ran args) p = absurd p
OnListed-NotRan env named (some k) (wrote file content) p = absurd p
OnListed-NotRan env named (some k) _ p = tt

-- What CopyToDisk leaves where it reports no error: a writable station whose mount is the first
-- partition of the disk that was chosen.
abbrev pub CopiedOf :
    (env : Env) (named : String) → Choice env named → Workstation × Option String → Type 0
CopiedOf env named k (l, some e) = Unit
CopiedOf env named none (l, none) = ⊥
CopiedOf env named (some k) (l, none) =
    (l.mount.disk_name ≡ partition_of k.0.disk_name) × (l.writable ≡ true)

-- A job without an error got through all of its stages.
abbrev Whole : Bool × Option String → Type 0
Whole (w, none) = w ≡ true
Whole (w, some e) = Unit

module _ (env : Env) (named : String) (dev : MountInfo) (listed : IsListed env named dev) where
  abbrev K : Choice env named
  K = some (dev, listed)

  abbrev P : Event → Type 0
  P = OnListed env named K

  abbrev AllRun : List Stage → Type 0
  AllRun [] = Unit
  AllRun (s ∷ stages) = Runs P Anything s × AllRun stages

  stop_at-OnListed :
      (next : M Bool) (err : Option String)
      → Runs P Anything next
      → Runs P Anything (stop_at next err)
  stop_at-OnListed next none r = r
  stop_at-OnListed next (some e) r = λ h. (here, tt)

  run_on-OnListed :
      (left : ℕ) (stages : List Stage) → AllRun stages → Runs P Anything (run_on left stages)
  unfolding run_on
  run_on-OnListed left [] p = λ h. (here, tt)
  run_on-OnListed zero (s ∷ stages) p = λ h. (here, tt)
  run_on-OnListed (suc left) (s ∷ stages) p =
      Runs-bind P Anything Anything s _ p.0
        λ err _. stop_at-OnListed _ err (run_on-OnListed left stages p.1)

  after_stage-OnListed :
      (left : ℕ) (stages : List Stage) (err : Option String)
      → AllRun stages
      → Runs P Whole (run_stages left stages)
      → Runs P Whole (after_stage left stages (run_stages left stages) err)
  after_stage-OnListed left stages none p r = r
  after_stage-OnListed left stages (some e) p r =
      Runs-bind P Anything Whole (run_on left stages) _ (run_on-OnListed left stages p)
        λ whole _ h. (here, tt)

  run_stages-OnListed :
      (left : ℕ) (stages : List Stage) → AllRun stages → Runs P Whole (run_stages left stages)
  unfolding run_stages
  run_stages-OnListed left [] p = λ h. (here, refl)
  run_stages-OnListed left (s ∷ stages) p =
      Runs-bind P Anything Whole s _ p.0
        λ err _. after_stage-OnListed left stages err p.1 (run_stages-OnListed left stages p.1)

  runs :
      (args : List String)
      → CleanCommand env dev.disk_name args
      → Runs P Anything (host_exec env args)
  runs args p = Runs-host_exec P env args p

  writes :
      (file content : String)
      → CleanText env dev.disk_name file content
      → Runs P Anything (write_file file content)
  writes file content p = Runs-write_file P file content p

  wipe-OnListed : Runs P Anything (wipe env dev.disk_name)
  unfolding wipe
  wipe-OnListed =
      Runs-bind P Anything Anything (host_exec env (umount_all dev.disk_name)) _ (runs _ (inl refl))
        λ _ _.
          Runs-bind P Anything Anything (host_exec env (wipefs dev.disk_name)) _
            (runs _ (inr (inl refl))) λ _ _ h. (here, tt)

  make_table-OnListed : Runs P Anything (make_table env dev.disk_name)
  unfolding make_table
  make_table-OnListed =
      Runs-bind P Anything Anything (write_file (fdisk_in env) clean_template) _
        (writes _ _ (inl (refl, refl)))
        λ _ _.
          Runs-bind P Anything Anything (write_file (fdisk_cmd env) (fdisk env dev.disk_name)) _
            (writes _ _ (inr (refl, refl)))
            λ _ _.
              Runs-bind P Anything Anything (host_exec env (run_fdisk env)) _
                (runs _ (inr (inr (inl refl)))) λ _ _ h. (here, tt)

  format-OnListed : Runs P Anything (format env dev.disk_name)
  unfolding format
  format-OnListed =
      Runs-bind P Anything Anything (host_exec env (mkdosfs (partition_of dev.disk_name))) _
        (runs _ (inr (inr (inr (inl refl))))) λ _ _ h. (here, tt)

  mount_kernel-OnListed : Runs P Anything (mount_kernel env dev.disk_name)
  unfolding mount_kernel
  mount_kernel-OnListed =
      Runs-bind P Anything Anything (host_exec env mkdir_kernel) _
        (runs _ (inr (inr (inr (inr (inl refl))))))
        λ _ _.
          Runs-bind P Anything Anything (host_exec env (mount_args (partition_of dev.disk_name))) _
            (runs _ (inr (inr (inr (inr (inr refl)))))) λ _ _ h. (here, tt)

  CopiedOf-set_kernel :
      (l : Workstation) (r : Bool × Option String)
      → Whole r
      → CopiedOf env named K (set_kernel r.0 dev.disk_name l, r.1)
  CopiedOf-set_kernel l (true, none) p = (refl, refl)
  CopiedOf-set_kernel l (false, none) p = absurd (ground arith)
  CopiedOf-set_kernel l (w, some e) p = tt

  pub clean_disk-OnListed :
      (left : ℕ) (l : Workstation)
      → Runs P (CopiedOf env named K) (clean_disk env left dev.disk_name l)
  unfolding clean_disk
  clean_disk-OnListed left l =
      Runs-if P (CopiedOf env named K) (str_eq dev.disk_name "") _ _ (λ e h. (here, tt))
        λ e.
          Runs-bind P Whole (CopiedOf env named K)
            (run_stages left (clean_stages env dev.disk_name)) _
            (run_stages-OnListed left (clean_stages env dev.disk_name) (
              wipe-OnListed,
              (make_table-OnListed, (format-OnListed, (mount_kernel-OnListed, tt))),
            ))
            λ r w h. (here, CopiedOf-set_kernel l r w)
