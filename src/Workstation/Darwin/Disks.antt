-- ===== src/Workstation/Darwin/Disks.antt =====
-- ListRemovableDisk of workstation/w_darwin.go.
use Prim.Native.String.{char_at}
use text.Mathlib.Text.{starts_with}
use iotit.Base.{
  ℕ, zero, suc, String, ◌<>◌, Bool, true, false, ◌&&◌, ◌||◌, Option, none, some, List, [], ◌∷◌, leb,
  ◌==◌, if◌then◌else◌, is_empty, get_elem?,
}
use iotit.GoStrings.{contains, split, trim, codes}
use iotit.Effects.{M, done, pure, ◌>>=◌, Env, host_exec, or_panic}
use iotit.Workstation.Defs.{MountInfo, empty_mount, Workstation}
use iotit.Workstation.Linux.Write.{may_try, disk_selection_tries}

abbrev all_digits : List ℕ → Bool
all_digits [] = true
all_digits (c ∷ s) = leb b'0' c && leb c b'9' && all_digits s

-- the regular expression `^disk([0-9]+)$`, with what is left of the word
abbrev disk_number : List ℕ → List ℕ → Bool
disk_number [] [] = false
disk_number [] (c ∷ s) = all_digits (c ∷ s)
disk_number (p ∷ word) [] = false
disk_number (p ∷ word) (c ∷ s) = c == p && disk_number word s

unfoldable pub is_disk_name : String → Bool
is_disk_name name = disk_number (codes "disk") (codes name)

-- the loop over the names in /dev
unfoldable pub dev_disks : List String → List String
dev_disks [] = []
dev_disks (name ∷ names) =
    let rest = dev_disks names in if is_disk_name name then name ∷ rest else rest

-- `strings.Split(s, sep)[0]`
unfoldable pub before_text : String → String → String
before_text sep String.[] = ""
before_text sep (String.◌∷◌ c s) =
    let rest = before_text sep s in
    if starts_with (String.◌∷◌ c s) sep then "" else String.◌∷◌ c rest

abbrev contains_any : String → List String → Bool
contains_any s [] = false
contains_any s (t ∷ ts) = contains s t || contains_any s ts

-- The protocols of disks that are not removable.
abbrev pub fixed_protocols : List String
fixed_protocols = "SATA" ∷ "ATA" ∷ "Disk Image" ∷ "PCI" ∷ "SAS" ∷ []

-- `strings.Trim(strings.Split(line, ":")[1], " ")`; a line without a colon is an index out of range
unfoldable pub field_of : String → Option String
field_of line = elim (get_elem? (split line (char_at ":" 0)) 1) [
  | none ↦ none
  | some v ↦ some (trim (λ c. c == b' ') v)
]

-- What is known of a disk: `removable`, and the map `diskMap`.
pub record Known : Type 0 where
  pub removable : Bool
  pub info : MountInfo

abbrev pub with_field : Bool → String → Known → (String → Known) → Option Known
with_field false line k set = some k
with_field true line k set = elim (field_of line) [ none ↦ none | some v ↦ some (set v) ]

abbrev pub set_protocol : Known → String → Known
set_protocol k v = if contains_any v fixed_protocols then record k { removable = false } else k

abbrev pub set_identifier : Known → String → Known
set_identifier k v = record k {
  info = record (k.info) { disk_name = "/dev/" <> v; disk_name_raw = "/dev/r" <> v };
}

abbrev pub set_device_name : Known → String → Known
set_device_name k v = record k { info = record (k.info) { device_name = before_text " Media" v } }

abbrev pub set_size : Known → String → Known
set_size k v = record k { info = record (k.info) { device_size = before_text " (" v } }

abbrev pub bind_known : Option Known → (Known → Option Known) → Option Known
bind_known none f = none
bind_known (some k) f = f k

-- The body of the loop over the lines: the four tests, one after another.
unfoldable pub read_line : Known → String → Option Known
unfolding field_of
read_line k line = bind_known (with_field (contains line "Protocol") line k (set_protocol k)) λ k1.
    bind_known (with_field (contains line "Device Identifier") line k1 (set_identifier k1)) λ k2.
      bind_known (with_field (contains line "Device / Media Name") line k2 (set_device_name k2))
        λ k3. with_field (contains line "Total Size") line k3 (set_size k3)

unfoldable pub read_lines : Known → List String → Option Known
unfolding read_line
read_lines k [] = some k
read_lines k (line ∷ lines) = bind_known (read_line k line) λ k'. read_lines k' lines

-- the output of a command, which is empty if it fails
abbrev pub output : String → Option String → String
output out none = out
output out (some e) = ""

abbrev pub diskutil_info : String → List String
diskutil_info disk = "diskutil" ∷ "info" ∷ ("/dev/" <> disk) ∷ []

abbrev pub if_removable : Known → List MountInfo → List MountInfo
if_removable k rest = if k.removable then k.info ∷ rest else rest

module _ (env : Env) where
  -- the loop over `devDisks`
  unfoldable pub removable_disks : List String → M (List MountInfo)
  unfolding read_lines
  removable_disks [] = pure []
  removable_disks (disk ∷ disks) = do
    r ← host_exec env (diskutil_info disk)
    k ← or_panic (
        read_lines (record { removable = true; info = empty_mount })
          (split (output r.out r.err) (char_at "\n" 0)))
    rest ← removable_disks disks
    pure (if_removable k rest)

  unfoldable pub dev_names : M (List String)
  dev_names h = (done (dev_disks (env.read_dir h "/dev/")), h)

  -- The loop of ListRemovableDisk: the station with its mounts, and an error. After a last round
  -- that finds no disk there is no error.
  unfoldable pub list_loop : ℕ → Bool → Workstation → M (Workstation × Option String)
  unfolding removable_disks dev_names
  list_loop zero first d = pure (d, none)
  list_loop (suc tries) first d = do
    go ← may_try env first
    let again = list_loop tries false d
    if go
        then (dev_names >>= removable_disks >>= λ out.
            if is_empty out then again else pure (record d { mounts = out }, none))
        else pure (d, some "No SD card found")

  -- ListRemovableDisk, whose list is that of the mounts, or empty
  unfoldable pub list_removable_disk : Workstation → M (Workstation × Option String)
  unfolding list_loop
  list_removable_disk d = list_loop disk_selection_tries true d
