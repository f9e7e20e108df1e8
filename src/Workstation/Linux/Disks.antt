-- ===== src/Workstation/Linux/Disks.antt =====
-- ListRemovableDisk of workstation/w_linux.go.
use iotit.Base.{
  ℕ, ◌*◌, ◌-◌, ◌^◌, ◌%◌, String, ◌<>◌, Bool, true, false, ◌&&◌, ◌||◌, Option, none, some, List, [],
  ◌∷◌, leb, ltb, ◌==◌, str_eq, if◌then◌else◌, is_empty,
}
use mathlib.Core.List.{reverse}
use iotit.GoStrings.{trim, codes, format_nat}
use iotit.Effects.{Event, M, done, Env}
use iotit.Repository.{atoi}
use iotit.Workstation.Defs.{MountInfo, Workstation}

abbrev starts : List ℕ → List ℕ → Bool
starts s [] = true
starts [] (p ∷ prefix) = false
starts (c ∷ s) (p ∷ prefix) = c == p && starts s prefix

-- `(sd[a-z])$`, read from the end
abbrev ends_sd : List ℕ → Bool
ends_sd [] = false
ends_sd (c ∷ s) = leb b'a' c && leb c b'z' && starts s (b'd' ∷ b's' ∷ [])

-- `(mmcblk[0-9])$`, read from the end
abbrev ends_mmcblk : List ℕ → Bool
ends_mmcblk [] = false
ends_mmcblk (c ∷ s) =
    leb b'0' c && leb c b'9' && starts s (b'k' ∷ b'l' ∷ b'b' ∷ b'c' ∷ b'm' ∷ b'm' ∷ [])

unfoldable pub is_disk_name : String → Bool
is_disk_name name = ends_sd (reverse (codes name)) || ends_mmcblk (reverse (codes name))

-- the loop over the names in /dev
unfoldable pub dev_disks : List String → List String
dev_disks [] = []
dev_disks (name ∷ names) =
    let rest = dev_disks names in if is_disk_name name then name ∷ rest else rest

-- `strings.Trim(string(r), "\n")` of a file, which reads as empty if it cannot be read
abbrev pub content : Option String → String
content none = ""
content (some s) = trim (λ c. c == 10) s

abbrev pub number_or_zero : Option ℕ → ℕ
number_or_zero none = 0
number_or_zero (some n) = n

-- strconv.FormatInt of a product of two int64, which wraps
abbrev pub format_product : ℕ → ℕ → String
format_product a b =
    let p = (a * b) % 2 ^ 64 in
    if ltb p (2 ^ 63) then format_nat 20 p else "-" <> format_nat 20 (2 ^ 64 - p)

module _ (env : Env) where
  -- the file of a disk under /sys/block
  abbrev pub sys : List Event → String → String → String
  sys h disk file = content (env.read_file h ("/sys/block/" <> disk <> file))

  abbrev pub is_removable : List Event → String → Bool
  is_removable h disk =
      str_eq (sys h disk "/removable") "1" || str_eq (sys h disk "/device/type") "SD"

  abbrev pub mount_info : List Event → String → MountInfo
  mount_info h disk = record {
    device_name =
        if str_eq (sys h disk "/device/model") ""
        then sys h disk "/device/name"
        else sys h disk "/device/model";
    disk_name = "/dev/" <> disk;
    disk_name_raw = "/dev/" <> disk;
    device_size =
        format_product (number_or_zero (atoi (sys h disk "/size")))
          (number_or_zero (atoi (sys h disk "/device/erase_size")));
  }

  -- the loop over `devDisks`
  unfoldable pub removable_disks : List Event → List String → List MountInfo
  removable_disks h [] = []
  removable_disks h (disk ∷ disks) =
      let rest = removable_disks h disks in
      if is_removable h disk then mount_info h disk ∷ rest else rest

  -- ListRemovableDisk: the station with its mounts, and an error
  unfoldable pub list_removable_disk : Workstation → M (Workstation × Option String)
  unfolding removable_disks
  list_removable_disk l h =
      let out = removable_disks h (dev_disks (env.read_dir h "/dev/")) in
      if is_empty out
      then (
        done (
          l,
          some "[-] No mounts found.\n[-] Please insert your SD card and start command again",
        ),
        h,
      )
      else (done (record l { mounts = out }, none), h)
