-- ===== src/Workstation/Windows/Disks.antt =====
-- ListRemovableDisk of workstation/w_windows.go.
use iotit.Base.{
  ℕ, zero, suc, ◌+◌, ◌*◌, ◌-◌, ◌/◌, ◌%◌, ◌^◌, String, ◌<>◌, Bool, true, false, ◌&&◌, ◌||◌, Option,
  none, some, List, [], ◌∷◌, leb, ltb, ◌==◌, if◌then◌else◌, is_empty, get_elem?,
}
use iotit.GoStrings.{contains, trim_space, codes, format_nat}
use iotit.Effects.{Event, M, pure, ◌>>=◌, Env, host_exec, or_panic}
use iotit.Repository.{atoi}
use iotit.Workstation.Defs.{MountInfo, Workstation, new_workstation}

-- The packages that the code calls: encoding/csv with TrimLeadingSpace, each Read up to the io.EOF,
-- `none` for another error; and a download with its attempts, from a url into a directory, up to
-- the wait for it.
pub record Windows : Type 0 where
  pub csv : String → List (Option (List String))
  pub download : List Event → String → String → Option String

-- The struct `windows`.
pub record Station : Type 0 where
  pub base : Workstation
  pub dd_path : String

-- newWorkstation
unfoldable pub new_station : String → Station
new_station disk = record { base = new_workstation disk; dd_path = "" }

abbrev pub wmic : List String
wmic =
    ("cmd /s /c \"wmic diskdrive get DeviceID,index,InterfaceType,MediaType,Model,Size /format:csv\"")
    ∷ []

abbrev are_digits : List ℕ → Bool
are_digits [] = true
are_digits (c ∷ s) = leb b'0' c && leb c b'9' && are_digits s

abbrev is_decimal : List ℕ → Bool
is_decimal [] = false
is_decimal (c ∷ s) =
    (leb b'0' c && leb c b'9' && are_digits s) || (c == b'+' && are_digits s && not_empty s)
  where
    not_empty : List ℕ → Bool
    not_empty [] = false
    not_empty (d ∷ t) = true

-- The number that strconv.Atoi gives whether it fails or not, for a text with no `-`: the largest
-- int where the number is too large.
unfoldable pub atoi_value : String → ℕ
unfolding atoi
atoi_value s = elim (atoi s) [ some n ↦ n | none ↦ if is_decimal (codes s) then 2 ^ 63 - 1 else 0 ]

-- The distance of the float64 numbers around an int, found by doubling.
abbrev spacing : ℕ → ℕ → ℕ → ℕ
spacing zero u n = u
spacing (suc doublings) u n =
    let next = spacing doublings (2 * u) n in if ltb n (2 ^ 53 * u) then u else next

-- The multiple of `u` that is nearest to a number, the even one of two.
abbrev nearest : ℕ → ℕ → ℕ
nearest u n =
    let down = n / u in
    let rest = n % u in
    if ltb (2 * rest) u || (2 * rest == u && down % 2 == 0) then down * u else (down + 1) * u

-- float64 of an int
unfoldable pub float64 : ℕ → ℕ
float64 n = nearest (spacing 11 1 n) n

-- `math.Ceil(float64(sizeInt) / 1024 / 1024 / 1024)`; dividing by powers of two is exact
unfoldable pub gigabytes : String → ℕ
unfolding atoi_value float64
gigabytes size = (float64 (atoi_value size) + (2 ^ 30 - 1)) / 2 ^ 30

-- A record of the csv, whose fields are indexed.
abbrev pub field : List String → ℕ → M String
field record_read i = or_panic (get_elem? record_read i)

-- `!strings.Contains(record[4], "Removable") || strings.Contains(record[3], "IDE")`
unfoldable pub is_skipped : List String → M Bool
is_skipped r = field r 4 >>= λ media.
    if contains media "Removable"
    then (field r 3 >>= λ bus. pure (contains bus "IDE"))
    else pure true

unfoldable pub mount_info : List String → M MountInfo
unfolding gigabytes
mount_info r = do
  size ← field r 6
  model ← field r 5
  index ← field r 2
  pure (record {
    device_name = model <> " [" <> format_nat 20 (gigabytes size) <> "GB]";
    disk_name = "\\\\?\\Device\\Harddisk" <> index <> "\\Partition0";
    disk_name_raw = index;
    device_size = size;
  })

-- The loop over the records; one that cannot be read is left out.
unfoldable pub read_records : List (Option (List String)) → M (List MountInfo)
unfolding is_skipped mount_info
read_records [] = pure []
read_records (none ∷ records) = read_records records
read_records (some r ∷ records) =
    let rest = read_records records in
    is_skipped r >>= λ skipped.
    if skipped then rest else (mount_info r >>= λ p. rest >>= λ out. pure (p ∷ out))

-- the first line is skipped
abbrev pub after_header : List (Option (List String)) → List (Option (List String))
after_header [] = []
after_header (header ∷ records) = records

-- the output of a command, which is taken as empty if it fails
abbrev pub output : String → Option String → String
output out none = out
output out (some e) = ""

abbrev pub no_disks : String
no_disks =
    "[-] No removable disks found, please insert your SD card and try again.\n[-] Please remember to run this tool as an administrator."

abbrev pub with_disks : Workstation → List MountInfo → Workstation × Option String
with_disks w out = if is_empty out then (w, some no_disks) else (record w { mounts = out }, none)

module _ (windows : Windows) (env : Env) where
  -- ListRemovableDisk
  unfoldable pub list_removable_disk : Workstation → M (Workstation × Option String)
  unfolding read_records
  list_removable_disk w = do
    r ← host_exec env wmic
    out ← read_records (after_header (windows.csv (trim_space (output r.out r.err))))
    pure (with_disks w out)
