-- ===== src/Device/Mount.antt =====
-- device/sd_flasher.go: mounting the image inside the virtual machine.
use Prim.Native.Char.{Char, code}
use iotit.Base.{
  String, ◌<>◌, true, false, ◌&&◌, Option, none, some, List, [], ◌∷◌, leb, ◌==◌, str_eq,
  if◌then◌else◌,
}
use iotit.GoStrings.{contains}
use iotit.Effects.{M, pure, ◌>>=◌, ◌>>◌, Env}
use iotit.Config.Storage.{mount_dir, tmp_dir}
use iotit.Vbox.{Config}
use iotit.Device.Flasher.{SdFlasher, set_mounted, exec_over_ssh}

-- The rest of a text after a given beginning.
unfoldable pub strip_prefix : String → String → Option String
strip_prefix String.[] s = some s
strip_prefix (String.◌∷◌ c p) String.[] = none
strip_prefix (String.◌∷◌ c p) (String.◌∷◌ d s) =
    let rest = strip_prefix p s in if code c == code d then rest else none

-- `\d+`, as many digits as there are: the digits and the rest
abbrev push_digit : Char → String × String → String × String
push_digit c (ds, rest) = (String.◌∷◌ c ds, rest)

span_digits : String → String × String
span_digits String.[] = ("", "")
span_digits (String.◌∷◌ c s) =
    let more = span_digits s in
    if leb b'0' (code c) && leb (code c) b'9' then push_digit c more else ("", String.◌∷◌ c s)

abbrev non_empty : String → Option String
non_empty d = if str_eq d "" then none else some d

-- `loop0p[\d]+` at the start of a text
loop_at : String → Option String
unfolding strip_prefix span_digits
loop_at s = elim (strip_prefix "loop0p" s) [
  | none ↦ none
  | some r ↦ if str_eq (span_digits r).0 "" then none else some ("loop0p" <> (span_digits r).0)
]

-- FindAllString of `loop0p[\d]+`. A match holds no other, so none is skipped.
unfoldable pub find_loops : String → List String
unfolding loop_at
find_loops String.[] = []
find_loops (String.◌∷◌ c s) =
    let rest = find_loops s in elim (loop_at (String.◌∷◌ c s)) [ none ↦ rest | some m ↦ m ∷ rest ]

-- The second number of `block count (\d+) exceeds size of device \((\d+) blocks\)` at the start.
block_count_at : String → Option String
unfolding strip_prefix span_digits
block_count_at s = elim (strip_prefix "block count " s) [
  | none ↦ none
  | some r ↦
      if str_eq (span_digits r).0 ""
      then none
      else elim (strip_prefix " exceeds size of device (" (span_digits r).1) [
        | none ↦ none
        | some t ↦ elim (strip_prefix " blocks)" (span_digits t).1) [
          | none ↦ none
          | some _ ↦ non_empty (span_digits t).0
        ]
      ]
]

-- `result[0][2]` of FindAllSubmatch
unfoldable pub find_block_count : String → Option String
unfolding block_count_at
find_block_count String.[] = none
find_block_count (String.◌∷◌ c s) =
    let rest = find_block_count s in
    elim (block_count_at (String.◌∷◌ c s)) [ none ↦ rest | some n ↦ some n ]

abbrev pub mount_command : String → String → String
mount_command loop dir = "mount -o rw /dev/" <> loop <> " " <> dir

abbrev pub umount_command : String
umount_command = "umount " <> mount_dir

module _ (env : Env) where
  -- Shrinking the file system to its device, in `mount`.
  resize_and_mount : Option Config → String → String → M (Option String)
  resize_and_mount conf loop dir = do
    log ← exec_over_ssh env conf "dmesg|tail -n 1"
    elim log.err [
      | some e ↦ pure (some e)
      | none ↦ elim (find_block_count log.outp) [
        | none ↦ pure (some "block info not found")
        | some blocks ↦ do
          tools ← exec_over_ssh env conf "apk add e2fsprogs-extra"
          elim tools.err [
            | some e ↦ pure (some e)
            | none ↦ do
              exec_over_ssh env conf ("resize2fs -f /dev/" <> loop <> " " <> blocks)
              r ← exec_over_ssh env conf (mount_command loop dir)
              pure r.err
          ]
      ]
    ]

  -- mount
  unfoldable pub mount : Option Config → String → String → M (Option String)
  unfolding resize_and_mount
  mount conf loop dir = do
    r ← exec_over_ssh env conf (mount_command loop dir)
    elim r.err [
      | none ↦ pure none
      | some e ↦
          if contains e "wrong fs type, bad option, bad superblock"
          then resize_and_mount conf loop dir
          else if contains e "is already mounted"
          then pure none
          else pure (some e)
    ]

  -- The beginning of MountImg: the image is attached to a loop device and the mount point made.
  unfoldable pub attach : SdFlasher → M (SdFlasher × Option String)
  attach d =
      if str_eq d.img ""
      then pure (d, some "image not found, please check if the repo is valid")
      else (do
        exec_over_ssh env d.conf "losetup -D"
        r ← exec_over_ssh env d.conf ("losetup -f -P " <> env.path tmp_dir (d.img ∷ []))
        elim r.err [
          | some e ↦ pure (d, some e)
          | none ↦ do
            m ← exec_over_ssh env d.conf ("mkdir -p " <> mount_dir)
            elim m.err [ some e ↦ pure (d, some e) | none ↦ pure (set_mounted false d, none) ]
        ])

  -- MountImg with a partition, such as "p2"
  unfoldable pub mount_img_at : String → SdFlasher → M (SdFlasher × Option String)
  unfolding attach
  mount_img_at partition d = do
    (d', err) ← attach d
    elim err [
      | some e ↦ pure (d', some e)
      | none ↦ do
        failed ← mount d'.conf ("loop0" <> partition) mount_dir
        elim failed [ some e ↦ pure (d', some e) | none ↦ pure (set_mounted true d', none) ]
    ]

  -- UnmountImg. The test is the source's: it returns where the image is mounted.
  unfoldable pub unmount_img : SdFlasher → M (Option String)
  unmount_img d = if d.mounted then pure none else (do
    r ← exec_over_ssh env d.conf umount_command
    elim r.err [
      | some e ↦ pure (some e)
      | none ↦ do l ← exec_over_ssh env d.conf "losetup -D"; pure l.err
    ])
