-- ===== src/Workstation/Defs.antt =====
-- `workstation` and `MountInfo` of workstation/workstation.go.
use iotit.Base.{String, ◌<>◌, Bool, Option, none, some, List, [], ◌∷◌, str_eq, if◌then◌else◌}

pub record MountInfo : Type 0 where
  pub device_name : String
  pub disk_name : String
  pub disk_name_raw : String
  pub device_size : String

abbrev pub empty_mount : MountInfo
empty_mount = record { device_name = ""; disk_name = ""; disk_name_raw = ""; device_size = "" }

pub record Workstation : Type 0 where
  pub disk : String
  pub writable : Bool
  pub mount : MountInfo
  pub mounts : List MountInfo

-- newWorkstation
unfoldable pub new_workstation : String → Workstation
new_workstation disk = record {
  disk = disk;
  writable = Bool.true;
  mount = empty_mount;
  mounts = [];
}

-- String
unfoldable pub to_string : MountInfo → String
to_string m =
    "DeviceName=" <> m.device_name <> "\nDiskName=" <> m.disk_name <> "\nDiskNameRaw="
    <> m.disk_name_raw <> "\nDeviceSize=" <> m.device_size

-- The loop that looks for the disk named on the command line.
unfoldable pub find_disk : String → List MountInfo → Option MountInfo
find_disk disk [] = none
find_disk disk (e ∷ mounts) = if str_eq e.disk_name disk then some e else find_disk disk mounts
