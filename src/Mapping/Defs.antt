-- ===== src/Mapping/Defs.antt =====
-- The types of repo/mapping.go. `[]*DeviceMapping` is `Subs`, a list of its own, since a mapping
-- holds a list of mappings. After json.Unmarshal no two pointers in it are equal, so it is a tree.
use iotit.Base.{String, List, [], ◌∷◌, map, is_empty, if◌then◌else◌}

pub record DeviceImage : Type 0 where
  pub url : String
  pub alias : String
  pub title : String
  pub user : String
  pub pass : String
  pub hash : String

abbrev pub no_image : DeviceImage
no_image = record { url = ""; alias = ""; title = ""; user = ""; pass = ""; hash = "" }

-- The fields of a `DeviceMapping` but `Sub`.
pub record Info : Type 0 where
  pub name : String
  pub alias : String
  pub images : List DeviceImage
  pub kind : String  -- Type
  pub dir : String
  pub image : DeviceImage

mutual
  pub data DeviceMapping : Type 0 where
    node : Info → Subs → DeviceMapping

  pub data Subs : Type 0 where
    nil : Subs
    cons : DeviceMapping → Subs → Subs

abbrev pub info : DeviceMapping → Info
info (node i subs) = i

abbrev pub subs_of : DeviceMapping → Subs
subs_of (node i subs) = subs

pub record DeviceCollection : Type 0 where
  pub devices : List DeviceMapping
  pub version : String

abbrev pub empty_collection : DeviceCollection
empty_collection = record { devices = []; version = "" }

-- GetSubsNames
unfoldable pub get_subs_names : Subs → List String
get_subs_names nil = []
get_subs_names (cons d rest) = (info d).name ∷ get_subs_names rest

-- GetImageTitles
unfoldable pub get_image_titles : List DeviceImage → List String
get_image_titles = map (λ (i : DeviceImage). i.title)

-- What fillEmptyImages does to a sub-device itself.
abbrev pub inherit : Info → Info → Info
inherit parent i = record i {
  dir = parent.name;
  images = if is_empty i.images then parent.images else i.images;
}

-- The loop of fillEmptyImages under a parent that has images, with the call for each sub-device.
unfoldable pub fill_subs : Info → Subs → Subs
fill_subs parent nil = nil
fill_subs parent (cons (node i subs) rest) =
    let i' = inherit parent i in
    let subs' = fill_subs i' subs in
    cons (node i' (if is_empty i'.images then subs else subs')) (fill_subs parent rest)

-- fillEmptyImages
unfoldable pub fill_empty_images : DeviceMapping → DeviceMapping
unfolding fill_subs
fill_empty_images (node i subs) = node i (if is_empty i.images then subs else fill_subs i subs)

-- getDevices
unfoldable pub get_devices : DeviceCollection → List String
get_devices c = map (λ d. (info d).name) c.devices
