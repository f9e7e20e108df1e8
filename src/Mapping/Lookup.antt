-- ===== src/Mapping/Lookup.antt =====
-- Searching the mapping, and the package variable `dm` that caches it.
use iotit.Base.{
  String, ◌<>◌, Bool, ◌||◌, Option, none, some, List, [], ◌∷◌, is_empty, str_eq, if◌then◌else◌,
}
use iotit.GoStrings.{to_lower}
use iotit.Mapping.Defs.{
  DeviceImage, Info, DeviceMapping, node, Subs, nil, cons, DeviceCollection, empty_collection,
  fill_empty_images, get_devices, subs_of,
}

-- `strings.ToLower(obj.Title) == search || obj.Alias == search`
abbrev pub image_matches : String → DeviceImage → Bool
image_matches search i = str_eq (to_lower i.title) search || str_eq i.alias search

find_in : String → List DeviceImage → Option DeviceImage
find_in search [] = none
find_in search (i ∷ images) = if image_matches search i then some i else find_in search images

-- FindImage: the mapping with its `Image` set, and an error
unfoldable pub find_image : String → DeviceMapping → DeviceMapping × Option String
unfolding find_in
find_image image (node i subs) = elim (find_in (to_lower image) i.images) [
  | some found ↦ (node (record i { image = found }) subs, none)
  | none ↦ (node i subs, some (image <> " unknown image"))
]

abbrev pub name_matches : String → Info → Bool
name_matches search i = str_eq (to_lower i.name) search || str_eq i.alias search

abbrev pub labelled : Info → Info → Info
labelled parent i = record i { dir = parent.name; kind = parent.name }

-- The loop over `obj.Sub` in findDevice: the sub-devices as it leaves them, and the one it returns.
unfoldable pub find_sub : String → Info → Subs → Subs × Option DeviceMapping
find_sub search parent nil = (nil, none)
find_sub search parent (cons (node i subs) rest) =
    let i' = labelled parent i in
    let filled = record i' { images = if is_empty i.images then parent.images else i.images } in
    let later = find_sub search parent rest in
    if name_matches search i
    then (cons (node filled subs) rest, some (node filled subs))
    else (cons (node i' subs) later.0, later.1)

-- The loop of findDevice: the devices as it leaves them, and the one it returns. The loop variable
-- is a copy of the device, so `dir` and `Type` of a device itself are set in the copy alone; its
-- sub-devices are shared.
unfoldable pub find_in_devices :
    String → List DeviceMapping → List DeviceMapping × Option DeviceMapping
unfolding find_sub
find_in_devices search [] = ([], none)
find_in_devices search (node i subs ∷ devices) =
    let obj = node (record i { dir = i.name; kind = i.name }) subs in
    let filled = fill_empty_images obj in
    let visited = find_sub search i subs in
    let later = find_in_devices search devices in
    if name_matches search i
    then (node i (subs_of filled) ∷ devices, some filled)
    else elim visited.1 [
      | some found ↦ (node i visited.0 ∷ devices, some found)
      | none ↦ (node i visited.0 ∷ later.0, later.1)
    ]

-- A device or an error, with the collection as the search leaves it.
pub record Search : Type 0 where
  pub repo : DeviceCollection
  pub found : Option DeviceMapping
  pub err : Option String

unfoldable pub find_device : String → DeviceCollection → Search
unfolding find_in_devices
find_device device c =
    let r = find_in_devices (to_lower device) c.devices in
    let repo = record c { devices = r.0 } in
    elim r.1 [
      | some found ↦ record { repo = repo; found = some found; err = none }
      | none ↦ record {
        repo = repo;
        found = none;
        err = some (device <> " device is not supported");
      }
    ]

-- What reading mapping.json into an empty collection leaves in it, and the error of doing so.
pub record Load : Type 0 where
  pub collection : DeviceCollection
  pub err : Option String

-- `if dm == nil { initDeviceCollection() }`: `dm` is set before the file is read, and stays set.
unfoldable pub init_device_collection :
    Load → Option DeviceCollection → DeviceCollection × Option String
init_device_collection load none = (load.collection, load.err)
init_device_collection load (some dm) = (dm, none)

unfoldable pub get_device_repo : Load → String → Option DeviceCollection → Search
get_device_repo load device dm =
    let (c, err) = init_device_collection load dm in
    elim err [
      | some e ↦ record { repo = c; found = none; err = some e }
      | none ↦ find_device device c
    ]

-- GetRepo; the collection that a failed load leaves in `dm` comes first
unfoldable pub get_repo : Load → Option DeviceCollection → DeviceCollection × DeviceCollection
get_repo load dm =
    let (c, err) = init_device_collection load dm in
    elim err [ some e ↦ (c, empty_collection) | none ↦ (c, c) ]

-- GetDevices, and GetAllRepos without its error
unfoldable pub get_all_devices : Load → Option DeviceCollection → DeviceCollection × List String
get_all_devices load dm =
    let (c, err) = init_device_collection load dm in
    elim err [ some e ↦ (c, []) | none ↦ (c, get_devices c) ]
