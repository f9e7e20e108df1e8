-- ===== src/Mapping/Find.antt =====
-- What findDevice of repo/mapping.go finds, and what it leaves in the collection.
use iotit.Base.{
  Any, String, Bool, true, false, ◌||◌, Option, none, some, List, [], ◌∷◌, ◌≡◌, refl, arith,
}
use iotit.Mapping.Defs.{
  Info, DeviceMapping, node, Subs, nil, cons, info, no_image, inherit, fill_subs, fill_empty_images,
}
use iotit.Mapping.Lookup.{name_matches, find_sub, find_in_devices}

-- A device or one of its own sub-devices goes by the name or the alias.
unfoldable pub any_sub : String → Subs → Bool
any_sub search nil = false
any_sub search (cons (node i subs) rest) = name_matches search i || any_sub search rest

unfoldable pub any_match : String → List DeviceMapping → Bool
any_match search [] = false
any_match search (node i subs ∷ devices) =
    name_matches search i || (any_sub search subs || any_match search devices)

abbrev pub is_some : Option DeviceMapping → Bool
is_some none = false
is_some (some d) = true

is_some-find_sub :
    (search : String) (parent : Info) (subs : Subs)
    → is_some (find_sub search parent subs).1 ≡ any_sub search subs
unfolding find_sub any_sub
is_some-find_sub search parent nil = refl
is_some-find_sub search parent (cons (node i subs) rest) =
    ground (arith, is_some-find_sub search parent rest)

-- findDevice finds a device exactly where one of the devices, or of their own sub-devices, has the
-- name in any case of letters, or has the alias.
pub is_some-find_in_devices :
    (search : String) (devices : List DeviceMapping)
    → is_some (find_in_devices search devices).1 ≡ any_match search devices
unfolding find_in_devices any_match
is_some-find_in_devices search [] = refl
is_some-find_in_devices search (node i subs ∷ devices) =
    ground (arith, is_some-find_sub search i subs, is_some-find_in_devices search devices)

any_sub-fill_subs :
    (search : String) (parent : Info) (subs : Subs)
    → any_sub search (fill_subs parent subs) ≡ any_sub search subs
unfolding fill_subs any_sub
any_sub-fill_subs search parent nil = refl
any_sub-fill_subs search parent (cons (node i subs) rest) =
    ground (arith, any_sub-fill_subs search parent rest)

any_sub-find_sub :
    (search other : String) (parent : Info) (subs : Subs)
    → any_sub other (find_sub search parent subs).0 ≡ any_sub other subs
unfolding find_sub any_sub
any_sub-find_sub search other parent nil = refl
any_sub-find_sub search other parent (cons (node i subs) rest) =
    ground (arith, any_sub-find_sub search other parent rest)

-- After a search another one finds a device exactly where it did before.
pub any_match-find_in_devices :
    (search other : String) (devices : List DeviceMapping)
    → any_match other (find_in_devices search devices).0 ≡ any_match other devices
unfolding find_in_devices any_match fill_empty_images
any_match-find_in_devices search other [] = refl
any_match-find_in_devices search other (node i subs ∷ devices) = ground (
  arith,
  any_sub-find_sub search other i subs,
  any_sub-fill_subs other (record i { dir = i.name; kind = i.name }) subs,
  any_match-find_in_devices search other devices,
)

-- What the search is about: the names and aliases, at every depth, without the rest.
abbrev pub outline_info : Info → Info
outline_info i = record i { images = []; kind = ""; dir = ""; image = no_image }

unfoldable pub outline_subs : Subs → Subs
outline_subs nil = nil
outline_subs (cons (node i subs) rest) =
    cons (node (outline_info i) (outline_subs subs)) (outline_subs rest)

unfoldable pub outline : List DeviceMapping → List DeviceMapping
unfolding outline_subs
outline [] = []
outline (node i subs ∷ devices) = node (outline_info i) (outline_subs subs) ∷ outline devices

outline_subs-fill_subs :
    (parent : Info) (subs : Subs) → outline_subs (fill_subs parent subs) ≡ outline_subs subs
unfolding fill_subs outline_subs
outline_subs-fill_subs parent nil = refl
outline_subs-fill_subs parent (cons (node i subs) rest) =
    ground
      (arith, outline_subs-fill_subs parent rest, outline_subs-fill_subs (inherit parent i) subs)

outline_subs-find_sub :
    (search : String) (parent : Info) (subs : Subs)
    → outline_subs (find_sub search parent subs).0 ≡ outline_subs subs
unfolding find_sub outline_subs
outline_subs-find_sub search parent nil = refl
outline_subs-find_sub search parent (cons (node i subs) rest) =
    ground (arith, outline_subs-find_sub search parent rest)

-- A search leaves the tree of devices and sub-devices, at every depth, with their names, aliases and
-- order, whatever it changes in their images, directories and types.
pub outline-find_in_devices :
    (search : String) (devices : List DeviceMapping)
    → outline (find_in_devices search devices).0 ≡ outline devices
unfolding find_in_devices outline fill_empty_images
outline-find_in_devices search [] = refl
outline-find_in_devices search (node i subs ∷ devices) = ground (
  arith,
  outline_subs-find_sub search i subs,
  outline_subs-fill_subs (record i { dir = i.name; kind = i.name }) subs,
  outline-find_in_devices search devices,
)

find_sub-matches :
    (search : String) (parent : Info) (subs : Subs) {d : DeviceMapping}
    → (find_sub search parent subs).1 ≡ some d
    → (name_matches search (info d) ≡ true)
      × ((info d).dir ≡ parent.name)
      × ((info d).kind ≡ parent.name)
unfolding find_sub
find_sub-matches search parent nil h = ground arith
find_sub-matches search parent (cons (node i subs) rest) {d} h =
    ground (arith, find_sub-matches search parent rest {d = d})

-- The device that is found has the name or alias; its directory and its type are the name of one of the
-- devices of the collection, its parent's if it is a sub-device.
pub find_in_devices-matches :
    (search : String) (devices : List DeviceMapping) {d : DeviceMapping}
    → (find_in_devices search devices).1 ≡ some d
    → (name_matches search (info d) ≡ true)
      × ((info d).dir ≡ (info d).kind)
      × Any (λ e. (info e).name ≡ (info d).dir) devices
unfolding find_in_devices fill_empty_images
find_in_devices-matches search [] h = ground arith
find_in_devices-matches search (node i subs ∷ devices) {d} h =
    ground (
      arith,
      find_sub-matches search i subs {d = d},
      find_in_devices-matches search devices {d = d},
    )
