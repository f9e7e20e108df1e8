-- ===== src/Device/Listing.antt =====
-- ListMapping of device/device.go: no device is left out.
use mathlib.Core.Bool.{true≢false}
use mathlib.Core.Path.{subst}
use iotit.Base.{
  suc, String, true, none, List, [], ◌∷◌, ◌≡◌, refl, ap, ◌∙◌, arith, sym, length, Option-cases,
  eq_refl, inl, inr,
}
use iotit.GoStrings.{to_lower}
use iotit.Mapping.{
  DeviceMapping, node, info, DeviceCollection, Load, find_in_devices, find_device, get_device_repo,
  init_device_collection, get_repo,
}
use iotit.Mapping.Find.{any_match, is_some-find_in_devices, any_match-find_in_devices, is_some}
use iotit.Device.Select.{list_items, list_mapping}

-- Each of the devices is found by its name in a collection.
abbrev AllFound : List DeviceMapping → List DeviceMapping → Type 0
AllFound within [] = Unit
AllFound within (d ∷ devices) =
    (any_match (to_lower (info d).name) within ≡ true) × AllFound within devices

AllFound-find :
    (search : String) (within devices : List DeviceMapping)
    → AllFound within devices
    → AllFound (find_in_devices search within).0 devices
AllFound-find search within [] a = tt
AllFound-find search within (d ∷ devices) a = (
  any_match-find_in_devices search (to_lower (info d).name) within ∙ a.0,
  AllFound-find search within devices a.1,
)

AllFound-cons :
    (e : DeviceMapping) (within devices : List DeviceMapping)
    → AllFound within devices
    → AllFound (e ∷ within) devices
unfolding any_match
AllFound-cons (node i subs) within [] a = tt
AllFound-cons (node i subs) within (d ∷ devices) a =
    (ground arith, AllFound-cons (node i subs) within devices a.1)

AllFound-self : (devices : List DeviceMapping) → AllFound devices devices
unfolding any_match
AllFound-self [] = tt
AllFound-self (node i subs ∷ devices) = (
  rw (eq_refl (to_lower i.name)) refl,
  AllFound-cons (node i subs) devices devices (AllFound-self devices),
)

find_device-devices :
    (search : String) (c : DeviceCollection)
    → (find_device search c).repo
      ≡ record c { devices = (find_in_devices (to_lower search) c.devices).0 }
unfolding find_device
find_device-devices search c = elim (Option-cases (find_in_devices (to_lower search) c.devices).1) [
  | inl e ↦ rw (e, find_device) refl
  | inr (m, e) ↦ rw (e, find_device) refl
]

length-list_items :
    (load : Load) (c : DeviceCollection) (devices : List DeviceMapping)
    → AllFound c.devices devices
    → length (list_items load c devices) ≡ length devices
unfolding list_items get_device_repo init_device_collection find_device
length-list_items load c [] a = refl
length-list_items load c (d ∷ devices) a =
    let search = to_lower (info d).name in
    let found = is_some-find_in_devices search c.devices ∙ a.0 in
    let c' = (find_device (info d).name c).repo in
    let later =
      subst (λ r. AllFound r.devices devices) (sym (find_device-devices (info d).name c))
        (AllFound-find search c.devices devices a.1) in
    let rest = length-list_items load c' devices later in
    elim (Option-cases (find_in_devices search c.devices).1) [
      | inl e ↦ absurd (true≢false (sym found ∙ ap is_some e))
      | inr (m, e) ↦ rw e (ap suc rest)
    ]

-- Where mapping.json is read without an error, ListMapping lists as many rows as there are devices:
-- the search that it makes for each name finds a device, though each search changes the collection.
pub length-list_mapping :
    (load : Load)
    → load.err ≡ none
    → length (list_mapping load none) ≡ length load.collection.devices
unfolding list_mapping get_repo init_device_collection get_device_repo
length-list_mapping load ok = rw ok (
    length-list_items load load.collection load.collection.devices
      (AllFound-self load.collection.devices))
