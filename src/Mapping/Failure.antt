-- ===== src/Mapping/Failure.antt =====
-- `dm` of repo/mapping.go after a mapping.json that could not be read.
use mathlib.Core.Path.{subst}
use iotit.Base.{String, ◌<>◌, none, some, List, [], ◌∷◌, ◌≡◌, refl, sym, arith}
use iotit.Mapping.Defs.{DeviceMapping, DeviceCollection}
use iotit.Mapping.Lookup.{
  Search, Load, find_device, find_in_devices, init_device_collection, get_device_repo,
}

abbrev pub first_search : Load → String → Search
first_search load device = get_device_repo load device none

find_device-empty :
    (device : String) (c : DeviceCollection)
    → c.devices ≡ []
    → (find_device device c).err ≡ some (device <> " device is not supported")
unfolding find_device find_in_devices
find_device-empty device c empty = rw (empty, find_device) refl

first_search-repo :
    (load : Load) (device e : String)
    → load.err ≡ some e
    → (first_search load device).repo ≡ load.collection
unfolding get_device_repo init_device_collection
first_search-repo load device e failed = rw (failed, get_device_repo) refl

-- The collection that searches for the given devices, one after another, leave in `dm`.
unfoldable pub after_searches : Load → List String → DeviceCollection → DeviceCollection
after_searches load [] c = c
after_searches load (device ∷ devices) c =
    after_searches load devices (get_device_repo load device (some c)).repo

empty-find_in_devices :
    (search : String) (devices : List DeviceMapping)
    → devices ≡ []
    → (find_in_devices search devices).0 ≡ []
unfolding find_in_devices
empty-find_in_devices search [] empty = refl
empty-find_in_devices search (d ∷ devices) empty = absurd (ground arith)

empty-get_device_repo :
    (load : Load) (device : String) (c : DeviceCollection)
    → c.devices ≡ []
    → (get_device_repo load device (some c)).repo.devices ≡ []
unfolding get_device_repo init_device_collection find_device find_in_devices
empty-get_device_repo load device c empty =
    rw (empty, find_device) (empty-find_in_devices _ _ empty)

empty-after_searches :
    (load : Load) (devices : List String) (c : DeviceCollection)
    → c.devices ≡ []
    → (after_searches load devices c).devices ≡ []
unfolding after_searches
empty-after_searches load [] c empty = empty
empty-after_searches load (device ∷ devices) c empty =
    empty-after_searches load devices _ (empty-get_device_repo load device c empty)

-- Where mapping.json cannot be read, and leaves no device, the first search reports the error. Each
-- later search of the same run, however many came between, takes the empty collection for the
-- mapping, and reports that the device is not supported.
pub get_device_repo-after_failure :
    (load : Load) (device other : String) (between : List String) {e : String}
    → load.err ≡ some e
    → load.collection.devices ≡ []
    → ((first_search load device).err ≡ some e)
      × ((get_device_repo load other
            (some (after_searches load between (first_search load device).repo))).err
          ≡ some (other <> " device is not supported"))
unfolding get_device_repo init_device_collection
get_device_repo-after_failure load device other between failed empty = (
  rw failed refl,
  find_device-empty other _ (
      empty-after_searches load between _
        (subst (λ c. c.devices ≡ []) (sym (first_search-repo load device _ failed)) empty)),
)
