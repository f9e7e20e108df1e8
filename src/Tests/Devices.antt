-- ===== src/Tests/Devices.antt =====
-- Searching the mapping and choosing an image.
use iotit.Base.{Any, true, none, some, [], ◌∷◌, ◌≡◌, refl, length}
use iotit.Effects.{panic, AnswersInRange}
use iotit.GoStrings.{to_lower}
use iotit.Mapping.{
  DeviceMapping, node, nil, info, subs_of, find_in_devices, fill_empty_images, Load,
  get_device_repo, empty_collection, name_matches,
}
use iotit.Mapping.Find.{
  is_some, any_match, outline, is_some-find_in_devices, outline-find_in_devices,
  find_in_devices-matches,
}
use iotit.Mapping.Fill.{sub_at, images_of, nearest, fill_empty_images-nearest}
use iotit.Mapping.Failure.{first_search, after_searches, get_device_repo-after_failure}
use iotit.Device.Select.{list_mapping, select_image}
use iotit.Device.Listing.{length-list_mapping}
use iotit.Device.Answers.{select_image-NeverPanics}
use iotit.Tests.Settings.{first_fits, env, board, neo, boards, collection, load, debian}

is_some-find_in_devices_example :
    is_some (find_in_devices "neo" collection.devices).1 ≡ any_match "neo" collection.devices
is_some-find_in_devices_example = is_some-find_in_devices "neo" collection.devices

outline-find_in_devices_example :
    outline (find_in_devices "neo" collection.devices).0 ≡ outline collection.devices
outline-find_in_devices_example = outline-find_in_devices "neo" collection.devices

abbrev found_neo : DeviceMapping
found_neo = node (record neo { images = debian ∷ []; kind = "NanoPi"; dir = "NanoPi" }) nil

finds_neo : (find_in_devices "neo" collection.devices).1 ≡ some found_neo
unfolding find_in_devices to_lower
finds_neo = refl

find_in_devices-matches_example :
    (name_matches "neo" (info found_neo) ≡ true)
    × ((info found_neo).dir ≡ (info found_neo).kind)
    × Any (λ e. (info e).name ≡ (info found_neo).dir) collection.devices
find_in_devices-matches_example =
    find_in_devices-matches "neo" collection.devices {d = found_neo} finds_neo

fill_empty_images-nearest_example :
    images_of (sub_at (subs_of (fill_empty_images (node board boards))) 0 [])
    ≡ nearest (debian ∷ []) boards 0 []
fill_empty_images-nearest_example = fill_empty_images-nearest board boards 0 [] refl

abbrev failed_load : Load
failed_load = record { collection = empty_collection; err = some "no file" }

get_device_repo-after_failure_example :
    ((first_search failed_load "np").err ≡ some "no file")
    × ((get_device_repo failed_load "np" (
          some (
            after_searches failed_load
              ("pi" ∷ "neo" ∷ [])
              (first_search failed_load "np").repo))).err
        ≡ some "np device is not supported")
get_device_repo-after_failure_example =
    get_device_repo-after_failure failed_load "np" "np" ("pi" ∷ "neo" ∷ []) refl refl

length-list_mapping_example : length (list_mapping load none) ≡ 1
length-list_mapping_example = length-list_mapping load refl

chooses_first : AnswersInRange env
chooses_first = record { choose_lt = λ h question options i e. first_fits options e }

select_image-NeverPanics_example : ¬ ((select_image env (node board boards) []).0 ≡ panic)
select_image-NeverPanics_example = select_image-NeverPanics env chooses_first (node board boards) []
