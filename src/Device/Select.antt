-- ===== src/Device/Select.antt =====
-- device/device.go: choosing the device, the image and the flasher.
use iotit.Base.{
  ℕ, zero, suc, String, ◌<>◌, Option, none, some, List, [], ◌∷◌, ◌++◌, str_eq, if◌then◌else◌,
  get_elem?, is_empty,
}
use iotit.Effects.{M, pure, fail, leave, ◌>>=◌, Env, select_one, single_answer, or_panic}
use iotit.Config.Storage.{store}
use iotit.Mapping.{
  DeviceImage, no_image, Info, DeviceMapping, node, Subs, nil, cons, info, DeviceCollection,
  get_subs_names, get_image_titles, find_image, Load, get_device_repo, get_all_devices, get_repo,
}

-- customFlash
abbrev pub custom_flash : String
custom_flash = "Custom board"

module _ (env : Env) where
  unfoldable pub choose_sub : List String → DeviceMapping → (ℕ → M DeviceMapping) → M DeviceMapping
  choose_sub [] mapping at = pure mapping
  choose_sub (name ∷ []) mapping at = at 0
  choose_sub names mapping at = select_one env "Please select device type: " names >>= at

  unfoldable mutual
    unfolding choose_sub

    -- selectDevice
    pub select_device : DeviceMapping → M DeviceMapping
    select_device (node i subs) = choose_sub (get_subs_names subs) (node i subs) (select_nth subs)

    -- `selectDevice(mapping.Sub[n])`, which panics out of range
    pub select_nth : Subs → ℕ → M DeviceMapping
    select_nth nil n = fail
    select_nth (cons d rest) zero = select_device d
    select_nth (cons d rest) (suc n) = select_nth rest n

  unfoldable pub set_image : DeviceMapping → DeviceImage → DeviceMapping
  set_image (node i subs) image = node (record i { image = image }) subs

  unfoldable pub choose_image : List DeviceImage → M DeviceImage
  choose_image (i ∷ []) = pure i
  choose_image images = do
    n ← select_one env "Please select an image: " (get_image_titles images)
    or_panic (get_elem? images n)

  -- selectImage: `none` is nil
  unfoldable pub select_image : DeviceMapping → M (Option DeviceMapping)
  unfolding set_image choose_image
  select_image mapping = do
    selected ← select_device mapping
    if is_empty (info selected).images then pure none else (do
      image ← choose_image (info selected).images
      pure (some (set_image selected image)))

-- The type of the flasher that getFlasher makes.
pub data Kind : Type 0 where
  raspberry_pi beagle_bone colibri edison serial sd : Kind

-- the `switch r.Type`
unfoldable pub kind_of : String → Kind
kind_of kind =
    if str_eq kind "Raspberry Pi"
    then raspberry_pi
    else if str_eq kind "Beaglebone"
    then beagle_bone
    else if str_eq kind "Toradex Colibri iMX6"
    then colibri
    else if str_eq kind "Intel® Edison"
    then edison
    else if str_eq kind "Espressif ESP"
    then serial
    else sd

-- A flasher: its kind, `device` and `devRepo`. The flags of the command line are passed on as given.
pub record Chosen : Type 0 where
  pub kind : Kind
  pub device : String
  pub dev_repo : DeviceMapping

pub data Choice : Type 0 where
  chosen : Chosen → Choice
  refused : String → Choice

abbrev custom_info : String → Info
custom_info url = record {
  name = "Custom";
  alias = "";
  images = [];
  kind = "";
  dir = "";
  image = record no_image { url = url };
}

-- `if r.Type == "" { r.Type = device }` and the switch after it
unfoldable pub make_flasher : String → DeviceMapping → Chosen
unfolding kind_of
make_flasher device (node i subs) =
    let kind = if str_eq i.kind "" then device else i.kind in
    record { kind = kind_of kind; device = device; dev_repo = node (record i { kind = kind }) subs }

module _ (env : Env) (load : Load) where
  -- `if len(image) > 0 { r.FindImage(image) }`; an unknown image ends the program
  named_image : String → DeviceMapping → M DeviceMapping
  named_image image r =
      if str_eq image ""
      then pure r
      else (let (r', err) = find_image image r in elim err [ some e ↦ leave 1 | none ↦ pure r' ])

  -- getFlasher
  unfoldable pub get_flasher : String → String → Option DeviceCollection → M Choice
  unfolding named_image make_flasher
  get_flasher device image dm =
      if str_eq device custom_flash
      then (do
        url ← single_answer env "Please provide image URL or path: "
        pure (chosen (make_flasher device (node (custom_info url) nil))))
      else elim (get_device_repo load device dm).found [
        | none ↦ elim (get_device_repo load device dm).err [
          | some e ↦ pure (refused e)
          | none ↦ fail
        ]
        | some r ↦ do
          r' ← named_image image r
          if str_eq (info r').image.url ""
              then (do
                selected ← select_image env r'
                elim selected [
                  | none ↦ pure (refused ("Empty repository for " <> device))
                  | some m ↦ pure (chosen (make_flasher device m))
                ])
              else pure (chosen (make_flasher device r'))
      ]

  -- The device type of New: named on the command line, or selected; with `dm` as it is left.
  device_type : String → Option DeviceCollection → M (String × DeviceCollection)
  device_type type_arg dm =
      if str_eq type_arg ""
      then (do
        let (c, names) = get_all_devices load dm
        n ← select_one env "Select device type: " (names ++ (custom_flash ∷ []))
        name ← or_panic (get_elem? (names ++ (custom_flash ∷ [])) n)
        pure (name, c))
      else (let r = get_device_repo load type_arg dm in
          elim r.found [ none ↦ leave 1 | some d ↦ pure ((info d).name, r.repo) ])

  -- New, after the check for a newer mapping.json. `none` is a nil flasher.
  unfoldable pub new_flasher : String → String → M (Option Chosen)
  unfolding device_type get_flasher
  new_flasher type_arg img_arg = do
    (device, c) ← device_type type_arg none
    choice ← get_flasher device img_arg (some c)
    elim choice [ refused e ↦ pure none | chosen f ↦ pure (some f) ]

-- A row of ListMapping: the images of a device or a model, a map from titles to aliases.
pub record Model : Type 0 where
  pub title : String
  pub alias : String
  pub images : List (String × String)

pub record ListItem : Type 0 where
  pub title : String
  pub alias : String
  pub images : List (String × String)
  pub models : List Model

-- `for _, i := range images { m[i.Title] = i.Alias }`
unfoldable pub add_images : List (String × String) → List DeviceImage → List (String × String)
unfolding store
add_images m [] = m
add_images m (i ∷ images) = add_images (store i.title i.alias m) images

unfoldable pub models_of : Subs → List Model
unfolding add_images
models_of nil = []
models_of (cons (node i subs) rest) =
    record { title = i.name; alias = i.alias; images = add_images [] i.images } ∷ models_of rest

abbrev item_of : DeviceMapping → ListItem
item_of (node i nil) = record {
  title = i.name;
  alias = i.alias;
  images = add_images [] i.images;
  models = [];
}
item_of (node i (cons d rest)) = record {
  title = i.name;
  alias = i.alias;
  images = [];
  models = models_of (cons d rest);
}

-- The loop of ListMapping, over the devices as they are when it starts; each search changes `dm`.
unfoldable pub list_items : Load → DeviceCollection → List DeviceMapping → List ListItem
unfolding models_of
list_items load dm [] = []
list_items load dm (d ∷ devices) =
    let r = get_device_repo load (info d).name (some dm) in
    let rest = list_items load r.repo devices in
    elim r.found [ none ↦ rest | some found ↦ item_of found ∷ rest ]

unfoldable pub list_mapping : Load → Option DeviceCollection → List ListItem
unfolding list_items
list_mapping load dm = let (c, shown) = get_repo load dm in list_items load c shown.devices
