-- ===== src/Mapping/Fill.antt =====
-- fillEmptyImages of repo/mapping.go against a reference: the images of a sub-device are those of
-- the nearest device above or at it that has some.
use iotit.Base.{
  ℕ, zero, suc, false, Option, none, some, List, [], ◌∷◌, ◌≡◌, refl, is_empty, if◌then◌else◌,
  Bool-cases, inl, inr,
}
use iotit.Mapping.Defs.{
  DeviceImage, Info, DeviceMapping, node, Subs, nil, cons, inherit, fill_subs, fill_empty_images,
  subs_of,
}

-- The sub-device at a path of indices, the first of which is given apart.
pub sub_at : Subs → ℕ → List ℕ → Option Info
sub_at nil n path = none
sub_at (cons (node i subs) rest) zero [] = some i
sub_at (cons (node i subs) rest) zero (m ∷ path) = sub_at subs m path
sub_at (cons d rest) (suc n) path = sub_at rest n path

abbrev pub images_of : Option Info → Option (List DeviceImage)
images_of none = none
images_of (some i) = some i.images

abbrev or_above : List DeviceImage → List DeviceImage → List DeviceImage
or_above above own = if is_empty own then above else own

-- The images of the nearest device on the way to a path, in a tree as it was read.
pub nearest : List DeviceImage → Subs → ℕ → List ℕ → Option (List DeviceImage)
nearest above nil n path = none
nearest above (cons (node i subs) rest) zero [] = some (or_above above i.images)
nearest above (cons (node i subs) rest) zero (m ∷ path) =
    nearest (or_above above i.images) subs m path
nearest above (cons d rest) (suc n) path = nearest above rest n path

or_above-non_empty :
    (above own : List DeviceImage) → is_empty above ≡ false → is_empty (or_above above own) ≡ false
or_above-non_empty above [] h = h
or_above-non_empty above (x ∷ own) h = refl

sub_at-fill_subs :
    (parent : Info) (subs : Subs) (n : ℕ) (path : List ℕ)
    → is_empty parent.images ≡ false
    → images_of (sub_at (fill_subs parent subs) n path) ≡ nearest parent.images subs n path
unfolding fill_subs sub_at nearest
sub_at-fill_subs parent nil n path h = refl
sub_at-fill_subs parent (cons (node i subs) rest) zero [] h = refl
sub_at-fill_subs parent (cons (node i subs) rest) zero (m ∷ path) h =
    rw (or_above-non_empty parent.images i.images h) (
      sub_at-fill_subs (inherit parent i) subs m path (or_above-non_empty parent.images i.images h))
sub_at-fill_subs parent (cons (node i subs) rest) (suc n) path h =
    sub_at-fill_subs parent rest n path h

-- Where a device has images of its own, fillEmptyImages gives every sub-device, at any depth, the
-- images of the nearest device on the way to it that had some, itself included.
pub fill_empty_images-nearest :
    (i : Info) (subs : Subs) (n : ℕ) (path : List ℕ)
    → is_empty i.images ≡ false
    → images_of (sub_at (subs_of (fill_empty_images (node i subs))) n path)
      ≡ nearest i.images subs n path
unfolding fill_empty_images
fill_empty_images-nearest i subs n path h = rw h (sub_at-fill_subs i subs n path h)

inherit_idem :
    (parent i : Info)
    → is_empty parent.images ≡ false
    → inherit parent (inherit parent i) ≡ inherit parent i
inherit_idem parent i h = elim (Bool-cases (is_empty i.images)) [
  | inl empty ↦ rw empty (rw h refl)
  | inr own ↦ rw own (rw own refl)
]

fill_subs_idem :
    (parent : Info) (subs : Subs)
    → is_empty parent.images ≡ false
    → fill_subs parent (fill_subs parent subs) ≡ fill_subs parent subs
unfolding fill_subs
fill_subs_idem parent nil h = refl
fill_subs_idem parent (cons (node i subs) rest) h = elim (Bool-cases (is_empty i.images)) [
  | inl empty ↦ rw empty (
      rw (h, h)
        (rw
          (
            fill_subs_idem parent rest h,
            fill_subs_idem (record i { dir = parent.name; images = parent.images }) subs h,
          )
          refl))
  | inr own ↦ rw own (
      rw own (
        rw (fill_subs_idem parent rest h, fill_subs_idem (record i { dir = parent.name }) subs own)
          (rw own refl)))
]

-- A second fillEmptyImages changes nothing.
pub fill_empty_images_idem :
    (m : DeviceMapping) → fill_empty_images (fill_empty_images m) ≡ fill_empty_images m
unfolding fill_empty_images
fill_empty_images_idem (node i subs) = elim (Bool-cases (is_empty i.images)) [
  | inl empty ↦ rw empty refl
  | inr own ↦ rw own (rw (fill_subs_idem i subs own) refl)
]
