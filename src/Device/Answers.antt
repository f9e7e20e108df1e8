-- ===== src/Device/Answers.antt =====
-- selectDevice and selectImage of device/device.go: no answer makes them panic.
use iotit.Base.{
  ℕ, zero, suc, ◌<◌, String, false, none, some, List, [], ◌∷◌, ◌≡◌, arith, length, get_elem?,
  get_elem?-some, length-map, is_empty, Bool-cases, inl, inr,
}
use iotit.Effects.{M, Env, AnswersInRange}
use iotit.Effects.Panics.{
  NeverPanics, pure-NeverPanics, bind-NeverPanics, or_panic-NeverPanics, select_one-NeverPanics,
}
use iotit.Mapping.{
  DeviceImage, DeviceMapping, node, Subs, nil, cons, info, get_subs_names, get_image_titles,
}
use iotit.Device.Select.{
  choose_sub, select_device, select_nth, set_image, choose_image, select_image,
}

module _ (env : Env) (fits : AnswersInRange env) where
  choose_sub-NeverPanics :
      (names : List String) (mapping : DeviceMapping) (at : ℕ → M DeviceMapping)
      → ((n : ℕ) → n < length names → NeverPanics (at n))
      → NeverPanics (choose_sub env names mapping at)
  unfolding choose_sub
  choose_sub-NeverPanics [] mapping at p = pure-NeverPanics mapping
  choose_sub-NeverPanics (name ∷ []) mapping at p = p 0 (omega arith)
  choose_sub-NeverPanics (name ∷ other ∷ names) mapping at p =
      select_one-NeverPanics env fits "Please select device type: " (name ∷ other ∷ names) at p

  mutual
    unfolding select_device select_nth get_subs_names

    select_device-NeverPanics : (mapping : DeviceMapping) → NeverPanics (select_device env mapping)
    select_device-NeverPanics (node i subs) =
        choose_sub-NeverPanics (get_subs_names subs) (node i subs) (select_nth env subs)
          (select_nth-NeverPanics subs)

    select_nth-NeverPanics :
        (subs : Subs) (n : ℕ)
        → n < length (get_subs_names subs)
        → NeverPanics (select_nth env subs n)
    select_nth-NeverPanics nil n p = absurd (omega (arith, p))
    select_nth-NeverPanics (cons d rest) zero p = select_device-NeverPanics d
    select_nth-NeverPanics (cons d rest) (suc n) p =
        select_nth-NeverPanics rest n (omega (arith, p))

  choose_image-NeverPanics :
      (images : List DeviceImage) → is_empty images ≡ false → NeverPanics (choose_image env images)
  unfolding choose_image get_image_titles
  choose_image-NeverPanics [] p = ground arith
  choose_image-NeverPanics (i ∷ []) p = pure-NeverPanics i
  choose_image-NeverPanics (i ∷ j ∷ images) p =
      select_one-NeverPanics env fits "Please select an image: " (get_image_titles (i ∷ j ∷ images))
        _
        λ n q.
          let found =
            get_elem?-some (i ∷ j ∷ images) n
              (omega (arith, q, length-map images (λ (k : DeviceImage). k.title))) in
          or_panic-NeverPanics (get_elem? (i ∷ j ∷ images) n) {a = found.0} found.1

  -- Where each answer to a dialog is one of its options, selectImage panics neither on the sub-device
  -- that is chosen, at any depth, nor on the image.
  pub select_image-NeverPanics : (mapping : DeviceMapping) → NeverPanics (select_image env mapping)
  unfolding select_image
  select_image-NeverPanics mapping =
      bind-NeverPanics (select_device env mapping) _ (select_device-NeverPanics mapping) λ selected.
        elim (Bool-cases (is_empty (info selected).images)) [
          | inl e ↦ rw e (pure-NeverPanics none)
          | inr e ↦ rw e (
              bind-NeverPanics (choose_image env (info selected).images) _
                (choose_image-NeverPanics (info selected).images e)
                (λ image. pure-NeverPanics (some (set_image env selected image))))
        ]
