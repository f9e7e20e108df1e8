-- ===== src/Device/Unmount.antt =====
-- What UnmountImg of device/sd_flasher.go does after MountImg.
use iotit.Base.{String, true, none, List, ◌≡◌, arith}
use iotit.Effects.{Event, done, Env}
use iotit.Device.Flasher.{SdFlasher}
use iotit.Device.Mount.{mount_img_at, unmount_img}

module _ (env : Env) where
  mount_img_at-mounted :
      (p : String) (d : SdFlasher) (h : List Event) {d' : SdFlasher} {t : List Event}
      → mount_img_at env p d h ≡ (done (d', none), t)
      → d'.mounted ≡ true
  unfolding mount_img_at
  mount_img_at-mounted p d h e = ground arith

  -- After MountImg has mounted a partition, UnmountImg runs no command in the virtual machine: the
  -- image stays mounted and attached.
  pub unmount_img-mount_img_at :
      (p : String) (d : SdFlasher) (h : List Event) {d' : SdFlasher} {t : List Event}
      → mount_img_at env p d h ≡ (done (d', none), t)
      → unmount_img env d' t ≡ (done none, t)
  unfolding unmount_img
  unmount_img-mount_img_at p d h e = ground (arith, mount_img_at-mounted p d h e)
