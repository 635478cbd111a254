-- ===== src/DiskStatus/Device.antt =====
-- The device names of the disks on a controller.
use proxmox_operator.Base.{
  ℕ, ◌+◌, ◌^◌, ◌<◌, ◌≡◌, refl, ap, ◌∙◌, [], ◌∷◌, ◌++◌, some, false, arith, All,
}
use proxmox_operator.Base.Int.{ℤ, pos, ◌+ℤ◌}
use proxmox_operator.Base.Text.{
  Text, text, eq_text, lower, to_lower, has_prefix, trim_prefix, is_empty,
}
use proxmox_operator.Base.Decimal.{itoa, digits, atoi}
use proxmox_operator.Base.Decimal.RoundTrip.{IsDigit, digits-IsDigit, atoi-itoa}
use proxmox_operator.DiskStatus.{
  take_digits, skip_blanks, signed_prefix, sscanf_int, utf8, rune_text, controller_prefix,
  controllers, device_of, map_proxmox_disk_to_device,
}

take_digits-All : (t : Text) → All IsDigit t → take_digits t ≡ t
unfolding take_digits
take_digits-All [] h = refl
take_digits-All (c ∷ t) h = ground (arith, take_digits-All t h.1)

to_lower-digits : (t : Text) → All IsDigit t → to_lower t ≡ t
unfolding to_lower
to_lower-digits [] h = refl
to_lower-digits (c ∷ t) h = ground (arith, to_lower-digits t h.1)

to_lower-itoa : (n : ℕ) → to_lower (itoa (pos n)) ≡ itoa (pos n)
unfolding itoa
to_lower-itoa n = to_lower-digits (digits n) (digits-IsDigit n)

signed_prefix-digits : (t : Text) → All IsDigit t → signed_prefix (skip_blanks t) ≡ t
unfolding signed_prefix skip_blanks
signed_prefix-digits [] h = refl
signed_prefix-digits (c ∷ t) h = ground (arith, take_digits-All (c ∷ t) h)

sscanf_int-itoa : (n : ℕ) → n < 2 ^ 63 → sscanf_int (itoa (pos n)) ≡ some (pos n)
unfolding sscanf_int itoa
sscanf_int-itoa n h =
    ap atoi (signed_prefix-digits (digits n) (digits-IsDigit n)) ∙ atoi-itoa (pos n) h

rune_text-ascii : (n : ℕ) → n < 31 → rune_text (pos b'a' +ℤ pos n) ≡ (b'a' + n) ∷ []
unfolding rune_text utf8 ◌+ℤ◌
rune_text-ascii n h = ground arith

atoi-not_empty : (t : Text) (x : ℤ) → atoi t ≡ some x → is_empty t ≡ false
unfolding atoi
atoi-not_empty [] x h = ground arith
atoi-not_empty (c ∷ t) x h = refl

digits-not_empty : (n : ℕ) → n < 2 ^ 63 → is_empty (itoa (pos n)) ≡ false
digits-not_empty n h = atoi-not_empty (itoa (pos n)) (pos n) (atoi-itoa (pos n) h)

-- The name is a controller's prefix with a number behind.
numbered :
    (raw p number : Text) (n : ℕ)
    → controller_prefix (to_lower raw) controllers ≡ p
    → is_empty p ≡ false
    → trim_prefix (to_lower raw) p ≡ number
    → is_empty number ≡ false
    → sscanf_int number ≡ some (pos n)
    → map_proxmox_disk_to_device raw ≡ device_of p (pos n)
unfolding map_proxmox_disk_to_device
numbered raw p number n a b c d e = ground arith

-- Behind the prefix of a controller, in lower case, the number stays as it is.
scsi_name : (t : Text) → to_lower (text "scsi" ++ t) ≡ text "scsi" ++ to_lower t
unfolding to_lower lower text
scsi_name t = refl

virtio_name : (t : Text) → to_lower (text "virtio" ++ t) ≡ text "virtio" ++ to_lower t
unfolding to_lower lower text
virtio_name t = refl

scsi_prefix :
    (t : Text)
    → (controller_prefix (text "scsi" ++ t) controllers ≡ text "scsi")
      × (trim_prefix (text "scsi" ++ t) (text "scsi") ≡ t)
unfolding controller_prefix trim_prefix has_prefix text
scsi_prefix t = (refl, refl)

virtio_prefix :
    (t : Text)
    → (controller_prefix (text "virtio" ++ t) controllers ≡ text "virtio")
      × (trim_prefix (text "virtio" ++ t) (text "virtio") ≡ t)
unfolding controller_prefix trim_prefix has_prefix text
virtio_prefix t = (refl, refl)

scsi_device : (n : ℕ) → n < 31 → device_of (text "scsi") (pos n) ≡ text "/dev/sd" ++ (b'a' + n) ∷ []
unfolding text eq_text
scsi_device n h = ap (λ t. text "/dev/sd" ++ t) (rune_text-ascii n h)

virtio_device :
    (n : ℕ) → n < 31 → device_of (text "virtio") (pos n) ≡ text "/dev/vd" ++ (b'a' + n) ∷ []
unfolding text eq_text
virtio_device n h = ap (λ t. text "/dev/vd" ++ t) (rune_text-ascii n h)

-- A prefix that stays as it is, with the print of a number behind.
prefixed :
    (p : Text) (n : ℕ)
    → n < 31
    → ((t : Text) → to_lower (p ++ t) ≡ p ++ to_lower t)
    → ((t : Text) → (controller_prefix (p ++ t) controllers ≡ p) × (trim_prefix (p ++ t) p ≡ t))
    → is_empty p ≡ false
    → map_proxmox_disk_to_device (p ++ itoa (pos n)) ≡ device_of p (pos n)
prefixed p n h lowered parts some_prefix =
    let name : to_lower (p ++ itoa (pos n)) ≡ p ++ itoa (pos n) =
      lowered (itoa (pos n)) ∙ ap (λ t. p ++ t) (to_lower-itoa n) in
    numbered (p ++ itoa (pos n)) p (itoa (pos n)) n
      (ap (λ t. controller_prefix t controllers) name ∙ (parts (itoa (pos n))).0) some_prefix
      (ap (λ t. trim_prefix t p) name ∙ (parts (itoa (pos n))).1) (digits-not_empty n (omega arith))
      (sscanf_int-itoa n (omega arith))

-- The SCSI disk with the number n is the device whose letter stands n places behind "a", and the VirtIO
-- disk likewise, for all numbers up to 30. So the 26 letters serve the numbers up to 25; from 26 on the
-- sign is no letter.
pub map_proxmox_disk_to_device_letter :
    (n : ℕ)
    → n < 31
    → (map_proxmox_disk_to_device (text "scsi" ++ itoa (pos n)) ≡ text "/dev/sd" ++ (b'a' + n) ∷ [])
      × (map_proxmox_disk_to_device (text "virtio" ++ itoa (pos n))
          ≡ text "/dev/vd" ++ (b'a' + n) ∷ [])
unfolding text
map_proxmox_disk_to_device_letter n h = (
  prefixed (text "scsi") n h scsi_name scsi_prefix refl ∙ scsi_device n h,
  prefixed (text "virtio") n h virtio_name virtio_prefix refl ∙ virtio_device n h,
)
