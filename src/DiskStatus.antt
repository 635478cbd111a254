-- ===== src/DiskStatus.antt =====
-- internal/controller/v1alpha1/machine_controller.go, lines 456 to 692: disks in the machine's status.
pub mod Device
use proxmox_operator.Base.{
  ℕ, zero, suc, ◌+◌, ◌-◌, ◌*◌, ◌/◌, ◌%◌, ◌^◌, List, [], ◌∷◌, ◌++◌, Option, none, some, Bool, true,
  false, ltb, leb, ◌==◌, ◌&&◌, ◌||◌, if◌then◌else◌, length, drop,
}
use mathlib.Core.List.{reverse}
use proxmox_operator.Base.Int.{ℤ, pos, negsuc, is_zero, is_positive, ◌+ℤ◌}
use proxmox_operator.Base.Text.{
  Text, text, eq_text, is_empty, has_prefix, trim_prefix, contains, trim_space, to_lower,
}
use proxmox_operator.Base.Split.{split, split_once}
use proxmox_operator.Base.Decimal.{is_digit, atoi}
use proxmox_operator.Crd.{StatusDisk}
use proxmox_operator.World.{VmDisks}

-- `fmt.Sscanf(s, "%d", &n)`: blanks, a sign and the digits at the front of the text; what follows is
-- left unread. `none` is its error.
unfoldable pub take_digits : Text → Text
take_digits [] = []
take_digits (c ∷ s) = if is_digit c then c ∷ take_digits s else []

unfoldable pub skip_blanks : Text → Text
skip_blanks [] = []
skip_blanks (c ∷ s) = if c == b' ' || c == 9 then skip_blanks s else c ∷ s

unfoldable pub signed_prefix : Text → Text
unfolding take_digits
signed_prefix [] = []
signed_prefix (c ∷ s) = if c == b'-' || c == b'+' then c ∷ take_digits s else take_digits (c ∷ s)

unfoldable pub sscanf_int : Text → Option ℤ
unfolding signed_prefix skip_blanks
sscanf_int s = atoi (signed_prefix (skip_blanks s))

-- The UTF-8 bytes of a code point.
unfoldable pub utf8 : ℕ → Text
utf8 r =
    if ltb r 0x80
    then r ∷ []
    else if ltb r 0x800
    then (0xc0 + r / 64) ∷ (0x80 + r % 64) ∷ []
    else if (leb 0xd800 r && ltb r 0xe000) || ltb 0x10ffff r
    then 0xef ∷ 0xbf ∷ 0xbd ∷ []
    else if ltb r 0x10000
    then (0xe0 + r / 4096) ∷ (0x80 + r / 64 % 64) ∷ (0x80 + r % 64) ∷ []
    else (0xf0 + r / 262144) ∷ (0x80 + r / 4096 % 64) ∷ (0x80 + r / 64 % 64) ∷ (0x80 + r % 64) ∷ []

-- `string(rune(x))`: the number is cut to 32 bits, and a negative one is no code point.
abbrev low32 : ℤ → ℕ
low32 (pos n) = n % 2 ^ 32
low32 (negsuc n) = 2 ^ 32 - 1 - n % 2 ^ 32

unfoldable pub rune_text : ℤ → Text
unfolding utf8
rune_text x = utf8 (low32 x)

-- The first of the prefixes that the name has.
unfoldable pub controller_prefix : Text → List Text → Text
controller_prefix name [] = []
controller_prefix name (p ∷ ps) = if has_prefix name p then p else controller_prefix name ps

abbrev pub controllers : List Text
controllers = text "scsi" ∷ text "virtio" ∷ text "sata" ∷ text "ide" ∷ []

-- The letter for the index, behind the device family of the controller.
abbrev pub device_of : Text → ℤ → Text
device_of prefix index =
    (if eq_text prefix (text "virtio") then text "/dev/vd" else text "/dev/sd")
    ++ rune_text (pos b'a' +ℤ index)

-- `mapProxmoxDiskToDevice`
unfoldable pub map_proxmox_disk_to_device : Text → Text
map_proxmox_disk_to_device disk_name =
    let name = to_lower disk_name in
    let prefix = controller_prefix name controllers in
    let number = trim_prefix name prefix in
    if is_empty prefix
    then text "/dev/" ++ name
    else if is_empty number
    then device_of prefix (pos 0)
    else elim (sscanf_int number) [
      | none ↦ text "/dev/" ++ name
      | some index ↦ device_of prefix index
    ]

-- The text without its last byte `unit`, if that is its last.
unfoldable trim_unit : Text → ℕ → Option Text
trim_unit s unit = elim (reverse s) [
  | [] ↦ none
  | c ∷ r ↦ if c == unit then some (reverse r) else none
]

-- The number in front of the unit, and the unit's bytes; without a unit these are gigabytes.
unfoldable split_unit : Text → Text × ℕ
unfolding trim_unit
split_unit s = elim (trim_unit s b'T') [
  | some n ↦ (n, 2 ^ 40)
  | none ↦ elim (trim_unit s b'G') [
    | some n ↦ (n, 2 ^ 30)
    | none ↦ elim (trim_unit s b'M') [
      | some n ↦ (n, 2 ^ 20)
      | none ↦ elim (trim_unit s b'K') [ some n ↦ (n, 2 ^ 10) | none ↦ (s, 2 ^ 30) ]
    ]
  ]
]

abbrev or_zero : Option ℤ → ℤ
or_zero none = pos 0
or_zero (some n) = n

-- The first argument is the world's `scan_scaled`.
module _ (scan_scaled : Text → ℕ → Option ℤ) where
  -- `parseDiskSize`, in bytes.
  unfoldable pub parse_disk_size : Text → ℤ
  unfolding split_unit
  parse_disk_size s =
      let (number, unit) = split_unit (trim_space s) in
      if is_empty s then pos 0 else or_zero (scan_scaled number unit)

  -- One option `key=value` of the loop; the size so far is the second argument.
  unfoldable read_option : Text → ℤ → ℤ
  read_option kv size =
      let (key, value) = split_once kv b'=' in
      elim value [
        | none ↦ size
        | some v ↦ if eq_text key (text "size") then parse_disk_size v else size
      ]

  unfoldable read_options : List Text → ℤ → ℤ
  unfolding read_option
  read_options [] size = size
  read_options (kv ∷ kvs) size = read_options kvs (read_option kv size)

  -- The size in the options behind the first comma, or 0.
  unfoldable options_size : Option Text → ℤ
  unfolding read_options
  options_size none = pos 0
  options_size (some options) = read_options (split options b',') (pos 0)

  -- The size in the form storage:size.
  abbrev volume_size : Option Text → ℤ
  volume_size none = pos 0
  volume_size (some volume) =
      if is_positive (parse_disk_size volume) then parse_disk_size volume else pos 0

  -- `parseDiskConfig`
  unfoldable parse_disk_config : Text → Text → Option StatusDisk
  unfolding options_size
  parse_disk_config name config =
      let (storage_volume, options) = split_once config b',' in
      let (storage, volume) = split_once storage_volume b':' in
      let listed = options_size options in
      if is_empty config || eq_text config (text "none")
      then none
      else if contains config (text "media=cdrom") || contains config (text ",iso")
      then none
      else some (record {
        name = name;
        device = map_proxmox_disk_to_device name;
        type = storage;
        label = [];
        size = if is_zero listed then volume_size volume else listed;
      })

  -- `parseUnusedDiskConfig`
  unfoldable parse_unused_disk_config : Text → Text → Option StatusDisk
  unfolding options_size
  parse_unused_disk_config name config =
      if is_empty config || eq_text config (text "none")
      then none
      else some (record {
        name = name;
        device = text "/dev/sda";
        type = (split_once config b':').0;
        label = text "unused";
        size = options_size (split_once config b',').1;
      })

  -- A loop over one of the maps, which appends what `parse` makes of each entry.
  unfoldable append_disks :
      (Text → Text → Option StatusDisk) → List (Text × Text) → List StatusDisk → List StatusDisk
  append_disks parse [] disks = disks
  append_disks parse ((name, config) ∷ entries) disks =
      append_disks parse entries
        (elim (parse name config) [ none ↦ disks | some d ↦ disks ++ d ∷ [] ])

  -- `updateDiskStatus`, where the VM has a configuration.
  unfoldable pub disk_status : VmDisks → List StatusDisk
  unfolding append_disks parse_disk_config parse_unused_disk_config
  disk_status config = append_disks parse_unused_disk_config config.unuseds (
      append_disks parse_disk_config config.ides (
        append_disks parse_disk_config config.satas (
          append_disks parse_disk_config config.virtios
            (append_disks parse_disk_config config.scsis []))))
