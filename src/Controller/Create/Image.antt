-- ===== src/Controller/Create/Image.antt =====
-- When a machine's image passes its check.
use proxmox_operator.Base.{
  ◌≡◌, refl, ap, ◌⊎◌, inl, inr, ◌↔◌, List, [], ◌∷◌, ◌++◌, Option, none, some, true, false,
  Bool-cases, arith,
}
use proxmox_operator.Base.Text.{Text, text, has_prefix, Lacks}
use proxmox_operator.Base.Split.{split_once, split_once-append}
use proxmox_operator.Base.Errors.{Error, ok, errorf, Result-cases}
use proxmox_operator.World
use proxmox_operator.World.{World, Log, M, ◌>>=◌, call, return}
use proxmox_operator.Controller.Create.{is_listed, find_image, validate_iso}

-- A text with such a prefix is this prefix and the rest of it.
has_prefix-append : (s p : Text) → has_prefix s p ≡ true → (rest : Text) × (s ≡ p ++ rest)
unfolding has_prefix
has_prefix-append s [] h = (s, refl)
has_prefix-append [] (d ∷ p) h = absurd (ground (arith, h))
has_prefix-append (c ∷ s) (d ∷ p) h =
    let (rest, e) = has_prefix-append s p (ground (arith, h)) in (rest, ground (arith, e, h))

local-Lacks : Lacks b':' (text "local")
unfolding text
local-Lacks = ground arith

local_path :
    (path : Text)
    → has_prefix path (text "local:") ≡ true
    → (rest : Text) × (split_once path b':' ≡ (text "local", some rest))
unfolding text
local_path path h =
    let (rest, e) = has_prefix-append path (text "local:") h in
    (rest, rw e (split_once-append (text "local") rest b':' local-Lacks))

module _ (w : World) (node path : Text) (log : Log) where
  abbrev pub after_node : Log
  after_node = World.get_node node none ∷ log

  abbrev pub after_storage : Log
  after_storage = World.get_storage (text "local") none ∷ after_node

  -- The node and the storage named local are found, and the storage lists the image.
  abbrev pub IsStored : Type 0
  IsStored =
      (w.node_answer node log ≡ none)
      × (w.storage_answer (text "local") after_node ≡ none)
      × (isos : List Text) × (w.content_answer after_storage ≡ ok isos)
      × (is_listed path isos ≡ true)

  found : (find_image w node (text "local") path log).0 ≡ none → IsStored
  unfolding ◌>>=◌ call return
  found h = elim (Result-cases (w.content_answer after_storage)) [
    | inl (e, p) ↦ absurd (ground (arith, h, p))
    | inr (isos, p) ↦ (ground (arith, h, p), ground (arith, h, p), isos, p, ground (arith, h, p))
  ]

  find_image_iff : ((find_image w node (text "local") path log).0 ≡ none) ↔ IsStored
  unfolding ◌>>=◌ call return
  find_image_iff = (found, λ (a, b, isos, c, d). rw (a, b, c, d) refl)

  -- What comes after the parts of the path.
  abbrev on_parts : Text × Option Text → M (Option Error)
  on_parts (storage, rest) = elim rest [
    | none ↦ return (some (errorf (text "invalid ISO path format: " ++ path)))
    | some _ ↦ find_image w node storage path
  ]

  validate_iso-local :
      has_prefix path (text "local:") ≡ true
      → validate_iso w node path ≡ find_image w node (text "local") path
  unfolding validate_iso
  validate_iso-local local = let (rest, e) = local_path path local in rw local (ap on_parts e)

  validate_iso-other :
      has_prefix path (text "local:") ≡ false → (validate_iso w node path log).0 ≡ none
  unfolding validate_iso return
  validate_iso-other other = rw other refl

  -- The check passes exactly if the path does not begin with local:, or if the node and the storage named local
  -- are found and the storage lists the image.
  pub validate_iso_iff :
      ((validate_iso w node path log).0 ≡ none)
      ↔ ((has_prefix path (text "local:") ≡ false) ⊎ IsStored)
  validate_iso_iff = elim (Bool-cases (has_prefix path (text "local:"))) [
    | inl local ↦ rw (validate_iso-local local) (
      λ h. inr (found h),
      λ p. elim p [ inl q ↦ absurd (ground (arith, local, q)) | inr s ↦ find_image_iff.1 s ],
    )
    | inr other ↦ (λ h. inl other, λ p. validate_iso-other other)
  ]
