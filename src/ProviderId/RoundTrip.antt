-- ===== src/ProviderId/RoundTrip.antt =====
-- Which texts `Parse` accepts, and that it reads back what `Build` writes.
use proxmox_operator.Base.{
  ◌≡◌, refl, sym, ◌∙◌, List, [], ◌∷◌, ◌++◌, some, arith, Option-cases, false, All,
}
use proxmox_operator.Base.Int.{ℤ, IsInt64}
use proxmox_operator.Base.Text.{Text, text, eq_text_iff, eq_text_refl, is_empty, Lacks}
use proxmox_operator.Base.Split.{
  split, split-append, split-eq_of_Lacks, split-Lacks, join, join-split,
}
use proxmox_operator.Base.Decimal.{itoa, atoi, atoi-IsInt64}
use proxmox_operator.Base.Decimal.RoundTrip.{atoi-itoa, itoa-Lacks}
use proxmox_operator.Base.Errors.{ok}
use proxmox_operator.ProviderId.{build, parse, parse_vm_id, parse_parts}

-- A provider ID whose host part is `host`: `Build` leaves it empty.
abbrev pub with_host : Text → Text → Text → Text
with_host host node number = text "proxmox:" ++ b'/' ∷ (host ++ b'/' ∷ (node ++ b'/' ∷ number))

split-with_host :
    (host node number : Text)
    → Lacks b'/' host
    → Lacks b'/' node
    → Lacks b'/' number
    → split (with_host host node number) b'/' ≡ text "proxmox:" ∷ host ∷ node ∷ number ∷ []
split-with_host host node number h n k = rw (
  split-append (text "proxmox:") _ b'/' (unfold text in omega arith),
  split-append host _ b'/' h,
  split-append node _ b'/' n,
  split-eq_of_Lacks number b'/' k,
)

parse_parts-with_host :
    (t host node number : Text) (vm_id : ℤ)
    → atoi number ≡ some vm_id
    → parse_parts t (text "proxmox:" ∷ host ∷ node ∷ number ∷ []) ≡ ok (node, vm_id)
unfolding parse_parts
parse_parts-with_host t host node number vm_id e =
    rw (eq_text_refl (text "proxmox:")) (rw (e, parse_vm_id))

with_host-ne-nil : (host node number : Text) → is_empty (with_host host node number) ≡ false
unfolding text
with_host-ne-nil host node number = refl

-- `Parse` accepts any text without a slash between the second and the third slash, not only the
-- empty one: it returns the node and the VM ID behind it.
pub parse-with_host :
    (host node : Text) (vm_id : ℤ)
    → Lacks b'/' host
    → Lacks b'/' node
    → IsInt64 vm_id
    → parse (with_host host node (itoa vm_id)) ≡ ok (node, vm_id)
unfolding parse
parse-with_host host node vm_id h n k =
    rw
      (
        with_host-ne-nil host node (itoa vm_id),
        split-with_host host node (itoa vm_id) h n
            (itoa-Lacks vm_id b'/' (omega arith) (omega arith)),
      )
      (parse_parts-with_host _ host node _ vm_id (atoi-itoa vm_id k))

-- `Parse` reads back the node and the VM ID that `Build` has written, if the node's name holds no
-- slash and the VM ID is an int of 64 bits.
pub parse-build :
    (node : Text) (vm_id : ℤ)
    → Lacks b'/' node
    → IsInt64 vm_id
    → parse (build node vm_id) ≡ ok (node, vm_id)
unfolding build text
parse-build node vm_id n h = parse-with_host [] node vm_id tt n h

parse_parts_sound :
    (t : Text) (ps : List Text) (node : Text) (vm_id : ℤ)
    → parse_parts t ps ≡ ok (node, vm_id)
    → (host number : Text) × (ps ≡ text "proxmox:" ∷ host ∷ node ∷ number ∷ [])
      × (atoi number ≡ some vm_id)
unfolding parse_parts
parse_parts_sound t [] node vm_id h = cc
parse_parts_sound t (_ ∷ []) node vm_id h = cc
parse_parts_sound t (_ ∷ _ ∷ []) node vm_id h = cc
parse_parts_sound t (_ ∷ _ ∷ _ ∷ []) node vm_id h = cc
parse_parts_sound t (_ ∷ _ ∷ _ ∷ _ ∷ _ ∷ _) node vm_id h = cc
parse_parts_sound t (scheme ∷ host ∷ node' ∷ number ∷ []) node vm_id h = (
  host,
  number,
  ground (arith, eq_text_iff scheme (text "proxmox:"), Option-cases (atoi number)),
  ground (arith, eq_text_iff scheme (text "proxmox:"), Option-cases (atoi number)),
)

parse-eq-ok :
    (t node : Text) (vm_id : ℤ)
    → parse t ≡ ok (node, vm_id)
    → parse_parts t (split t b'/') ≡ ok (node, vm_id)
unfolding parse
parse-eq-ok [] node vm_id h = cc
parse-eq-ok (c ∷ t) node vm_id h = h

spelled :
    (t host node number : Text)
    → split t b'/' ≡ text "proxmox:" ∷ host ∷ node ∷ number ∷ []
    → join (split t b'/') b'/' ≡ with_host host node number
unfolding join
spelled t host node number e = rw e

-- Whatever `Parse` accepts is the text "proxmox:/", a host part, the node and a number, with slashes
-- between them; it returns that node and the number's value, which is an int of 64 bits, and neither
-- part of the text that it skips or returns holds a slash.
pub parse_sound :
    (t node : Text) (vm_id : ℤ)
    → parse t ≡ ok (node, vm_id)
    → (host number : Text) × (t ≡ with_host host node number)
      × Lacks b'/' host
      × Lacks b'/' node
      × (atoi number ≡ some vm_id)
      × IsInt64 vm_id
parse_sound t node vm_id h =
    let (host, number, parts, e) =
      parse_parts_sound t (split t b'/') node vm_id (parse-eq-ok t node vm_id h) in
    let lacks : All (Lacks b'/') (text "proxmox:" ∷ host ∷ node ∷ number ∷ []) =
      rw parts at (split-Lacks t b'/') in
    (
      host,
      number,
      sym (join-split t b'/') ∙ spelled t host node number parts,
      lacks.1.0,
      lacks.1.1.0,
      e,
      atoi-IsInt64 number vm_id e,
    )
