-- ===== src/Network/Categories.antt =====
-- What `CategorizeIPs` puts into its four fields.
use proxmox_operator.Base.{
  ℕ, ◌≡◌, refl, ap, ◌∙◌, List, [], ◌∷◌, none, some, Bool, true, false, not, arith, Option-cases,
  inl, inr, if◌then◌else◌,
}
use proxmox_operator.Base.Text.{Text}
use proxmox_operator.Network.{
  IpAddresses, to4, no_bytes, is_private_v6, is_private_ip, keep_first, categorize,
  categorize_ips_from, categorize_ips,
}
use proxmox_operator.Network.Parse.{parse_ip}

-- The first text that passes the test, or "".
abbrev pub first_such : (Text → Bool) → List Text → Text
first_such test [] = []
first_such test (s ∷ ips) = if test s then s else first_such test ips

-- The text is an IPv4 address of the given kind.
abbrev pub is_v4 : Bool → Text → Bool
is_v4 private s = elim (parse_ip s) [
  | none ↦ false
  | some ip ↦
      if no_bytes (to4 ip)
      then false
      else if private
      then is_private_ip s
      else not (is_private_ip s)
]

-- The text is an IPv6 address of the given kind.
abbrev pub is_v6 : Bool → Text → Bool
is_v6 private s = elim (parse_ip s) [
  | none ↦ false
  | some ip ↦
      if no_bytes (to4 ip)
      then if private then is_private_v6 ip else not (is_private_v6 ip)
      else false
]

-- The record after a round with the address `s`.
marked : IpAddresses → Text → IpAddresses
marked r s = record {
  public_ipv4 = if is_v4 false s then keep_first r.public_ipv4 s else r.public_ipv4;
  private_ipv4 = if is_v4 true s then keep_first r.private_ipv4 s else r.private_ipv4;
  public_ipv6 = if is_v6 false s then keep_first r.public_ipv6 s else r.public_ipv6;
  private_ipv6 = if is_v6 true s then keep_first r.private_ipv6 s else r.private_ipv6;
}

categorize-marked :
    (r : IpAddresses) (s : Text) (ip : List ℕ)
    → parse_ip s ≡ some ip
    → categorize r s ip ≡ marked r s
unfolding categorize marked
categorize-marked r s ip e = ground arith

none-marked : (r : IpAddresses) (s : Text) → parse_ip s ≡ none → r ≡ marked r s
unfolding marked
none-marked r s e = ground arith

categorize_ips_from-marked :
    (r : IpAddresses) (s : Text) (ips : List Text)
    → categorize_ips_from r (s ∷ ips) ≡ categorize_ips_from (marked r s) ips
unfolding categorize_ips_from
categorize_ips_from-marked r s ips = elim (Option-cases (parse_ip s)) [
  | inl e ↦ rw e (ap (λ x. categorize_ips_from x ips) (none-marked r s e))
  | inr (ip, e) ↦ rw e (ap (λ x. categorize_ips_from x ips) (categorize-marked r s ip e))
]

-- A test that only addresses pass.
abbrev NeedsAddress : (Text → Bool) → Type 0
NeedsAddress test = test [] ≡ false

keep_first-marked :
    (test : Text → Bool) (old s : Text) (ips : List Text)
    → NeedsAddress test
    → keep_first (if test s then keep_first old s else old) (first_such test ips)
      ≡ keep_first old (first_such test (s ∷ ips))
keep_first-marked test old [] ips h = rw h
keep_first-marked test old (c ∷ s) ips h = ground arith

v4-NeedsAddress : (private : Bool) → NeedsAddress (is_v4 private)
unfolding parse_ip
v4-NeedsAddress private = refl

v6-NeedsAddress : (private : Bool) → NeedsAddress (is_v6 private)
unfolding parse_ip
v6-NeedsAddress private = refl

categorize_ips_from-first :
    (r : IpAddresses) (ips : List Text)
    → categorize_ips_from r ips ≡ record {
      public_ipv4 = keep_first r.public_ipv4 (first_such (is_v4 false) ips);
      private_ipv4 = keep_first r.private_ipv4 (first_such (is_v4 true) ips);
      public_ipv6 = keep_first r.public_ipv6 (first_such (is_v6 false) ips);
      private_ipv6 = keep_first r.private_ipv6 (first_such (is_v6 true) ips);
    }
categorize_ips_from-first r [] = unfold categorize_ips_from in (ground arith)
categorize_ips_from-first r (s ∷ ips) =
    categorize_ips_from-marked r s ips
    ∙ categorize_ips_from-first (marked r s) ips
    ∙ unfold marked in
      (λ i. record {
        public_ipv4 = keep_first-marked (is_v4 false) r.public_ipv4 s ips (v4-NeedsAddress false) i;
        private_ipv4 = keep_first-marked (is_v4 true) r.private_ipv4 s ips (v4-NeedsAddress true) i;
        public_ipv6 = keep_first-marked (is_v6 false) r.public_ipv6 s ips (v6-NeedsAddress false) i;
        private_ipv6 = keep_first-marked (is_v6 true) r.private_ipv6 s ips (v6-NeedsAddress true) i;
      })

-- Each field of the result is the first address of its class in the list, or empty if there is none;
-- texts that are no addresses are passed over.
pub categorize_ips_first :
    (ips : List Text)
    → categorize_ips ips ≡ record {
      public_ipv4 = first_such (is_v4 false) ips;
      private_ipv4 = first_such (is_v4 true) ips;
      public_ipv6 = first_such (is_v6 false) ips;
      private_ipv6 = first_such (is_v6 true) ips;
    }
unfolding categorize_ips
categorize_ips_first ips = categorize_ips_from-first _ ips
