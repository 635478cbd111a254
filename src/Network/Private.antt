-- ===== src/Network/Private.antt =====
-- Which addresses `IsPrivateIP` takes for private.
use proxmox_operator.Base.{
  ℕ, ◌<◌, ◌≤◌, ◌≡◌, refl, sym, List, [], ◌∷◌, some, Bool, true, ◌==◌, ◌&&◌, ◌||◌, arith, length,
  ◌/◌,
}
use mathlib.Core.Path.{subst}
use proxmox_operator.Base.Text.{Text}
use proxmox_operator.Network.{
  to4, bytes4, in_range, bytes_compare, in_private_ranges, is_private_ip, length-to4-le,
}
use proxmox_operator.Network.Parse.{parse_ip}

-- The private IPv4 addresses of RFC 1918: 10.0.0.0/8, 172.16.0.0/12 and 192.168.0.0/16.
abbrev pub is_rfc1918 : ℕ → ℕ → Bool
is_rfc1918 a b = a == 10 || (a == 172 && b / 16 == 1) || (a == 192 && b == 168)

abbrev AreBytes : ℕ → ℕ → ℕ → ℕ → Type 0
AreBytes a b c d = (a < 256) × (b < 256) × (c < 256) × (d < 256)

module _ (a b c d : ℕ) (h : 4 ≤ 4) where
  in_range_10 :
      AreBytes a b c d
      → in_range (bytes4 a b c d) (bytes4 10 0 0 0) (bytes4 10 255 255 255) h h ≡ (a == 10)
  unfolding bytes_compare
  in_range_10 r = ground arith

  in_range_172 :
      AreBytes a b c d
      → in_range (bytes4 a b c d) (bytes4 172 16 0 0) (bytes4 172 31 255 255) h h
        ≡ (a == 172 && b / 16 == 1)
  unfolding bytes_compare
  in_range_172 r = ground arith

  in_range_192 :
      AreBytes a b c d
      → in_range (bytes4 a b c d) (bytes4 192 168 0 0) (bytes4 192 168 255 255) h h
        ≡ (a == 192 && b == 168)
  unfolding bytes_compare
  in_range_192 r = ground arith

  in_private_ranges-bytes4 :
      AreBytes a b c d → in_private_ranges (bytes4 a b c d) h ≡ is_rfc1918 a b
  unfolding in_private_ranges
  in_private_ranges-bytes4 r = rw (in_range_10 r, in_range_172 r, in_range_192 r)

in_private_ranges_v4 :
    (bytes : List ℕ) (h : length bytes ≤ 4) (a b c d : ℕ)
    → bytes ≡ a ∷ b ∷ c ∷ d ∷ []
    → AreBytes a b c d
    → in_private_ranges bytes h ≡ is_rfc1918 a b
unfolding in_private_ranges bytes_compare
in_private_ranges_v4 [] h a b c d e r = absurd (cc)
in_private_ranges_v4 (_ ∷ []) h a b c d e r = absurd (cc)
in_private_ranges_v4 (_ ∷ _ ∷ []) h a b c d e r = absurd (cc)
in_private_ranges_v4 (_ ∷ _ ∷ _ ∷ []) h a b c d e r = absurd (cc)
in_private_ranges_v4 (_ ∷ _ ∷ _ ∷ _ ∷ _ ∷ _) h a b c d e r = absurd (cc)
in_private_ranges_v4 (w ∷ x ∷ y ∷ z ∷ []) h a b c d e r =
    subst (λ bs. (k : length bs ≤ 4) → in_private_ranges bs k ≡ is_rfc1918 a b) (sym e)
      (λ k. in_private_ranges-bytes4 a b c d k r) h

in_private_ranges-nil :
    (bytes : List ℕ) (h : length bytes ≤ 4) → bytes ≡ [] → in_private_ranges bytes h ≡ true
unfolding in_private_ranges bytes_compare
in_private_ranges-nil [] h e = refl
in_private_ranges-nil (b ∷ bs) h e = absurd (cc)

-- An IPv4 address, in any form that is parsed to the four bytes `a`, `b`, `c` and `d`, is private
-- exactly when it lies in one of the three blocks of RFC 1918.
pub is_private_ip_v4 :
    (s : Text) (ip : List ℕ) (a b c d : ℕ)
    → parse_ip s ≡ some ip
    → to4 ip ≡ a ∷ b ∷ c ∷ d ∷ []
    → AreBytes a b c d
    → is_private_ip s ≡ is_rfc1918 a b
unfolding is_private_ip
is_private_ip_v4 s ip a b c d p q r =
    rw (p, is_private_ip) (in_private_ranges_v4 (to4 ip) (length-to4-le ip) a b c d q r)

-- Every IPv6 address is taken for private, global ones too.
pub is_private_ip_v6 :
    (s : Text) (ip : List ℕ) → parse_ip s ≡ some ip → to4 ip ≡ [] → is_private_ip s ≡ true
unfolding is_private_ip
is_private_ip_v6 s ip p q =
    rw (p, is_private_ip) (in_private_ranges-nil (to4 ip) (length-to4-le ip) q)
