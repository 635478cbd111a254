-- ===== src/VmBuilder/Network.antt =====
-- The value of the network option, read back.
use proxmox_operator.Base.{
  ◌≡◌, refl, sym, ap, ◌∙◌, List, [], ◌∷◌, ◌++◌, append_assoc, append-nil, Bool, true, false, not,
  if◌then◌else◌, All, All-append, if-cases, arith,
}
use proxmox_operator.Base.Int.{ℤ, is_positive, is_zero}
use proxmox_operator.Base.Text.{Text, text, is_empty, Lacks}
use proxmox_operator.Base.Split.{split, split-append, split-eq_of_Lacks}
use proxmox_operator.Base.Decimal.{itoa}
use proxmox_operator.Base.Decimal.RoundTrip.{itoa-Lacks}
use proxmox_operator.Config.{Config, default_network_model}
use proxmox_operator.VmBuilder.{NetworkConfig, network_value}

-- Each field with a comma in front.
abbrev glue : List Text → Text
glue [] = []
glue (f ∷ fs) = b',' ∷ f ++ glue fs

glue-append : (xs ys : List Text) → glue (xs ++ ys) ≡ glue xs ++ glue ys
glue-append [] ys = refl
glue-append (x ∷ xs) ys =
    ap (λ t. b',' ∷ x ++ t) (glue-append xs ys)
    ∙ ap (λ t. b',' ∷ t) (sym (append_assoc x (glue xs) (glue ys)))

split-glue :
    (f : Text) (fs : List Text) → All (Lacks b',') (f ∷ fs) → split (f ++ glue fs) b',' ≡ f ∷ fs
split-glue f [] (h, _) = ap (λ t. split t b',') (append-nil f) ∙ split-eq_of_Lacks f b',' h
split-glue f (g ∷ fs) (h, a) =
    split-append f (g ++ glue fs) b',' h ∙ ap (λ l. f ∷ l) (split-glue g fs a)

-- A field that is there under a test.
abbrev pub field_if : Bool → Text → List Text
field_if test f = if test then f ∷ [] else []

abbrev pub model_of : Config → Text
model_of cfg =
    if is_empty cfg.proxmox_network_model then default_network_model else cfg.proxmox_network_model

abbrev pub mtu_of : Config → NetworkConfig → ℤ
mtu_of cfg net = if is_zero net.mtu then cfg.proxmox_default_mtu else net.mtu

-- The model, the bridge, and of the MAC address, the VLAN and the MTU what is given.
abbrev pub fields : Config → NetworkConfig → List Text
fields cfg net =
    (text "bridge=" ++ cfg.proxmox_default_network)
      ∷ field_if (not (is_empty net.mac_address)) (text "macaddr=" ++ net.mac_address)
    ++ field_if (is_positive net.vlan) (text "tag=" ++ itoa net.vlan)
    ++ field_if (is_positive (mtu_of cfg net)) (text "mtu=" ++ itoa (mtu_of cfg net))

glue-field_if : (test : Bool) (f : Text) → glue (field_if test f) ≡ (if test then b',' ∷ f else [])
glue-field_if true f = ap (λ t. b',' ∷ t) (append-nil f)
glue-field_if false f = refl

mac_part :
    (mac : Text)
    → (if is_empty mac then [] else text ",macaddr=" ++ mac)
      ≡ glue (field_if (not (is_empty mac)) (text "macaddr=" ++ mac))
unfolding text
mac_part [] = refl
mac_part (c ∷ mac) = ap (λ t. text ",macaddr=" ++ c ∷ t) (sym (append-nil mac))

tag_part :
    (b : Bool) (t : Text)
    → (if b then text ",tag=" ++ t else []) ≡ glue (field_if b (text "tag=" ++ t))
unfolding text
tag_part true t = ap (λ u. text ",tag=" ++ u) (sym (append-nil t))
tag_part false t = refl

mtu_part :
    (b : Bool) (t : Text)
    → (if b then text ",mtu=" ++ t else []) ≡ glue (field_if b (text "mtu=" ++ t))
unfolding text
mtu_part true t = ap (λ u. text ",mtu=" ++ u) (sym (append-nil t))
mtu_part false t = refl

regroup :
    (model bridge a b c : Text)
    → model ++ text ",bridge=" ++ bridge ++ a ++ b ++ c
      ≡ model ++ (b',' ∷ (text "bridge=" ++ bridge) ++ (a ++ (b ++ c)))
unfolding text
regroup model bridge a b c = simp append_assoc

glue-append3 : (xs ys zs : List Text) → glue (xs ++ ys ++ zs) ≡ glue xs ++ (glue ys ++ glue zs)
glue-append3 xs ys zs =
    ap glue (append_assoc xs ys zs)
    ∙ (glue-append xs (ys ++ zs) ∙ ap (λ t. glue xs ++ t) (glue-append ys zs))

network_value-glue :
    (cfg : Config) (net : NetworkConfig)
    → network_value cfg net ≡ model_of cfg ++ glue (fields cfg net)
unfolding network_value
network_value-glue cfg net =
    let tag = text "tag=" ++ itoa net.vlan in
    let mtu = mtu_of cfg net in
    rw
      (
        mac_part net.mac_address,
        tag_part (is_positive net.vlan) (itoa net.vlan),
        mtu_part (is_positive mtu) (itoa mtu),
      )
      (regroup (model_of cfg) cfg.proxmox_default_network _ _ _
        ∙ ap (λ t. model_of cfg ++ (b',' ∷ (text "bridge=" ++ cfg.proxmox_default_network) ++ t))
            (sym (
              glue-append3
                (field_if (not (is_empty net.mac_address)) (text "macaddr=" ++ net.mac_address))
                (field_if (is_positive net.vlan) tag)
                (field_if (is_positive mtu) (text "mtu=" ++ itoa mtu)))))

field_if-Lacks : (test : Bool) (f : Text) → Lacks b',' f → All (Lacks b',') (field_if test f)
field_if-Lacks true f h = (h, tt)
field_if-Lacks false f h = tt

labels-Lacks :
    Lacks b',' (text "bridge=")
    × Lacks b',' (text "macaddr=")
    × Lacks b',' (text "tag=")
    × Lacks b',' (text "mtu=")
    × Lacks b',' default_network_model
unfolding text
labels-Lacks = (ground arith, ground arith, ground arith, ground arith, ground arith)

model_of-Lacks : (cfg : Config) → Lacks b',' cfg.proxmox_network_model → Lacks b',' (model_of cfg)
model_of-Lacks cfg h =
    let (_, _, _, _, default) = labels-Lacks in
    if-cases (Lacks b',') (is_empty cfg.proxmox_network_model) (λ e. default) (λ e. h)

number-Lacks : (x : ℤ) → Lacks b',' (itoa x)
number-Lacks x = itoa-Lacks x b',' (omega arith) (λ e. omega (arith, e))

-- Where the settings of the model and the network and the MAC address hold no comma, the value of the
-- network option splits at its commas into the model, the bridge, the MAC address if there is one, and
-- the VLAN and the MTU if they are positive, the latter from the settings where the machine gives none.
pub network_value-fields :
    (cfg : Config) (net : NetworkConfig)
    → Lacks b',' cfg.proxmox_network_model
    → Lacks b',' cfg.proxmox_default_network
    → Lacks b',' net.mac_address
    → split (network_value cfg net) b',' ≡ model_of cfg ∷ fields cfg net
network_value-fields cfg net m b a =
    let (bridge, macaddr, tag, mtu, _) = labels-Lacks in
    ap (λ t. split t b',') (network_value-glue cfg net)
    ∙ split-glue (model_of cfg) (fields cfg net) (
      model_of-Lacks cfg m,
      (
        All-append _ (text "bridge=") cfg.proxmox_default_network bridge b,
        All-append _
            (field_if (not (is_empty net.mac_address)) _ ++ field_if (is_positive net.vlan) _) _
            (All-append _ (field_if (not (is_empty net.mac_address)) _) _
              (field_if-Lacks (not (is_empty net.mac_address)) _
                (All-append _ (text "macaddr=") net.mac_address macaddr a))
              (field_if-Lacks (is_positive net.vlan) _
                (All-append _ (text "tag=") _ tag (number-Lacks net.vlan))))
            (field_if-Lacks (is_positive (mtu_of cfg net)) _
              (All-append _ (text "mtu=") _ mtu (number-Lacks (mtu_of cfg net)))),
      ),
    )
