-- ===== src/NetworkConfiguration.antt =====
-- internal/services/networkconfiguration/networkconfiguration.go: the NetworkConfiguration resource of
-- a machine.
pub mod Calls
use proxmox_operator.Base.{List, [], ◌∷◌, ◌++◌, Option, none, some, true, if◌then◌else◌}
use proxmox_operator.Base.Int.{ℤ, is_positive}
use proxmox_operator.Base.Text.{Text, text}
use proxmox_operator.Base.Decimal.{itoa}
use proxmox_operator.Base.Errors.{Error, Result, ok, err, is_not_found, wrap}
use proxmox_operator.Crd.{Machine}
use proxmox_operator.World.{
  World, NetConf, get_netconf, create_netconf, delete_netconf, M, ◌>>=◌, return, call,
}

-- The resource that `Create` builds: it bears the machine's name and is owned by the machine.
unfoldable pub build_netconf : Machine → Text → ℤ → NetConf
build_netconf m mac vlan = record {
  name = m.name;
  namespace = m.namespace;
  labels =
      (text "vitistack.io/machine", m.name)
      ∷ (text "vitistack.io/operator", text "proxmox-operator")
      ∷ [];
  owners =
      record {
        owner_api_version = m.api_version;
        owner_kind = m.kind;
        owner_name = m.name;
        owner_uid = m.uid;
        controller = true;
        block_owner_deletion = true;
      }
      ∷ [];
  network_namespace_name = m.spec.network_namespace_name;
  spec_name = m.name;
  provider = text "proxmox";
  interfaces =
      record {
        interface_name = text "net0";
        mac_address = mac;
        vlan = if is_positive vlan then itoa vlan else [];
      }
      ∷ [];
}

-- The first address of the first interface that has one, or "".
unfoldable pub first_address : List (List Text) → Text
first_address [] = []
first_address ([] ∷ interfaces) = first_address interfaces
first_address ((ip ∷ ips) ∷ interfaces) = ip

module _ (w : World) where
  abbrev read_netconf : Machine → M (Result (List (List Text)))
  read_netconf m = call (w.netconf_answer m.namespace m.name) (get_netconf m.namespace m.name)

  abbrev pub created : Option Error → M (Option Error)
  created none = return none
  created (some e) = return (some (wrap (text "failed to create NetworkConfiguration: ") e))

  -- `Manager.Create`; the result is its error.
  unfoldable pub create : Machine → Text → ℤ → M (Option Error)
  create m mac vlan = do
    found ← read_netconf m
    elim found [
      | ok addresses ↦ return none
      | err e ↦
          if is_not_found e
          then call (w.netconf_created_answer (build_netconf m mac vlan))
              (create_netconf (build_netconf m mac vlan))
            >>= created
          else return (some (wrap (text "failed to check existing NetworkConfiguration: ") e))
    ]

  -- `Manager.GetIP`
  unfoldable pub get_ip : Machine → M (Result Text)
  get_ip m = do
    found ← read_netconf m
    elim found [
      | ok addresses ↦ return (ok (first_address addresses))
      | err e ↦
          if is_not_found e
          then return (ok [])
          else return (err (wrap (text "failed to get NetworkConfiguration: ") e))
    ]

  abbrev pub deleted : Option Error → M (Option Error)
  deleted none = return none
  deleted (some e) =
      if is_not_found e
      then return none
      else return (some (wrap (text "failed to delete NetworkConfiguration: ") e))

  -- `Manager.Delete`
  unfoldable pub delete : Machine → M (Option Error)
  delete m = do
    found ← read_netconf m
    elim found [
      | ok addresses ↦
          call (w.netconf_deleted_answer m.namespace m.name) (delete_netconf m.namespace m.name)
          >>= deleted
      | err e ↦
          if is_not_found e
          then return none
          else return (some (wrap (text "failed to get NetworkConfiguration: ") e))
    ]
