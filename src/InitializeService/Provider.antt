-- ===== src/InitializeService/Provider.antt =====
-- When the operator writes its MachineProvider, and of what use that is.
use proxmox_operator.Base.{
  not, if-cases, ◌≡◌, ◌↔◌, List, [], ◌∷◌, Option, none, some, true, false, arith,
}
use proxmox_operator.Base.Text.{eq_text_refl, Text, text, is_empty}
use proxmox_operator.Base.Errors.{Error, Result, ok, err, is_not_found}
use proxmox_operator.Config.{Config}
use proxmox_operator.Crd.{Vitistack}
use proxmox_operator.ProxmoxClient.{new_proxmox_client_from_provider}
use proxmox_operator.ProxmoxClient.Making.{client_of}
use proxmox_operator.World.{
  World, Log, ◌>>=◌, call, return, list_vitistacks, get_provider, create_provider,
}
use proxmox_operator.InitializeService.{
  provider_created, ensure_from, M, create_missing, ensure_machine_provider, ensure_for,
  build_machine_provider_from_vitistack,
}

-- How `EnsureMachineProvider` may go, with the calls that it makes.
pub data Ensured (w : World) (proxmox_type : Text) (before : Log)
    : Option Error → Log → Type 0 where
  unnamed :
      is_empty w.config.name_machine_provider ≡ true → Ensured w proxmox_type before none before
  unlisted : (e : Error) → Ensured w proxmox_type before none (list_vitistacks (err e) ∷ before)
  no_vitistack : Ensured w proxmox_type before none (list_vitistacks (ok []) ∷ before)
  existing :
      (v : Vitistack) (vs : List Vitistack)
      → Ensured w proxmox_type before none (
          get_provider w.config.name_machine_provider none ∷ list_vitistacks (ok (v ∷ vs)) ∷ before)
  unreadable :
      (v : Vitistack) (vs : List Vitistack) (e e' : Error)
      → is_not_found e ≡ false
      → Ensured w proxmox_type before (some e') (
          get_provider w.config.name_machine_provider (some e)
          ∷ list_vitistacks (ok (v ∷ vs))
          ∷ before)
  requested :
      (v : Vitistack) (vs : List Vitistack) (e : Error) (answer outcome : Option Error)
      → is_not_found e ≡ true
      → (answer ≡ none) ↔ (outcome ≡ none)
      → Ensured w proxmox_type before outcome (
          create_provider
            (build_machine_provider_from_vitistack proxmox_type w.config
              w.config.name_machine_provider v)
            answer
          ∷ get_provider w.config.name_machine_provider (some e)
          ∷ list_vitistacks (ok (v ∷ vs))
          ∷ before)

-- The program goes in one of these ways.
abbrev Leads : World → (proxmox_type : Text) → (before now : Log) → M (Option Error) → Type 0
Leads w proxmox_type before now m = Ensured w proxmox_type before (m now).0 (m now).1

provider_created-Leads :
    (w : World) (proxmox_type : Text) (v : Vitistack) (vs : List Vitistack) (e : Error)
    (answer : Option Error) (log : Log)
    → is_not_found e ≡ true
    → Leads w proxmox_type log
        (create_provider
            (build_machine_provider_from_vitistack proxmox_type w.config
              w.config.name_machine_provider v)
            answer
          ∷ get_provider w.config.name_machine_provider (some e)
          ∷ list_vitistacks (ok (v ∷ vs))
          ∷ log)
        (provider_created w answer)
unfolding return
provider_created-Leads w proxmox_type v vs e none log h =
    requested v vs e none none h (ground arith)
provider_created-Leads w proxmox_type v vs e (some e') log h =
    requested v vs e (some e') _ h (ground arith)

create_missing-Leads :
    (w : World) (proxmox_type : Text) (v : Vitistack) (vs : List Vitistack) (answer : Option Error)
    (log : Log)
    → Leads w proxmox_type log
        (get_provider w.config.name_machine_provider answer ∷ list_vitistacks (ok (v ∷ vs)) ∷ log)
        (create_missing w proxmox_type w.config.name_machine_provider v answer)
unfolding ◌>>=◌ call return
create_missing-Leads w proxmox_type v vs none log = existing v vs
create_missing-Leads w proxmox_type v vs (some e) log =
    if-cases
      (Leads w proxmox_type log (
        get_provider w.config.name_machine_provider (some e) ∷ list_vitistacks (ok (v ∷ vs)) ∷ log))
      (not (is_not_found e)) (λ h. unreadable v vs e _ (ground arith))
      (λ h. provider_created-Leads w proxmox_type v vs e _ log (ground arith))

ensure_from-Leads :
    (w : World) (proxmox_type : Text) (answer : Result (List Vitistack)) (log : Log)
    → Leads w proxmox_type log (list_vitistacks answer ∷ log) (ensure_from w proxmox_type answer)
unfolding ensure_for ◌>>=◌ call return
ensure_from-Leads w proxmox_type (err e) log = unlisted e
ensure_from-Leads w proxmox_type (ok []) log = no_vitistack
ensure_from-Leads w proxmox_type (ok (v ∷ vs)) log = create_missing-Leads w proxmox_type v vs _ log

-- `EnsureMachineProvider` does nothing without a name for the provider, without Vitistacks, or if they
-- cannot be listed. Otherwise it looks for the provider of that name, and only if that is not found it
-- asks once for the one built from the first Vitistack to be created; its outcome is no error exactly if
-- that succeeds. Every other error of the look-up is its own.
pub ensure_machine_provider-Ensured :
    (w : World) (proxmox_type : Text) (log : Log)
    → Ensured w proxmox_type log
        (ensure_machine_provider w proxmox_type log).0
        (ensure_machine_provider w proxmox_type log).1
unfolding ensure_machine_provider ◌>>=◌ call return
ensure_machine_provider-Ensured w proxmox_type log =
    if-cases (Leads w proxmox_type log log) (is_empty w.config.name_machine_provider)
      (λ h. unnamed h) (λ h. ensure_from-Leads w proxmox_type (w.vitistacks_answer log) log)

-- The MachineProvider that the operator writes names the token as its authentication and holds none, so
-- that no client can be made from it, whatever the settings are.
pub build_machine_provider_from_vitistack-no_client :
    (proxmox_type : Text) (c : Config) (name : Text) (v : Vitistack)
    → client_of (
        new_proxmox_client_from_provider
          (build_machine_provider_from_vitistack proxmox_type c name v))
      ≡ none
unfolding build_machine_provider_from_vitistack new_proxmox_client_from_provider
build_machine_provider_from_vitistack-no_client proxmox_type c name v =
    ground (arith, eq_text_refl (text "token"))
