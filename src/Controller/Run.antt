-- ===== src/Controller/Run.antt =====
-- machine_reconcile_phases.go, lines 204 to 260: the state of a running VM.
pub mod Watch
pub mod Interval
use proxmox_operator.Base.{
  List, [], ◌∷◌, ◌++◌, Option, none, some, Bool, true, false, not, ◌&&◌, if◌then◌else◌,
}
use proxmox_operator.Base.Int.{ℤ}
use proxmox_operator.Base.Text.{Text, text, eq_text, is_empty}
use proxmox_operator.Base.Errors.{Error, Result, ok, err}
use proxmox_operator.Crd.{Phase, failed, of_text, Machine, MachineStatus}
use proxmox_operator.ProviderId
use proxmox_operator.Network.{is_private_ip}
use proxmox_operator.NetworkConfiguration
use proxmox_operator.World.{World, Vm, get_vm, M, ◌>>=◌, ◌>>◌, return, call}
use proxmox_operator.Controller.Status.{
  with_status, update_status_with_retry, set_condition, update_vm_status,
}
use proxmox_operator.Controller.Create.{Requeue, no_requeue, requeue_after, report}
use proxmox_operator.Controller.Terminate.{says_missing}

-- `updateInterval`
abbrev pub update_interval : Requeue
update_interval = requeue_after 10

-- The first address is the given one.
abbrev starts_with_ip : Text → List Text → Bool
starts_with_ip ip [] = false
starts_with_ip ip (x ∷ xs) = eq_text x ip

-- The address of the NetworkConfiguration becomes the machine's only one, unless it is its first one
-- already; it joins the private or the public addresses, and the others of these two stay.
unfoldable pub put_ip : Text → MachineStatus → MachineStatus
put_ip ip s =
    let t = record s { ip_addresses = ip ∷ [] } in
    if is_empty ip
    then s
    else if starts_with_ip ip s.ip_addresses
    then s
    else if is_private_ip ip
    then record t { private_ip_addresses = ip ∷ [] }
    else record t { public_ip_addresses = ip ∷ [] }

abbrev pub deleted_externally : MachineStatus → MachineStatus
deleted_externally s = record s {
  phase = failed;
  state = of_text (text "Missing");
  failure_reason = some (text "VMDeleted");
  failure_message = some (text "VM was deleted from Proxmox externally");
}

module _ (w : World) where
  -- The address of the NetworkConfiguration, where that is the source of addresses.
  unfoldable pub refresh_ip : Machine → M Machine
  refresh_ip m =
      if eq_text w.config.ip_source (text "networkconfiguration")
      then (NetworkConfiguration.get_ip w m >>= λ answer. elim answer [
        | err e ↦ return m
        | ok ip ↦ return (with_status m (put_ip ip m.status))
      ])
      else return m

  unfoldable pub refresh : Machine → Option Vm → Text → M (Result Requeue)
  refresh m vm node = do
    m1 ← update_vm_status w vm node m
    m2 ← refresh_ip m1
    saved ← update_status_with_retry w m2
    report update_interval saved.0

  unfoldable pub mark_deleted : Machine → M (Result Requeue)
  mark_deleted m = do
    m' ←
        set_condition w (text "False") (text "VMDeleted")
          (text "VM was deleted from Proxmox externally")
          (with_status m (deleted_externally m.status))
    saved ← update_status_with_retry w m'
    report no_requeue saved.0

  unfoldable pub watch : Machine → Text → ℤ → M (Result Requeue)
  watch m node vm_id = do
    found ← call (w.vm_answer node vm_id) (get_vm node vm_id)
    elim found [
      | ok vm ↦ refresh m vm node
      | err e ↦ if says_missing e then mark_deleted m else return (ok update_interval)
    ]

  unfoldable pub reconcile_running : Machine → M (Result Requeue)
  reconcile_running m = elim (ProviderId.parse m.status.provider_id) [
    | err e ↦ return (ok no_requeue)
    | ok id ↦ watch m id.0 id.1
  ]
