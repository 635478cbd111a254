-- ===== src/Tests/Progress.antt =====
-- The theorems on reconciliations where all goes well, in a cluster that works.
use proxmox_operator.Controller.Run.{reconcile_running}
use proxmox_operator.Controller.Run.Interval.{IsWatched, reconcile_running-IsWatched}
use proxmox_operator.Base.{
  ◌≡◌, refl, ap, inr, ◌∙◌, ◌∷◌, [], ◌+◌, List, Option, none, some, true, false, arith,
}
use proxmox_operator.Base.Int.{pos, is_zero, int64, ◌+ℤ◌}
use proxmox_operator.Base.Text.{Text, text, eq_text}
use proxmox_operator.Base.Errors.{Result, ok, err}
use proxmox_operator.Crd.{Machine}
use proxmox_operator.World
use proxmox_operator.World.{World, Log, Vm, ◌>>=◌, call, return}
use proxmox_operator.Controller.Create.{
  find_vmid, generate_vmid, find_available_vmid, choose, exited_well, no_requeue,
}
use proxmox_operator.NodeSelection.{select_node, filter_allowed_nodes, select_by_strategy}
use proxmox_operator.Controller.Create.VmId.Bounds.{generate_vmid_range, int64_add}
use proxmox_operator.Controller.Create.Success.{Healthy, HasImage}
use proxmox_operator.Controller.Reconcile.{reconcile, has_finalizer}
use proxmox_operator.Controller.Create.{is_listed}
use proxmox_operator.ProviderId
use proxmox_operator.Base.Split.{split}
use proxmox_operator.Base.Decimal.{atoi}
use proxmox_operator.Controller.Terminate.Success.{Obeys, IsReadable}
use proxmox_operator.Controller.Reconcile.Deleting.{Reachable, IsReleased, reconcile-Released}
use proxmox_operator.Controller.Reconcile.Creating.{IsFresh, Runs, reconcile-Succeeds}
use proxmox_operator.Tests.Data.{
  web, running_web, full_cluster, small, done, some_bytes, missing_error, empty_cluster,
}

abbrev stopped_vm : Vm
stopped_vm = record {
  vm_name = text "web";
  vm_status = text "stopped";
  vm_cpus = pos 2;
  max_mem = 1073741824;
  agent = false;
  vm_disks = none;
}

-- A VM is shown right after a task was awaited.
abbrev shown : Log → Result (Option Vm)
shown (World.wait task a ∷ log) = ok (some stopped_vm)
shown _ = err missing_error

abbrev able_cluster : World
able_cluster = record empty_cluster { vm_answer = λ node vm_id log. shown log }

first_id :
    (m : Machine) (node : Text) (names : Result (List Text)) (log : Log)
    → (find_available_vmid able_cluster m node (World.get_node_names names ∷ log)).0
      ≡ int64 (generate_vmid able_cluster m +ℤ pos 0)
unfolding find_available_vmid find_vmid ◌>>=◌ call return
first_id m node names log = refl

finds_id :
    (m : Machine) (node : Text) (names : Result (List Text)) (log : Log)
    → is_zero (find_available_vmid able_cluster m node (World.get_node_names names ∷ log)).0 ≡ false
finds_id m node names log =
    let (k, few, base) = generate_vmid_range able_cluster m 2000 refl (omega arith) in
    let e : int64 (generate_vmid able_cluster m +ℤ pos 0) ≡ pos (2000 + k + 0) =
      ap (λ b. int64 (b +ℤ pos 0)) base ∙ int64_add (2000 + k) 0 (omega arith) in
    rw (first_id m node names log, e) (ground arith)

chooses_pve1 : (node : Text) × (choose able_cluster (ok (text "pve1" ∷ [])) ≡ ok node)
unfolding select_node filter_allowed_nodes select_by_strategy text eq_text
chooses_pve1 = (_, refl)

ends_well : exited_well able_cluster done ≡ true
unfolding eq_text text
ends_well = refl

able_cluster-Healthy : Healthy able_cluster
able_cluster-Healthy = record {
  saves = λ m log. refl;
  updates = λ m log. refl;
  chooses = λ log. chooses_pve1;
  finds = finds_id;
  draws = λ log. (some_bytes, refl);
  creates = λ node vm_id options log. (done, refl);
  awaits = λ task log. (done, refl, ends_well);
  shows = λ node vm_id options task ended log. (some stopped_vm, refl);
}

web-HasImage : HasImage able_cluster web
unfolding return
web-HasImage = λ node log. refl

web-IsFresh : IsFresh able_cluster web
web-IsFresh = record {
  new = refl;
  no_vm = refl;
  image = web-HasImage;
  class_enabled = λ log. (small, refl, refl);
}

reconcile-Succeeds_example :
    ((reconcile able_cluster []).0 ≡ ok no_requeue) × Runs (reconcile able_cluster []).1
reconcile-Succeeds_example =
    reconcile-Succeeds able_cluster web [] able_cluster-Healthy web-IsFresh refl refl refl

-- A machine with a VM, which is to be deleted, in the cluster with a stopped VM under each ID.
abbrev gone_web : Machine
gone_web = record running_web { deleting = true }

abbrev obedient_cluster : World
obedient_cluster = record full_cluster { machine_answer = λ log. ok gone_web }

obedient_cluster-Obeys : Obeys obedient_cluster
obedient_cluster-Obeys = record {
  saves = λ m log. refl;
  finds = λ node vm_id log. inr (stopped_vm, refl);
  stops = λ node vm_id log. (done, refl);
  deletes = λ node vm_id log. (done, refl);
  awaits = λ task log. (done, refl);
}

obedient_cluster-Reachable : Reachable obedient_cluster
obedient_cluster-Reachable = record {
  reads = λ log. (gone_web, refl);
  updates = λ m log. (m, refl);
}

gone_web-has_finalizer : has_finalizer gone_web ≡ true
unfolding is_listed text eq_text
gone_web-has_finalizer = refl

gone_web-IsReadable : IsReadable gone_web.status.provider_id
unfolding ProviderId.parse split atoi text eq_text
gone_web-IsReadable = inr (_, refl)

reconcile-Released_example :
    ((reconcile obedient_cluster []).0 ≡ ok no_requeue)
    × IsReleased (reconcile obedient_cluster []).1
reconcile-Released_example =
    reconcile-Released obedient_cluster gone_web [] obedient_cluster-Obeys
      obedient_cluster-Reachable refl refl refl gone_web-has_finalizer gone_web-IsReadable

running_web-parse : ProviderId.parse running_web.status.provider_id ≡ ok (text "pve1", pos 2146)
unfolding ProviderId.parse split atoi text eq_text
running_web-parse = refl

reconcile_running-IsWatched_example : IsWatched (reconcile_running full_cluster running_web []).0
reconcile_running-IsWatched_example =
    reconcile_running-IsWatched full_cluster running_web (text "pve1") (pos 2146) []
      running_web-parse (λ e p. absurd (ground (arith, p)))
