-- ===== src/Controller/Reconcile/Creating.antt =====
-- The reconciliation of a new machine, where all goes well.
use mathlib.Core.Path.{subst}
use proxmox_operator.Base.{◌≡◌, not, refl, inl, inr, Option, none, some, true, false, arith}
use proxmox_operator.Base.Int.{ℤ}
use proxmox_operator.Base.Text.{Text, is_empty}
use proxmox_operator.Base.Errors.{Error, Result, ok}
use proxmox_operator.Crd
use proxmox_operator.Crd.{Phase, Machine, MachineClass, is_proxmox}
use proxmox_operator.World.{World, Log, ◌>>=◌, call, return, time}
use proxmox_operator.World.Triple.{
  Triple, Triple-return, Triple-call, Triple-bind, Triple-result, Triple-option, Triple-if,
}
use proxmox_operator.Controller.Status.{
  with_phase, set_condition, put_condition, update_status_with_retry,
}
use proxmox_operator.Controller.Create.{
  Requeue, no_requeue, place, check_existing_vm, start_create, reconcile_create,
}
use proxmox_operator.Controller.Create.Outcome.{place_outcome}
use proxmox_operator.Controller.Create.Recorded.{last_saved, IsErr, IsRecorded, IsMade, Ended}
use proxmox_operator.Controller.Progress.{
  Anyway, IsDone, unhindered, update_status_with_retry-Saves,
}
use proxmox_operator.Controller.Create.Success.{Healthy, HasImage, place-Finishes}
use proxmox_operator.Controller.Lifecycle.{is_new}
use proxmox_operator.Controller.Reconcile.{
  ensure_finalizer, has_finalizer, add_finalizer, by_phase, reconcile_by_phase, with_class,
  reconcile_live, reconcile_machine, reconcile,
}

-- The machine saved last runs, with the IDs of the VM that was made.
abbrev pub Runs : Log → Type 0
Runs log =
    (m : Machine) × (last_saved log ≡ some m)
    × (node : Text) × (vm_id : ℤ) × IsRecorded node vm_id m.status
    × IsMade node vm_id log

-- The result is a success, and the machine runs.
abbrev Succeeds : Result Requeue → Log → Type 0
Succeeds r log = IsDone r × Runs log

-- A machine without a VM, whose image passes its check and whose class can be read and is enabled.
pub record IsFresh (w : World) (m : Machine) : Type 0 where
  pub new : is_new m.status.phase ≡ true
  pub no_vm : is_empty m.status.machine_id ≡ true
  pub image : HasImage w m
  pub class_enabled :
      (log : Log)
      → (class : MachineClass) × (w.class_answer m.spec.machine_class log ≡ ok class)
        × (class.enabled ≡ true)

Runs-of_Ended : (r : Result Requeue) (log : Log) → IsDone r → Ended r log → Runs log
Runs-of_Ended r log d (m, e, inl (f, x)) = absurd (subst IsErr d x)
Runs-of_Ended r log d (m, e, inr (node, vm_id, s, made)) = (m, e, node, vm_id, s, made)

module _ (w : World) (h : Healthy w) where
  place-Succeeds :
      {P : Log → Type 0} (m : Machine) (class : MachineClass)
      → HasImage w m
      → Triple P (place w m class) Succeeds
  place-Succeeds m class image = record {
    holds = λ log p.
        let d = (place-Finishes w h m class image).holds log tt in
        (d, Runs-of_Ended _ (place w m class log).1 d (place_outcome w m class log));
  }

  -- The status is saved, and the machine has the same image.
  abbrev Saved : Option Error × Machine → Type 0
  Saved saved = (saved.0 ≡ none) × HasImage w saved.1

  saves-Saved :
      (m : Machine)
      → Triple (λ log. HasImage w m) (update_status_with_retry w m) (λ saved log. Saved saved)
  saves-Saved m = record {
    holds = λ log image. rw (update_status_with_retry-Saves w m log h.saves) (refl, image);
  }

  set_condition-HasImage :
      {P : Log → Type 0} (status reason message : Text) (m : Machine)
      → HasImage w m
      → Triple P
          (set_condition w status reason message (with_phase Crd.creating m))
          (λ m' log. HasImage w m')
  unfolding set_condition put_condition ◌>>=◌ return time
  set_condition-HasImage status reason message m image = record { holds = λ log p. image }

  start_create-Succeeds :
      {P : Log → Type 0} (m : Machine) (class : MachineClass)
      → HasImage w m
      → Triple P (start_create w m class) Succeeds
  unfolding start_create
  start_create-Succeeds m class image =
      Triple-bind (λ m1 log. HasImage w m1) (set_condition-HasImage _ _ _ m image)
        (λ m1.
          Triple-bind (λ saved log. Saved saved) (saves-Saved m1)
            (λ saved. record {
              holds = λ log (e, image').
                  (unhindered _ saved.0 (place-Succeeds saved.1 class image')).holds log e;
            }))

  check_existing_vm-none :
      (m : Machine) (log : Log)
      → is_empty m.status.machine_id ≡ true
      → (e : Error) × ((check_existing_vm w m log).0 ≡ (some e, m))
  unfolding check_existing_vm return
  check_existing_vm-none m log e = rw e (_, refl)

  -- No VM was found for the machine.
  abbrev Absent : Option Error × Machine → Type 0
  Absent existing = (f : Error) × (existing.0 ≡ some f) × HasImage w existing.1

  reconcile_create-Succeeds :
      {P : Log → Type 0} (m : Machine) (class : MachineClass)
      → is_empty m.status.machine_id ≡ true
      → HasImage w m
      → Triple P (reconcile_create w m class) Succeeds
  unfolding reconcile_create
  reconcile_create-Succeeds m class e image =
      Triple-bind (λ existing log. Absent existing)
        (record {
          holds =
              λ log p. let (f, q) = check_existing_vm-none m log e in (f, rw q refl, rw q image);
        })
        (λ existing. record {
          holds = λ log (f, p, image').
              (Triple-option (λ o log. o ≡ some f) existing.0
                  (record { holds = λ log p. absurd (ground (arith, p)) })
                  (λ f. start_create-Succeeds existing.1 class image')).holds
                log p;
        })

  by_phase-Succeeds :
      {P : Log → Type 0} (p : Phase) (m : Machine) (class : MachineClass)
      → is_new p ≡ true
      → is_empty m.status.machine_id ≡ true
      → HasImage w m
      → Triple P (by_phase w p m class) Succeeds
  by_phase-Succeeds Crd.unset m class n e image = reconcile_create-Succeeds m class e image
  by_phase-Succeeds Crd.pending m class n e image = reconcile_create-Succeeds m class e image
  by_phase-Succeeds _ m class n e image = absurd (ground (arith, n))

  with_class-Succeeds :
      {P : Log → Type 0} (m : Machine) → IsFresh w m → Triple P (with_class w m) Succeeds
  unfolding reconcile_by_phase
  with_class-Succeeds m f =
      Triple-bind
        (λ found log. (class : MachineClass) × (found ≡ ok class) × (class.enabled ≡ true))
        (Triple-call _ _ (λ log p. f.class_enabled log))
        (λ found.
          Triple-result
            (λ found log. (class : MachineClass) × (found ≡ ok class) × (class.enabled ≡ true))
            found (λ e. record { holds = λ log (class, p, q). absurd (ground (arith, p)) })
            (λ class.
              Triple-if class.enabled
                (λ b. by_phase-Succeeds m.status.phase m class f.new f.no_vm f.image)
                (λ b. record { holds = λ log (class', p, q). absurd (ground (arith, b, p, q)) })))

  ensure_finalizer-IsFresh :
      (m : Machine)
      → IsFresh w m
      → Triple
          (λ log. Unit)
          (ensure_finalizer w m)
          (λ r log. (m' : Machine) × (r ≡ ok m') × IsFresh w m')
  unfolding ensure_finalizer
  ensure_finalizer-IsFresh m f =
      Triple-if (has_finalizer m) (λ b. Triple-return _ (λ log p. (m, refl, f)))
        (λ b. Triple-call _ _ (λ log p. (
          add_finalizer m,
          h.updates (add_finalizer m) log,
          record { new = f.new; no_vm = f.no_vm; image = f.image; class_enabled = f.class_enabled },
        )))

  reconcile_live-Succeeds :
      (m : Machine) → IsFresh w m → Triple Anyway (reconcile_live w m) Succeeds
  unfolding reconcile_live
  reconcile_live-Succeeds m f =
      Triple-bind (λ r log. (m' : Machine) × (r ≡ ok m') × IsFresh w m')
        (ensure_finalizer-IsFresh m f)
        (λ saved.
          Triple-result (λ r log. (m' : Machine) × (r ≡ ok m') × IsFresh w m') saved
            (λ e. record { holds = λ log (m', p, q). absurd (ground (arith, p)) })
            (λ m'. record {
              holds = λ log (m2, p, q).
                  let e : m2 ≡ m' = ground (arith, p) in
                  (with_class-Succeeds {P = Anyway} m' (subst (IsFresh w) e q)).holds log tt;
            }))

  reconcile_machine-Succeeds :
      (m : Machine)
      → IsFresh w m
      → is_proxmox m.spec.provider ≡ true
      → m.deleting ≡ false
      → Triple Anyway (reconcile_machine w m) Succeeds
  unfolding reconcile_machine
  reconcile_machine-Succeeds m f p d =
      Triple-if (not (is_proxmox m.spec.provider)) (λ b. absurd (ground (arith, b, p)))
        (λ b.
          Triple-if m.deleting (λ c. absurd (ground (arith, c, d)))
            (λ c. reconcile_live-Succeeds m f))

-- Where all goes well, one reconciliation of a new machine that is not being deleted ends without an error, and the last
-- status that it sends has the phase Running and the IDs of the VM that the last three calls concerning VMs are
-- about: this VM was requested with an answer that is a task, the task was awaited and ended with the status OK or
-- none, and the VM was then looked up without an error.
pub reconcile-Succeeds :
    (w : World) (m : Machine) (log : Log)
    → Healthy w
    → IsFresh w m
    → w.machine_answer log ≡ ok m
    → is_proxmox m.spec.provider ≡ true
    → m.deleting ≡ false
    → ((reconcile w log).0 ≡ ok no_requeue) × Runs (reconcile w log).1
unfolding reconcile ◌>>=◌ call
reconcile-Succeeds w m log h f e p d = rw e ((reconcile_machine-Succeeds w h m f p d).holds _ tt)
