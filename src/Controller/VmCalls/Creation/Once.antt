-- ===== src/Controller/VmCalls/Creation/Once.antt =====
-- The VMs that one reconciliation creates.
use proxmox_operator.Base.{◌≤◌, ◌≡◌, refl, true, false, ◌∷◌, [], arith}
use proxmox_operator.Crd.{Machine, MachineClass, Phase}
use proxmox_operator.World
use proxmox_operator.World.Makes.{
  vm_create, Kind, kind, Kinds, Makes, Makes-more, Makes-same, Makes-keeps, Makes-bind, Makes-call,
  Makes-if, Makes-result, Makes-return,
}
use proxmox_operator.Controller.Footprint.{ending}
use proxmox_operator.Controller.Footprint.Phases.{
  reconcile_running-Makes, reconcile_terminating-Makes,
}
use proxmox_operator.World.{World, Call, Vm, Task, Log, M, ◌>>=◌, call, return}
use proxmox_operator.Controller.Create.{reconcile_creating}
use proxmox_operator.Controller.Reconcile.{
  release, terminate_and_release, handle_deletion, ensure_finalizer, by_phase, reconcile_by_phase,
  reconcile_live, reconcile_machine, reconcile,
}
use proxmox_operator.Controller.VmCalls.{vm_calls, Quiet-return}
use proxmox_operator.Controller.VmCalls.Creation.{
  creates, Guarded, Keeps, Creates, Anything, Keeps-of_Quiet, Keeps-if, Creates-of_Keeps,
  Creates-result, Creates-if, Creates-after_Keeps,
}
use proxmox_operator.Controller.VmCalls.Creation.OnCreate.{reconcile_create-Creates}

-- All kinds but one.
abbrev no_create : Kinds
no_create vm_create = false
no_create _ = true

creates-call :
    (c : Call) (log : Log)
    → no_create (kind c) ≡ true
    → creates (vm_calls (c ∷ log)) ≡ creates (vm_calls log)
creates-call (World.create_vm node vm_id o a) log h = absurd (ground (arith, h))
creates-call _ log h = refl

Guarded-call :
    (c : Call) (log : Log)
    → no_create (kind c) ≡ true
    → Guarded (vm_calls log)
    → Guarded (vm_calls (c ∷ log))
Guarded-call (World.create_vm node vm_id o a) log h g = absurd (ground (arith, h))
Guarded-call _ log h g = g

-- What the kinds of calls say.
pub Keeps-of_Makes :
    {A : Type 0} {ks : Kinds} {m : M A} → ks vm_create ≡ false → Makes ks m → Keeps m
Keeps-of_Makes {ks = ks} h0 p =
    let p' = Makes-more without p in
    record {
      same_number = Makes-same (λ log. creates (vm_calls log)) creates-call p';
      still_guarded = Makes-keeps (λ log. Guarded (vm_calls log)) Guarded-call p';
    }
  where
    without : (k : Kind) → ks k ≡ true → no_create k ≡ true
    without vm_create h = absurd (ground (arith, h0))
    without _ h = refl

pub return-Keeps : {A : Type 0} (a : A) → Keeps (return a)
return-Keeps a = Keeps-of_Quiet (Quiet-return a)

pub call-Keeps :
    {A : Type 0} (answer : Log → A) (entry : A → Call)
    → ((a : A) → no_create (kind (entry a)) ≡ true)
    → Keeps (call answer entry)
call-Keeps answer entry h = Keeps-of_Makes {ks = no_create} refl (Makes-call answer entry h)

ending-no_create : (k : Kind) → ending k ≡ true → no_create k ≡ true
ending-no_create vm_create h = absurd (ground (arith, h))
ending-no_create _ h = refl

module _ (w : World) where
  release-Makes : Makes no_create (release w)
  unfolding release
  release-Makes = Makes-bind (Makes-call _ _ (λ a. refl)) (λ found.
      Makes-result found (λ e. Makes-if _ (Makes-return _) (Makes-return _))
        (λ m. Makes-bind (Makes-call _ _ (λ a. refl)) (λ answer.
          Makes-result answer (λ e. Makes-if _ (Makes-return _) (Makes-return _))
            (λ m'. Makes-return _))))

  handle_deletion-Makes : (m : Machine) → Makes no_create (handle_deletion w m)
  unfolding handle_deletion terminate_and_release release
  handle_deletion-Makes m = Makes-if _ (Makes-return _) (
      Makes-bind (Makes-if _ (Makes-call _ _ (λ a. refl)) (Makes-return _)) (λ saved.
        Makes-result saved (λ e. Makes-return _)
          (λ m'.
            Makes-bind (Makes-more ending-no_create (reconcile_terminating-Makes w m'))
              (λ r. Makes-result r (λ e. Makes-return _) (λ q. release-Makes)))))

  pub handle_deletion-Keeps : (m : Machine) → Keeps (handle_deletion w m)
  handle_deletion-Keeps m = Keeps-of_Makes refl (handle_deletion-Makes m)

  by_phase-Creates :
      (p : Phase) (m : Machine) (class : MachineClass) → Creates Anything (by_phase w p m class)
  unfolding reconcile_creating
  by_phase-Creates Phase.unset m class = reconcile_create-Creates w m class
  by_phase-Creates Phase.pending m class = reconcile_create-Creates w m class
  by_phase-Creates Phase.creating m class = Creates-of_Keeps (return-Keeps _)
  by_phase-Creates Phase.running m class =
      Creates-of_Keeps (Keeps-of_Makes refl (reconcile_running-Makes w m))
  by_phase-Creates Phase.terminating m class =
      Creates-of_Keeps (Keeps-of_Makes refl (reconcile_terminating-Makes w m))
  by_phase-Creates Phase.failed m class = Creates-of_Keeps (return-Keeps _)
  by_phase-Creates _ m class = Creates-of_Keeps (return-Keeps _)

  reconcile_live-Creates : (m : Machine) → Creates Anything (reconcile_live w m)
  unfolding reconcile_live ensure_finalizer reconcile_by_phase
  reconcile_live-Creates m =
      Creates-after_Keeps (Keeps-if _ (return-Keeps _) (call-Keeps _ _ (λ a. refl))) (λ saved.
        Creates-result saved (λ e. Creates-of_Keeps (return-Keeps _))
          (λ m'. Creates-after_Keeps (call-Keeps _ _ (λ a. refl)) (λ found.
            Creates-result found (λ e. Creates-of_Keeps (return-Keeps _))
              (λ class.
                Creates-if _ (by_phase-Creates m'.status.phase m' class)
                  (Creates-of_Keeps (return-Keeps _))))))

  pub reconcile-Creates : Creates Anything (reconcile w)
  unfolding reconcile reconcile_machine
  reconcile-Creates = Creates-after_Keeps (call-Keeps _ _ (λ a. refl)) (λ found.
      Creates-result found
        (λ e. Creates-if _ (Creates-of_Keeps (return-Keeps _)) (Creates-of_Keeps (return-Keeps _)))
        (λ m.
          Creates-if _ (Creates-of_Keeps (return-Keeps _))
            (Creates-if _ (Creates-of_Keeps (handle_deletion-Keeps m)) (reconcile_live-Creates m))))

  -- One reconciliation, whatever the outside answers, makes at most one call that creates a VM, and of
  -- the calls that concern VMs and their tasks the one just before it asks for a VM with this ID on
  -- this node, and its answer shows none.
  pub reconcile-creates_once :
      creates (vm_calls (reconcile w []).1) ≤ 1 × Guarded (vm_calls (reconcile w []).1)
  reconcile-creates_once = (reconcile-Creates.at_most_one [] tt, reconcile-Creates.guards [] tt tt)
