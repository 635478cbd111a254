-- ===== src/Controller/History/Store.antt =====
-- The phase of the machine in the cluster's store, between the reconciliations.
use proxmox_operator.Base.{arith, ◌∙◌, true, ◌≡◌, refl, [], ◌∷◌, false}
use proxmox_operator.Crd.{Phase, unset, pending, Machine}
use proxmox_operator.World
use proxmox_operator.World.{World, Call, Log, update_status}
use proxmox_operator.World.Makes.{kind}
use proxmox_operator.Base.Errors.{ok}
use proxmox_operator.Controller.Reconcile.{needs_terminating}
use proxmox_operator.Controller.Silent.{no_status}
use proxmox_operator.Controller.Lifecycle.{
  is_new, PhaseStep, Stores, Walk, stay, call, send, begin_again, adopt_step, begin_step,
  create_step, fail_step, refresh_step, lose_step, delete_step, stop_step, finish_step,
}

-- The phase of the last status that was sent; a machine without one is new.
abbrev pub stored_phase : Log → Phase
stored_phase [] = unset
stored_phase (update_status m a ∷ log) = m.status.phase
stored_phase (_ ∷ log) = stored_phase log

-- The server stores each status that it is sent, and reading the machine gives the phase of the last one.
-- Others may change the rest of the machine, and any read may fail.
pub record Serves (w : World) : Type 0 where
  pub stores : Stores w
  pub serves :
      (m : Machine) (log : Log) → w.machine_answer log ≡ ok m → m.status.phase ≡ stored_phase log

stored_phase-call :
    (c : Call) (log : Log) → no_status (kind c) ≡ true → stored_phase (c ∷ log) ≡ stored_phase log
stored_phase-call (World.update_status m a) log h = absurd (ground (arith, h))
stored_phase-call (World.get_machine a) log h = refl
stored_phase-call (World.update m a) log h = refl
stored_phase-call (World.get_class n a) log h = refl
stored_phase-call (World.get_network_namespace s n a) log h = refl
stored_phase-call (World.list_network_namespaces s a) log h = refl
stored_phase-call (World.get_netconf s n a) log h = refl
stored_phase-call (World.create_netconf n a) log h = refl
stored_phase-call (World.delete_netconf s n a) log h = refl
stored_phase-call (World.get_node_names a) log h = refl
stored_phase-call (World.get_vm n i a) log h = refl
stored_phase-call (World.create_vm n i o a) log h = refl
stored_phase-call (World.stop_vm n i a) log h = refl
stored_phase-call (World.delete_vm n i a) log h = refl
stored_phase-call (World.wait t a) log h = refl
stored_phase-call (World.get_interfaces a) log h = refl
stored_phase-call (World.get_node n a) log h = refl
stored_phase-call (World.get_storage n a) log h = refl
stored_phase-call (World.get_content a) log h = refl
stored_phase-call (World.read_random a) log h = refl
stored_phase-call (World.list_vitistacks a) log h = refl
stored_phase-call (World.get_provider n a) log h = refl
stored_phase-call (World.create_provider p a) log h = refl

-- No step leads back to "" or Pending.
pub PhaseStep-is_new : {p q : Phase} → PhaseStep p q → is_new q ≡ false
PhaseStep-is_new (adopt_step h) = refl
PhaseStep-is_new (begin_step h) = refl
PhaseStep-is_new create_step = refl
PhaseStep-is_new fail_step = refl
PhaseStep-is_new refresh_step = refl
PhaseStep-is_new lose_step = refl
PhaseStep-is_new (delete_step h) = refl
PhaseStep-is_new (stop_step {p = p} h) = ending p h
  where
    ending : (p : Phase) → needs_terminating p ≡ false → is_new p ≡ false
    ending unset h = absurd (ground (arith, h))
    ending pending h = absurd (ground (arith, h))
    ending _ h = refl
PhaseStep-is_new (finish_step h) = refl

module _ {before : Log} {start : Phase} where
  pub Walk-is_new :
      {p : Phase} {log : Log} → Walk before start p log → is_new start ≡ false → is_new p ≡ false
  Walk-is_new stay h = h
  Walk-is_new (call c k walk) h = Walk-is_new walk h
  Walk-is_new (send m a s walk) h = PhaseStep-is_new s
  Walk-is_new (begin_again e m m' a c d walk) h = refl

  -- The way ends at the phase that is stored then.
  pub Walk-stored_phase :
      {p : Phase} {log : Log}
      → stored_phase before ≡ start
      → Walk before start p log
      → stored_phase log ≡ p
  Walk-stored_phase h stay = h
  Walk-stored_phase h (call c k walk) = stored_phase-call c _ k ∙ Walk-stored_phase h walk
  Walk-stored_phase h (send m a s walk) = refl
  Walk-stored_phase h (begin_again e m m' a c d walk) = d

  -- Two ways, one after the other.
  pub Walk-trans :
      {p : Phase} {between : Log} {q : Phase} {after : Log}
      → Walk before start p between
      → Walk between p q after
      → Walk before start q after
  Walk-trans first stay = first
  Walk-trans first (call c k walk) = call c k (Walk-trans first walk)
  Walk-trans first (send m a s walk) = send m a s (Walk-trans first walk)
  Walk-trans first (begin_again e m m' a c d walk) =
      begin_again e m m' a c d (Walk-trans first walk)
