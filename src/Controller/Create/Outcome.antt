-- ===== src/Controller/Create/Outcome.antt =====
-- How the creation of a VM ends.
use proxmox_operator.World.Triple.{
  Triple, Triple-bind, Triple-before, Triple-call, Triple-if, Triple-either, Triple-result,
  Triple-option,
}
use proxmox_operator.Controller.VmCalls.{
  vm_calls, Quiet, Quiet-bind, set_condition-Quiet, update_status_with_retry-Quiet, report-Quiet,
  publish_mac-Quiet, update_vm_status-Quiet,
}
use proxmox_operator.VmBuilder.{VmOption}
use proxmox_operator.World
use proxmox_operator.Base.{List, ◌≡◌, refl, ap, inl, inr, ◌∷◌, ◌++◌, Option, none, some, true}
use proxmox_operator.Base.Int.{ℤ}
use proxmox_operator.Base.Text.{Text, text}
use proxmox_operator.Base.Errors.{Error, Result, ok, wrap}
use proxmox_operator.Crd.{failed, Machine, MachineClass}
use proxmox_operator.World.{World, Vm, Task, Log, update_status, M, ◌>>=◌, call, return, time}
use proxmox_operator.Controller.Status.{
  with_phase, put_condition, update_status_with_retry, set_condition,
}
use proxmox_operator.Controller.Create.{
  VmOption, exited_well, Requeue, no_requeue, choose, report, mark_failed, mark_missing,
  record_created, exited_well, await_created, verify_created, provision, create_with_mac,
  create_with_id, create_on_node, place,
}
use proxmox_operator.Controller.Create.Recorded.{
  IsRecorded, Ended, AfterShow, AfterRequest, AfterWait, IsMade, IsMade-Quiet, saved_is_last,
  saved_reported, missing_saved, missing_fails, update_vm_status-IsRecorded,
}

-- Nothing is asked of the log, and nothing said of it.
goes_on :
    {A : Type 0} {P : Log → Type 0} (m : M A) {f : A → M (Result Requeue)}
    → ((a : A) → Triple (λ log. Unit) (f a) Ended)
    → Triple P (m >>= f) Ended
goes_on m h = Triple-bind (λ a log. Unit) (record { holds = λ log p. tt }) h

module _ (w : World) where
  mark_failed-Ends :
      {P : Log → Type 0} (message : Option Text) (reason condition : Text) (e : Error) (m : Machine)
      → Triple P (mark_failed w message reason condition e m) Ended
  unfolding mark_failed set_condition ◌>>=◌ return time put_condition
  mark_failed-Ends none reason condition e m = record {
    holds = λ log p. (_, saved_is_last w _ log, inl (refl, tt));
  }
  mark_failed-Ends (some t) reason condition e m = record {
    holds = λ log p. (_, saved_is_last w _ log, inl (refl, tt));
  }

  -- The end of the creation, which saves the machine.
  abbrev save : Text → Text → Text → Requeue → Machine → M (Result Requeue)
  save status reason message r m = do
    m' ← set_condition w status reason message m
    saved ← update_status_with_retry w m'
    report r saved.0

  save-Quiet :
      (status reason message : Text) (r : Requeue) (m : Machine)
      → Quiet (save status reason message r m)
  save-Quiet status reason message r m =
      Quiet-bind (set_condition-Quiet w _ _ _ m)
        (λ m'. Quiet-bind (update_status_with_retry-Quiet w m') (λ saved. report-Quiet w r saved.0))

  save-Ends :
      (status reason message : Text) (r : Requeue) (m : Machine) (node : Text) (vm_id : ℤ)
      → Triple
          (λ log. IsRecorded node vm_id m.status × IsMade node vm_id log)
          (save status reason message r m)
          Ended
  unfolding set_condition ◌>>=◌ return time put_condition
  save-Ends status reason message r m node vm_id = record {
    holds = λ log (h, made).
        let m' = put_condition (w.now log) status reason message m in
        (
          m',
          saved_reported w r m' log,
          inr (
            node,
            vm_id,
            h,
            IsMade-Quiet node vm_id log (save-Quiet status reason message r m) made,
          ),
        );
  }

  abbrev missing : Error → Error
  missing e = wrap (text "VM creation task completed but VM does not exist: ") e

  mark_missing-Ends :
      {P : Log → Type 0} (e : Error) (m : Machine) → Triple P (mark_missing w e m) Ended
  unfolding mark_missing set_condition ◌>>=◌ return time put_condition
  mark_missing-Ends e m = record {
    holds = λ log p.
        let m' =
          put_condition (w.now log) (text "False") (text "VMCreationFailed")
            (text "VM creation task completed but VM does not exist: " ++ e.message)
            (with_phase failed m) in
        (m', missing_saved w (missing e) m' log, inl (refl, missing_fails w (missing e) _ _));
  }

  record_created-Ends :
      (m : Machine) (vm : Option Vm) (node : Text) (vm_id : ℤ) (mac : Text) (vlan : ℤ)
      → Triple (IsMade node vm_id) (record_created w m vm node vm_id mac vlan) Ended
  unfolding record_created time
  record_created-Ends m vm node vm_id mac vlan =
      Triple-bind (λ _. IsMade node vm_id)
        (record { holds = λ log. IsMade-Quiet node vm_id log (publish_mac-Quiet w m mac vlan) })
        (λ _.
          Triple-bind (λ _. IsMade node vm_id) (record { holds = λ log made. made })
            (λ now.
              Triple-bind (λ m1 log. IsRecorded node vm_id m1.status × IsMade node vm_id log)
                (record {
                  holds = λ log made. (
                    update_vm_status-IsRecorded w vm node node vm_id _ log (refl, refl, refl),
                    IsMade-Quiet node vm_id log (update_vm_status-Quiet w vm node _) made,
                  );
                })
                (λ m1. save-Ends _ _ _ no_requeue m1 node vm_id)))

  verify_created-Ends :
      (m : Machine) (node : Text) (vm_id : ℤ) (mac : Text) (vlan : ℤ) (ended : Task)
      → exited_well w ended ≡ true
      → Triple (AfterWait node vm_id (ok ended)) (verify_created w m node vm_id mac vlan) Ended
  unfolding verify_created
  verify_created-Ends m node vm_id mac vlan ended well =
      Triple-bind (AfterShow node vm_id)
        (Triple-call _ _ (λ log (task, options, before, e). (
          task,
          ended,
          options,
          before,
          well,
          ap (λ l. World.get_vm node vm_id (w.vm_answer node vm_id log) ∷ l) e,
        )))
        (λ r.
          Triple-result (AfterShow node vm_id) r (λ e. mark_missing-Ends e m)
            (λ vm.
              Triple-before (λ log made. (vm, made))
                (record_created-Ends m vm node vm_id mac vlan)))

  await_created-Ends :
      (m : Machine) (task : Task) (node : Text) (vm_id : ℤ) (mac : Text) (vlan : ℤ)
      → Triple
          (AfterRequest node vm_id (ok task))
          (await_created w m task node vm_id mac vlan)
          Ended
  unfolding await_created
  await_created-Ends m task node vm_id mac vlan =
      Triple-bind (AfterWait node vm_id)
        (Triple-call _ _ (λ log (options, before, e).
          (task, options, before, ap (λ l. World.wait task (w.waited_answer task log) ∷ l) e)))
        (λ r.
          Triple-result (AfterWait node vm_id) r (λ e. mark_failed-Ends _ _ _ e m)
            (λ ended.
              Triple-if (exited_well w ended) (verify_created-Ends m node vm_id mac vlan ended)
                (λ b. mark_failed-Ends _ _ _ _ m)))

  provision-Ends :
      {P : Log → Type 0} (m : Machine) (node : Text) (vm_id : ℤ) (mac : Text) (vlan : ℤ)
      (options : List VmOption)
      → Triple P (provision w m node vm_id mac vlan options) Ended
  unfolding provision
  provision-Ends m node vm_id mac vlan options =
      Triple-bind (AfterRequest node vm_id)
        (Triple-call _ _ (λ log p. (options, vm_calls log, refl)))
        (λ r.
          Triple-result (AfterRequest node vm_id) r (λ e. mark_failed-Ends _ _ _ e m)
            (λ task. await_created-Ends m task node vm_id mac vlan))

  create_with_mac-Ends :
      {P : Log → Type 0} (m : Machine) (class : MachineClass) (node : Text) (vm_id : ℤ) (mac : Text)
      → Triple P (create_with_mac w m class node vm_id mac) Ended
  unfolding create_with_mac
  create_with_mac-Ends m class node vm_id mac = goes_on _ (λ vlan. goes_on _ (λ invalid.
      Triple-option (λ _ log. Unit) invalid (provision-Ends m node vm_id mac vlan _)
        (λ e. mark_failed-Ends _ _ _ e m)))

  create_on_node-Ends :
      {P : Log → Type 0} (m : Machine) (class : MachineClass) (node : Text)
      → Triple P (create_on_node w m class node) Ended
  unfolding create_on_node create_with_id
  create_on_node-Ends m class node = goes_on _ (λ vm_id.
      Triple-either _ (mark_failed-Ends _ _ _ _ m) (
        goes_on _ (λ r.
          Triple-result (λ _ log. Unit) r (λ e. mark_failed-Ends _ _ _ e m)
            (λ mac. create_with_mac-Ends m class node vm_id mac))))

  place-Ends : (m : Machine) (class : MachineClass) → Triple (λ log. Unit) (place w m class) Ended
  unfolding place
  place-Ends m class = goes_on _ (λ names.
      Triple-result (λ _ log. Unit) (choose w names) (λ e. mark_failed-Ends _ _ _ e m)
        (λ node. create_on_node-Ends m class node))

  -- However the outside answers, the creation of a VM, from the choice of a node on, sends a status to the
  -- server: the last one sent has the phase Failed, and the result is an error, or it has the phase Running
  -- and the provider ID and machine ID of the VM that the last three calls concerning VMs are about: this VM
  -- was requested with an answer that is a task, the task was awaited and ended with the status OK or none, and
  -- the VM was then looked up without an error.
  pub place_outcome :
      (m : Machine) (class : MachineClass) (log : Log)
      → let (r, after) = place w m class log in Ended r after
  place_outcome m class log = (place-Ends m class).holds log tt
