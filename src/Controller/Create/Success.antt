-- ===== src/Controller/Create/Success.antt =====
-- The creation of a VM where all goes well.
use proxmox_operator.Base.{
  ◌≡◌, refl, inl, inr, List, ◌∷◌, Option, none, some, true, false, Bool-cases, arith,
}
use proxmox_operator.Base.Int.{ℤ, is_zero}
use proxmox_operator.Base.Text.{Text}
use proxmox_operator.Base.Errors.{Error, Result, ok}
use proxmox_operator.Crd.{Machine, MachineClass}
use proxmox_operator.MacAddress.{Bytes6, generate_mac_address}
use proxmox_operator.VmBuilder.{VmOption}
use proxmox_operator.World
use proxmox_operator.World.{World, Vm, Task, Log, M, ◌>>=◌, call, return}
use proxmox_operator.World.Triple.{
  Triple, Triple-return, Triple-call, Triple-bind, Triple-before, Triple-result, Triple-if,
}
use proxmox_operator.Controller.Progress.{
  Anyway, IsDone, Given, anyway, given, unhindered, known, any, Saves,
  update_status_with_retry-Saves,
}
use proxmox_operator.Controller.Create.{
  Requeue, no_requeue, choose, report, exited_well, check_image, generate_mac, find_available_vmid,
  record_created, verify_created, await_created, provision, create_with_mac, create_with_id,
  create_on_node, place,
}

-- The servers do what they are asked for. A node is chosen, the search finds an ID after the nodes were read,
-- and the VM is shown after its creation was awaited.
pub record Healthy (w : World) : Type 0 where
  pub saves : Saves w
  pub updates : (m : Machine) (log : Log) → w.update_answer m log ≡ ok m
  pub chooses : (log : Log) → (node : Text) × (choose w (w.node_names_answer log) ≡ ok node)
  pub finds :
      (m : Machine) (node : Text) (names : Result (List Text)) (log : Log)
      → is_zero (find_available_vmid w m node (World.get_node_names names ∷ log)).0 ≡ false
  pub draws : (log : Log) → (bytes : Bytes6) × (w.random_answer log ≡ ok bytes)
  pub creates :
      (node : Text) (vm_id : ℤ) (options : List VmOption) (log : Log)
      → (task : Task) × (w.created_answer node vm_id options log ≡ ok task)
  pub awaits :
      (task : Task) (log : Log)
      → (ended : Task) × (w.waited_answer task log ≡ ok ended) × (exited_well w ended ≡ true)
  pub shows :
      (node : Text) (vm_id : ℤ) (options : List VmOption) (task ended : Task) (log : Log)
      → (vm : Option Vm) × (w.vm_answer node vm_id
            (World.wait task (ok ended) ∷ World.create_vm node vm_id options (ok task) ∷ log)
          ≡ ok vm)

-- The machine's image passes its check.
abbrev pub HasImage : World → Machine → Type 0
HasImage w m = (node : Text) (log : Log) → (check_image w m node log).0 ≡ none

module _ (w : World) (h : Healthy w) where
  abbrev Finishes : (Log → Type 0) → M (Result Requeue) → Type 0
  Finishes P m = Triple P m (λ r log. IsDone r)

  report-Finishes :
      (saved : Option Error × Machine)
      → Triple (λ log. saved.0 ≡ none) (report no_requeue saved.0) (λ r log. IsDone r)
  report-Finishes (none, m) = Triple-return _ (λ log p. refl)
  report-Finishes (some e, m) = record { holds = λ log p. absurd (ground (arith, p)) }

  record_created-Finishes :
      (m : Machine) (vm : Option Vm) (node : Text) (vm_id : ℤ) (mac : Text) (vlan : ℤ)
      → Finishes Anyway (record_created w m vm node vm_id mac vlan)
  unfolding record_created
  record_created-Finishes m vm node vm_id mac vlan =
      Triple-bind (λ _. Anyway) any
        (λ _.
          Triple-bind (λ _. Anyway) any
            (λ now.
              Triple-bind (λ _. Anyway) any
                (λ m1.
                  Triple-bind (λ _. Anyway) any
                    (λ m2.
                      Triple-bind (λ saved log. saved.0 ≡ none)
                        (known (λ saved. saved.0 ≡ none)
                          (λ log. rw (update_status_with_retry-Saves w m2 log h.saves) refl))
                        report-Finishes))))

  -- The creation was awaited.
  abbrev Awaited : Text → ℤ → Log → Type 0
  Awaited node vm_id log =
      (options : List VmOption) × (task ended : Task) × (before : Log) × (log
        ≡ World.wait task (ok ended) ∷ World.create_vm node vm_id options (ok task) ∷ before)

  verify_created-Finishes :
      (m : Machine) (node : Text) (vm_id : ℤ) (mac : Text) (vlan : ℤ)
      → Finishes (Awaited node vm_id) (verify_created w m node vm_id mac vlan)
  unfolding verify_created
  verify_created-Finishes m node vm_id mac vlan =
      Triple-bind (λ found log. Given found)
        (Triple-call _ _ (λ log (options, task, ended, before, e).
          rw e (h.shows node vm_id options task ended before)))
        (λ found. given _ found (λ vm. record_created-Finishes m vm node vm_id mac vlan))

  -- The request was accepted.
  abbrev Accepted : Text → ℤ → Result Task → Log → Type 0
  Accepted node vm_id r log =
      (options : List VmOption) × (task : Task) × (before : Log) × (r ≡ ok task)
      × (log ≡ World.create_vm node vm_id options (ok task) ∷ before)

  -- And its task ended well.
  abbrev EndedWell : Text → ℤ → Result Task → Log → Type 0
  EndedWell node vm_id r log =
      (ended : Task) × (r ≡ ok ended) × (exited_well w ended ≡ true) × Awaited node vm_id log

  accepted :
      (node : Text) (vm_id : ℤ) (task : Task) (log : Log)
      → Accepted node vm_id (ok task) log
      → EndedWell node vm_id
          (w.waited_answer task log)
          (World.wait task (w.waited_answer task log) ∷ log)
  accepted node vm_id task log (options, task', before, e, l) =
      let (ended, a, well) = h.awaits task log in
      (ended, a, well, (options, task, ended, before, rw (a, l, e) refl))

  await_created-Finishes :
      (m : Machine) (task : Task) (node : Text) (vm_id : ℤ) (mac : Text) (vlan : ℤ)
      → Finishes (Accepted node vm_id (ok task)) (await_created w m task node vm_id mac vlan)
  unfolding await_created
  await_created-Finishes m task node vm_id mac vlan =
      Triple-bind (EndedWell node vm_id) (Triple-call _ _ (λ log p. accepted node vm_id task log p))
        (λ done.
          Triple-result (EndedWell node vm_id) done
            (λ e. record { holds = λ log (ended, p, q, before). absurd (ground (arith, p)) })
            (λ task'.
              Triple-if (exited_well w task')
                (λ b.
                  Triple-before (λ log (ended, p, q, before). before)
                    (verify_created-Finishes m node vm_id mac vlan))
                (λ b. record {
                  holds = λ log (ended, p, q, before). absurd (ground (arith, b, p, q));
                })))

  requested :
      (node : Text) (vm_id : ℤ) (options : List VmOption) (log : Log)
      → let a = w.created_answer node vm_id options log in
        Accepted node vm_id a (World.create_vm node vm_id options a ∷ log)
  requested node vm_id options log =
      let (task, a) = h.creates node vm_id options log in (options, task, log, a, rw a refl)

  provision-Finishes :
      (m : Machine) (node : Text) (vm_id : ℤ) (mac : Text) (vlan : ℤ) (options : List VmOption)
      → Finishes Anyway (provision w m node vm_id mac vlan options)
  unfolding provision
  provision-Finishes m node vm_id mac vlan options =
      Triple-bind (Accepted node vm_id)
        (Triple-call _ _ (λ log p. requested node vm_id options log))
        (λ started.
          Triple-result (Accepted node vm_id) started
            (λ e. record { holds = λ log (o, task, before, p, l). absurd (ground (arith, p)) })
            (λ task. await_created-Finishes m task node vm_id mac vlan))

  create_with_mac-Finishes :
      (m : Machine) (class : MachineClass) (node : Text) (vm_id : ℤ) (mac : Text)
      → HasImage w m
      → Finishes Anyway (create_with_mac w m class node vm_id mac)
  unfolding create_with_mac
  create_with_mac-Finishes m class node vm_id mac image =
      Triple-bind (λ _. Anyway) any
        (λ vlan.
          Triple-bind (λ invalid log. invalid ≡ none) (known (λ o. o ≡ none) (image node))
            (λ invalid. unhindered _ invalid (provision-Finishes m node vm_id mac vlan _)))

  generate_mac-Given : (log : Log) → Given (generate_mac w log).0
  unfolding generate_mac generate_mac_address ◌>>=◌ call return
  generate_mac-Given log =
      let (bytes, e) = h.draws log in
      elim (Bool-cases w.has_mac_generator) [ inl b ↦ rw (b, e) (_, refl) | inr b ↦ rw b (_, refl) ]

  create_with_id-Finishes :
      (m : Machine) (class : MachineClass) (node : Text) (vm_id : ℤ)
      → HasImage w m
      → Finishes Anyway (create_with_id w m class node vm_id)
  unfolding create_with_id
  create_with_id-Finishes m class node vm_id image =
      Triple-bind (λ made log. Given made) (known Given generate_mac-Given)
        (λ made. given _ made (λ mac. create_with_mac-Finishes m class node vm_id mac image))

  -- The last call has read the names of the nodes.
  abbrev Read : Log → Type 0
  Read log =
      (names : Result (List Text)) × (before : Log) × (log ≡ World.get_node_names names ∷ before)

  create_on_node-Finishes :
      (m : Machine) (class : MachineClass) (node : Text)
      → HasImage w m
      → Finishes Read (create_on_node w m class node)
  unfolding create_on_node
  create_on_node-Finishes m class node image =
      Triple-bind (λ vm_id log. is_zero vm_id ≡ false)
        (record { holds = λ log (names, before, e). rw e (h.finds m node names before) })
        (λ vm_id.
          Triple-if (is_zero vm_id) (λ b. record { holds = λ log p. absurd (ground (arith, b, p)) })
            (λ b. anyway (create_with_id-Finishes m class node vm_id image)))

  -- The choice among the nodes that were read.
  abbrev Chosen : Result Text → Log → Type 0
  Chosen chosen log = Read log × (node : Text) × (chosen ≡ ok node)

  pub place-Finishes :
      (m : Machine) (class : MachineClass) → HasImage w m → Finishes Anyway (place w m class)
  unfolding place
  place-Finishes m class image =
      Triple-bind (λ names log. Chosen (choose w names) log)
        (Triple-call _ _ (λ log p. let (node, e) = h.chooses log in ((_, log, refl), node, e)))
        (λ names.
          Triple-result Chosen (choose w names)
            (λ e. record { holds = λ log (r, node, p). absurd (ground (arith, p)) })
            (λ node.
              Triple-before (λ log (r, node, p). r) (create_on_node-Finishes m class node image)))
