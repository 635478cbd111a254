-- ===== src/Controller/Status.antt =====
-- machine_controller.go, lines 289 to 454 and 820 to 839: the machine's status. A handler gets the
-- machine that it may change and returns the changed one.
pub mod Conditions
pub mod Addresses
use proxmox_operator.Base.{
  ℕ, ◌-◌, ◌^◌, List, [], ◌∷◌, ◌++◌, Option, none, some, Bool, true, false, leb, ltb, not, ◌&&◌,
  ◌||◌, if◌then◌else◌,
}
use proxmox_operator.Base.Int.{ℤ, pos, is_positive}
use proxmox_operator.Base.Text.{Text, text, eq_text, is_empty, has_prefix, lower, upper, to_lower}
use proxmox_operator.Base.Errors.{Error, Result, ok, err, is_conflict}
use proxmox_operator.Crd.{
  Phase, running, stopped, stopping, creating, State, of_phase, of_text, Condition, StatusInterface,
  Machine, MachineStatus, proxmox,
}
use proxmox_operator.DiskStatus.{disk_status}
use proxmox_operator.Network.{is_private_ip}
use proxmox_operator.World.{
  World, Vm, VmDisks, AgentAddress, AgentInterface, update_status, get_interfaces, M, ◌>>=◌, return,
  call, time,
}

-- The assignment to a field of `machine.Status` goes through this.
abbrev pub with_status : Machine → MachineStatus → Machine
with_status m s = record m { status = s }

abbrev pub with_phase : Phase → Machine → Machine
with_phase p m = with_status m (record m.status { phase = p })

abbrev pub with_message : Text → Machine → Machine
with_message t m = with_status m (record m.status { message = t })

-- The loop over the conditions: the first of type "Ready" is overwritten; if there is none, one is
-- appended.
unfoldable pub put_ready : Condition → List Condition → List Condition
put_ready new [] = new ∷ []
put_ready new (c ∷ cs) =
    if eq_text c.type (text "Ready")
    then record c {
      status = new.status;
      last_transition_time = new.last_transition_time;
      reason = new.reason;
      message = new.message;
    }
      ∷ cs
    else c ∷ put_ready new cs

-- `setCondition`, at the given time.
unfoldable pub put_condition : ℕ → Text → Text → Text → Machine → Machine
put_condition now status reason message m = with_status m (record m.status {
  conditions =
      put_ready
        (record {
          type = text "Ready";
          status = status;
          last_transition_time = now;
          reason = reason;
          message = message;
        })
        m.status.conditions;
})

-- The first letter in upper case and the others in lower case.
abbrev capitalised : Text → Text
capitalised [] = []
capitalised (c ∷ s) = upper c ∷ to_lower s

-- `mapProxmoxStatusToState`
unfoldable pub map_proxmox_status_to_state : Text → State
map_proxmox_status_to_state status =
    let s = to_lower status in
    if eq_text s (text "running")
    then of_phase running
    else if eq_text s (text "stopped")
    then of_phase stopped
    else if eq_text s (text "paused") || eq_text s (text "suspended")
    then of_phase stopping
    else if eq_text s (text "prelaunch")
    then of_phase creating
    else of_text (capitalised status)

-- The addresses of one interface that the loop keeps: of the first kind, or of the second, of which
-- link-local ones are passed over.
unfoldable ipv4_addresses : List AgentAddress → List Text
ipv4_addresses [] = []
ipv4_addresses (a ∷ as_) =
    if eq_text a.address_type (text "ipv4")
    then a.address ∷ ipv4_addresses as_
    else ipv4_addresses as_

unfoldable pub ipv6_addresses : List AgentAddress → List Text
ipv6_addresses [] = []
ipv6_addresses (a ∷ as_) =
    if eq_text a.address_type (text "ipv6") && not (has_prefix a.address (text "fe80:"))
    then a.address ∷ ipv6_addresses as_
    else ipv6_addresses as_

abbrev has_some : List Text → Bool
has_some [] = false
has_some (x ∷ xs) = true

unfoldable interface_status : AgentInterface → StatusInterface
unfolding ipv4_addresses ipv6_addresses
interface_status i =
    let v4 = ipv4_addresses i.addresses in
    let v6 = ipv6_addresses i.addresses in
    record {
      name = i.interface_name;
      mac_address = i.hardware_address;
      type = text "ethernet";
      state = if has_some v4 || has_some v6 then text "up" else [];
      ip_addresses = v4;
      ipv6_addresses = v6;
    }

-- The interfaces but the loopback interface.
unfoldable pub external_interfaces : List AgentInterface → List AgentInterface
external_interfaces [] = []
external_interfaces (i ∷ is) =
    if eq_text i.interface_name (text "lo")
    then external_interfaces is
    else i ∷ external_interfaces is

unfoldable pub interface_statuses : List AgentInterface → List StatusInterface
unfolding interface_status
interface_statuses [] = []
interface_statuses (i ∷ is) = interface_status i ∷ interface_statuses is

unfoldable pub all_ipv4 : List AgentInterface → List Text
unfolding ipv4_addresses
all_ipv4 [] = []
all_ipv4 (i ∷ is) = ipv4_addresses i.addresses ++ all_ipv4 is

unfoldable pub all_ipv6 : List AgentInterface → List Text
unfolding ipv6_addresses
all_ipv6 [] = []
all_ipv6 (i ∷ is) = ipv6_addresses i.addresses ++ all_ipv6 is

-- The addresses that `IsPrivateIP` takes for private, or the others.
unfoldable pub by_privacy : Bool → List Text → List Text
by_privacy private [] = []
by_privacy private (ip ∷ ips) =
    if is_private_ip ip
    then if private then ip ∷ by_privacy private ips else by_privacy private ips
    else if private
    then by_privacy private ips
    else ip ∷ by_privacy private ips

-- `updateNetworkStatus`, where the guest agent has answered.
unfoldable pub put_interfaces : List AgentInterface → MachineStatus → MachineStatus
put_interfaces answer s =
    let ifaces = external_interfaces answer in
    record s {
      network_interfaces = interface_statuses ifaces;
      ip_addresses = all_ipv4 ifaces;
      ipv6_addresses = all_ipv6 ifaces;
      private_ip_addresses = by_privacy true (all_ipv4 ifaces);
      public_ip_addresses = by_privacy false (all_ipv4 ifaces);
    }

-- `int64(vm.MaxMem)`, at most the largest int64.
abbrev memory_of : ℕ → ℤ
memory_of n = if ltb n (2 ^ 63) then pos n else pos (2 ^ 63 - 1)

abbrev keep_or : Text → Text → Text
keep_or old new = if is_empty old then new else old

-- `updateVMStatus` up to the disks, at the given time; `scan` is the world's `scan_scaled`.
unfoldable pub put_vm : (Text → ℕ → Option ℤ) → ℕ → Vm → Text → MachineStatus → MachineStatus
put_vm scan now vm node s = record s {
  last_updated = now;
  state = map_proxmox_status_to_state vm.vm_status;
  hostname = if is_empty vm.vm_name then s.hostname else vm.vm_name;
  cpus = if is_positive vm.vm_cpus then vm.vm_cpus else s.cpus;
  memory = if ltb 0 vm.max_mem then memory_of vm.max_mem else s.memory;
  provider = some proxmox;
  region = keep_or s.region node;
  zone = keep_or s.zone node;
  disks = elim vm.vm_disks [ none ↦ s.disks | some config ↦ disk_status scan config ];
}

module _ (w : World) where
  -- `updateStatusWithRetry`: a conflict is no error. The machine is what the server answers, or stays.
  unfoldable pub update_status_with_retry : Machine → M (Option Error × Machine)
  update_status_with_retry m = do
    answer ← call (w.update_status_answer m) (update_status m)
    elim answer [
      | ok m' ↦ return (none, m')
      | err e ↦ if is_conflict e then return (none, m) else return (some e, m)
    ]

  unfoldable pub set_condition : Text → Text → Text → Machine → M Machine
  set_condition status reason message m = do
    now ← time w
    return (put_condition now status reason message m)

  unfoldable pub update_network_status : Machine → M Machine
  update_network_status m = do
    answer ← call w.interfaces_answer get_interfaces
    elim answer [
      | err e ↦ return m
      | ok ifaces ↦ return (with_status m (put_interfaces ifaces m.status))
    ]

  -- `updateVMStatus`; without a VM it changes nothing.
  unfoldable pub update_vm_status : Option Vm → Text → Machine → M Machine
  unfolding update_network_status
  update_vm_status none node m = return m
  update_vm_status (some vm) node m = do
    now ← time w
    let m' = with_status m (put_vm w.scan_scaled now vm node m.status)
    if vm.agent && eq_text vm.vm_status (text "running")
        then update_network_status m'
        else return m'
