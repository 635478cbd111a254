-- ===== src/Controller/Setup.antt =====
-- machine_controller.go, lines 243 to 287: how the controller is set up with the manager.
use proxmox_operator.Base.{List, [], ◌∷◌, Option, none, some, Bool, false, if◌then◌else◌}
use proxmox_operator.Base.Int.{ℤ, pos, is_positive}
use proxmox_operator.Base.Text.{Text, text}
use proxmox_operator.Config.{Config}
use proxmox_operator.Crd.{Machine, is_proxmox}

-- The number of reconciliations that may run at once.
unfoldable pub max_concurrent : ℤ → ℤ
max_concurrent setting = if is_positive setting then setting else pos 5

-- The watch filter: the events of an object that is a Machine of this provider pass, of all four
-- kinds; `none` is an object of another type.
unfoldable pub proxmox_machine_predicate : Option Machine → Bool
proxmox_machine_predicate none = false
proxmox_machine_predicate (some m) = is_proxmox m.spec.provider

-- What the builder of controllers is given: the kind that is reconciled, those that are watched and that are owned, and
-- the filter of the events of all of them.
pub record ControllerOptions : Type 0 where
  pub for_kind : Text
  pub watches : List Text
  pub owns : List Text
  pub event_filter : Option Machine → Bool
  pub max_concurrent_reconciles : ℤ
  pub named : Text

-- `SetupWithManager`, up to the call of `Complete`.
unfoldable pub controller_options : Config → ControllerOptions
controller_options c = record {
  for_kind = text "Machine";
  watches = text "MachineClass" ∷ [];
  owns = text "NetworkConfiguration" ∷ [];
  event_filter = proxmox_machine_predicate;
  max_concurrent_reconciles = max_concurrent c.max_concurrent_reconciles;
  named = text "proxmox-machine";
}
