-- ===== src/Main/Ending.antt =====
-- How the program ends.
use proxmox_operator.Base.{◌≡◌, ap, ◌↔◌, Option, none, some, arith}
use proxmox_operator.Base.Errors.{Error, Result, ok, err}
use proxmox_operator.Config.{Config}
use proxmox_operator.ProxmoxClient.{Client}
use proxmox_operator.World.{World, Log, M, ◌>>=◌, return}
use proxmox_operator.Controller.Setup.{controller_options}
use proxmox_operator.InitializeService.{check_proxmox_connection}
use proxmox_operator.Main.Options.{Flags, manager_options}
use proxmox_operator.Main.{
  M, text, Runtime, Outcome, exited, returned, run_manager, main, start_operator,
  check_prerequisites, operator_client,
}

-- No call of the manager for this client fails.
abbrev pub Works : Runtime → Config → Client → Type 0
Works rt c client =
    (rt.complete (controller_options c) ≡ none)
    × (rt.add_healthz_check (text "healthz") ≡ none)
    × (rt.add_readyz_check (text "readyz") ≡ none)
    × (rt.add_initializer ≡ none)
    × (rt.start client ≡ none)

run_manager_lem :
    (rt : Runtime) (c : Config) (client k : Client)
    → (run_manager rt c client ≡ returned k) ↔ ((client ≡ k) × Works rt c k)
unfolding run_manager
run_manager_lem rt c client k = (λ h. ground arith, λ h. ground arith)

start_operator_lem :
    (w : World) (crd_error manager_error : Option Error) (log : Log) (k : Client)
    → ((start_operator w crd_error manager_error log).0 ≡ ok k) ↔ (
        (crd_error ≡ none)
        × ((check_proxmox_connection w log).0 ≡ none)
        × (manager_error ≡ none)
        × (operator_client w.config ≡ ok k))
unfolding start_operator check_prerequisites ◌>>=◌ return
start_operator_lem w none none log k = (λ h. ground arith, λ h. ground arith)
start_operator_lem w none (some e) log k = (λ h. ground arith, λ h. ground arith)
start_operator_lem w (some e) none log k = (λ h. ground arith, λ h. ground arith)
start_operator_lem w (some e) (some e') log k = (λ h. ground arith, λ h. ground arith)

run_made : World → Runtime → Result Client → M Outcome
run_made w rt made = elim made [
  | err e ↦ return (exited e)
  | ok client ↦ return (run_manager rt w.config client)
]

run_made_lem :
    (w : World) (rt : Runtime) (made : Result Client) (log : Log) (k : Client)
    → ((run_made w rt made log).0 ≡ returned k) ↔ ((made ≡ ok k) × Works rt w.config k)
unfolding run_made return
run_made_lem w rt (err e) log k = (λ h. ground arith, λ h. ground arith)
run_made_lem w rt (ok client) log k =
    let (to, from) = run_manager_lem rt w.config client k in
    (λ h. (ap ok (to h).0, (to h).1), λ (h, works). from (ground (arith, h), works))

-- The program ends after the run of its manager, whose reconciler has the client k, exactly if the
-- CustomResourceDefinitions are installed, the test of the connection passes, the manager is made with the
-- options of the flags, the settings give the client k, and the controller, the two checks, the initializer
-- and the run all come without an error. In every other case it exits with an error.
pub main_lem :
    (w : World) (rt : Runtime) (flags : Flags) (crd_error : Option Error) (log : Log) (k : Client)
    → ((main w rt flags crd_error log).0 ≡ returned k) ↔ (
        (crd_error ≡ none)
        × ((check_proxmox_connection w log).0 ≡ none)
        × (rt.new_manager (manager_options flags) ≡ none)
        × (operator_client w.config ≡ ok k)
        × Works rt w.config k)
unfolding main run_made ◌>>=◌
main_lem w rt flags crd_error log k =
    let manager_error = rt.new_manager (manager_options flags) in
    let made = start_operator w crd_error manager_error log in
    let (to, from) = run_made_lem w rt made.0 made.1 k in
    let (to', from') = start_operator_lem w crd_error manager_error log k in
    (
      λ h. let (m, works) = to h in let (a, b, c, d) = to' m in (a, b, c, d, works),
      λ (a, b, c, d, works). from (from' (a, b, c, d), works),
    )
