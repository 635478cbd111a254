-- ===== src/Main.antt =====
-- cmd/main.go: the start of the operator, up to the end of the manager. The logging and the manager are
-- the libraries'.
pub mod Options
pub mod Startup
pub mod Serving
pub mod Ending
use proxmox_operator.Base.{Option, none, some}
use proxmox_operator.Base.Text.{Text, text}
use proxmox_operator.Controller.Setup.{ControllerOptions, controller_options}
use proxmox_operator.Main.Options.{Flags, ManagerOptions, manager_options}
use proxmox_operator.Base.Errors.{Error, Result, ok, err}
use proxmox_operator.Config.{Config}
use proxmox_operator.ProxmoxClient.{Client, new_proxmox_client_from_config}
use proxmox_operator.World.{World, M, ◌>>=◌, ◌>>◌, return}
use proxmox_operator.InitializeService.{check_proxmox_connection, ensure_machine_provider}

-- The client that `main` makes for the reconciler.
abbrev pub operator_client : Config → Result Client
operator_client c =
    new_proxmox_client_from_config c.proxmox_endpoint c.proxmox_username c.proxmox_password
      c.proxmox_token_id c.proxmox_token_secret c.proxmox_insecure_tls

-- The manager is made, with `manager_error` as its error, and then the client.
abbrev pub with_manager : Config → (manager_error : Option Error) → Result Client
with_manager c none = operator_client c
with_manager c (some e) = err e

-- `CheckPrerequisites`: `crd_error` is the outcome of `crdcheck.MustEnsureInstalled`.
unfoldable pub check_prerequisites : World → (crd_error : Option Error) → M (Option Error)
check_prerequisites w none = check_proxmox_connection w
check_prerequisites w (some e) = return (some e)

-- `main` up to the client of the reconciler; an error ends the program.
unfoldable pub start_operator : World → (crd_error manager_error : Option Error) → M (Result Client)
start_operator w crd_error manager_error = check_prerequisites w crd_error >>= λ failure.
    elim failure [ some e ↦ return (err e) | none ↦ return (with_manager w.config manager_error) ]

-- `machineProviderInitializer.Start`: it fails never, so that the manager goes on.
unfoldable pub start_initializer : World → (proxmox_type : Text) → M (Option Error)
start_initializer w proxmox_type = do ensure_machine_provider w proxmox_type; return none

-- The manager of controller-runtime: what its making, its methods and its run end with, none if there
-- is no error. A run ends when the program is told to stop.
pub record Runtime : Type 0 where
  pub new_manager : ManagerOptions → Option Error
  pub complete : ControllerOptions → Option Error
  pub add_healthz_check : Text → Option Error
  pub add_readyz_check : Text → Option Error
  pub add_initializer : Option Error
  pub start : Client → Option Error

-- How the program ends: with the exit code 1 after an error, or after the run of the manager, whose
-- reconciler has this client.
pub data Outcome : Type 0 where
  exited : Error → Outcome
  returned : Client → Outcome

-- An error ends the program, and without one it goes on.
abbrev pub or_exit : Option Error → Outcome → Outcome
or_exit none rest = rest
or_exit (some e) rest = exited e

-- From the setting up of the controller on.
unfoldable pub run_manager : Runtime → Config → Client → Outcome
run_manager rt c client = or_exit (rt.complete (controller_options c)) (
    or_exit (rt.add_healthz_check (text "healthz")) (
      or_exit (rt.add_readyz_check (text "readyz"))
        (or_exit rt.add_initializer (or_exit (rt.start client) (returned client)))))

-- `main`
unfoldable pub main : World → Runtime → Flags → (crd_error : Option Error) → M Outcome
main w rt flags crd_error = do
  made ← start_operator w crd_error (rt.new_manager (manager_options flags))
  elim made [ err e ↦ return (exited e) | ok client ↦ return (run_manager rt w.config client) ]
