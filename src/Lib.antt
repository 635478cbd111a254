-- ===== src/Lib.antt =====
-- The Proxmox operator: a Kubernetes controller that keeps a virtual machine in Proxmox VE for each
-- object of the kind Machine whose provider is Proxmox.
--
-- The program and its model, file by file:
-- * internal/controller/v1alpha1/machine_controller.go and machine_reconcile_phases.go are the
--   controller. Controller/Reconcile.antt has `Reconcile`, `handleDeletion`, `ensureFinalizer`,
--   `getMachineClass` and `reconcileByPhase`; Controller/Setup.antt has `SetupWithManager` with its event
--   filter; Controller/Create.antt has `reconcileCreate`,
--   `checkExistingVM`, and Controller/Create/Inputs.antt `findAvailableVMID`, `generateVMID`,
--   `generateMACAddress`, `getVLANTag` and `validateISO`;
--   Controller/Run.antt has `reconcileRunning`; Controller/Terminate.antt has `reconcileTerminating` and
--   `stopVM`; Controller/Status.antt has `updateStatusWithRetry`, `setCondition`, `updateVMStatus` and
--   `updateNetworkStatus`; DiskStatus.antt has `updateDiskStatus`, the readers of Proxmox's disk settings
--   and `mapProxmoxDiskToDevice`. A long function is a chain of definitions, each of which goes on with the
--   next one where the code does so behind an early return.
-- * internal/helpers/providerid/providerid.go is ProviderId.antt, internal/helpers/network/network.go
--   is Network.antt, pkg/macaddress/viti_stack_mac.go is MacAddress.antt,
--   internal/services/nodeselection/nodeselection.go is NodeSelection.antt,
--   internal/services/vmbuilder/vmbuilder.go is VmBuilder.antt, and
--   internal/services/networkconfiguration/networkconfiguration.go is NetworkConfiguration.antt.
-- * internal/services/proxmox/client.go is ProxmoxClient.antt, which has the client's options and the
--   choice of its authentication, and ProxmoxClient/Calls.antt, which has its calls over the library
--   go-proxmox. internal/services/initializeservice/initializeservice.go is InitializeService.antt.
-- * cmd/main.go is Main.antt, which has `main` from the test of the connection to the end of the manager, and
--   Main/Options.antt, which has the flags and the options that they give the manager and its two servers.
-- * internal/settings/settings.go and internal/consts/consts.go are Config.antt: the settings are a
--   record, which viper reads in the program. Config/Printing.antt has the lines that are logged of them.
-- * Crd.antt has the fields that the operator uses of the custom resources, which are declared in another
--   repository.
-- The modules below a file hold its theorems, and Tests holds runs at concrete inputs: Tests/Conflicts.antt and
-- Tests/Orphans.antt run the controller where a status update meets a conflict, and where the task of a creation,
-- a stop or a deletion fails.
--
-- The outside. World.antt says what the controller calls: the Kubernetes API, the Proxmox API, the clock
-- and crypto/rand. A program takes the list of the calls made so far, with their answers, and returns a
-- result and the longer list. The answers are a parameter, the record World: functions from the request and
-- the calls made before to the answer. The theorems speak of every World and so of every way in which the
-- outside may behave, including errors and other writers between two calls. Where a theorem needs a server
-- that stores what it is sent, this is its hypothesis Stores. World/Makes.antt, World/Triple.antt and
-- World/Calls.antt have the rules by which a property of a handler follows from those of its parts: the
-- kinds of calls, conditions on the log before and after, and the number of calls. math/rand is the
-- parameter Random, of which only the range of its results is known.
--
-- Controller/Lifecycle.antt has the machine's phases as a relation of steps, and the ways through them that
-- a log of calls shows; the modules below it follow the handlers through one reconciliation.
-- Controller/History.antt has the logs of many reconciliations, each with answers of its own. Below it,
-- Ids.antt
-- compares the IDs of the VMs of different machines, Store.antt reads the stored phase off the log, and Lifetime.antt follows a machine in a cluster whose store
-- keeps the statuses that it is sent, which is the hypothesis Serves. Controller/Footprint.antt says which kinds of
-- calls the phases make, and Controller/Reconcile/Keeping.antt how a property of the calls passes from the
-- phases to a whole reconciliation. Controller/Progress.antt has the rules for the case that all goes well, where a
-- creation and a deletion end with a success; the records Healthy, Obeys and Reachable say what that is.
--
-- Texts are lists of bytes, and upper and lower case are those of ASCII. An int is an integer with the
-- wrap-around of 64 bits where the code computes with it. The errors have a message and a reason, which is
-- all that the operator looks at. Base has models of the parts of Go's standard library that are used:
-- strings, strconv, fmt and errors; Network/Parse.antt has net.ParseIP. Reading a decimal fraction and
-- multiplying it in float64 is a parameter, `scan_scaled` of the World. The loops over maps visit the
-- entries in some order, which the lists of VmDisks give.
--
-- Bounds and fuel. The search for a free VM ID has the 100 rounds of the code. Printing a number n has the
-- fuel n, which is at least the number of its divisions by 10. An IPv6 address has at most 9 groups to
-- be read. All other loops recur on the list that they read.
--
-- Not modelled: the parsing of the flags, the client and the configuration of the cluster (`k8sclient.Init` and
-- `GetConfigOrDie`, which may end the program), the logging and the registration of the types in cmd/main.go, and
-- the tests' utilities, which are input and output. The manager of controller-runtime is the parameter Runtime of Main.antt:
-- what each call of it ends with. The library go-proxmox is a parameter of
-- ProxmoxClient/Calls.antt; the controller meets the client's calls through the World, which answers them. A
-- nil VM without an error makes the termination panic; the model returns the error into which the manager
-- turns it. A request that is accepted has a task: a nil task without an error, on which the program would panic,
-- is no answer of a World. The recovery from a panic in the test of the connection gives an error, as a failed
-- call does.
-- Two reconciliations do not run at the same time in a History: the manager runs one at a time for a
-- machine.

pub mod Base
pub mod Config
pub mod Crd
pub mod ProviderId
pub mod MacAddress
pub mod NodeSelection
pub mod Network
pub mod VmBuilder
pub mod ProxmoxClient
pub mod World
pub mod NetworkConfiguration
pub mod InitializeService
pub mod Main
pub mod DiskStatus
pub mod Controller
pub mod Tests
