-- ===== src/Lib.antt =====
-- computer-host: a daemon that runs Firecracker machines on one host.
--
-- The parts, and how they interact. The daemon (internal/daemon) serves requests on machines. It keeps
-- what it knows in a store of two JSON files (internal/store/file_store.go): the records of machines,
-- volumes, snapshots, mounts, published ports and artifacts, and a journal with the operation that
-- each machine is in the middle of. It boots and inspects machines by the Firecracker runtime
-- (internal/firecracker), which gives every machine a /30 network, and relays ports of the host to the
-- guests. A request locks the mutex of its machine, writes the journal, acts, writes the records and
-- clears the journal; Reconcile, which runs on a timer, finishes or undoes what the journal still has,
-- and compares every record with the runtime.
--
-- The files.
--   Base: names from the libraries; text, paths (path/filepath), integers, errors and lists as the
--     program uses them. An error is the text of fmt.Errorf with the name it quotes; `external` is an
--     error of the system, `halt` is the end of the process or a wait without end.
--   Model: internal/model/types.go and the types of contract/ that it uses, records for structs. A time
--     is a number, an int64 an integer, a PID and a port a natural number.
--   Host.Exec: Go functions that change state and return an error, as functions from a state to an
--     outcome and a state. Host.Exec.Post, Host.Exec.Yields and Host.Exec.Fails: rules for what such a
--     function keeps, what it yields, and what holds after it returns an error.
--   Host.File: a JSON file and its temporary file, with an event for each system call: it succeeds, it
--     fails, or the process dies in it (writeJSONFileAtomically, readJSONFile, initializeJSONFile,
--     updateState and updateOperations).
--   Host.Settings: internal/config/config.go, Load and Validate.
--   Host.World, Host.Calls: the host as the daemon sees it: configuration, store, locked mutexes,
--     listeners, and the calls that leave the program, whose outcomes and answers an environment gives.
--     os.RemoveAll also takes the files of the store that are the path it gets or lie below it (a
--     machine may be called ".."), and a download of RestoreSnapshot whose target is a file of the store
--     (the name of an artifact is any text) leaves there what does not decode, since an artifact is an
--     image or the state of a machine. The host keeps lists of what was removed and written.
--   Store: FileStore, one file of methods for each slice; Table has its loops. Store.Refines and
--     Store.Maps compare it with finite maps, Store.Consistent has its invariant.
--   Network: NetworkAllocator, NetworkAllocation and AllocationFromGuestIP of
--     internal/firecracker/network.go, addresses as 32-bit numbers with their wrap-around.
--   Firecracker.Spec: internal/firecracker/spec.go, the description of a machine and its checks.
--     Firecracker.Paths, Firecracker.Runtime: paths.go, launch.go and runtime.go of internal/firecracker,
--     Boot, Stop and Delete on a host with tap devices and directories of machines.
--   Daemon.MachinePorts, Relays, PublishedPorts, Files, Mounts, Startup, Records, Boot, Lifecycle,
--     Reconcile: machine_relays.go, exec_relay.go, published_ports.go, files.go, mounts.go, startup.go,
--     create.go and lifecycle.go of internal/daemon. A function with many returns is cut where an error
--     is inspected; each piece says what it is of.
--   Daemon.GuestConfigs, BuildSpec: the guest configuration, its metadata, and buildMachineSpec (files.go,
--     guest_metadata.go, guest_personalization.go, create.go). Daemon.Disks, Artifacts, Create: disks,
--     artifacts and CreateMachine (files.go, create.go), where a download is one call.
--   Daemon.Snapshots: snapshot.go and snapshot_transfer.go; Take has CreateSnapshot, Restored and Restore
--     have RestoreSnapshot. Daemon.Awake: whether a machine is left paused.
--   Daemon.Downloads: writeSparseFile and downloadFile (files.go), with an error that any call may have.
--   Daemon.StorageReport: storage_report.go, over what os.Stat and filepath.WalkDir answer.
--   Daemon.Workspace: paths and ranges of filesystem_service.go.
--   Daemon.PublishedPorts.Failure: what a port that cannot be published leaves. Daemon.Mounts.Rclone:
--     the environment that rclone gets, of mounts.go.
--   Daemon.Safe: what every request keeps. Daemon.Losses: when a file of the store may be lost.
--   Daemon.Run: the requests, one after the other. A process that dies is started again, without locked
--     mutexes or listeners, and NewFileStore makes the files of the store that are missing; a request
--     that waits forever leaves the process as it is.
--   Daemon.Results: what the record of a machine says after it is stopped, deleted or resized.
--   Tests: the theorems on a host with two machines.
--
-- Bounds. The loops over port ranges and over the blocks of a prefix run on the number of rounds
-- that the range has, so no fuel is short. The loop of shutdownGuestClean runs 41 rounds at most:
-- one inspection at once and one at each tick of 250 milliseconds in the 10 seconds it waits.
-- The waits for the PID file and the socket of a process have 1000 ticks of 10 milliseconds.
-- The loop of Stop of the runtime has no bound of its own: it runs on rounds, and a theorem says
-- how many are enough.
--
-- Not modelled: the bodies of the goroutines that copy bytes, requests that run at the same time (a
-- request is one step; the mutexes are kept to see who unlocks what), the mutexes inside one step
-- (relayAllocMu, publishedPortAllocMu, the store's), cancelled contexts, uploads of snapshots, the
-- operations of the workspace file service, HTTP, the API of Firecracker, the tools that edit images
-- and the dialogue with the guest, which are calls with an arbitrary outcome. For the daemon the
-- methods of the runtime are such calls too, which leave the files of the store as they are: Load keeps
-- the directory of the runtime apart from theirs. The goroutines of an error group run one after the
-- other.
pub mod Base
pub mod Model
pub mod Firecracker
pub mod Host
pub mod Store
pub mod Network
pub mod Daemon
pub mod Tests
