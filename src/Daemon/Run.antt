-- ===== src/Daemon/Run.antt =====
-- internal/daemon/: the daemon as a process that serves requests, one after the other.
pub mod Invariant
use computer_host.Base.{
  Bool, true, false, ◌||◌, deadlock, died, unlock_of_unlocked, ℕ, String, List, [], ◌∷◌, ℤ, Outcome,
  ok, err, halt,
}
use computer_host.Model.{MachineId, SnapshotId, PublishedPortId, MountId}
use computer_host.Host.Exec.{◌>>=◌, ◌>>◌, pure}
use computer_host.Host.World.{World}
use computer_host.Host.Calls.{Host}
use computer_host.Store.FileStore.{new_file_store}
use computer_host.Daemon.Relays.{ensure_exec_relay}
use computer_host.Daemon.PublishedPorts.{
  CreatePublishedPortRequest, create_published_port, delete_published_port,
}
use computer_host.Daemon.Lifecycle.{
  reconcile_machine, start_machine, stop_machine, resize_machine, delete_machine,
}
use computer_host.Daemon.Create.{CreateMachineRequest}
use computer_host.Daemon.Create.Machine.{create_new_machine}
use computer_host.Daemon.Snapshots.{delete_snapshot_by_id}
use computer_host.Daemon.Snapshots.Take.{create_machine_snapshot}
use computer_host.Daemon.Snapshots.Restored.{RestoreSnapshotRequest}
use computer_host.Daemon.Snapshots.Restore.Machine.{restore_snapshot}
use computer_host.Daemon.Mounts.{CreateMountRequest, create_mount, delete_mount}
use computer_host.Daemon.Reconcile.{reconcile}

-- The requests that write, and the periodic Reconcile.
pub data Request : Type 0 where
  get start stop delete relay_exec : MachineId → Request
  create : CreateMachineRequest → Request
  snapshot : MachineId → SnapshotId → Request
  restore : SnapshotId → RestoreSnapshotRequest → Request
  delete_snapshot : SnapshotId → Request
  resize : MachineId → ℤ → ℤ → Request
  publish : MachineId → CreatePublishedPortRequest → Request
  unpublish : MachineId → PublishedPortId → Request
  mount : MachineId → CreateMountRequest → Request
  unmount : MachineId → MountId → Request
  reconcile_all : Request

-- Serves a request, without the body of the answer.
unfoldable pub serve : Request → Host (Unit {0})
unfolding ◌>>=◌ pure
serve (get id) = reconcile_machine id >> pure tt
serve (start id) = start_machine id >> pure tt
serve (stop id) = stop_machine id
serve (delete id) = delete_machine id
serve (relay_exec id) = ensure_exec_relay id >> pure tt
serve (create req) = create_new_machine req >> pure tt
serve (snapshot id snapshot_id) = create_machine_snapshot id snapshot_id >> pure tt
serve (restore id req) = restore_snapshot id req >> pure tt
serve (delete_snapshot id) = delete_snapshot_by_id id
serve (resize id m n) = resize_machine id m n >> pure tt
serve (publish id req) = create_published_port id req >> pure tt
serve (unpublish id port_id) = delete_published_port id port_id
serve (mount id req) = create_mount id req >> pure tt
serve (unmount id mount_id) = delete_mount id mount_id
serve reconcile_all = reconcile

-- A process that died is started again: its memory is empty, and NewFileStore makes the files of the
-- store that are missing.
unfoldable pub restarted : World → World
unfolding new_file_store
restarted w = record w {
  store = (new_file_store w.store).1;
  held = [];
  machine_relay_listeners = [];
  published_port_listeners = [];
}

-- A request that waits forever for a mutex leaves the process as it is, with what it has locked.
unfoldable pub continued : Outcome (Unit {0}) × World → World
unfolding restarted
continued (ok _, w) = w
continued (err _, w) = w
continued (halt deadlock, w) = w
continued (halt died, w) = restarted w
continued (halt unlock_of_unlocked, w) = restarted w

abbrev waits : Outcome (Unit {0}) → Bool
waits (halt deadlock) = true
waits _ = false

-- Whether some request of a run waits forever for a mutex.
unfoldable pub hangs : List Request → World → Bool
unfolding serve continued
hangs [] w = false
hangs (q ∷ qs) w = let rest = hangs qs (continued (serve q w)) in waits (serve q w).0 || rest

unfoldable pub run_all : List Request → World → World
unfolding serve continued
run_all [] w = w
run_all (q ∷ qs) w = run_all qs (continued (serve q w))
