-- ===== src/Daemon/Snapshots/Restore/Records.antt =====
-- internal/daemon/snapshot.go: the records that RestoreSnapshot writes, and what it undoes of them.
use computer_host.Base.{String, some, List, [], ◌∷◌, ℤ, trim_space, string_key}
use computer_host.Model.{
  MachineId, VolumeId, MachineRecord, MachinePhase, VolumeRecord, GuestConfig, Time,
}
use computer_host.Host.Exec.{◌>>=◌, ◌>>◌, pure, ignore, for_each, on_error, wrapping}
use computer_host.Host.World.{MachineState, delete_vm}
use computer_host.Host.Calls.{Host, on_store, run, now}
use computer_host.Store.Machines.{create_machine}
use computer_host.Store.Volumes.{create_volume, delete_volume}
use computer_host.Daemon.MachinePorts.{default_machine_ports}
use computer_host.Daemon.Files.{system_volume_id, resolve_requested_memory_mib}
use computer_host.Daemon.Create.{system_volume_of}
use computer_host.Daemon.Create.Records.{drop_machine}
use computer_host.Daemon.Snapshots.Restored.{RestoreSnapshotRequest}
use computer_host.Daemon.Snapshots.Restore.{Found}

-- What is undone where a record of the restored machine cannot be written.
unfoldable pub undo_restored : MachineId → MachineState → List VolumeRecord → Host (Unit {0})
unfolding ◌>>=◌ ignore for_each drop_machine
undo_restored id state volumes = do
  for_each volumes (λ v. ignore (on_store (delete_volume v.id)))
  drop_machine (system_volume_id id) state

abbrev entered_volume : RestoreSnapshotRequest → Time → VolumeRecord → VolumeRecord
entered_volume req created_at v = record v {
  attached_machine_id = some req.machine_id;
  source_artifact = some req.artifact;
  created_at = created_at;
}

-- The record of one volume, and then those of the rest; `entered` are the volumes so far, the last one
-- first.
unfoldable pub enter_volumes :
    RestoreSnapshotRequest
    → MachineState
    → Time
    → List VolumeRecord
    → List VolumeRecord
    → Host (Unit {0})
unfolding ◌>>=◌ pure on_error wrapping undo_restored
enter_volumes req state created_at entered [] = pure tt
enter_volumes req state created_at entered (v ∷ vs) =
    on_error (undo_restored req.machine_id state entered) (
      wrapping "create restored user volume record"
        (on_store (create_volume (entered_volume req created_at v))))
    >> enter_volumes req state created_at (v ∷ entered) vs

abbrev ids_of : List VolumeRecord → List VolumeId
ids_of [] = []
ids_of (v ∷ vs) = v.id ∷ ids_of vs

abbrev pub restored_record :
    RestoreSnapshotRequest
    → ℤ
    → GuestConfig
    → List VolumeId
    → MachineState
    → Found
    → Time
    → MachineRecord
restored_record req storage_bytes config volume_ids state found created_at = record {
  id = req.machine_id;
  artifact = req.artifact;
  memory_mib = resolve_requested_memory_mib req.memory_mib;
  storage_bytes = storage_bytes;
  guest_config = some config;
  system_volume_id = system_volume_id req.machine_id;
  user_volume_ids = volume_ids;
  runtime_host = state.runtime_host;
  tap_device = state.tap_name;
  ports = default_machine_ports;
  guest_ssh_public_key = trim_space found.guest_host_key;
  guest_ready_nonce = found.ready_nonce;
  phase = MachinePhase.starting;
  error = "";
  pid = state.pid;
  socket_path = state.socket_path;
  created_at = created_at;
  started_at = state.started_at;
}

-- The records of a restored machine that was booted.
unfoldable pub record_restored :
    RestoreSnapshotRequest
    → ℤ
    → GuestConfig
    → String
    → List VolumeRecord
    → Found
    → MachineState
    → Host MachineRecord
unfolding ◌>>=◌ pure ignore on_error wrapping enter_volumes undo_restored
record_restored req storage_bytes config path volumes found state = do
  created_at ← now
  on_error (ignore (run (delete_vm state.id))) (
      wrapping "create system volume record for restore"
        (on_store (create_volume (system_volume_of req.machine_id req.artifact path created_at))))
  enter_volumes req state created_at [] volumes
  let r = restored_record req storage_bytes config (ids_of volumes) state found created_at
  on_error (undo_restored req.machine_id state volumes) (on_store (create_machine r))
  pure r
