-- ===== src/Daemon/Create/Records.antt =====
-- internal/daemon/create.go: the records that CreateMachine writes, and what it undoes of them.
use computer_host.Base.{
  String, none, some, List, [], ◌∷◌, ◌++◌, ℤ, trim_space, string_key, if◌then◌else◌,
}
use computer_host.Model.{
  MachineId, VolumeId, MachineRecord, MachinePhase, VolumeRecord, GuestConfig, Time,
}
use computer_host.Host.Exec.{
  Attempt, value, failed, ◌>>=◌, ◌>>◌, pure, try, ignore, for_each, on_error,
}
use computer_host.Host.World.{MachineState, delete_vm, remove_file}
use computer_host.Host.Calls.{Host, on_store, run, now}
use computer_host.Store.Machines.{create_machine}
use computer_host.Store.Volumes.{get_volume, create_volume, update_volume, delete_volume}
use computer_host.Daemon.MachinePorts.{default_machine_ports}
use computer_host.Daemon.Files.{system_volume_id, resolve_requested_memory_mib}
use computer_host.Daemon.Startup.{complete_machine_startup}
use computer_host.Daemon.Create.{CreateMachineRequest, Gathered, system_volume_of}

-- What is undone of one attached volume.
unfoldable pub release_volume : VolumeId → Attempt VolumeRecord → Host (Unit {0})
unfolding ◌>>=◌ pure ignore
release_volume id (failed e) = pure tt
release_volume id (value v) =
    if v.delete_on_machine_delete
    then ignore (run (remove_file v.path)) >> ignore (on_store (delete_volume id))
    else ignore (on_store (update_volume (record v { attached_machine_id = none })))

unfoldable pub release_by_id : VolumeId → Host (Unit {0})
unfolding ◌>>=◌ try release_volume
release_by_id id = do found ← try (on_store (get_volume id)); release_volume id found

unfoldable pub drop_machine : VolumeId → MachineState → Host (Unit {0})
unfolding ◌>>=◌ ignore
drop_machine system_id state = do
  ignore (on_store (delete_volume system_id))
  ignore (run (delete_vm state.id))

-- One volume of the user is attached, and then the rest of them; `attached` are those so far.
unfoldable pub attach_then :
    MachineId
    → MachineState
    → List VolumeId
    → VolumeRecord
    → Host (List VolumeId)
    → Host (List VolumeId)
unfolding ◌>>=◌ on_error for_each release_by_id drop_machine
attach_then id state attached v rest = do
  on_error (for_each attached release_by_id >> drop_machine (system_volume_id id) state)
      (on_store (update_volume (record v { attached_machine_id = some id })))
  rest

-- The loop that attaches the volumes of the user.
unfoldable pub attach_volumes :
    MachineId → MachineState → List VolumeId → List VolumeRecord → Host (List VolumeId)
unfolding pure attach_then
attach_volumes id state attached [] = pure attached
attach_volumes id state attached (v ∷ vs) =
    attach_then id state attached v (attach_volumes id state (attached ++ v.id ∷ []) vs)

abbrev pub created_record :
    CreateMachineRequest
    → ℤ
    → GuestConfig
    → List VolumeId
    → MachineState
    → Gathered
    → Time
    → MachineRecord
created_record req storage_bytes config volume_ids state g created_at = record {
  id = req.machine_id;
  artifact = req.artifact;
  memory_mib = resolve_requested_memory_mib req.memory_mib;
  storage_bytes = storage_bytes;
  guest_config = some config;
  system_volume_id = system_volume_id req.machine_id;
  user_volume_ids = volume_ids;
  runtime_host = state.runtime_host;
  tap_device = state.tap_name;
  ports = default_machine_ports;
  guest_ssh_public_key = trim_space g.guest_host_key;
  guest_ready_nonce = g.ready_nonce;
  phase = MachinePhase.starting;
  error = "";
  pid = state.pid;
  socket_path = state.socket_path;
  created_at = created_at;
  started_at = state.started_at;
}

-- What CreateMachine undoes where the record of the machine cannot be written.
unfoldable pub undo_records :
    MachineId → MachineState → VolumeRecord → List VolumeRecord → Host (Unit {0})
unfolding ◌>>=◌ ignore for_each drop_machine
undo_records id state workspace externals = do
  for_each externals
      (λ v. ignore (on_store (update_volume (record v { attached_machine_id = none }))))
  ignore (run (remove_file workspace.path))
  ignore (on_store (delete_volume workspace.id))
  drop_machine (system_volume_id id) state

-- CreateMachine, once the machine was booted: its records are written.
unfoldable pub record_machine :
    CreateMachineRequest
    → ℤ
    → GuestConfig
    → String
    → Gathered
    → VolumeRecord
    → MachineState
    → Host MachineRecord
unfolding ◌>>=◌ ignore on_error drop_machine attach_volumes undo_records
record_machine req storage_bytes config path g workspace state = do
  created_at ← now
  on_error (ignore (run (delete_vm state.id)))
      (on_store (create_volume (system_volume_of req.machine_id req.artifact path created_at)))
  on_error
      (ignore (run (remove_file workspace.path))
        >> drop_machine (system_volume_id req.machine_id) state)
      (on_store (create_volume workspace))
  volume_ids ← attach_volumes req.machine_id state (workspace.id ∷ []) g.user_volumes
  let r = created_record req storage_bytes config volume_ids state g created_at
  on_error (undo_records req.machine_id state workspace g.user_volumes)
      (on_store (create_machine r))
  complete_machine_startup r state
