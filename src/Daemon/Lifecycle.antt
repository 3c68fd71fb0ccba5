-- ===== src/Daemon/Lifecycle.antt =====
-- internal/daemon/lifecycle.go: the requests that start, stop, resize and delete a machine, and
-- the check of a machine against the runtime.
use computer_host.Base.{
  ℕ, ◌&&◌, none, message, ℤ, pos, leb_ℤ, eqb_ℤ, is_not_found, string_key, if◌then◌else◌,
}
use computer_host.Model.{
  MachineId, MachineRecord, MachinePhase, MachineOperation, OperationRecord, is_starting,
  is_stopped, Time,
}
use computer_host.Host.Exec.{Attempt, value, failed, ◌>>=◌, ◌>>◌, pure, raise, try, ignore, lift}
use computer_host.Host.World.{MachineState, delete_vm, inspect}
use computer_host.Host.Calls.{Host, on_store, call, run, now, unlock_machine, with_machine_lock}
use computer_host.Store.Machines.{get_machine, update_machine}
use computer_host.Store.Operations.{upsert_operation, delete_operation}
use computer_host.Daemon.Files.{validate_machine_id}
use computer_host.Daemon.Relays.{ensure_machine_relays, stop_machine_relays}
use computer_host.Daemon.PublishedPorts.{stop_published_ports_for_machine}
use computer_host.Daemon.Startup.{is_phase_running, complete_machine_startup}
use computer_host.Daemon.Records.{stop_machine_record, resize_machine_record, delete_machine_record}
use computer_host.Daemon.Boot.{is_active, boot_stopped}

-- The journal entry of an operation.
abbrev pub operation_of : MachineId → MachineOperation → ℤ → ℤ → ℕ → OperationRecord
operation_of id type memory_mib storage_bytes started_at = record {
  machine_id = id;
  type = type;
  started_at = started_at;
  snapshot_id = none;
  memory_mib = memory_mib;
  storage_bytes = storage_bytes;
}

-- The record of a machine that was running, and is no longer.
abbrev pub lost_record : MachineRecord → MachineState → MachineRecord
lost_record r state = record r {
  phase = MachinePhase.failed;
  error = state.error;
  pid = 0;
  socket_path = "";
  runtime_host = "";
  tap_device = "";
  started_at = none;
}

-- reconcileMachine, once its record was read and is running or starting.
unfoldable pub reconcile_active : MachineRecord → Host MachineRecord
unfolding ◌>>=◌ pure
reconcile_active r = do
  state ← call (inspect r.id) (λ env n. env.inspected n)
  if is_starting r.phase
      then complete_machine_startup r state
      else if is_phase_running state.phase
      then ensure_machine_relays r
      else (do
        run (delete_vm r.id)
        stop_machine_relays r.id
        stop_published_ports_for_machine r.id
        on_store (update_machine (lost_record r state))
        pure (lost_record r state))

-- reconcileMachine.
unfoldable pub reconcile_machine : MachineId → Host MachineRecord
unfolding ◌>>=◌ pure with_machine_lock
reconcile_machine id =
    with_machine_lock id
      (do r ← on_store (get_machine id); if is_active r.phase then reconcile_active r else pure r)

-- An operation between its journal entry and the deferred removal of that entry, which a failure leaves.
unfoldable pub journaled : {A : Type 0} → MachineId → OperationRecord → Host A → Host A
unfolding ◌>>=◌ pure ignore
journaled id operation body = do
  on_store (upsert_operation operation)
  a ← body
  ignore (on_store (delete_operation id))
  pure a

-- StartMachine, once the record was read; it returns with the mutex locked, except in the second case.
unfoldable pub start_from : MachinePhase → MachineId → MachineRecord → Time → Host MachineRecord
unfolding ◌>>=◌ pure raise
start_from MachinePhase.running id r started_at = pure r
start_from MachinePhase.starting id r started_at = unlock_machine id >> reconcile_machine id
start_from MachinePhase.failed id r started_at =
    raise (message "machine is not startable from phase" id)
start_from MachinePhase.stopped id r started_at =
    journaled id (operation_of id MachineOperation.start (pos 0) (pos 0) started_at)
      (boot_stopped r)

-- StartMachine, under the machine's lock.
unfoldable pub start_locked : MachineId → Host MachineRecord
unfolding ◌>>=◌
start_locked id = do
  r ← on_store (get_machine id)
  started_at ← now
  start_from r.phase id r started_at

-- StartMachine.
unfoldable pub start_machine : MachineId → Host MachineRecord
unfolding with_machine_lock
start_machine id = with_machine_lock id (start_locked id)

-- StopMachine, for a machine that is not stopped.
unfoldable pub stop_active : MachineId → MachineRecord → Time → Host (Unit {0})
unfolding ◌>>=◌ pure
stop_active id r started_at =
    journaled id (operation_of id MachineOperation.stop (pos 0) (pos 0) started_at)
      (stop_machine_record r >> pure tt)

-- StopMachine.
unfoldable pub stop_machine : MachineId → Host (Unit {0})
unfolding ◌>>=◌ pure with_machine_lock
stop_machine id = with_machine_lock id (do
  r ← on_store (get_machine id)
  started_at ← now
  if is_stopped r.phase then pure tt else stop_active id r started_at)

-- A size that the request leaves out is the present one.
abbrev or_present : ℤ → ℤ → ℤ
or_present requested present = if leb_ℤ requested (pos 0) then present else requested

-- The part of ResizeMachine after the journal entry was written.
unfoldable pub resize_to : MachineId → MachineRecord → ℤ → ℤ → Host MachineRecord
unfolding ◌>>=◌ pure
resize_to id r memory_mib storage_bytes =
    if eqb_ℤ r.memory_mib memory_mib && eqb_ℤ r.storage_bytes storage_bytes
    then pure r
    else (do resize_machine_record r memory_mib storage_bytes; on_store (get_machine id))

-- ResizeMachine.
unfoldable pub resize_machine : MachineId → ℤ → ℤ → Host MachineRecord
unfolding ◌>>=◌ with_machine_lock lift
resize_machine id memory_mib storage_bytes = do
  lift (validate_machine_id id)
  with_machine_lock id (do
    r ← on_store (get_machine id)
    started_at ← now
    let requested_memory_mib = or_present memory_mib r.memory_mib
    let requested_storage_bytes = or_present storage_bytes r.storage_bytes
    journaled id
        (operation_of id MachineOperation.resize requested_memory_mib requested_storage_bytes
          started_at)
        (resize_to id r requested_memory_mib requested_storage_bytes))

unfoldable pub delete_found : MachineId → Attempt MachineRecord → Host (Unit {0})
unfolding ◌>>=◌ pure raise
delete_found id (failed e) = if is_not_found e then pure tt else raise e
delete_found id (value r) = do
  started_at ← now
  journaled id (operation_of id MachineOperation.delete (pos 0) (pos 0) started_at)
      (delete_machine_record r)

-- DeleteMachine of the daemon.
unfoldable pub delete_machine : MachineId → Host (Unit {0})
unfolding ◌>>=◌ try with_machine_lock delete_found
delete_machine id =
    with_machine_lock id (do found ← try (on_store (get_machine id)); delete_found id found)
