-- ===== src/Daemon/Records.antt =====
-- internal/daemon/lifecycle.go: what is done to a machine once its record was read and its operation
-- was written to the journal.
use computer_host.Base.{
  ℕ, zero, suc, String, Bool, true, false, not, ◌&&◌, Option, none, some, List, message, ℤ, ltb_ℤ,
  is_blank, is_not_found, ◌=?◌, string_key, dir, if◌then◌else◌,
}
use computer_host.Model.{
  MachineId, MachineRecord, MachinePhase, VolumeRecord, PublishedPortRecord, is_running, is_stopped,
}
use computer_host.Host.Exec.{
  Attempt, value, failed, ◌>>=◌, ◌>>◌, pure, raise, gets, try, ignore, when, refuse_if, for_each,
}
use computer_host.Host.World.{
  MachineState, delete_vm, inspect, sync_guest, poweroff_guest, stat_file, truncate_file,
}
use computer_host.Host.Calls.{Host, on_store, remove_tree, call, run, remove_present}
use computer_host.Store.Machines.{update_machine, delete_machine}
use computer_host.Store.Volumes.{get_volume, list_volumes, update_volume, delete_volume}
use computer_host.Store.Ports.{list_published_ports, delete_published_port}
use computer_host.Daemon.Files.{resolve_requested_memory_mib}
use computer_host.Daemon.Startup.{is_phase_running}
use computer_host.Daemon.Relays.{stop_machine_relays}
use computer_host.Daemon.PublishedPorts.{stop_published_ports_for_machine}

-- The number of inspections in shutdownGuestClean: one at once, and one at each of the ticks of 250
-- milliseconds in the 10 seconds of defaultGuestStopTimeout.
abbrev pub stop_rounds : ℕ
stop_rounds = 41

unfoldable pub after_inspection : Host Bool → Attempt MachineState → Host Bool
unfolding pure
after_inspection later (failed _) = pure false
after_inspection later (value state) = if is_phase_running state.phase then later else pure true

-- One inspection. The loop ends where the machine does not run, where the inspection fails, or where a
-- context is done.
unfoldable pub inspect_then : MachineRecord → Host Bool → Host Bool
unfolding ◌>>=◌ pure gets try after_inspection
inspect_then r rest = do
  state ← try (call (inspect r.id) (λ env n. env.inspected n))
  is_done ← gets (λ w. w.env.answer w.clock)
  after_inspection (if is_done then pure false else rest) state

-- The loop of shutdownGuestClean.
unfoldable pub await_exit : MachineRecord → ℕ → Host Bool
unfolding pure
await_exit r zero = pure false
await_exit r (suc rounds) = inspect_then r (await_exit r rounds)

unfoldable pub after_poweroff : MachineRecord → Bool → Attempt (Unit {0}) → Host Bool
unfolding pure
after_poweroff r timed_out (value _) = await_exit r stop_rounds
after_poweroff r timed_out (failed _) = if timed_out then await_exit r stop_rounds else pure false

-- shutdownGuestClean; the environment says whether a failed poweroff ran into its deadline.
unfoldable pub shutdown_guest_clean : MachineRecord → Host Bool
unfolding ◌>>=◌ gets try after_poweroff
shutdown_guest_clean r = do
  timed_out ← gets (λ w. w.env.answer w.clock)
  asked ← try (run (poweroff_guest r.runtime_host))
  after_poweroff r timed_out asked

-- The record of a machine that was stopped.
abbrev pub stopped_record : MachineRecord → MachineRecord
stopped_record r = record r {
  phase = MachinePhase.stopped;
  error = "";
  guest_ready_nonce = "";
  pid = 0;
  socket_path = "";
  runtime_host = "";
  tap_device = "";
  started_at = none;
}

-- The part of stopMachineRecord before the record is written.
unfoldable pub take_down : MachineRecord → Host (Unit {0})
unfolding ◌>>=◌ ignore when
take_down r = do
  stop_machine_relays r.id
  stop_published_ports_for_machine r.id
  when (is_running r.phase && not (is_blank r.runtime_host))
      (do ignore (run (sync_guest r.runtime_host)); ignore (shutdown_guest_clean r))
  run (delete_vm r.id)

-- stopMachineRecord; the record that the caller's pointer shows afterwards is returned.
unfoldable pub stop_machine_record : MachineRecord → Host MachineRecord
unfolding ◌>>=◌ pure
stop_machine_record r = do
  take_down r
  on_store (update_machine (stopped_record r))
  pure (stopped_record r)

-- The record of a machine that was resized.
abbrev pub resized_record : MachineRecord → ℤ → ℤ → MachineRecord
resized_record r memory_mib storage_bytes = record (stopped_record r) {
  memory_mib = resolve_requested_memory_mib memory_mib;
  storage_bytes = storage_bytes;
}

-- A running machine is stopped first.
unfoldable pub stopped_first : MachineRecord → Host MachineRecord
unfolding pure
stopped_first r = if is_running r.phase then stop_machine_record r else pure r

-- The disk grows to the requested size; a smaller one is refused.
unfoldable pub grow_disk : String → ℤ → Host (Unit {0})
unfolding ◌>>=◌ refuse_if when
grow_disk path storage_bytes = do
  size ← call (stat_file path) (λ env n. env.size n)
  refuse_if (ltb_ℤ storage_bytes size)
      (message "requested storage is smaller than current system volume" "")
  when (ltb_ℤ size storage_bytes) (run (truncate_file path storage_bytes))

-- resizeMachineRecord.
unfoldable pub resize_machine_record : MachineRecord → ℤ → ℤ → Host (Unit {0})
unfolding ◌>>=◌ refuse_if stopped_first
resize_machine_record r memory_mib storage_bytes = do
  refuse_if (not (is_running r.phase) && not (is_stopped r.phase))
      (message "machine is not resizable from phase" r.id)
  refuse_if (ltb_ℤ storage_bytes r.storage_bytes)
      (message "requested storage is smaller than current storage" "")
  system_volume ← on_store (get_volume r.system_volume_id)
  stopped ← stopped_first r
  grow_disk system_volume.path storage_bytes
  on_store (update_machine (resized_record stopped memory_mib storage_bytes))

-- A missing record is no error.
unfoldable pub absent_or_raised : Attempt (Unit {0}) → Host (Unit {0})
unfolding pure raise
absent_or_raised (value _) = pure tt
absent_or_raised (failed e) = if is_not_found e then pure tt else raise e

abbrev pub is_attached_to : MachineId → Option MachineId → Bool
is_attached_to id none = false
is_attached_to id (some owner) = owner =? id

-- The body of the loop of detachVolumesForMachine.
unfoldable pub detach_volume : MachineId → VolumeRecord → Host (Unit {0})
unfolding ◌>>=◌ pure try absent_or_raised
detach_volume id volume =
    if not (is_attached_to id volume.attached_machine_id)
    then pure tt
    else if volume.delete_on_machine_delete
    then (do
      remove_present volume.path
      deleted ← try (on_store (delete_volume volume.id))
      absent_or_raised deleted)
    else on_store (update_volume (record volume { attached_machine_id = none }))

-- detachVolumesForMachine.
unfoldable pub detach_volumes_for_machine : MachineId → Host (Unit {0})
unfolding ◌>>=◌ for_each
detach_volumes_for_machine id = do
  volumes ← on_store list_volumes
  for_each volumes (detach_volume id)

unfoldable pub forget_ports : Attempt (List PublishedPortRecord) → Host (Unit {0})
unfolding pure for_each ignore
forget_ports (failed _) = pure tt
forget_ports (value ports) =
    for_each ports (λ port. ignore (on_store (delete_published_port port.id)))

-- The part of deleteMachineRecord before the record is deleted.
unfoldable pub clean_up : MachineRecord → Host (Unit {0})
unfolding ◌>>=◌ try forget_ports
clean_up r = do
  stop_machine_relays r.id
  stop_published_ports_for_machine r.id
  run (delete_vm r.id)
  ports ← try (on_store (list_published_ports r.id))
  forget_ports ports
  detach_volumes_for_machine r.id
  system_volume ← on_store (get_volume r.system_volume_id)
  remove_present system_volume.path
  remove_tree (dir system_volume.path)
  on_store (delete_volume r.system_volume_id)

-- deleteMachineRecord.
unfoldable pub delete_machine_record : MachineRecord → Host (Unit {0})
unfolding ◌>>=◌
delete_machine_record r = do clean_up r; on_store (delete_machine r.id)
