-- ===== src/Daemon/Startup.antt =====
-- internal/daemon/startup.go and failMachineStartup of lifecycle.go: a booted machine becomes ready.
pub mod Recognition
use computer_host.Base.{
  String, Bool, true, false, not, ◌&&◌, none, Error, not_found, message, external, address_in_use,
  is_blank, trim_space, ◌=?◌, string_key, if◌then◌else◌,
}
use computer_host.Model.{MachinePhase, MachineRecord}
use computer_host.Host.Exec.{Attempt, value, failed, ◌>>=◌, ◌>>◌, pure, try, ignore}
use computer_host.Host.World.{Phase, MachineState, GuestReadyResult, delete_vm, personalize}
use computer_host.Host.Calls.{Host, on_store, call, run}
use computer_host.Store.Machines.{update_machine}
use computer_host.Daemon.MachinePorts.{default_machine_ports}
use computer_host.Daemon.Relays.{ensure_machine_relays, stop_machine_relays}
use computer_host.Daemon.PublishedPorts.{
  ensure_published_ports_for_machine, stop_published_ports_for_machine,
}

-- err.Error(), without the arguments that the message quotes.
abbrev pub error_text : Error → String
error_text not_found = "store: not found"
error_text (message text name) = text
error_text (external text) = text
error_text address_in_use = "address already in use"

abbrev pub is_phase_running : Phase → Bool
is_phase_running Phase.running = true
is_phase_running Phase.stopped = false
is_phase_running Phase.failed = false

-- The record of a machine whose startup failed.
abbrev pub failed_record : MachineRecord → String → MachineRecord
failed_record r reason = record r {
  phase = MachinePhase.failed;
  error = trim_space reason;
  ports = default_machine_ports;
  guest_ready_nonce = "";
  pid = 0;
  socket_path = "";
  runtime_host = "";
  tap_device = "";
  started_at = none;
}

-- failMachineStartup.
unfoldable pub fail_machine_startup : MachineRecord → String → Host MachineRecord
unfolding ◌>>=◌ pure ignore
fail_machine_startup r reason = do
  ignore (run (delete_vm r.id))
  stop_machine_relays r.id
  stop_published_ports_for_machine r.id
  let updated = failed_record r reason
  on_store (update_machine updated)
  pure updated

-- The record of a machine whose guest answered.
abbrev pub running_record : MachineRecord → MachineState → String → MachineRecord
running_record r state guest_ssh_public_key = record r {
  runtime_host = state.runtime_host;
  tap_device = state.tap_name;
  ports = default_machine_ports;
  guest_ssh_public_key = guest_ssh_public_key;
  guest_ready_nonce = "";
  phase = MachinePhase.running;
  error = "";
  pid = state.pid;
  socket_path = state.socket_path;
  started_at = state.started_at;
}

unfoldable pub ports_ensured : MachineRecord → Attempt (Unit {0}) → Host MachineRecord
unfolding ◌>>=◌ pure
ports_ensured r (value _) = pure r
ports_ensured r (failed e) = do stop_machine_relays r.id; fail_machine_startup r (error_text e)

unfoldable pub relays_ensured : MachineRecord → Attempt MachineRecord → Host MachineRecord
unfolding ◌>>=◌ try ports_ensured
relays_ensured r (failed e) = fail_machine_startup r (error_text e)
relays_ensured r (value relayed) = do
  ensured ← try (ensure_published_ports_for_machine relayed)
  ports_ensured relayed ensured

-- The end of completeMachineStartup, after the guest was recognised.
unfoldable pub publish_running : MachineRecord → MachineState → String → Host MachineRecord
unfolding ◌>>=◌ try relays_ensured
publish_running r state guest_ssh_public_key = do
  let updated = running_record r state guest_ssh_public_key
  on_store (update_machine updated)
  relayed ← try (ensure_machine_relays updated)
  relays_ensured updated relayed

-- Why the answer of a guest is refused, or the public key that the record gets.
pub data Recognised : Type 0 where
  refused accepted : String → Recognised

abbrev key_accepted : String → String → Recognised
key_accepted expected key =
    if key =? ""
    then if expected =? ""
      then refused "guest ready response missing ssh host key"
      else accepted expected
    else if not (expected =? "") && not (key =? expected)
    then refused "guest ssh host key mismatch"
    else accepted key

abbrev pub recognise : MachineRecord → GuestReadyResult → Recognised
recognise r ready =
    let expected_nonce = trim_space r.guest_ready_nonce in
    let received_nonce = trim_space ready.ready_nonce in
    if not (expected_nonce =? "") && not (received_nonce =? expected_nonce)
    then refused "guest ready nonce mismatch"
    else key_accepted (trim_space r.guest_ssh_public_key) (trim_space ready.guest_ssh_public_key)

unfoldable pub publish_recognised : MachineRecord → MachineState → Recognised → Host MachineRecord
publish_recognised r state (refused reason) = fail_machine_startup r reason
publish_recognised r state (accepted key) = publish_running r state key

unfoldable pub answered :
    MachineRecord → MachineState → Attempt GuestReadyResult → Host MachineRecord
unfolding publish_recognised
answered r state (failed e) = fail_machine_startup r (error_text e)
answered r state (value ready) = publish_recognised r state (recognise r ready)

failure_reason : MachineState → String
failure_reason state =
    if is_blank state.error then "machine did not reach running phase" else trim_space state.error

-- completeMachineStartup.
unfoldable pub complete_machine_startup : MachineRecord → MachineState → Host MachineRecord
unfolding ◌>>=◌ try answered failure_reason
complete_machine_startup r state =
    if not (is_phase_running state.phase)
    then fail_machine_startup r (failure_reason state)
    else (do ready ← try (call (personalize r.id) (λ env n. env.ready n)); answered r state ready)
