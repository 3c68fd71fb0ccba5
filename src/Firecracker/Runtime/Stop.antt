-- ===== src/Firecracker/Runtime/Stop.antt =====
-- internal/firecracker/runtime.go: Stop and Delete.
pub mod Ends
use computer_host.Base.{
  ℕ, zero, suc, String, Bool, true, false, not, ◌&&◌, Option, message, deadlock, Outcome, halt, ltb,
  is_blank, if◌then◌else◌,
}
use computer_host.Host.Exec.{
  Attempt, value, failed, ◌>>=◌, ◌>>◌, pure, raise, try, lift, wrapping, when,
}
use computer_host.Host.World.{MachineState}
use computer_host.Network.{allocation_from_guest_ip}
use computer_host.Firecracker.Paths.{build_machine_paths}
use computer_host.Firecracker.Runtime.{
  RuntimeWorld, Runs, act, take_away, ask, without_tap, without_dir, with_signal,
}
use computer_host.Firecracker.Runtime.Boot.{Runtime}

-- processExists.
unfoldable pub process_exists : ℕ → Runs Bool
unfolding pure ask
process_exists pid = if ltb 0 pid then ask (λ env n. env.is_alive n) else pure false

-- An error that says that the process is done is none.
unfoldable pub done_or_raise : Bool → Attempt (Unit {0}) → Runs (Unit {0})
unfolding pure raise
done_or_raise is_done (value u) = pure tt
done_or_raise is_done (failed e) = if is_done then pure tt else raise e

unfoldable pub send_signal : ℕ → Runs (Unit {0})
unfolding ◌>>=◌ try act ask done_or_raise
send_signal pid = do
  is_done ← ask (λ env n. env.answer n)
  sent ← try (act (with_signal pid))
  done_or_raise is_done sent

-- One round of the loop of Stop, and then the rest of them; `sent` says whether SIGKILL was sent.
unfoldable pub stop_round : ℕ → Bool → (Bool → Runs (Unit {0})) → Runs (Unit {0})
unfolding ◌>>=◌ pure raise ask when send_signal
stop_round pid sent rest = do
  alive ← process_exists pid
  if not alive then pure tt else (do
    late ← ask (λ env n. env.answer n)
    when (not sent && late) (send_signal pid)
    is_done ← ask (λ env n. env.answer n)
    let next = rest (if not sent && late then true else sent)
    if is_done then raise (message "context is done" "") else next)

abbrev waiting : Runs (Unit {0})
waiting w = (halt deadlock, w)

-- The loop of Stop. It has no bound of its own: after the rounds it still waits.
unfoldable pub stop_loop : ℕ → ℕ → Bool → Runs (Unit {0})
unfolding stop_round
stop_loop zero pid sent = waiting
stop_loop (suc rounds) pid sent = stop_round pid sent (λ s. stop_loop rounds pid s)

-- Stop.
unfoldable pub stop_process : ℕ → MachineState → Runs (Unit {0})
unfolding ◌>>=◌ pure wrapping process_exists send_signal stop_loop
stop_process rounds state = do
  alive ← process_exists state.pid
  if not alive
      then pure tt
      else (do wrapping "stop machine" (send_signal state.pid); stop_loop rounds state.pid false)

-- The network of a machine is removed if the state has one.
unfoldable pub remove_network : (String → Option (Option ℕ)) → MachineState → Runs (Unit {0})
unfolding ◌>>=◌ lift take_away
remove_network parsed_ip state = do
  network ← lift (allocation_from_guest_ip (parsed_ip state.runtime_host) state.tap_name)
  take_away (without_tap network.tap_name)

-- Delete.
unfoldable pub delete_process : Runtime → ℕ → MachineState → Runs (Unit {0})
unfolding ◌>>=◌ lift wrapping when take_away stop_process remove_network
delete_process r rounds state = do
  stop_process rounds state
  when (not (is_blank state.runtime_host) && not (is_blank state.tap_name))
      (remove_network r.parsed_ip state)
  paths ← lift (build_machine_paths r.root_dir state.id r.firecracker_binary_path)
  wrapping "remove machine dir" (take_away (without_dir paths.base_dir))
