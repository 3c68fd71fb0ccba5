-- ===== src/Daemon/Relays.antt =====
-- internal/daemon/machine_relays.go and exec_relay.go: the host ports that are relayed to a machine.
pub mod Allocation
use computer_host.Base.{
  ℕ, zero, suc, ◌+◌, ◌-◌, String, Bool, not, ◌&&◌, ◌||◌, Option, none, some, List, ◌∷◌, message,
  address_in_use, is_blank, ◌=?◌, string_key, ◌==◌, if◌then◌else◌, some_of,
}
use computer_host.Model.{MachineId, MachineRecord, MachinePortName, ssh, vnc, exec, is_running}
use computer_host.Host.Exec.{
  Attempt, value, failed, ◌>>=◌, ◌>>◌, pure, raise, gets, try, modify, refuse_if,
}
use computer_host.Host.World.{World, Listener}
use computer_host.Host.Calls.{
  Host, without_listener, on_store, listen_on, close_on, with_machine_lock,
}
use computer_host.Store.Table.{find, has, remove}
use computer_host.Store.Machines.{get_machine, list_machines, update_machine}
use computer_host.Daemon.MachinePorts.{
  machine_relay_host_port, machine_relay_listener_key, build_machine_ports,
  set_machine_exec_relay_port,
}

abbrev pub add_relay : String → ℕ → World → World
add_relay key port w = record w {
  machine_relay_listeners = record { key = key; host_port = port } ∷ w.machine_relay_listeners;
}

abbrev pub drop_relay : String → World → World
drop_relay key w = record w {
  machine_relay_listeners = without_listener key w.machine_relay_listeners;
}

-- startMachineRelayProxy, up to the goroutine that copies the connections to the guest.
unfoldable pub start_machine_relay_proxy :
    MachineId → MachinePortName → ℕ → String → Host (Unit {0})
unfolding ◌>>=◌ pure gets modify refuse_if
start_machine_relay_proxy id name host_port runtime_host = do
  refuse_if (is_blank runtime_host) (message "runtime host is required for machine relay" id)
  let key = machine_relay_listener_key id name
  exists ← gets (λ w. has (λ l. l.key) key w.machine_relay_listeners)
  if exists then pure tt else listen_on host_port >> modify (add_relay key host_port)

unfoldable pub closed_relay : String → Option Listener → Host (Unit {0})
unfolding ◌>>=◌ pure modify
closed_relay key none = pure tt
closed_relay key (some l) = do modify (drop_relay key); close_on l.host_port

-- stopMachineRelayProxy.
unfoldable pub stop_machine_relay_proxy : MachineId → MachinePortName → Host (Unit {0})
unfolding ◌>>=◌ gets closed_relay
stop_machine_relay_proxy id name = do
  let key = machine_relay_listener_key id name
  listener ← gets (λ w. find (λ l. l.key) key w.machine_relay_listeners)
  closed_relay key listener

-- stopMachineRelays.
unfoldable pub stop_machine_relays : MachineId → Host (Unit {0})
unfolding ◌>>=◌
stop_machine_relays id = do
  stop_machine_relay_proxy id ssh
  stop_machine_relay_proxy id vnc
  stop_machine_relay_proxy id exec

-- Whether a port is in the set of usedMachineRelayPorts, which has no 0.
unfoldable pub is_used_relay_port : MachineId → MachinePortName → List MachineRecord → ℕ → Bool
is_used_relay_port id name records port =
    not (port == 0)
    && some_of
        (λ r.
          not (r.id =? id) && is_running r.phase && machine_relay_host_port r.ports name == port)
        records

-- The existing port of the record: kept if it can be listened on, given up if it is in use.
unfoldable pub kept_port : ℕ → Attempt (Unit {0}) → Host (Option ℕ)
kept_port port (value _) = pure (some port)
kept_port port (failed address_in_use) = pure none
kept_port port (failed e) = raise e

unfoldable pub reuse_relay_port : MachineId → MachinePortName → String → ℕ → Host (Option ℕ)
unfolding ◌>>=◌ pure raise try kept_port
reuse_relay_port id name runtime_host zero = pure none
reuse_relay_port id name runtime_host (suc p) = do
  started ← try (start_machine_relay_proxy id name (suc p) runtime_host)
  kept_port (suc p) started

-- What follows an attempt to listen on a free port.
unfoldable pub next_port : ℕ → Host ℕ → Attempt (Unit {0}) → Host ℕ
next_port port rest (value _) = pure port
next_port port rest (failed address_in_use) = rest
next_port port rest (failed e) = raise e

-- Listens on a free port; a port that is in use leaves the choice to the rest of the range.
unfoldable pub try_port : MachineId → MachinePortName → String → ℕ → Host ℕ → Host ℕ
unfolding ◌>>=◌ try next_port
try_port id name runtime_host port rest = do
  started ← try (start_machine_relay_proxy id name port runtime_host)
  next_port port rest started

-- The loop over the range, with `rounds` ports left, the next being `port`.
unfoldable pub allocate_relay_from :
    (ℕ → Bool) → MachineId → MachinePortName → String → ℕ → ℕ → Host ℕ
unfolding raise
allocate_relay_from used id name runtime_host zero port =
    raise (message "no relay ports are available in range" "")
allocate_relay_from used id name runtime_host (suc rounds) port =
    let rest = allocate_relay_from used id name runtime_host rounds (port + 1) in
    if used port then rest else try_port id name runtime_host port rest

unfoldable pub allocated_port : Host ℕ → Option ℕ → Host ℕ
allocated_port fresh (some port) = pure port
allocated_port fresh none = fresh

-- allocateMachineRelayProxy.
unfoldable pub allocate_machine_relay_proxy :
    MachineRecord → MachinePortName → String → ℕ → ℕ → Host ℕ
unfolding ◌>>=◌ pure allocated_port
allocate_machine_relay_proxy current name runtime_host min_port max_port = do
  let existing = machine_relay_host_port current.ports name
  reused ← reuse_relay_port current.id name runtime_host existing
  allocated_port
      (do
        records ← on_store list_machines
        allocate_relay_from
            (λ port.
              is_used_relay_port current.id name records port
              || (not (existing == 0) && port == existing))
            current.id name runtime_host (max_port + 1 - min_port) min_port)
      reused

-- The two relays that every running machine has.
unfoldable pub allocate_relays : MachineRecord → Host (ℕ × ℕ)
unfolding ◌>>=◌ pure
allocate_relays r = do
  ssh_port ← allocate_machine_relay_proxy r ssh r.runtime_host 40000 44999
  vnc_port ← allocate_machine_relay_proxy r vnc r.runtime_host 45000 49999
  pure (ssh_port, vnc_port)

unfoldable pub saved_relays : MachineRecord → Attempt (Unit {0}) → Host MachineRecord
unfolding ◌>>=◌ raise pure
saved_relays r (value _) = pure r
saved_relays r (failed e) = stop_machine_relays r.id >> raise e

unfoldable pub with_relays : MachineRecord → Attempt (ℕ × ℕ) → Host MachineRecord
unfolding ◌>>=◌ raise pure try saved_relays
with_relays r (failed e) = stop_machine_relays r.id >> raise e
with_relays r (value (ssh_port, vnc_port)) = do
  let updated = record r {
    ports = build_machine_ports ssh_port vnc_port (machine_relay_host_port r.ports exec);
  }
  saved ← try (on_store (update_machine updated))
  saved_relays updated saved

-- ensureMachineRelays; the record that the caller's pointer shows afterwards is returned.
unfoldable pub ensure_machine_relays : MachineRecord → Host MachineRecord
unfolding ◌>>=◌ pure try with_relays
ensure_machine_relays r =
    if not (is_running r.phase) || is_blank r.runtime_host
    then pure r
    else (do ports ← try (allocate_relays r); with_relays r ports)

unfoldable pub exec_relay_port : MachineId → Attempt ℕ → Host ℕ
unfolding ◌>>=◌ pure raise
exec_relay_port id (value port) = pure port
exec_relay_port id (failed e) = stop_machine_relay_proxy id exec >> raise e

unfoldable pub saved_exec_relay : MachineRecord → Attempt (Unit {0}) → Host MachineRecord
unfolding ◌>>=◌ pure raise
saved_exec_relay r (value _) = pure r
saved_exec_relay r (failed e) = stop_machine_relay_proxy r.id exec >> raise e

-- EnsureExecRelay.
unfoldable pub ensure_exec_relay : MachineId → Host MachineRecord
unfolding ◌>>=◌ refuse_if try with_machine_lock exec_relay_port saved_exec_relay
ensure_exec_relay id = with_machine_lock id (do
  r ← on_store (get_machine id)
  refuse_if (not (is_running r.phase)) (message "machine is not running" id)
  refuse_if (is_blank r.runtime_host) (message "machine runtime host is unavailable" id)
  allocated ← try (allocate_machine_relay_proxy r exec r.runtime_host 50000 54999)
  port ← exec_relay_port r.id allocated
  let updated = record r { ports = set_machine_exec_relay_port r.ports port }
  saved ← try (on_store (update_machine updated))
  saved_exec_relay updated saved)
