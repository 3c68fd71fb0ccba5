-- ===== src/Daemon/PublishedPorts.antt =====
-- internal/daemon/published_ports.go: the host ports that are published for the ports of a machine.
pub mod Allocate
pub mod Failure
use computer_host.Base.{
  ℕ, zero, suc, ◌+◌, ◌-◌, String, Bool, true, false, not, ◌||◌, Option, none, some, List, ◌∷◌,
  Error, not_found, Outcome, ok, err, message, is_blank, is_not_found, trim_space, ◌=?◌, string_key,
  ◌==◌, if◌then◌else◌, some_of,
}
use computer_host.Model.{
  MachineId, MachineRecord, PublishedPortId, PublishedPortRecord, PortProtocol, is_running,
}
use computer_host.Host.Exec.{
  Attempt, value, failed, ◌>>=◌, ◌>>◌, pure, raise, gets, try, modify, refuse_if, for_each, lift,
}
use computer_host.Host.World.{World, Listener}
use computer_host.Host.Calls.{
  Host, without_listener, on_store, listen_on, close_on, now, with_machine_lock,
}
use computer_host.Store.Table.{find, has, remove}
use computer_host.Store.Machines.{get_machine}
use computer_host.Store.Ports
use computer_host.Store.Ports.{get_published_port, list_published_ports}

pub record CreatePublishedPortRequest : Type 0 where
  pub published_port_id : PublishedPortId
  pub name : String
  pub port : ℕ
  pub protocol : PortProtocol

abbrev is_tcp_or_unset : PortProtocol → Bool
is_tcp_or_unset PortProtocol.tcp = true
is_tcp_or_unset PortProtocol.unset = true
is_tcp_or_unset (PortProtocol.other _) = false

abbrev pub add_published : PublishedPortRecord → World → World
add_published p w = record w {
  published_port_listeners =
      record { key = p.id; host_port = p.host_port } ∷ w.published_port_listeners;
}

abbrev pub drop_published : PublishedPortId → World → World
drop_published id w = record w {
  published_port_listeners = without_listener id w.published_port_listeners;
}

-- startPublishedPortProxy, up to the goroutine that copies the connections to the guest.
unfoldable pub start_published_port_proxy : PublishedPortRecord → String → Host (Unit {0})
unfolding ◌>>=◌ pure gets modify refuse_if
start_published_port_proxy port runtime_host = do
  refuse_if (is_blank runtime_host) (message "runtime host is required for published port" port.id)
  exists ← gets (λ w. has (λ l. l.key) port.id w.published_port_listeners)
  if exists then pure tt else listen_on port.host_port >> modify (add_published port)

unfoldable pub closed_published : PublishedPortId → Option Listener → Host (Unit {0})
unfolding ◌>>=◌ pure modify
closed_published id none = pure tt
closed_published id (some l) = do modify (drop_published id); close_on l.host_port

-- stopPublishedPortProxy.
unfoldable pub stop_published_port_proxy : PublishedPortId → Host (Unit {0})
unfolding ◌>>=◌ gets closed_published
stop_published_port_proxy id = do
  listener ← gets (λ w. find (λ l. l.key) id w.published_port_listeners)
  closed_published id listener

-- The loop over the range, with `rounds` ports left, the next being `host_port`.
unfoldable pub first_unused : List PublishedPortRecord → ℕ → ℕ → Outcome ℕ
first_unused ports zero host_port = err (message "no published host ports are available" "")
first_unused ports (suc rounds) host_port =
    let rest = first_unused ports rounds (host_port + 1) in
    if some_of (λ p. p.host_port == host_port) ports then rest else ok host_port

abbrev pub min_published_host_port : ℕ
min_published_host_port = 20000

abbrev pub max_published_host_port : ℕ
max_published_host_port = 39999

-- allocatePublishedHostPort.
unfoldable pub allocate_published_host_port : Host ℕ
unfolding ◌>>=◌ lift
allocate_published_host_port = do
  ports ← on_store (list_published_ports "")
  lift (
      first_unused ports (max_published_host_port + 1 - min_published_host_port)
        min_published_host_port)

-- A published port with the requested id is refused, an error other than a missing one is returned.
unfoldable pub refuse_existing : PublishedPortId → Attempt PublishedPortRecord → Host (Unit {0})
unfolding pure raise
refuse_existing id (value _) = raise (message "published port already exists" id)
refuse_existing id (failed e) = if is_not_found e then pure tt else raise e

-- The deferred function: without a record in the store the port is not published.
unfoldable pub published_or_stopped :
    PublishedPortRecord → Attempt (Unit {0}) → Host PublishedPortRecord
unfolding ◌>>=◌ pure raise
published_or_stopped p (value _) = pure p
published_or_stopped p (failed e) = stop_published_port_proxy p.id >> raise e

-- The part of CreatePublishedPort after the existing records were looked at.
unfoldable pub publish : MachineId → CreatePublishedPortRequest → String → Host PublishedPortRecord
unfolding ◌>>=◌ try published_or_stopped
publish machine_id req runtime_host = do
  host_port ← allocate_published_host_port
  created_at ← now
  let published : PublishedPortRecord = record {
    id = req.published_port_id;
    machine_id = machine_id;
    name = trim_space req.name;
    port = req.port;
    host_port = host_port;
    protocol = PortProtocol.tcp;
    created_at = created_at;
  }
  start_published_port_proxy published runtime_host
  saved ← try (on_store (Ports.create_published_port published))
  published_or_stopped published saved

-- CreatePublishedPort. The second mutex, of the allocation, is held in this function only.
unfoldable pub create_published_port :
    MachineId → CreatePublishedPortRequest → Host PublishedPortRecord
unfolding ◌>>=◌ try with_machine_lock refuse_if refuse_existing
create_published_port machine_id req = do
  refuse_if (is_blank req.published_port_id) (message "published_port_id is required" "")
  refuse_if (req.port == 0) (message "port must be greater than zero" "")
  refuse_if (not (is_tcp_or_unset req.protocol)) (message "unsupported protocol" "")
  with_machine_lock machine_id (do
    r ← on_store (get_machine machine_id)
    refuse_if (not (is_running r.phase)) (message "machine is not running" machine_id)
    existing ← try (on_store (get_published_port req.published_port_id))
    refuse_existing req.published_port_id existing
    publish machine_id req r.runtime_host)

-- What DeletePublishedPort does with the record that it found, or did not.
unfoldable pub unpublish :
    MachineId → PublishedPortId → Attempt PublishedPortRecord → Host (Unit {0})
unfolding ◌>>=◌ pure raise refuse_if
unpublish machine_id id (failed e) = if is_not_found e then pure tt else raise e
unpublish machine_id id (value p) = do
  refuse_if (not (p.machine_id =? machine_id))
      (message "published port does not belong to machine" id)
  stop_published_port_proxy id
  on_store (Ports.delete_published_port id)

-- DeletePublishedPort.
unfoldable pub delete_published_port : MachineId → PublishedPortId → Host (Unit {0})
unfolding ◌>>=◌ try with_machine_lock unpublish
delete_published_port machine_id id =
    with_machine_lock machine_id
      (do found ← try (on_store (get_published_port id)); unpublish machine_id id found)

-- ensurePublishedPortsForMachine.
unfoldable pub ensure_published_ports_for_machine : MachineRecord → Host (Unit {0})
unfolding ◌>>=◌ pure for_each
ensure_published_ports_for_machine machine =
    if not (is_running machine.phase) || is_blank machine.runtime_host then pure tt else (do
      ports ← on_store (list_published_ports machine.id)
      for_each ports (λ port. start_published_port_proxy port machine.runtime_host))

unfoldable pub stop_listed : Attempt (List PublishedPortRecord) → Host (Unit {0})
unfolding pure for_each
stop_listed (failed _) = pure tt
stop_listed (value ports) = for_each ports (λ port. stop_published_port_proxy port.id)

-- stopPublishedPortsForMachine, which gives up where the ports cannot be listed.
unfoldable pub stop_published_ports_for_machine : MachineId → Host (Unit {0})
unfolding ◌>>=◌ try stop_listed
stop_published_ports_for_machine id = do
  ports ← try (on_store (list_published_ports id))
  stop_listed ports
