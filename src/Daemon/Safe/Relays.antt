-- ===== src/Daemon/Safe/Relays.antt =====
-- The relays of a machine are started and stopped safely.
use computer_host.Base.{
  ℕ, zero, suc, ◌+◌, Bool, true, false, ◌≡◌, String, List, ◌∷◌, Option, none, some, Outcome, err,
  address_in_use, not_found, message, external, string_key, if◌then◌else◌, Bool-cases, inl, inr,
}
use computer_host.Model.{MachineId, MachineRecord, MachinePortName}
use computer_host.Host.Exec
use computer_host.Host.Exec.{Attempt, value, failed, ◌>>=◌, ◌>>◌, pure, gets, modify}
use computer_host.Host.Exec.Post.{After, keeps_rules, Keeps-if}
use computer_host.Host.File.{Event}
use computer_host.Host.World.{World, Listener, Call}
use computer_host.Host.Calls.{Host, listen_on, is_bound, ended}
use computer_host.Store.Table.{has}
use computer_host.Store.Table.Unique.{has-IsAbsent}
use computer_host.Daemon.Relays
use computer_host.Daemon.Relays.{
  add_relay, drop_relay, start_machine_relay_proxy, stop_machine_relay_proxy, stop_machine_relays,
  reuse_relay_port, allocate_relay_from, allocate_machine_relay_proxy, allocate_relays,
  ensure_machine_relays, ensure_exec_relay,
}
use computer_host.Daemon.Safe.{IsTidy, IsTidyHolding, Safe, host_rules, without_listener-IsUnique}

module _ (held : List MachineId) where
  drop_relay-Safe : (key : String) → Safe held (modify (drop_relay key))
  unfolding modify
  drop_relay-Safe key = record {
    run = λ w h. (
      record {
        is_sound = h.0.is_sound;
        relay_keys = without_listener-IsUnique key w.machine_relay_listeners h.0.relay_keys;
        published_keys = h.0.published_keys;
      },
      h.1,
    );
  }

  -- A listener for a key that has none is opened and entered.
  opened_after :
      (b : Bool) (e : Event) (key : String) (port : ℕ) (w : World)
      → has (λ l. l.key) key w.machine_relay_listeners ≡ false
      → IsTidyHolding held w
      → After IsTidy (IsTidyHolding held) (
          let v : World = record w { trace = Call.listen port ∷ w.trace; clock = w.clock + 1 } in
          let (r, v') : Outcome (Unit {0}) × World =
            if b then (err address_in_use, v) else (ended tt e, v) in
          Exec.with_outcome (λ u. modify (add_relay key port)) r v')
  unfolding modify
  opened_after true e key port w a h = h
  opened_after false Event.succeeds key port w a (t, e) = (
    record {
      is_sound = t.is_sound;
      relay_keys = (has-IsAbsent (λ l. l.key) key w.machine_relay_listeners a, t.relay_keys);
      published_keys = t.published_keys;
    },
    e,
  )
  opened_after false Event.fails key port w a h = h
  opened_after false Event.finds_in_use key port w a h = h
  opened_after false Event.dies key port w a h = h.0

  open_missing-Safe :
      (key : String) (port : ℕ)
      → Safe held (
          gets (λ w. has (λ l. l.key) key w.machine_relay_listeners) >>= λ exists.
          if exists then pure tt else listen_on port >> modify (add_relay key port))
  unfolding ◌>>=◌ gets pure listen_on
  open_missing-Safe key port = record {
    run = λ w h. elim (Bool-cases (has (λ l. l.key) key w.machine_relay_listeners)) [
      | inl e ↦ rw e h
      | inr e ↦ rw e (opened_after (is_bound w port) (w.env.outcome w.clock) key port w e h)
    ];
  }

  pub start_machine_relay_proxy-Safe :
      (id : MachineId) (name : MachinePortName) (port : ℕ) (host : String)
      → Safe held (start_machine_relay_proxy id name port host)
  unfolding start_machine_relay_proxy
  start_machine_relay_proxy-Safe id name port host = search (keeps_rules, open_missing-Safe)

  closed_relay-Safe : (key : String) (l : Option Listener) → Safe held (Relays.closed_relay key l)
  unfolding Relays.closed_relay
  closed_relay-Safe key none = search host_rules
  closed_relay-Safe key (some l) = search (host_rules, drop_relay-Safe)

  pub stop_machine_relay_proxy-Safe :
      (id : MachineId) (name : MachinePortName) → Safe held (stop_machine_relay_proxy id name)
  unfolding stop_machine_relay_proxy
  stop_machine_relay_proxy-Safe id name = search (host_rules, closed_relay-Safe)

  pub stop_machine_relays-Safe : (id : MachineId) → Safe held (stop_machine_relays id)
  unfolding stop_machine_relays
  stop_machine_relays-Safe id = search (host_rules, stop_machine_relay_proxy-Safe)

  kept_port-Safe : (port : ℕ) (a : Attempt (Unit {0})) → Safe held (Relays.kept_port port a)
  unfolding Relays.kept_port
  kept_port-Safe port (value _) = search host_rules
  kept_port-Safe port (failed address_in_use) = search host_rules
  kept_port-Safe port (failed not_found) = search host_rules
  kept_port-Safe port (failed (message t n)) = search host_rules
  kept_port-Safe port (failed (external t)) = search host_rules

  reuse_relay_port-Safe :
      (id : MachineId) (name : MachinePortName) (host : String) (port : ℕ)
      → Safe held (reuse_relay_port id name host port)
  unfolding reuse_relay_port
  reuse_relay_port-Safe id name host zero = search host_rules
  reuse_relay_port-Safe id name host (suc p) =
      search (host_rules, start_machine_relay_proxy-Safe, kept_port-Safe)

  next_port-Safe :
      (port : ℕ) (rest : Host ℕ) (a : Attempt (Unit {0}))
      → Safe held rest
      → Safe held (Relays.next_port port rest a)
  unfolding Relays.next_port
  next_port-Safe port rest (value _) k = search host_rules
  next_port-Safe port rest (failed address_in_use) k = k
  next_port-Safe port rest (failed not_found) k = search host_rules
  next_port-Safe port rest (failed (message t n)) k = search host_rules
  next_port-Safe port rest (failed (external t)) k = search host_rules

  try_port-Safe :
      (id : MachineId) (name : MachinePortName) (host : String) (port : ℕ) (rest : Host ℕ)
      → Safe held rest
      → Safe held (Relays.try_port id name host port rest)
  unfolding Relays.try_port
  try_port-Safe id name host port rest k =
      search (keeps_rules, start_machine_relay_proxy-Safe, next_port-Safe)

  allocate_relay_from-Safe :
      (used : ℕ → Bool) (id : MachineId) (name : MachinePortName) (host : String) (rounds port : ℕ)
      → Safe held (allocate_relay_from used id name host rounds port)
  unfolding allocate_relay_from
  allocate_relay_from-Safe used id name host zero port = search host_rules
  allocate_relay_from-Safe used id name host (suc rounds) port =
      let k = allocate_relay_from-Safe used id name host rounds (port + 1) in
      Keeps-if (used port) _ _ k (try_port-Safe id name host port _ k)

  allocated_port-Safe :
      (fresh : Host ℕ) (o : Option ℕ) → Safe held fresh → Safe held (Relays.allocated_port fresh o)
  unfolding Relays.allocated_port
  allocated_port-Safe fresh none k = k
  allocated_port-Safe fresh (some p) k = search host_rules

  pub allocate_machine_relay_proxy-Safe :
      (r : MachineRecord) (name : MachinePortName) (host : String) (low high : ℕ)
      → Safe held (allocate_machine_relay_proxy r name host low high)
  unfolding allocate_machine_relay_proxy
  allocate_machine_relay_proxy-Safe r name host low high =
      search (host_rules, reuse_relay_port-Safe, allocated_port-Safe, allocate_relay_from-Safe)

  allocate_relays-Safe : (r : MachineRecord) → Safe held (allocate_relays r)
  unfolding allocate_relays
  allocate_relays-Safe r = search (host_rules, allocate_machine_relay_proxy-Safe)

  saved_relays-Safe :
      (r : MachineRecord) (a : Attempt (Unit {0})) → Safe held (Relays.saved_relays r a)
  unfolding Relays.saved_relays
  saved_relays-Safe r (value _) = search host_rules
  saved_relays-Safe r (failed e) = search (host_rules, stop_machine_relays-Safe)

  with_relays-Safe : (r : MachineRecord) (a : Attempt (ℕ × ℕ)) → Safe held (Relays.with_relays r a)
  unfolding Relays.with_relays
  with_relays-Safe r (value (s, v)) = search (host_rules, saved_relays-Safe)
  with_relays-Safe r (failed e) = search (host_rules, stop_machine_relays-Safe)

  pub ensure_machine_relays-Safe : (r : MachineRecord) → Safe held (ensure_machine_relays r)
  unfolding ensure_machine_relays
  ensure_machine_relays-Safe r = search (host_rules, allocate_relays-Safe, with_relays-Safe)

  exec_relay_port-Safe : (id : MachineId) (a : Attempt ℕ) → Safe held (Relays.exec_relay_port id a)
  unfolding Relays.exec_relay_port
  exec_relay_port-Safe id (value p) = search host_rules
  exec_relay_port-Safe id (failed e) = search (host_rules, stop_machine_relay_proxy-Safe)

  saved_exec_relay-Safe :
      (r : MachineRecord) (a : Attempt (Unit {0})) → Safe held (Relays.saved_exec_relay r a)
  unfolding Relays.saved_exec_relay
  saved_exec_relay-Safe r (value _) = search host_rules
  saved_exec_relay-Safe r (failed e) = search (host_rules, stop_machine_relay_proxy-Safe)

module _ (held : List MachineId) where
  pub ensure_exec_relay-Safe : (id : MachineId) → Safe held (ensure_exec_relay id)
  unfolding ensure_exec_relay
  ensure_exec_relay-Safe id =
      search
        (host_rules, allocate_machine_relay_proxy-Safe, exec_relay_port-Safe, saved_exec_relay-Safe)
        depth 12
