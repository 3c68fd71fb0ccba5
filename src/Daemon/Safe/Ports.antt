-- ===== src/Daemon/Safe/Ports.antt =====
-- Ports are published and unpublished safely.
use computer_host.Base.{
  ◌+◌, Bool, true, false, ◌≡◌, String, List, ◌∷◌, Option, none, some, Outcome, err, address_in_use,
  string_key, if◌then◌else◌, Bool-cases, inl, inr,
}
use computer_host.Model.{MachineId, MachineRecord, PublishedPortId, PublishedPortRecord}
use computer_host.Host.Exec
use computer_host.Host.Exec.{Attempt, value, failed, ◌>>=◌, ◌>>◌, pure, gets, modify, lift}
use computer_host.Host.Exec.Post.{After, keeps_rules}
use computer_host.Host.File.{Event}
use computer_host.Host.World.{World, Listener, Call}
use computer_host.Host.Calls.{listen_on, is_bound, ended}
use computer_host.Store.Table.{has}
use computer_host.Store.Table.Unique.{has-IsAbsent}
use computer_host.Daemon.PublishedPorts
use computer_host.Daemon.PublishedPorts.{
  CreatePublishedPortRequest, add_published, drop_published, start_published_port_proxy,
  stop_published_port_proxy, allocate_published_host_port, publish, create_published_port,
  delete_published_port, ensure_published_ports_for_machine, stop_published_ports_for_machine,
}
use computer_host.Daemon.Safe.{IsTidy, IsTidyHolding, Safe, host_rules, without_listener-IsUnique}

module _ (held : List MachineId) where
  drop_published-Safe : (id : PublishedPortId) → Safe held (modify (drop_published id))
  unfolding modify
  drop_published-Safe id = record {
    run = λ w h. (
      record {
        is_sound = h.0.is_sound;
        relay_keys = h.0.relay_keys;
        published_keys = without_listener-IsUnique id w.published_port_listeners h.0.published_keys;
      },
      h.1,
    );
  }

  -- A listener for an id that has none is opened and entered.
  opened_after :
      (b : Bool) (e : Event) (p : PublishedPortRecord) (w : World)
      → has (λ l. l.key) p.id w.published_port_listeners ≡ false
      → IsTidyHolding held w
      → After IsTidy (IsTidyHolding held) (
          let v : World = record w {
            trace = Call.listen p.host_port ∷ w.trace;
            clock = w.clock + 1;
          } in
          let (r, v') : Outcome (Unit {0}) × World =
            if b then (err address_in_use, v) else (ended tt e, v) in
          Exec.with_outcome (λ u. modify (add_published p)) r v')
  unfolding modify
  opened_after true e p w a h = h
  opened_after false Event.succeeds p w a (t, e) = (
    record {
      is_sound = t.is_sound;
      relay_keys = t.relay_keys;
      published_keys =
          (has-IsAbsent (λ l. l.key) p.id w.published_port_listeners a, t.published_keys);
    },
    e,
  )
  opened_after false Event.fails p w a h = h
  opened_after false Event.finds_in_use p w a h = h
  opened_after false Event.dies p w a h = h.0

  open_missing-Safe :
      (p : PublishedPortRecord)
      → Safe held (
          gets (λ w. has (λ l. l.key) p.id w.published_port_listeners) >>= λ exists.
          if exists then pure tt else listen_on p.host_port >> modify (add_published p))
  unfolding ◌>>=◌ gets pure listen_on
  open_missing-Safe p = record {
    run = λ w h. elim (Bool-cases (has (λ l. l.key) p.id w.published_port_listeners)) [
      | inl e ↦ rw e h
      | inr e ↦ rw e (opened_after (is_bound w p.host_port) (w.env.outcome w.clock) p w e h)
    ];
  }

  pub start_published_port_proxy-Safe :
      (p : PublishedPortRecord) (host : String) → Safe held (start_published_port_proxy p host)
  unfolding start_published_port_proxy
  start_published_port_proxy-Safe p host = search (keeps_rules, open_missing-Safe)

  closed_published-Safe :
      (id : PublishedPortId) (l : Option Listener)
      → Safe held (PublishedPorts.closed_published id l)
  unfolding PublishedPorts.closed_published
  closed_published-Safe id none = search host_rules
  closed_published-Safe id (some l) = search (host_rules, drop_published-Safe)

  pub stop_published_port_proxy-Safe :
      (id : PublishedPortId) → Safe held (stop_published_port_proxy id)
  unfolding stop_published_port_proxy
  stop_published_port_proxy-Safe id = search (host_rules, closed_published-Safe)

  allocate_published_host_port-Safe : Safe held allocate_published_host_port
  unfolding allocate_published_host_port
  allocate_published_host_port-Safe = search (host_rules)

  refuse_existing-Safe :
      (id : PublishedPortId) (a : Attempt PublishedPortRecord)
      → Safe held (PublishedPorts.refuse_existing id a)
  unfolding PublishedPorts.refuse_existing
  refuse_existing-Safe id (value _) = search host_rules
  refuse_existing-Safe id (failed e) = search host_rules

  published_or_stopped-Safe :
      (p : PublishedPortRecord) (a : Attempt (Unit {0}))
      → Safe held (PublishedPorts.published_or_stopped p a)
  unfolding PublishedPorts.published_or_stopped
  published_or_stopped-Safe p (value _) = search host_rules
  published_or_stopped-Safe p (failed e) = search (host_rules, stop_published_port_proxy-Safe)

  publish-Safe :
      (id : MachineId) (req : CreatePublishedPortRequest) (host : String)
      → Safe held (publish id req host)
  unfolding publish
  publish-Safe id req host =
      search
        (
          host_rules, allocate_published_host_port-Safe, start_published_port_proxy-Safe,
          published_or_stopped-Safe,
        )
        depth 9

  unpublish-Safe :
      (machine_id : MachineId) (id : PublishedPortId) (a : Attempt PublishedPortRecord)
      → Safe held (PublishedPorts.unpublish machine_id id a)
  unfolding PublishedPorts.unpublish
  unpublish-Safe machine_id id (value p) = search (host_rules, stop_published_port_proxy-Safe)
  unpublish-Safe machine_id id (failed e) = search host_rules

  pub ensure_published_ports_for_machine-Safe :
      (r : MachineRecord) → Safe held (ensure_published_ports_for_machine r)
  unfolding ensure_published_ports_for_machine
  ensure_published_ports_for_machine-Safe r = search (host_rules, start_published_port_proxy-Safe)

  stop_listed-Safe :
      (a : Attempt (List PublishedPortRecord)) → Safe held (PublishedPorts.stop_listed a)
  unfolding PublishedPorts.stop_listed
  stop_listed-Safe (value ports) = search (host_rules, stop_published_port_proxy-Safe)
  stop_listed-Safe (failed e) = search host_rules

  pub stop_published_ports_for_machine-Safe :
      (id : MachineId) → Safe held (stop_published_ports_for_machine id)
  unfolding stop_published_ports_for_machine
  stop_published_ports_for_machine-Safe id = search (host_rules, stop_listed-Safe)

module _ (held : List MachineId) where
  pub create_published_port-Safe :
      (id : MachineId) (req : CreatePublishedPortRequest) → Safe held (create_published_port id req)
  unfolding create_published_port
  create_published_port-Safe id req =
      search (host_rules, refuse_existing-Safe, publish-Safe) depth 12

  pub delete_published_port-Safe :
      (machine_id : MachineId) (id : PublishedPortId)
      → Safe held (delete_published_port machine_id id)
  unfolding delete_published_port
  delete_published_port-Safe machine_id id = search (host_rules, unpublish-Safe)
