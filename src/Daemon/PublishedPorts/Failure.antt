-- ===== src/Daemon/PublishedPorts/Failure.antt =====
-- A port that cannot be published is not listened on.
use computer_host.Base.{
  ◌==◌, not, message, ◌+◌, if◌then◌else◌, ◌≡◌, refl, ◌∙◌, ap, Bool, true, false, String, List, ◌∷◌,
  Option, none, some, Outcome, ok, err, halt, Bool-cases, inl, inr, string_key, is_blank, =?-refl,
  address_in_use,
}
use computer_host.Model.{is_running, MachineId, PublishedPortId, PublishedPortRecord}
use computer_host.Host.Exec
use computer_host.Host.Exec.{
  Exec, Attempt, value, failed, ◌>>=◌, ◌>>◌, pure, raise, try, gets, modify, refuse_if, lift,
}
use computer_host.Host.Exec.Post.{After, Keeps, keeps_rules, Keeps-try, Keeps-refuse_if}
use computer_host.Host.Exec.Yields.{Given, Yields, Yields-Keeps}
use computer_host.Host.Exec.Fails.{
  Failing, Fails, Fails-pure, Fails-raise, Fails-bind, Fails-try, Fails-after, Fails-deferring,
}
use computer_host.Host.File.{Event}
use computer_host.Host.World.{World, Listener, Call}
use computer_host.Host.Calls
use computer_host.Host.Calls.{
  Host, lock_machine, unlock_machine, with_machine_lock, on_store, now, listen_on, close_on,
  is_bound, ended,
}
use computer_host.Store.FileStore.{FileStore}
use computer_host.Store.Table.{has, find, remove}
use computer_host.Store.Machines.{get_machine}
use computer_host.Store.Ports
use computer_host.Store.Ports.{get_published_port}
use computer_host.Daemon.PublishedPorts
use computer_host.Daemon.PublishedPorts.{
  published_or_stopped, CreatePublishedPortRequest, start_published_port_proxy,
  stop_published_port_proxy, allocate_published_host_port, publish, add_published,
  create_published_port,
}

module _ (ls : List Listener) where
  -- The listeners of the published ports are `ls`.
  abbrev pub Listening : World → Type 0
  Listening w = w.published_port_listeners ≡ ls

  -- They are `ls` and one for the port.
  abbrev Added : PublishedPortRecord → World → Type 0
  Added p w = w.published_port_listeners ≡ record { key = p.id; host_port = p.host_port } ∷ ls

abbrev opened : Bool → Event → PublishedPortRecord → World → Outcome (Unit {0}) × World
opened b e p w =
    let v : World = record w { trace = Call.listen p.host_port ∷ w.trace; clock = w.clock + 1 } in
    let (r, v') : Outcome (Unit {0}) × World =
      if b then (err address_in_use, v) else (ended tt e, v) in
    Exec.with_outcome (λ u. modify (add_published p)) r v'

module _ (P : List Listener → Type 0) where
  -- A property of the listeners.
  abbrev OfListeners : World → Type 0
  OfListeners w = P w.published_port_listeners

  same_after :
      {A : Type 0} (r : Outcome A) (w : World)
      → OfListeners w
      → After OfListeners OfListeners (r, w)
  same_after (ok a) w h = h
  same_after (err e) w h = h
  same_after (halt x) w h = h

  on_store-Keeps : {A : Type 0} (m : Exec FileStore A) → Keeps OfListeners OfListeners (on_store m)
  unfolding on_store
  on_store-Keeps m = record { run = λ w h. same_after (m w.store).0 _ h }

  lift-Keeps : {A : Type 0} (r : Outcome A) → Keeps OfListeners OfListeners (lift r)
  unfolding lift
  lift-Keeps r = record { run = λ w h. same_after r w h }

  now-Keeps : Keeps OfListeners OfListeners now
  unfolding now
  now-Keeps = record { run = λ w h. h }

  allocate-Keeps : Keeps OfListeners OfListeners allocate_published_host_port
  unfolding allocate_published_host_port
  allocate-Keeps = search (keeps_rules, on_store-Keeps, lift-Keeps)

-- The listener that was added last is taken out.
dropped : (l : Listener) (ls : List Listener) → PublishedPorts.without_listener l.key (l ∷ ls) ≡ ls
unfolding remove
dropped l ls = rw (=?-refl l.key) refl

-- What an attempt to listen leaves.
opened_after :
    (ls : List Listener) (b : Bool) (e : Event) (p : PublishedPortRecord) (w : World)
    → Listening ls w
    → Given (λ u. Added ls p) (opened b e p w) × Failing (Listening ls) (opened b e p w)
unfolding modify
opened_after ls true e p w h = (tt, h)
opened_after ls false Event.succeeds p w h =
    (ap (λ l. record { key = p.id; host_port = p.host_port } ∷ l) h, tt)
opened_after ls false Event.fails p w h = (tt, h)
opened_after ls false Event.finds_in_use p w h = (tt, h)
opened_after ls false Event.dies p w h = (tt, tt)

module _ (ls : List Listener) (p : PublishedPortRecord)
    (new : has (λ l. l.key) p.id ls ≡ false) where
  start_after :
      (host : String) (w : World)
      → Listening ls w
      → Given (λ u. Added ls p) (start_published_port_proxy p host w)
        × Failing (Listening ls) (start_published_port_proxy p host w)
  unfolding start_published_port_proxy ◌>>=◌ gets pure refuse_if listen_on raise
  start_after host w h = elim (Bool-cases (is_blank host)) [
    | inl e ↦ rw e (tt, h)
    | inr e ↦
        rw (e, (ap (has (λ l. l.key) p.id) h ∙ new))
          (opened_after ls (is_bound w p.host_port) (w.env.outcome w.clock) p w h)
  ]

  start-Yields :
      (host : String) → Yields (Listening ls) (λ u. Added ls p) (start_published_port_proxy p host)
  start-Yields host = record { run = λ w h. (start_after host w h).0 }

  start-Fails :
      (host : String) → Fails (Listening ls) (Listening ls) (start_published_port_proxy p host)
  start-Fails host = record { run = λ w h. (start_after host w h).1 }

  stop-Yields : Yields (Added ls p) (λ u. Listening ls) (stop_published_port_proxy p.id)
  unfolding stop_published_port_proxy PublishedPorts.closed_published ◌>>=◌ gets modify close_on
      find
  stop-Yields = record {
    run = λ w h. rw (h, =?-refl p.id) (dropped (record { key = p.id; host_port = p.host_port }) ls);
  }

  stop-Fails : Fails (Added ls p) (Listening ls) (stop_published_port_proxy p.id)
  unfolding stop_published_port_proxy PublishedPorts.closed_published ◌>>=◌ gets modify close_on
      find
  stop-Fails = record { run = λ w h. rw (h, =?-refl p.id) tt }

  published_or_stopped-Fails :
      (a : Attempt (Unit {0})) → Fails (Added ls p) (Listening ls) (published_or_stopped p a)
  unfolding published_or_stopped
  published_or_stopped-Fails (value u) = Fails-pure _ _ p
  published_or_stopped-Fails (failed e) =
      Fails-bind _ _ (λ u. Listening ls) _ _ stop-Yields stop-Fails (λ u. Fails-raise _ e)

  -- From the allocated port on.
  entered-Fails :
      (host : String)
      → Fails (Listening ls) (Listening ls) (
          start_published_port_proxy p host
          >> (try (on_store (Ports.create_published_port p)) >>= published_or_stopped p))
  entered-Fails host =
      Fails-bind _ _ (λ u. Added ls p) _ _ (start-Yields host) (start-Fails host)
        (λ u.
          Fails-bind _ _ (λ a. Added ls p) _ _
            (Yields-Keeps _ _ _ (
              Keeps-try _
                (on_store-Keeps (λ l. l ≡ record { key = p.id; host_port = p.host_port } ∷ ls) _)))
            (Fails-try _ _ _) published_or_stopped-Fails)

publish-Fails :
    (ls : List Listener) (id : MachineId) (req : CreatePublishedPortRequest) (host : String)
    → has (λ l. l.key) req.published_port_id ls ≡ false
    → Fails (Listening ls) (Listening ls) (publish id req host)
unfolding publish
publish-Fails ls id req host new =
    Fails-after _ _ _ _ (allocate-Keeps (λ l. l ≡ ls))
      (λ n. Fails-after _ _ _ _ (now-Keeps (λ l. l ≡ ls)) (λ t. entered-Fails ls _ new host))

module _ (P : List Listener → Type 0) where
  lock_machine-Keeps : (id : MachineId) → Keeps (OfListeners P) (OfListeners P) (lock_machine id)
  unfolding lock_machine
  lock_machine-Keeps id = record {
    run = λ w h. elim (Bool-cases (Calls.is_held id w.held)) [ inl e ↦ rw e h | inr e ↦ rw e h ];
  }

  unlocked-After :
      (w : World) (o : Option (List MachineId))
      → OfListeners P w
      → After (OfListeners P) (OfListeners P) (Calls.unlocked w o)
  unlocked-After w none h = h
  unlocked-After w (some rest) h = h

  unlock_machine-Keeps :
      (id : MachineId) → Keeps (OfListeners P) (OfListeners P) (unlock_machine id)
  unfolding unlock_machine
  unlock_machine-Keeps id = record { run = λ w h. unlocked-After w _ h }

  refuse_existing-Keeps :
      (id : PublishedPortId) (a : Attempt PublishedPortRecord)
      → Keeps (OfListeners P) (OfListeners P) (PublishedPorts.refuse_existing id a)
  unfolding PublishedPorts.refuse_existing
  refuse_existing-Keeps id (value _) = search keeps_rules
  refuse_existing-Keeps id (failed e) = search keeps_rules

-- What CreatePublishedPort does under the mutex.
abbrev locked_part : MachineId → CreatePublishedPortRequest → Host PublishedPortRecord
locked_part id req = on_store (get_machine id) >>= λ r.
    refuse_if (not (is_running r.phase)) (message "machine is not running" id)
    >> (try (on_store (get_published_port req.published_port_id)) >>= λ a.
        PublishedPorts.refuse_existing req.published_port_id a >> publish id req r.runtime_host)

module _ (ls : List Listener) (id : MachineId) (req : CreatePublishedPortRequest)
    (new : has (λ l. l.key) req.published_port_id ls ≡ false) where
  locked_part-Fails : Fails (Listening ls) (Listening ls) (locked_part id req)
  locked_part-Fails =
      let O : List Listener → Type 0 = λ l. l ≡ ls in
      Fails-after _ _ _ _ (on_store-Keeps O (get_machine id)) (λ r.
        Fails-after (Listening ls) _ _ _ (Keeps-refuse_if _ _) (λ u.
          Fails-after _ _ _ _
            (Keeps-try _ (on_store-Keeps O (get_published_port req.published_port_id)))
            (λ a.
              Fails-after _ _ _ _ (refuse_existing-Keeps O req.published_port_id a)
                (λ u. publish-Fails ls id req r.runtime_host new))))

  create_published_port-Fails : Fails (Listening ls) (Listening ls) (create_published_port id req)
  unfolding create_published_port with_machine_lock
  create_published_port-Fails =
      let O : List Listener → Type 0 = λ l. l ≡ ls in
      Fails-after (Listening ls) _ _ _
        (Keeps-refuse_if (is_blank req.published_port_id)
          (message "published_port_id is required" ""))
        (λ u.
          Fails-after (Listening ls) _ _ _
            (Keeps-refuse_if (req.port == 0) (message "port must be greater than zero" ""))
            (λ u.
              Fails-after (Listening ls) _ _ _
                (Keeps-refuse_if (not (PublishedPorts.is_tcp_or_unset req.protocol))
                  (message "unsupported protocol" ""))
                (λ u. Fails-after _ _ _ _ (lock_machine-Keeps O id) (λ u.
                  Fails-deferring _ _ _ _ (locked_part id req) (unlock_machine-Keeps O id)
                    locked_part-Fails))))

-- If no listener of the published ports has the requested id and CreatePublishedPort returns an error,
-- then the daemon listens on the same published ports as before the call.
pub create_published_port-Failing :
    (id : MachineId) (req : CreatePublishedPortRequest) (w : World)
    → has (λ l. l.key) req.published_port_id w.published_port_listeners ≡ false
    → Failing
        (λ v. v.published_port_listeners ≡ w.published_port_listeners)
        (create_published_port id req w)
create_published_port-Failing id req w new =
    (create_published_port-Fails w.published_port_listeners id req new).run w refl
