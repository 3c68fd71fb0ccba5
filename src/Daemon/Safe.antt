-- ===== src/Daemon/Safe.antt =====
-- What every request of the daemon keeps: consistent files, one listener for each key, and the mutexes
-- as they were. The rules for the calls that the requests are made of.
pub mod Relays
pub mod Ports
pub mod Records
pub mod Requests
pub mod Creation
pub mod Snapshots
pub mod Restores
pub mod Start
pub mod Reconciled
use computer_host.Base.{
  ◌⊎◌, lies_in, ◌||◌, Option-cases, inl, inr, ℕ, ◌+◌, Bool, true, false, ◌≡◌, refl, ap, Bool-cases,
  inl, inr, =?-refl, deadlock, List, [], ◌∷◌, Outcome, ok, err, halt, Option, none, some,
  string_key, arith, address_in_use, String, if◌then◌else◌, some_of,
}
use computer_host.Model.{MachineId}
use computer_host.Host.Exec
use computer_host.Host.Exec.{
  Exec, Attempt, value, failed, deferring, ◌>>=◌, pure, gets, modify, lift,
}
use computer_host.Host.Exec.Post.{After, Keeps, keeps_rules}
use computer_host.Host.File.{Event, Disk}
use computer_host.Host.File.Atomic.{Holds}
use computer_host.Host.World.{World, Listener, Call, Env}
use computer_host.Host.Calls.{
  gone_if, temp_of, remove_tree, remove_one, download_to, is_same, noted, filled_if, filled, swept,
  swept_if, without_listener, Host, on_store, call, run, now, lock_machine, unlock_machine,
  with_machine_lock, remove_present, listen_on, close_on, ended, is_bound, is_held, absent_or_raise,
}
use computer_host.Store.Table.{IsUnique, remove}
use computer_host.Store.FileStore.{FileStore}
use computer_host.Store.Table.Unique.{remove-IsUnique}
use computer_host.Store.Consistent.{IsKept, IsConsistent, HasOneEach, KeepsFile}
use computer_host.Store.Consistent.Rules.{Sound, sound_rules}
use computer_host.Daemon.Losses.{
  MayBeLost, more_removed, more_overwritten, weakened, swept_part, filled_part,
}

-- Each file of the store is whole and consistent, unless it may be lost, and no two listeners of a kind
-- have one key.
pub record Tidy (state_path operations_path : String) (removed overwritten : List String)
    (store : FileStore) (relays published : List Listener) : Type 0 where
  pub is_sound :
      IsKept
        (MayBeLost removed overwritten state_path)
        (MayBeLost removed overwritten operations_path)
        store
  pub relay_keys : IsUnique (λ l. l.key) relays
  pub published_keys : IsUnique (λ l. l.key) published

abbrev pub IsTidy : World → Type 0
IsTidy w =
    Tidy w.config.state_path w.config.operations_path w.removed w.overwritten w.store
      w.machine_relay_listeners w.published_port_listeners

-- What the files are in a world.
abbrev pub IsStored : World → FileStore → Type 0
IsStored w s =
    IsKept (MayBeLost w.removed w.overwritten w.config.state_path)
      (MayBeLost w.removed w.overwritten w.config.operations_path) s

-- The same, where the locked mutexes are those of `held`.
abbrev pub IsTidyHolding : List MachineId → World → Type 0
IsTidyHolding held w = IsTidy w × (w.held ≡ held)

-- A call that keeps the host tidy however it ends, and where it returns, with a value or an error, has
-- unlocked what it locked, and locked again what it unlocked.
abbrev pub Safe : List MachineId → {A : Type 0} → Host A → Type 0
Safe held m = Keeps IsTidy (IsTidyHolding held) m

pub resounded :
    (w : World) (s : FileStore) → IsTidy w → IsStored w s → IsTidy (record w { store = s })
resounded w s t k = record {
  is_sound = k;
  relay_keys = t.relay_keys;
  published_keys = t.published_keys;
}

module _ (held : List MachineId) where
  stored_after :
      {A : Type 0} (r : Outcome A) (s : FileStore) (w : World)
      → After (IsStored w) (IsStored w) (r, s)
      → IsTidyHolding held w
      → After IsTidy (IsTidyHolding held) (r, record w { store = s })
  stored_after (ok a) s w k (t, e) = (resounded w s t k, e)
  stored_after (err x) s w k (t, e) = (resounded w s t k, e)
  stored_after (halt x) s w k (t, e) = resounded w s t k

  pub on_store-Safe : {A : Type 0} (m : Exec FileStore A) → Sound m → Safe held (on_store m)
  unfolding on_store
  on_store-Safe m k = record {
    run = λ w h. let (r, s) = m w.store in stored_after r s w ((k _ _).run w.store h.0.is_sound) h;
  }

  called_after :
      {A : Type 0} (a : A) (e : Event) (c : Call) (w : World)
      → IsTidyHolding held w
      → After IsTidy
          (IsTidyHolding held)
          (ended a e, record w { trace = c ∷ w.trace; clock = w.clock + 1 })
  called_after a Event.succeeds c w h = h
  called_after a Event.fails c w h = h
  called_after a Event.finds_in_use c w h = h
  called_after a Event.dies c w h = h.0

  pub call-Safe : {A : Type 0} (c : Call) (answer : Env → ℕ → A) → Safe held (call c answer)
  unfolding call
  call-Safe c answer = record {
    run = λ w h. called_after (answer w.env w.clock) (w.env.outcome w.clock) c w h;
  }

  pub lift-Safe : {A : Type 0} (r : Outcome A) → Safe held (lift r)
  unfolding lift
  lift-Safe (ok a) = record { run = λ w h. h }
  lift-Safe (err e) = record { run = λ w h. h }
  lift-Safe (halt x) = record { run = λ w h. h.0 }

  pub now-Safe : Safe held now
  unfolding now
  now-Safe = record { run = λ w h. h }

  pub close_on-Safe : (port : ℕ) → Safe held (close_on port)
  unfolding close_on
  close_on-Safe port = record { run = λ w h. h }

  pub run-Safe : (c : Call) → Safe held (run c)
  unfolding run
  run-Safe c = call-Safe c _

  swept-IsTidy :
      (takes : Bool) (path : String) (w : World) → IsTidy w → IsTidy (swept_if takes path w)
  unfolding swept
  swept-IsTidy true path w t = record {
    is_sound = record {
      state =
          swept_part IsConsistent path w.config.state_path w.removed w.overwritten
            (lies_in path (temp_of w.config.state_path)) w.store.state t.is_sound.state;
      journal =
          swept_part HasOneEach path w.config.operations_path w.removed w.overwritten
            (lies_in path (temp_of w.config.operations_path)) w.store.operations t.is_sound.journal;
    };
    relay_keys = t.relay_keys;
    published_keys = t.published_keys;
  }
  swept-IsTidy false path w t = record {
    is_sound = record {
      state =
          weakened IsConsistent w.store.state
            (more_removed path w.config.state_path w.removed w.overwritten) t.is_sound.state;
      journal =
          weakened HasOneEach w.store.operations
            (more_removed path w.config.operations_path w.removed w.overwritten) t.is_sound.journal;
    };
    relay_keys = t.relay_keys;
    published_keys = t.published_keys;
  }

  filled-IsTidy :
      (takes : Bool) (path : String) (w : World) → IsTidy w → IsTidy (filled takes path w)
  filled-IsTidy true path w t = record {
    is_sound = record {
      state =
          filled_part IsConsistent path w.config.state_path w.removed w.overwritten w.store.state
            t.is_sound.state;
      journal =
          filled_part HasOneEach path w.config.operations_path w.removed w.overwritten
            w.store.operations t.is_sound.journal;
    };
    relay_keys = t.relay_keys;
    published_keys = t.published_keys;
  }
  filled-IsTidy false path w t = record {
    is_sound = record {
      state =
          weakened IsConsistent w.store.state
            (more_overwritten path w.config.state_path w.removed w.overwritten) t.is_sound.state;
      journal =
          weakened HasOneEach w.store.operations
            (more_overwritten path w.config.operations_path w.removed w.overwritten)
            t.is_sound.journal;
    };
    relay_keys = t.relay_keys;
    published_keys = t.published_keys;
  }

  ended-IsTidy :
      (e : Event) (v : World)
      → IsTidyHolding held v
      → After IsTidy (IsTidyHolding held) (ended tt e, v)
  ended-IsTidy Event.succeeds v k = k
  ended-IsTidy Event.fails v k = k
  ended-IsTidy Event.finds_in_use v k = k
  ended-IsTidy Event.dies v k = k.0

  pub remove_tree-Safe : (path : String) → Safe held (remove_tree path)
  unfolding remove_tree run call
  remove_tree-Safe path = record {
    run = λ w h.
        let v : World = noted (Call.remove_all path) w in
        ended-IsTidy (w.env.outcome w.clock) _ (swept-IsTidy _ path v h.0, h.1);
  }

  pub remove_one-Safe : (path : String) → Safe held (remove_one path)
  unfolding remove_one run call
  remove_one-Safe path = record {
    run = λ w h.
        let v : World = noted (Call.remove_file path) w in
        ended-IsTidy (w.env.outcome w.clock) _ (swept-IsTidy _ path v h.0, h.1);
  }

  pub download_to-Safe : (url path : String) → Safe held (download_to url path)
  unfolding download_to run call
  download_to-Safe url path = record {
    run = λ w h.
        let v : World = noted (Call.download url path) w in
        ended-IsTidy (w.env.outcome w.clock) _ (filled-IsTidy _ path v h.0, h.1);
  }

  absent_or_raise-Safe :
      (missing : Bool) (r : Attempt (Unit {0})) → Safe held (absent_or_raise missing r)
  unfolding absent_or_raise
  absent_or_raise-Safe missing (value u) = search keeps_rules
  absent_or_raise-Safe missing (failed e) = search keeps_rules

  pub remove_present-Safe : (path : String) → Safe held (remove_present path)
  unfolding remove_present
  remove_present-Safe path = search (keeps_rules, run-Safe, absent_or_raise-Safe)

  listened_after :
      (b : Bool) (e : Event) (c : Call) (w : World)
      → IsTidyHolding held w
      → After IsTidy (IsTidyHolding held) (
          if b
          then (err address_in_use, record w { trace = c ∷ w.trace; clock = w.clock + 1 })
          else (ended tt e, record w { trace = c ∷ w.trace; clock = w.clock + 1 }))
  listened_after true e c w h = h
  listened_after false e c w h = called_after tt e c w h

  pub listen_on-Safe : (port : ℕ) → Safe held (listen_on port)
  unfolding listen_on
  listen_on-Safe port = record {
    run = λ w h. listened_after (is_bound w port) (w.env.outcome w.clock) (Call.listen port) w h;
  }

pub unlock_first :
    (id : MachineId) (held : List MachineId) (w : World)
    → w.held ≡ id ∷ held
    → unlock_machine id w ≡ (ok tt, record w { held = held })
unfolding unlock_machine remove
unlock_first id held w e = rw (e, =?-refl id) refl

module _ (held : List MachineId) {A : Type 0} where
  unlocked_after :
      (r : Outcome A) (id : MachineId) (w : World)
      → After IsTidy (IsTidyHolding (id ∷ held)) (r, w)
      → After IsTidy (IsTidyHolding held) (Exec.with_deferred (unlock_machine id) r w)
  unlocked_after (ok a) id w (t, e) = rw (unlock_first id held w e) (t, refl)
  unlocked_after (err x) id w (t, e) = rw (unlock_first id held w e) (t, refl)
  unlocked_after (halt x) id w t = t

  locked_after :
      (b : Bool) (id : MachineId) (m : Host A) (w : World)
      → Safe (id ∷ held) m
      → IsTidyHolding held w
      → After IsTidy (IsTidyHolding held) (
          let (r, v) : Outcome (Unit {0}) × World =
            if b then (halt deadlock, w) else (ok tt, record w { held = id ∷ w.held }) in
          Exec.with_outcome (λ u. deferring (unlock_machine id) m) r v)
  unfolding deferring
  locked_after true id m w k (t, e) = t
  locked_after false id m w k (t, e) =
      let v : World = record w { held = id ∷ w.held } in
      let (r, w') = m v in unlocked_after r id w' (k.run v (t, ap (λ x. id ∷ x) e))

  pub with_machine_lock-Safe :
      (id : MachineId) (m : Host A) → Safe (id ∷ held) m → Safe held (with_machine_lock id m)
  unfolding with_machine_lock lock_machine ◌>>=◌
  with_machine_lock-Safe id m k = record {
    run = λ w h. locked_after (is_held id w.held) id m w k h;
  }

pub without_listener-IsUnique :
    (id : String) (ls : List Listener)
    → IsUnique (λ l. l.key) ls
    → IsUnique (λ l. l.key) (without_listener id ls)
without_listener-IsUnique id ls u = elim (Option-cases (remove (λ l. l.key) id ls)) [
  | inl e ↦ rw e u
  | inr (rest, e) ↦ rw e (remove-IsUnique (λ l. l.key) (λ l. l.key) id ls rest e u)
]

pub ruleset host_rules = (
  keeps_rules, sound_rules, on_store-Safe, call-Safe, run-Safe, now-Safe, close_on-Safe,
  remove_present-Safe, remove_tree-Safe, remove_one-Safe, download_to-Safe, lift-Safe,
  with_machine_lock-Safe,
)
