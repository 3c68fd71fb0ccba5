-- ===== src/Host/Calls.antt =====
-- Calls of the store and of the system on a host, its mutexes and its listeners.
use Prim.Native.String.{◌++◌}
use computer_host.Base.{
  true, false, clean, lies_in, ℕ, ◌+◌, String, Bool, Option, none, some, List, ◌∷◌, Outcome, ok,
  err, halt, external, address_in_use, died, unlock_of_unlocked, deadlock, ◌=?◌, string_key,
  if◌then◌else◌, some_of, ◌||◌, ◌==◌,
}
use computer_host.Model.{MachineId, Time}
use computer_host.Host.Exec.{
  Attempt, value, failed, raise, try, Exec, ◌>>=◌, ◌>>◌, pure, gets, deferring,
}
use computer_host.Host.File.{Event, Disk, torn}
use computer_host.Host.World.{World, Config, Listener, Env, Call, listen, close_listener}
use computer_host.Store.FileStore.{FileStore}
use computer_host.Store.Table.{remove}

abbrev pub Host : Type 0 → Type 0
Host A = Exec World A

-- A method of the store.
unfoldable pub on_store : {A : Type 0} → Exec FileStore A → Host A
on_store m w = let (r, s) = m w.store in (r, record w { store = s })

abbrev pub noted : Call → World → World
noted c w = record w { trace = c ∷ w.trace; clock = w.clock + 1 }

abbrev pub ended : {A : Type 0} → A → Event → Outcome A
ended a Event.succeeds = ok a
ended a Event.fails = err (external "")
ended a Event.finds_in_use = err address_in_use
ended a Event.dies = halt died

-- A call that returns what the environment says.
unfoldable pub call : {A : Type 0} → Call → (Env → ℕ → A) → Host A
call c answer w = (ended (answer w.env w.clock) (w.env.outcome w.clock), noted c w)

-- A call that returns nothing but an error.
unfoldable pub run : Call → Host (Unit {0})
unfolding call
run c = call c (λ _ _. tt)

abbrev pub gone_if : {A : Type 0} → Bool → Bool → Disk A → Disk A
gone_if current temp d = record d {
  file = record {
    current = if current then none else d.file.current;
    temp = if temp then none else d.file.temp;
  };
}

abbrev pub temp_of : String → String
temp_of path = path ++ ".tmp"

-- The store, without the files that are a path or lie below it.
unfoldable pub swept : String → Config → FileStore → FileStore
swept path c s = record {
  state = gone_if (lies_in path c.state_path) (lies_in path (temp_of c.state_path)) s.state;
  operations =
      gone_if (lies_in path c.operations_path) (lies_in path (temp_of c.operations_path))
        s.operations;
}

abbrev pub is_success : Event → Bool
is_success Event.succeeds = true
is_success _ = false

abbrev pub swept_if : Bool → String → World → World
swept_if takes path w = record w {
  store = if takes then swept path w.config w.store else w.store;
  removed = path ∷ w.removed;
}

-- os.RemoveAll, which also takes the files of the store where they are the path or lie below it. Where it
-- fails, or the process dies in it, the environment says whether it took them.
unfoldable pub remove_tree : String → Host (Unit {0})
unfolding run swept
remove_tree path w =
    let (r, v) = run (Call.remove_all path) w in
    (r, swept_if (is_success (w.env.outcome w.clock) || w.env.answer w.clock) path v)

-- os.Remove of a file.
unfoldable pub remove_one : String → Host (Unit {0})
unfolding run swept
remove_one path w =
    let (r, v) = run (Call.remove_file path) w in
    (r, swept_if (is_success (w.env.outcome w.clock) || w.env.answer w.clock) path v)

abbrev pub is_same : String → String → Bool
is_same path file = clean path =? clean file

abbrev pub filled_if : {A : Type 0} → Bool → Disk A → Disk A
filled_if hit d = record d {
  file = record d.file { current = if hit then some torn else d.file.current };
}

abbrev pub filled_store : String → Config → FileStore → FileStore
filled_store path c s = record {
  state = filled_if (is_same path c.state_path) s.state;
  operations = filled_if (is_same path c.operations_path) s.operations;
}

abbrev pub filled : Bool → String → World → World
filled takes path w = record w {
  store = if takes then filled_store path w.config w.store else w.store;
  overwritten = path ∷ w.overwritten;
}

-- A download to a path that a request names, which may be a file of the store: what it leaves there does
-- not decode, since an artifact is an image or the state of a machine. Where it fails, or the
-- process dies in it, the environment says whether the file was already written to.
unfoldable pub download_to : String → String → Host (Unit {0})
unfolding run
download_to url path w =
    let (r, v) = run (Call.download url path) w in
    (r, filled (is_success (w.env.outcome w.clock) || w.env.answer w.clock) path v)

-- time.Now().
unfoldable pub now : Host Time
now w = (ok (w.env.now w.clock), w)

abbrev pub is_held : MachineId → List MachineId → Bool
is_held id held = some_of (λ x. x =? id) held

-- lockMachine. A request that locks a mutex which it holds waits forever.
unfoldable pub lock_machine : MachineId → Host (Unit {0})
lock_machine id w =
    if is_held id w.held then (halt deadlock, w) else (ok tt, record w { held = id ∷ w.held })

abbrev pub unlocked : World → Option (List MachineId) → Outcome (Unit {0}) × World
unlocked w none = (halt unlock_of_unlocked, w)
unlocked w (some rest) = (ok tt, record w { held = rest })

unfoldable pub unlock_machine : MachineId → Host (Unit {0})
unlock_machine id w = unlocked w (remove (λ x. x) id w.held)

-- unlock := d.lockMachine(id); defer unlock()
unfoldable pub with_machine_lock : {A : Type 0} → MachineId → Host A → Host A
unfolding ◌>>=◌ deferring
with_machine_lock id m = do lock_machine id; deferring (unlock_machine id) m

abbrev rest_or_all : Option (List Listener) → List Listener → List Listener
rest_or_all none ls = ls
rest_or_all (some rest) ls = rest

-- delete(listeners, key).
abbrev pub without_listener : String → List Listener → List Listener
without_listener key ls = rest_or_all (remove (λ l. l.key) key ls) ls

-- Whether a listener of the daemon holds a port of the host.
abbrev pub is_bound : World → ℕ → Bool
is_bound w port =
    some_of (λ l. l.host_port == port) w.machine_relay_listeners
    || some_of (λ l. l.host_port == port) w.published_port_listeners

-- net.Listen: a port that a listener of the daemon holds is in use; for another one the environment
-- answers.
unfoldable pub listen_on : ℕ → Host (Unit {0})
listen_on port w =
    if is_bound w port
    then (err address_in_use, noted (listen port) w)
    else (ended tt (w.env.outcome w.clock), noted (listen port) w)

-- listener.Close(), whose error the program ignores.
unfoldable pub close_on : ℕ → Host (Unit {0})
close_on port w = (ok tt, noted (close_listener port) w)

unfoldable pub absent_or_raise : Bool → Attempt (Unit {0}) → Host (Unit {0})
unfolding pure raise
absent_or_raise missing (value _) = pure tt
absent_or_raise missing (failed e) = if missing then pure tt else raise e

-- os.Remove where a missing file is no error; the answer of the environment says whether it is missing.
unfoldable pub remove_present : String → Host (Unit {0})
unfolding ◌>>=◌ gets try absent_or_raise
remove_present path = do
  missing ← gets (λ w. w.env.answer w.clock)
  removed ← try (run (Call.remove_file path))
  absent_or_raise missing removed
