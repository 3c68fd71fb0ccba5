-- ===== src/Daemon/Results.antt =====
-- What the record of a machine says after a request on it succeeded.
pub mod Steps
pub mod Stop
pub mod Grown
pub mod Resize
use computer_host.Base.{
  Bool, true, false, ◌≡◌, ◌≢◌, refl, sym, ◌∙◌, ap, List, [], ◌∷◌, Outcome, Error, ok, err, halt,
  Option, none, some, arith, inl, inr, ◌⊎◌, string_key, ◌=?◌, subst, =?→≡, Bool-cases, =?-refl, Key,
  if◌then◌else◌,
}
use computer_host.Model.{MachineId, Time, MachineRecord, MachinePhase, stopped, is_stopped}
use computer_host.Host.Exec
use computer_host.Host.Exec.{Exec, ◌>>=◌, ◌>>◌, pure, ignore, deferring}
use computer_host.Host.Exec.Post.{After, Keeps, keeps_rules}
use computer_host.Host.Exec.Yields.{
  Given, Yields, Yields-pure, Yields-Keeps, Yields-if, Yields-bind,
}
use computer_host.Host.File.{read_json_file}
use computer_host.Host.File.Atomic.{Holds, read_ok, read_current, update_gone}
use computer_host.Host.World.{World}
use computer_host.Host.Calls.{
  Host, on_store, now, with_machine_lock, lock_machine, unlock_machine, is_held,
}
use computer_host.Store.Persisted.{PersistedState}
use computer_host.Store.Table.{find, remove}
use computer_host.Store.FileStore.{FileStore, update_state, on_state}
use computer_host.Store.Refines.{on_present, put_key, map_of, Refines, updates, deletes}
use computer_host.Store.Maps.{machine_methods-Refines}
use computer_host.Store.Machines.{machines, get_machine, update_machine, delete_machine}
use computer_host.Store.Consistent.{IsSound}
use computer_host.Store.Consistent.Slices.{ok-injective}
use computer_host.Daemon.Safe.{IsTidy, IsTidyHolding, Safe}

-- The state file holds a record of the machine, which is stopped.
abbrev pub IsStoppedIn : MachineId → FileStore → Type 0
IsStoppedIn id s =
    (st : PersistedState) × (r : MachineRecord) × Holds s.state st
    × (find machines.key id st.machines ≡ some r)
    × (r.phase ≡ stopped)

-- The state file holds no record of the machine.
abbrev pub IsGoneFrom : MachineId → FileStore → Type 0
IsGoneFrom id s =
    (st : PersistedState) × Holds s.state st × (find machines.key id st.machines ≡ none)

-- The record is the machine's in the state file.
abbrev pub Shows : MachineId → MachineRecord → FileStore → Type 0
Shows id r s =
    (st : PersistedState) × Holds s.state st × (find machines.key id st.machines ≡ some r)

present_ok : {A B : Type 0} (o : Option A) (e : Error) (b c : B) → on_present o e b ≡ ok c → b ≡ c
present_ok none e b c h = cc
present_ok (some a) e b c h = ok-injective h

put_here :
    {A : Type 0} (id : MachineId) (a : Option A) (m : MachineId → Option A) → put_key id a m id ≡ a
put_here id a m = rw (=?-refl id) refl

pub find_key :
    (id : MachineId) (r : MachineRecord) (xs : List MachineRecord)
    → find machines.key id xs ≡ some r
    → r.id ≡ id
unfolding find
find_key id r [] h = cc
find_key id r (x ∷ xs) h = ground (arith, find_key id r xs, string_key.same_iff x.id id)

updated_shown :
    (m : MachineRecord) (s : FileStore) (r : Outcome (Unit {0})) (t : FileStore)
    (before : PersistedState)
    → Refines machines (updates m) before s (r, t)
    → Given (λ u t. Shows m.id m t) (r, t)
updated_shown m s (err e) t before f = tt
updated_shown m s (halt x) t before f = tt
updated_shown m s (ok u) t before f = elim f.state_file [
  | inl (e, n) ↦ absurd (n refl)
  | inr (after, map, h, c, e) ↦
      let p = ap (λ g. g m.id) (present_ok _ _ _ map c) in
      (after, h, e m.id ∙ (sym p ∙ put_here m.id (some m) (map_of machines before)))
]

deleted_shown :
    (id : MachineId) (s : FileStore) (r : Outcome (Unit {0})) (t : FileStore)
    (before : PersistedState)
    → Refines machines (deletes id) before s (r, t)
    → Given (λ u t. IsGoneFrom id t) (r, t)
deleted_shown id s (err e) t before f = tt
deleted_shown id s (halt x) t before f = tt
deleted_shown id s (ok u) t before f = elim f.state_file [
  | inl (e, n) ↦ absurd (n refl)
  | inr (after, map, h, c, e) ↦
      let p = ap (λ g. g id) (present_ok _ _ _ map c) in
      (after, h, e id ∙ (sym p ∙ put_here id none (map_of machines before)))
]

-- A call of the store on the host yields what it yields on the store.
pub stored :
    {A : Type 0} (Q : A → FileStore → Type 0) (r : Outcome A) (s : FileStore) (w : World)
    → Given Q (r, s)
    → Given (λ a v. Q a v.store) (r, record w { store = s })
stored Q (ok a) s w h = h
stored Q (err e) s w h = tt
stored Q (halt x) s w h = tt

pub on_store-Yields :
    {A : Type 0} (P : World → Type 0) (Q : A → FileStore → Type 0) (m : Exec FileStore A)
    → ((w : World) → P w → Given Q (m w.store))
    → Yields P (λ a w. Q a w.store) (on_store m)
unfolding on_store
on_store-Yields P Q m k = record { run = λ w h. stored Q (m w.store).0 (m w.store).1 w (k w h) }

-- A call that does not succeed gives nothing.
gone_given :
    (Q : Unit {0} → FileStore → Type 0) (r : Outcome (Unit {0})) (s : FileStore)
    → r ≢ ok tt
    → Given Q (r, s)
gone_given Q (ok u) s n = absurd (n refl)
gone_given Q (err e) s n = tt
gone_given Q (halt x) s n = tt

pub update_machine-Yields :
    (m : MachineRecord) → Yields IsTidy (λ u w. Shows m.id m w.store) (on_store (update_machine m))
unfolding update_machine update_state on_state
update_machine-Yields m = on_store-Yields IsTidy _ _ λ w t. elim t.is_sound.state [
  | inl (g, e) ↦ gone_given _ _ _ (update_gone _ w.store.state e).1
  | inr (st, h, c) ↦
      let (create, update, delete) = machine_methods-Refines w.store st h m m.id c.machine_ids in
      updated_shown m w.store (update_machine m w.store).0 (update_machine m w.store).1 st update
]

pub delete_machine-Yields :
    (m : MachineRecord)
    → Yields IsTidy (λ u w. IsGoneFrom m.id w.store) (on_store (delete_machine m.id))
unfolding delete_machine update_state on_state
delete_machine-Yields m = on_store-Yields IsTidy _ _ λ w t. elim t.is_sound.state [
  | inl (g, e) ↦ gone_given _ _ _ (update_gone _ w.store.state e).1
  | inr (st, h, c) ↦
      let (create, update, delete) = machine_methods-Refines w.store st h m m.id c.machine_ids in
      deleted_shown m.id w.store (delete_machine m.id w.store).0 (delete_machine m.id w.store).1 st
        delete
]

-- What is safe whatever is locked keeps the host tidy.
pub Safe-Yields :
    {A : Type 0} (m : Host A)
    → ((held : List MachineId) → Safe held m)
    → Yields IsTidy (λ a. IsTidy) m
Safe-Yields m k = record { run = λ w t. tidied (m w).0 (m w).1 w ((k w.held).run w (t, refl)) }
  where
    tidied :
        {A : Type 0} (r : Outcome A) (v w : World)
        → After IsTidy (IsTidyHolding w.held) (r, v)
        → Given (λ a. IsTidy) (r, v)
    tidied (ok a) v w h = h.0
    tidied (err e) v w h = tt
    tidied (halt x) v w h = tt
