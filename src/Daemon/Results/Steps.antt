-- ===== src/Daemon/Results/Steps.antt =====
-- The steps that the requests have in common: the lock, the journal, and the lookup of the record.
use computer_host.Base.{
  Option-cases, ◌≡◌, ◌≢◌, refl, sym, ap, ◌∷◌, Outcome, ok, err, halt, arith, inl, inr, string_key,
  subst, Bool-cases, not_found,
}
use computer_host.Model.{MachineId, MachineRecord, OperationRecord}
use computer_host.Host.Exec
use computer_host.Host.Exec.{
  Exec, try, lift, Attempt, value, failed, ◌>>=◌, ◌>>◌, pure, ignore, deferring,
}
use computer_host.Host.Exec.Post.{Keeps-try}
use computer_host.Host.Exec.Yields.{Given, Yields, Yields-pure, Yields-bind, Yields-both}
use computer_host.Host.World.{World}
use computer_host.Host.Calls.{
  Host, on_store, now, with_machine_lock, lock_machine, unlock_machine, is_held,
}
use computer_host.Host.File.{Disk, read_json_file}
use computer_host.Host.File.Atomic.{Holds, read_ok, read_gone}
use computer_host.Store.Persisted.{PersistedState, PersistedOperations}
use computer_host.Store.Table.{find, remove}
use computer_host.Store.Collection.{get_from}
use computer_host.Store.Consistent.{IsConsistent, KeepsFile}
use computer_host.Store.Consistent.Rules.{read_file_kept, upsert_operation-Sound, get_machine-Sound}
use computer_host.Store.FileStore.{
  FileStore, read_state, on_state, on_operations, update_operations,
}
use computer_host.Store.Machines.{machines, get_machine}
use computer_host.Store.Operations.{delete_operation}
use computer_host.Daemon.Lifecycle.{journaled}
use computer_host.Daemon.Results.{IsGoneFrom, Shows, on_store-Yields, Safe-Yields}
use computer_host.Daemon.Safe.{IsTidy, on_store-Safe}

-- A property of the files only.
abbrev pub InStore : {A : Type 0} → (A → FileStore → Type 0) → A → World → Type 0
InStore R a w = R a w.store

module _ {A : Type 0} (R : A → FileStore → Type 0) where
  unlocked_after :
      (id : MachineId) (r : Outcome A) (w : World)
      → Given (InStore R) (r, w)
      → Given (InStore R) (Exec.with_deferred (unlock_machine id) r w)
  unfolding unlock_machine
  unlocked_after id (ok a) w h = elim (Option-cases (remove (λ x. x) id w.held)) [
    | inl e ↦ rw e tt
    | inr (rest, e) ↦ rw e h
  ]
  unlocked_after id (err x) w h = elim (Option-cases (remove (λ x. x) id w.held)) [
    | inl e ↦ rw e tt
    | inr (rest, e) ↦ rw e tt
  ]
  unlocked_after id (halt x) w h = tt

  pub with_machine_lock-Yields :
      (id : MachineId) (m : Host A)
      → Yields IsTidy (InStore R) m
      → Yields IsTidy (InStore R) (with_machine_lock id m)
  unfolding with_machine_lock lock_machine ◌>>=◌ deferring
  with_machine_lock-Yields id m k = record {
    run = λ w t. elim (Bool-cases (is_held id w.held)) [
      | inl l ↦ rw l tt
      | inr l ↦
          let v : World = record w { held = id ∷ w.held } in
          rw l (unlocked_after id (m v).0 (m v).1 (k.run v t))
    ];
  }

ignored_given :
    (R : FileStore → Type 0) (r : Outcome (Unit {0})) (w : World)
    → R w.store
    → Given (λ u w. R w.store) (Exec.ignored r, w)
ignored_given R (ok a) w h = h
ignored_given R (err e) w h = h
ignored_given R (halt x) w h = tt

-- The journal is another file: what the state file shows, it shows after a call on the journal.
forget-Yields :
    (R : FileStore → Type 0) (id : MachineId)
    → ((s : FileStore) (d : Disk PersistedOperations) → R s → R (record s { operations = d }))
    → Yields (λ w. R w.store) (λ u w. R w.store) (ignore (on_store (delete_operation id)))
unfolding ignore on_store delete_operation update_operations on_operations
forget-Yields R id k = record { run = λ w h. ignored_given R _ _ (k w.store _ h) }

module _ {A : Type 0} (R : A → FileStore → Type 0)
    (other : (a : A) (s : FileStore) (d : Disk PersistedOperations)
      → R a s
      → R a (record s { operations = d })) where
  pub journaled-Yields :
      (id : MachineId) (o : OperationRecord) (body : Host A)
      → Yields IsTidy (InStore R) body
      → Yields IsTidy (InStore R) (journaled id o body)
  unfolding journaled
  journaled-Yields id o body k =
      Yields-bind IsTidy (λ u. IsTidy) _ _ _
        (Safe-Yields _ (λ held. on_store-Safe held _ (upsert_operation-Sound o)))
        (λ u. Yields-bind IsTidy (InStore R) _ _ _ k (λ a.
          Yields-bind (InStore R a) (λ v. InStore R a) _ _ _ (forget-Yields (R a) id (other a))
            (λ v. Yields-pure _ _ a (λ w h. h))))

read_shown :
    (id : MachineId) (st : PersistedState) (s : FileStore) (r : Outcome PersistedState)
    (d : Disk PersistedState)
    → ((b : PersistedState) → r ≡ ok b → b ≡ st)
    → Holds d st
    → Given
        (λ r t. Shows id r t)
        (Exec.with_outcome
          (λ b.
            lift (
              Exec.or_error not_found (λ (r : MachineRecord). r) (find machines.key id b.machines)))
          r
          (record s { state = d }))
unfolding lift
read_shown id st s (ok b) d q h = elim (Option-cases (find machines.key id b.machines)) [
  | inl e ↦ rw e tt
  | inr (r, e) ↦ rw e (b, subst (λ x. Holds d x) (sym (q b refl)) h, e)
]
read_shown id st s (err e) d q h = tt
read_shown id st s (halt x) d q h = tt

-- What follows a read that gives nothing gives nothing.
never_given :
    {A B : Type 0} (Q : B → FileStore → Type 0) (f : A → Exec FileStore B) (r : Outcome A)
    (s : FileStore)
    → ((a : A) → r ≢ ok a)
    → Given Q (Exec.with_outcome f r s)
never_given Q f (ok a) s n = absurd (n a refl)
never_given Q f (err e) s n = tt
never_given Q f (halt x) s n = tt

get_machine-Shows :
    {G : Type 0} (id : MachineId) (s : FileStore)
    → KeepsFile G IsConsistent s.state
    → Given (Shows id) (get_machine id s)
unfolding get_machine get_from read_state on_state ◌>>=◌
get_machine-Shows id s (inl (g, e)) = never_given _ _ _ _ (λ a. read_gone s.state a e)
get_machine-Shows id s (inr (st, h, c)) =
    read_shown id st s (read_json_file s.state).0 (read_json_file s.state).1
      (λ b e. read_ok s.state st b h e) (read_file_kept s.state st h)

pub get_machine-Yields :
    (id : MachineId)
    → Yields IsTidy (λ r w. IsTidy w × Shows id r w.store) (on_store (get_machine id))
get_machine-Yields id =
    Yields-both IsTidy (λ r. IsTidy) (λ r w. Shows id r w.store) _
      (Safe-Yields _ (λ held. on_store-Safe held _ (get_machine-Sound id)))
      (on_store-Yields IsTidy (Shows id) _ (λ w t. get_machine-Shows id w.store t.is_sound.state))

pub now-Yields : (P : World → Type 0) → Yields P (λ t. P) now
unfolding now
now-Yields P = record { run = λ w h. h }

-- What a lookup that is tried shows: the record, or, where it reports a missing one, that there is none.
abbrev pub Found : MachineId → Attempt MachineRecord → FileStore → Type 0
Found id (value r) s = Shows id r s
Found id (failed e) s = e ≡ not_found → IsGoneFrom id s

read_tried :
    (id : MachineId) (st : PersistedState) (s : FileStore) (r : Outcome PersistedState)
    (d : Disk PersistedState)
    → ((b : PersistedState) → r ≡ ok b → b ≡ st)
    → r ≢ err not_found
    → Holds d st
    → Given (Found id) (
        let (q, t) =
          Exec.with_outcome
            (λ b. lift (
              Exec.or_error not_found (λ (r : MachineRecord). r) (find machines.key id b.machines)))
            r
            (record s { state = d }) in
        (Exec.attempted q, t))
unfolding lift
read_tried id st s (ok b) d q n h = elim (Option-cases (find machines.key id b.machines)) [
  | inl e ↦ rw e (λ u. (b, subst (λ x. Holds d x) (sym (q b refl)) h, e))
  | inr (r, e) ↦ rw e (b, subst (λ x. Holds d x) (sym (q b refl)) h, e)
]
read_tried id st s (err e) d q n h = λ u. absurd (n (ap err u))
read_tried id st s (halt x) d q n h = tt

read_never_missing : {A : Type 0} (d : Disk A) → (read_json_file d).0 ≢ err not_found
unfolding read_json_file
read_never_missing d e = ground arith

tried_never :
    {A : Type 0} (id : MachineId) (f : A → Exec FileStore MachineRecord) (r : Outcome A)
    (s : FileStore)
    → ((a : A) → r ≢ ok a)
    → r ≢ err not_found
    → Given (Found id) (let (q, t) = Exec.with_outcome f r s in (Exec.attempted q, t))
tried_never id f (ok a) s n m = absurd (n a refl)
tried_never id f (err e) s n m = λ u. absurd (m (ap err u))
tried_never id f (halt x) s n m = tt

tried_shown :
    {G : Type 0} (id : MachineId) (s : FileStore)
    → KeepsFile G IsConsistent s.state
    → Given (Found id) (try (get_machine id) s)
unfolding get_machine get_from read_state on_state ◌>>=◌ try
tried_shown id s (inl (g, e)) =
    tried_never id _ _ _ (λ a. read_gone s.state a e) (read_never_missing s.state)
tried_shown id s (inr (st, h, c)) =
    read_tried id st s (read_json_file s.state).0 (read_json_file s.state).1
      (λ b e. read_ok s.state st b h e) (read_never_missing s.state) (read_file_kept s.state st h)

tried_given :
    (id : MachineId) (r : Outcome MachineRecord) (s : FileStore) (w : World)
    → Given (Found id) (Exec.attempted r, s)
    → Given (λ a v. Found id a v.store) (Exec.attempted r, record w { store = s })
tried_given id (ok r) s w h = h
tried_given id (err e) s w h = h
tried_given id (halt x) s w h = tt

pub try-get_machine-Yields :
    (id : MachineId)
    → Yields IsTidy (λ a w. IsTidy w × Found id a w.store) (try (on_store (get_machine id)))
unfolding try on_store
try-get_machine-Yields id =
    Yields-both IsTidy (λ r. IsTidy) (λ a w. Found id a w.store) _
      (Safe-Yields _ (λ held. Keeps-try _ (on_store-Safe held _ (get_machine-Sound id))))
      (record {
        run = λ w t.
            let (r, s) = get_machine id w.store in
            tried_given id r s w (tried_shown id w.store t.is_sound.state);
      })
