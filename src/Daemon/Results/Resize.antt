-- ===== src/Daemon/Results/Resize.antt =====
-- resizeMachineRecord writes the sizes that were asked for, and never a smaller disk.
use computer_host.Base.{
  String, Outcome, ok, err, halt, message, Bool, true, false, ◌≡◌, refl, sym, subst, ℤ, ◌≤ℤ◌, ltb_ℤ,
  Error, some, string_key, not, ◌&&◌,
}
use computer_host.Model.{MachineId, MachineRecord, VolumeRecord, stopped, is_running, is_stopped}
use computer_host.Host.Exec.{Exec, ◌>>=◌, ◌>>◌, refuse_if}
use computer_host.Host.Exec.Yields.{
  Given, Yields, Yields-pure, Yields-if, Yields-bind, Yields-weaken, Yields-fact,
}
use computer_host.Host.File.Atomic.{Holds}
use computer_host.Host.World.{World}
use computer_host.Host.Calls.{Host, on_store}
use computer_host.Store.Persisted.{PersistedState}
use computer_host.Store.Table.{find}
use computer_host.Store.FileStore.{FileStore}
use computer_host.Store.Machines.{machines, update_machine}
use computer_host.Store.Volumes.{get_volume}
use computer_host.Store.Consistent.Rules.{get_volume-Sound, update_machine-Sound}
use computer_host.Daemon.Files.{resolve_requested_memory_mib}
use computer_host.Daemon.Records
use computer_host.Daemon.Records.{
  stop_machine_record, stopped_record, resized_record, grow_disk, resize_machine_record,
}
use computer_host.Daemon.Results.{Shows, update_machine-Yields, Safe-Yields}
use computer_host.Daemon.Safe.{IsTidy, on_store-Safe}
use computer_host.Daemon.Safe.Records.{take_down-Safe}
use computer_host.Daemon.Results.Grown.{IsGrownTo, no_smaller, grow_disk-Yields}

-- The state file holds a record of the machine that is stopped and has the sizes.
abbrev pub IsResizedIn : MachineId → ℤ → ℤ → FileStore → Type 0
IsResizedIn id memory_mib storage_bytes s =
    (st : PersistedState) × (r : MachineRecord) × Holds s.state st
    × (find machines.key id st.machines ≡ some r)
    × (r.memory_mib ≡ resolve_requested_memory_mib memory_mib)
    × (r.storage_bytes ≡ storage_bytes)
    × (r.phase ≡ stopped)

refuse_if-Yields :
    (P : World → Type 0) (b : Bool) (e : Error)
    → Yields P (λ u w. P w × (b ≡ false)) (refuse_if b e)
unfolding refuse_if
refuse_if-Yields P true e = record { run = λ w h. tt }
refuse_if-Yields P false e = record { run = λ w h. (h, refl) }

-- The record that goes on is that of the machine, stopped or not.
stopped_first-Yields :
    (r : MachineRecord) → Yields IsTidy (λ s w. IsTidy w × (s.id ≡ r.id)) (Records.stopped_first r)
unfolding Records.stopped_first stop_machine_record
stopped_first-Yields r =
    Yields-if IsTidy _ (is_running r.phase) _ _
      (λ p.
        Yields-bind IsTidy (λ u. IsTidy) _ _ _ (Safe-Yields _ (λ held. take_down-Safe held r))
          (λ u.
            Yields-bind IsTidy (λ u. IsTidy) _ _ _
              (Safe-Yields _
                (λ held. on_store-Safe held _ (update_machine-Sound (stopped_record r))))
              (λ u. Yields-pure IsTidy _ (stopped_record r) (λ w t. (t, refl)))))
      (λ p. Yields-pure IsTidy _ r (λ w t. (t, refl)))

resized-Yields :
    (id : MachineId) (s : MachineRecord) (m n : ℤ)
    → s.id ≡ id
    → Yields IsTidy
        (λ u w. IsResizedIn id m n w.store)
        (on_store (update_machine (resized_record s m n)))
resized-Yields id s m n e =
    subst
      (λ x.
        Yields IsTidy (λ u w. IsResizedIn x m n w.store)
          (on_store (update_machine (resized_record s m n))))
      e
      (Yields-weaken IsTidy (λ u w. Shows s.id (resized_record s m n) w.store) _ _
        (λ u w h. let (st, d, f) = h in (st, resized_record s m n, d, f, refl, refl, refl))
        (update_machine-Yields (resized_record s m n)))

abbrev too_small : Error
too_small = message "requested storage is smaller than current storage" ""

-- What follows the checks of resizeMachineRecord.
abbrev unchecked : MachineRecord → ℤ → ℤ → Host (Unit {0})
unchecked r m n = on_store (get_volume r.system_volume_id) >>= λ v. Records.stopped_first r >>= λ s.
    grow_disk v.path n >> on_store (update_machine (resized_record s m n))

-- The store has no part in what was asked of the system.
written_after :
    (R : FileStore → Type 0) (path : String) (n : ℤ) (r : Outcome (Unit {0})) (s : FileStore)
    (w : World)
    → IsGrownTo path n w
    → Given (λ u v. R v.store) (r, record w { store = s })
    → Given (λ u v. R v.store × IsGrownTo path n v) (r, record w { store = s })
written_after R path n (ok u) s w g h = (h, g)
written_after R path n (err e) s w g h = tt
written_after R path n (halt x) s w g h = tt

written-Yields :
    (R : FileStore → Type 0) (path : String) (n : ℤ) (m : Exec FileStore (Unit {0}))
    → Yields IsTidy (λ u w. R w.store) (on_store m)
    → Yields
        (λ w. IsTidy w × IsGrownTo path n w)
        (λ u w. R w.store × IsGrownTo path n w)
        (on_store m)
unfolding on_store
written-Yields R path n m k = record {
  run = λ w h. written_after R path n (m w.store).0 (m w.store).1 w h.1 (k.run w h.0);
}

-- The lookup `q` gave a volume, and its file is grown.
abbrev pub HasGrown : Outcome VolumeRecord → ℤ → World → Type 0
HasGrown q n w = (volume : VolumeRecord) × (q ≡ ok volume) × IsGrownTo volume.path n w

-- A tidy host, on which a lookup of the volume gives `q`.
abbrev Finding : Outcome VolumeRecord → MachineRecord → World → Type 0
Finding q r w = IsTidy w × ((get_volume r.system_volume_id w.store).0 ≡ q)

found_after :
    (q r : Outcome VolumeRecord) (s : FileStore) (w : World)
    → r ≡ q
    → Given (λ v. IsTidy) (r, record w { store = s })
    → Given (λ v x. IsTidy x × (q ≡ ok v)) (r, record w { store = s })
found_after q (ok v) s w e t = (t, sym e)
found_after q (err x) s w e t = tt
found_after q (halt x) s w e t = tt

found-Yields :
    (q : Outcome VolumeRecord) (r : MachineRecord)
    → Yields (Finding q r) (λ v w. IsTidy w × (q ≡ ok v)) (on_store (get_volume r.system_volume_id))
unfolding on_store
found-Yields q r =
    let keeps : Yields IsTidy (λ v. IsTidy) (on_store (get_volume r.system_volume_id)) =
      Safe-Yields _ (λ held. on_store-Safe held _ (get_volume-Sound r.system_volume_id)) in
    record {
      run = λ w h.
          let (a, s) = get_volume r.system_volume_id w.store in
          found_after q a s w h.1 (keeps.run w h.0);
    }

-- What follows the lookup of the volume.
grown-Yields :
    (r : MachineRecord) (path : String) (m n : ℤ)
    → Yields IsTidy
        (λ u w. IsResizedIn r.id m n w.store × IsGrownTo path n w)
        (Records.stopped_first r >>= λ s.
          grow_disk path n >> on_store (update_machine (resized_record s m n)))
grown-Yields r path m n =
    let R : Unit {0} → World → Type 0 = λ u w. IsResizedIn r.id m n w.store × IsGrownTo path n w in
    Yields-bind IsTidy (λ s w. IsTidy w × (s.id ≡ r.id)) R _ _ (stopped_first-Yields r)
      (λ s. Yields-fact IsTidy (s.id ≡ r.id) R _ (λ e.
        Yields-bind IsTidy (λ u w. IsTidy w × IsGrownTo path n w) R _ _ (grow_disk-Yields path n)
          (λ u. written-Yields (IsResizedIn r.id m n) path n _ (resized-Yields r.id s m n e))))

unchecked-Yields :
    (q : Outcome VolumeRecord) (r : MachineRecord) (m n : ℤ)
    → Yields (Finding q r) (λ u w. IsResizedIn r.id m n w.store × HasGrown q n w) (unchecked r m n)
unchecked-Yields q r m n =
    let R : Unit {0} → World → Type 0 = λ u w. IsResizedIn r.id m n w.store × HasGrown q n w in
    Yields-bind (Finding q r) (λ v w. IsTidy w × (q ≡ ok v)) R _ _ (found-Yields q r)
      (λ v. Yields-fact IsTidy (q ≡ ok v) R _ (λ f.
        Yields-weaken IsTidy (λ u w. IsResizedIn r.id m n w.store × IsGrownTo v.path n w) R _
          (λ u w h. (h.0, (v, f, h.1))) (grown-Yields r v.path m n)))

resize_machine_record-Yields :
    (q : Outcome VolumeRecord) (r : MachineRecord) (m n : ℤ)
    → Yields
        (Finding q r)
        (λ u v. (r.storage_bytes ≤ℤ n) × IsResizedIn r.id m n v.store × HasGrown q n v)
        (resize_machine_record r m n)
unfolding resize_machine_record
resize_machine_record-Yields q r m n =
    let P : World → Type 0 = Finding q r in
    let R : Unit {0} → World → Type 0 =
      λ u v. (r.storage_bytes ≤ℤ n) × IsResizedIn r.id m n v.store × HasGrown q n v in
    let unfit : Bool = not (is_running r.phase) && not (is_stopped r.phase) in
    let smaller : Bool = ltb_ℤ n r.storage_bytes in
    Yields-bind P (λ u w. P w × (unfit ≡ false)) R
      (refuse_if unfit (message "machine is not resizable from phase" r.id))
      (λ u. refuse_if smaller too_small >> unchecked r m n) (refuse_if-Yields P unfit _)
      (λ u. Yields-fact P (unfit ≡ false) R _ (λ p.
        Yields-bind P (λ u w. P w × (smaller ≡ false)) R (refuse_if smaller too_small)
          (λ u. unchecked r m n) (refuse_if-Yields P smaller too_small)
          (λ u. Yields-fact P (smaller ≡ false) R _ (λ x.
            Yields-weaken P (λ u v. IsResizedIn r.id m n v.store × HasGrown q n v) R _
              (λ u v h. (no_smaller r.storage_bytes n x, h.0, h.1)) (unchecked-Yields q r m n)))))

-- From a tidy host, with whatever mutexes locked: if resizeMachineRecord succeeds, the storage that was
-- asked for is no smaller than that of the record; the state file holds a record of the machine that
-- is stopped and has the sizes that were asked for (the default memory for one that is not positive);
-- the volume of the record was found in the state file at the start; and the last that was asked of
-- the system was the size of the file of that volume, which is at most the storage that was asked for,
-- or else that this file be truncated to that storage, right after its size was found to be less, so
-- that it does not shrink.
pub resize_machine_record-IsResizedIn :
    (r : MachineRecord) (m n : ℤ) (w : World)
    → IsTidy w
    → Given
        (λ u v.
          (r.storage_bytes ≤ℤ n)
          × IsResizedIn r.id m n v.store
          × HasGrown (get_volume r.system_volume_id w.store).0 n v)
        (resize_machine_record r m n w)
resize_machine_record-IsResizedIn r m n w t =
    (resize_machine_record-Yields (get_volume r.system_volume_id w.store).0 r m n).run w (t, refl)
