-- ===== src/Store/Consistent/Slices.antt =====
-- How the updates of the store keep a state consistent, one slice at a time.
use computer_host.Base.{
  ◌≡◌, refl, ap, ◌∙◌, inl, inr, Error, Outcome, ok, err, halt, Option, none, some, arith,
  Option-cases, List, [], ◌∷◌, ◌++◌, string_key, nat_key, false, Key, subst,
}
use computer_host.Model.{
  PublishedPortRecord, ArtifactRecord, MachineRecord, VolumeRecord, SnapshotRecord, MountRecord,
  MachineId, PublishedPortId, ref_key,
}
use computer_host.Host.Exec.{or_error}
use computer_host.Host.File.{Disk, update_file}
use computer_host.Host.File.Atomic.{Holds, update-Updated}
use computer_host.Store.Persisted.{PersistedState, PersistedOperations}
use computer_host.Store.Table.{insert, replace, remove, has, IsUnique}
use computer_host.Store.Table.Unique.{
  insert-IsUnique, replace-IsUnique, remove-IsUnique, append_new-IsUnique,
}
use computer_host.Store.FileStore.{FileStore, update_state, update_operations}
use computer_host.Store.Collection.{Collection, created, updated, deleted}
use computer_host.Store.Machines.{machines}
use computer_host.Store.Volumes.{volumes}
use computer_host.Store.Snapshots.{snapshots}
use computer_host.Store.Mounts.{mounts}
use computer_host.Store.Ports.{published_ports, check_conflict, appended}
use computer_host.Store.Operations.{without_operation}
use computer_host.Store.Consistent.{IsConsistent, HasOneEach, IsSound}

-- An update that keeps a property of the value keeps it of the file.
update_file-keeps :
    {A : Type 0} (P : A → Type 0) (f : A → Outcome A) (d : Disk A)
    → ((a b : A) → P a → f a ≡ ok b → P b)
    → (a : A) × Holds d a × P a
    → (a : A) × Holds (update_file f d).1 a × P a
update_file-keeps P f d keep (a, h, p) = elim (update-Updated f d a h) [
  | inl w ↦ (a, w.0 ∙ h, p)
  | inr (b, e, w) ↦ (b, w, keep a b p e)
]

pub update_state-IsSound :
    (f : PersistedState → Outcome PersistedState) (s : FileStore)
    → ((a b : PersistedState) → IsConsistent a → f a ≡ ok b → IsConsistent b)
    → IsSound s
    → IsSound (update_state f s).1
unfolding update_state
update_state-IsSound f s keep h = record {
  state = update_file-keeps IsConsistent f s.state keep h.state;
  journal = h.journal;
}

pub update_operations-IsSound :
    (f : PersistedOperations → Outcome PersistedOperations) (s : FileStore)
    → ((a b : PersistedOperations) → HasOneEach a → f a ≡ ok b → HasOneEach b)
    → IsSound s
    → IsSound (update_operations f s).1
unfolding update_operations
update_operations-IsSound f s keep h = record {
  state = h.state;
  journal = update_file-keeps HasOneEach f s.operations keep h.journal;
}

or_error_ok :
    {A B : Type 0} (e : Error) (f : A → B) (o : Option A) (b : B)
    → or_error e f o ≡ ok b
    → (a : A) × (o ≡ some a) × (f a ≡ b)
or_error_ok e f none b h = cc
or_error_ok e f (some a) b h = (a, refl, cc)

pub ok-injective : {A : Type 0} {a b : A} → ok a ≡ ok b → a ≡ b
ok-injective {a = a} h = ap (elim [ ok x ↦ x | err e ↦ a | halt y ↦ a ]) h

-- What a successful loop of a slice leaves unique.
module _ {A K : Type 0} ⦃k : Key K⦄ (c : Collection A K) (s t : PersistedState) where
  pub created-IsUnique :
      (e : Error) (a : A)
      → IsUnique c.key (c.items s)
      → created c e a s ≡ ok t
      → (ys : List A) × IsUnique c.key ys × (c.with_items s ys ≡ t)
  created-IsUnique e a u h =
      let (ys, p, q) = or_error_ok e (c.with_items s) (insert c.key a (c.items s)) t h in
      (ys, insert-IsUnique c.key a (c.items s) ys p u, q)

  pub updated-IsUnique :
      (a : A)
      → IsUnique c.key (c.items s)
      → updated c a s ≡ ok t
      → (ys : List A) × IsUnique c.key ys × (c.with_items s ys ≡ t)
  updated-IsUnique a u h =
      let (ys, p, q) = or_error_ok _ (c.with_items s) (replace c.key a (c.items s)) t h in
      (ys, replace-IsUnique c.key a (c.items s) ys p u, q)

  pub deleted-IsUnique :
      (id : K)
      → IsUnique c.key (c.items s)
      → deleted c id s ≡ ok t
      → (ys : List A) × IsUnique c.key ys × (c.with_items s ys ≡ t)
  deleted-IsUnique id u h =
      let (ys, p, q) = or_error_ok _ (c.with_items s) (remove c.key id (c.items s)) t h in
      (ys, remove-IsUnique c.key c.key id (c.items s) ys p u, q)

-- A consistent state with one slice replaced.
module _ {s : PersistedState} (c : IsConsistent s) where
  pub with_machines :
      (ys : List MachineRecord)
      → IsUnique machines.key ys
      → IsConsistent (record s { machines = ys })
  with_machines ys u = record {
    artifact_refs = c.artifact_refs;
    machine_ids = u;
    volume_ids = c.volume_ids;
    snapshot_ids = c.snapshot_ids;
    port_ids = c.port_ids;
    host_ports = c.host_ports;
    mount_ids = c.mount_ids;
  }

  pub with_volumes :
      (ys : List VolumeRecord) → IsUnique volumes.key ys → IsConsistent (record s { volumes = ys })
  with_volumes ys u = record {
    artifact_refs = c.artifact_refs;
    machine_ids = c.machine_ids;
    volume_ids = u;
    snapshot_ids = c.snapshot_ids;
    port_ids = c.port_ids;
    host_ports = c.host_ports;
    mount_ids = c.mount_ids;
  }

  pub with_snapshots :
      (ys : List SnapshotRecord)
      → IsUnique snapshots.key ys
      → IsConsistent (record s { snapshots = ys })
  with_snapshots ys u = record {
    artifact_refs = c.artifact_refs;
    machine_ids = c.machine_ids;
    volume_ids = c.volume_ids;
    snapshot_ids = u;
    port_ids = c.port_ids;
    host_ports = c.host_ports;
    mount_ids = c.mount_ids;
  }

  pub with_mounts :
      (ys : List MountRecord) → IsUnique mounts.key ys → IsConsistent (record s { mounts = ys })
  with_mounts ys u = record {
    artifact_refs = c.artifact_refs;
    machine_ids = c.machine_ids;
    volume_ids = c.volume_ids;
    snapshot_ids = c.snapshot_ids;
    port_ids = c.port_ids;
    host_ports = c.host_ports;
    mount_ids = u;
  }

  pub with_artifacts :
      (ys : List ArtifactRecord)
      → IsUnique (λ a. a.ref) ys
      → IsConsistent (record s { artifacts = ys })
  with_artifacts ys u = record {
    artifact_refs = u;
    machine_ids = c.machine_ids;
    volume_ids = c.volume_ids;
    snapshot_ids = c.snapshot_ids;
    port_ids = c.port_ids;
    host_ports = c.host_ports;
    mount_ids = c.mount_ids;
  }

  with_published_ports :
      (ys : List PublishedPortRecord)
      → IsUnique published_ports.key ys
      → IsUnique (λ p. p.host_port) ys
      → IsConsistent (record s { published_ports = ys })
  with_published_ports ys u v = record {
    artifact_refs = c.artifact_refs;
    machine_ids = c.machine_ids;
    volume_ids = c.volume_ids;
    snapshot_ids = c.snapshot_ids;
    port_ids = u;
    host_ports = v;
    mount_ids = c.mount_ids;
  }

-- A new port that passes the check shares neither its id nor its host port.
check_conflict_id :
    (new : PublishedPortRecord) (ports : List PublishedPortRecord)
    → check_conflict new ports ≡ ok tt
    → (has published_ports.key new.id ports ≡ false)
      × (has (λ p. p.host_port) new.host_port ports ≡ false)
unfolding check_conflict has
check_conflict_id new [] h = (refl, refl)
check_conflict_id new (p ∷ ports) h = ground (arith, check_conflict_id new ports)

appended_ok :
    (new : PublishedPortRecord) (s t : PersistedState) (q : Outcome (Unit {0}))
    → appended new s q ≡ ok t
    → (q ≡ ok tt) × (record s { published_ports = s.published_ports ++ new ∷ [] } ≡ t)
appended_ok new s t (ok u) h = (refl, cc)
appended_ok new s t (err e) h = cc
appended_ok new s t (halt x) h = cc

pub appended-IsConsistent :
    (new : PublishedPortRecord) (s t : PersistedState)
    → IsConsistent s
    → appended new s (check_conflict new s.published_ports) ≡ ok t
    → IsConsistent t
appended-IsConsistent new s t c h =
    let (e, p) = appended_ok new s t (check_conflict new s.published_ports) h in
    let (i, j) = check_conflict_id new s.published_ports e in
    subst IsConsistent p (
      with_published_ports c _ (append_new-IsUnique published_ports.key new _ i c.port_ids)
        (append_new-IsUnique (λ p. p.host_port) new _ j c.host_ports))

pub deleted_port-IsConsistent :
    (id : PublishedPortId) (s t : PersistedState)
    → IsConsistent s
    → deleted published_ports id s ≡ ok t
    → IsConsistent t
deleted_port-IsConsistent id s t c h =
    let (ys, p, q) =
      or_error_ok _ (published_ports.with_items s) (remove published_ports.key id s.published_ports)
        t h in
    subst IsConsistent q (
      with_published_ports c ys
        (remove-IsUnique published_ports.key published_ports.key id s.published_ports ys p
          c.port_ids)
        (remove-IsUnique published_ports.key (λ p. p.host_port) id s.published_ports ys p
          c.host_ports))

pub without_operation-HasOneEach :
    (id : MachineId) (j : PersistedOperations)
    → HasOneEach j
    → HasOneEach (without_operation j (remove (λ o. o.machine_id) id j.operations))
without_operation-HasOneEach id j h =
    elim (Option-cases (remove (λ o. o.machine_id) id j.operations)) [
      | inl e ↦ rw e h
      | inr (ys, e) ↦
          rw e (remove-IsUnique (λ o. o.machine_id) (λ o. o.machine_id) id j.operations ys e h)
    ]
