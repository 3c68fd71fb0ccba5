-- ===== src/Daemon/Snapshots/Take/Resumed.antt =====
-- A machine that CreateSnapshot paused is resumed again.
use computer_host.Base.{
  String, Bool, ◌≡◌, refl, Bool-cases, inl, inr, List, [], ◌∷◌, Outcome, ok, err, halt, string_key,
  ℤ, Option, some, none,
}
use computer_host.Model.{
  MachineId, SnapshotId, MachineRecord, SnapshotArtifactRecord, OperationRecord, SnapshotRecord,
}
use computer_host.Host.Exec
use computer_host.Host.Exec.{
  Exec, Attempt, value, failed, ◌>>=◌, ◌>>◌, pure, ignore, on_error, wrapping, deferring,
}
use computer_host.Host.Exec.Post.{After, Keeps-pure, Keeps-bind}
use computer_host.Host.Exec.Yields.{Given}
use computer_host.Host.World.{World, Call}
use computer_host.Host.Calls.{
  Host, run, on_store, now, with_machine_lock, lock_machine, unlock_machine, is_held,
}
use computer_host.Base.{not_found, Option-cases, subst}
use computer_host.Host.Exec.{or_error, lift}
use computer_host.Store.Persisted.{PersistedState}
use computer_host.Store.Table.{find, remove}
use computer_host.Store.Table.Laws.{find_key}
use computer_host.Store.FileStore.{FileStore, read_state}
use computer_host.Store.Collection.{get_from}
use computer_host.Store.Machines.{machines, get_machine}
use computer_host.Store.Snapshots.{create_snapshot}
use computer_host.Daemon.Lifecycle.{journaled}
use computer_host.Daemon.Awake.{
  on_store-Rests, remove_tree-Rests, IsAwake, Halted, Wakes, Rests, resting, run-Rests, call-Rests,
  Wakes-bind, Wakes-on_error, Wakes-caught, Wakes-ignore, Wakes-wrapping, resume-Wakes, pause_then,
}
use computer_host.Daemon.Snapshots
use computer_host.Daemon.Snapshots.Take
use computer_host.Daemon.Snapshots.Take.{take, copy_and_resume, create_machine_snapshot}

module _ (id : MachineId) where
  made_dir-Rests :
      (snapshot_id : SnapshotId) (exists : Bool) (a : Attempt (Unit {0}))
      → Rests id (Take.made_dir snapshot_id exists a)
  unfolding Take.made_dir
  made_dir-Rests s exists (value u) = search resting
  made_dir-Rests s exists (failed e) = search resting

  known_size-Rests : (missing : Bool) (a : Attempt ℤ) → Rests id (Snapshots.known_size missing a)
  unfolding Snapshots.known_size
  known_size-Rests missing (value n) = search resting
  known_size-Rests missing (failed e) = search resting

  file_size-Rests : (path : String) → Rests id (Snapshots.file_size path)
  unfolding Snapshots.file_size
  file_size-Rests path = search (resting, call-Rests, known_size-Rests) depth 9

  disk_artifact-Rests : (path : String) → Rests id (Snapshots.disk_artifact path)
  unfolding Snapshots.disk_artifact
  disk_artifact-Rests path = search (resting, call-Rests, file_size-Rests)

  disk_artifacts_then-Rests :
      (path : String) (rest : Host (List SnapshotArtifactRecord))
      → Rests id rest
      → Rests id (Take.disk_artifacts_then path rest)
  unfolding Take.disk_artifacts_then
  disk_artifacts_then-Rests path rest k = search (resting, disk_artifact-Rests)

  disk_artifacts-Rests : (paths : List String) → Rests id (Take.disk_artifacts paths)
  unfolding Take.disk_artifacts
  disk_artifacts-Rests [] = search resting
  disk_artifacts-Rests (path ∷ paths) =
      disk_artifacts_then-Rests path _ (disk_artifacts-Rests paths)

  build_snapshot_artifacts-Rests :
      (paths : List String) → Rests id (Take.build_snapshot_artifacts paths)
  unfolding Take.build_snapshot_artifacts
  build_snapshot_artifacts-Rests paths = search (resting, disk_artifacts-Rests)

  forget-Rests : (directory : String) → Rests id (Take.forget directory)
  forget-Rests directory = search (resting, remove_tree-Rests)

-- CreateSnapshot from the pause on.
abbrev paused_copy : SnapshotId → MachineId → MachineRecord → String → Host SnapshotRecord
paused_copy id machine_id r directory = do
  wrapping "pause machine" (run (Call.pause r.id))
  paths ← copy_and_resume r directory
  artifacts ←
      on_error (Take.forget directory)
        (wrapping "build snapshot artifacts" (Take.build_snapshot_artifacts paths))
  created_at ← now
  let s = Take.snapshot_of id machine_id r paths artifacts created_at
  on_error (Take.forget directory) (on_store (create_snapshot s))
  pure s

module _ (r : MachineRecord) where
  copy_and_resume-Wakes : (directory : String) → Wakes r.id (copy_and_resume r directory)
  unfolding copy_and_resume
  copy_and_resume-Wakes directory =
      let forget = forget-Rests r.id directory in
      Wakes-caught r.id _ _ _
        (Wakes-bind r.id _ _ (Wakes-ignore r.id _ (resume-Wakes r.id)) (λ u. forget))
        (λ paths.
          Wakes-bind r.id _ _
            (Wakes-on_error r.id _ _ forget (Wakes-wrapping r.id _ _ (resume-Wakes r.id)))
            (λ u. Keeps-pure paths))

  paused_copy-Rests :
      (id : SnapshotId) (machine_id : MachineId) (directory : String)
      → Rests r.id (paused_copy id machine_id r directory)
  paused_copy-Rests id machine_id directory = pause_then r.id "pause machine" _ (λ u.
      Wakes-bind r.id _ _ (copy_and_resume-Wakes directory)
        (λ paths. search (resting, forget-Rests, build_snapshot_artifacts-Rests) depth 10))

  take-Rests : (id : SnapshotId) (machine_id : MachineId) → Rests r.id (take id machine_id r)
  unfolding take
  take-Rests id machine_id = search (resting, run-Rests, made_dir-Rests, paused_copy-Rests)

refuse_pending-Rests :
    (id : MachineId) (a : Attempt (List OperationRecord)) → Rests id (Take.refuse_pending id a)
unfolding Take.refuse_pending
refuse_pending-Rests id (value os) = search resting
refuse_pending-Rests id (failed e) = search resting

refuse_taken-Rests :
    (id : MachineId) (s : SnapshotId) (a : Attempt SnapshotRecord)
    → Rests id (Take.refuse_taken s a)
unfolding Take.refuse_taken
refuse_taken-Rests id s (value r) = search resting
refuse_taken-Rests id s (failed e) = search resting

-- The record that the store gives has the identifier that was asked for.
abbrev HasId : MachineId → MachineRecord → World → Type 0
HasId id r w = r.id ≡ id

looked_up_has :
    (id : MachineId) (r : Option MachineRecord) (w : World)
    → ((a : MachineRecord) → r ≡ some a → a.id ≡ id)
    → Given (HasId id) (or_error not_found (λ (a : MachineRecord). a) r, w)
looked_up_has id none w h = tt
looked_up_has id (some a) w h = h a refl

read_has :
    (id : MachineId) (r : Outcome PersistedState) (s : FileStore) (w : World)
    → Given (HasId id) (
      (Exec.with_outcome
          (λ (state : PersistedState).
            lift
              (or_error not_found (λ (a : MachineRecord). a) (find machines.key id state.machines)))
          r
          s).0,
      w,
    )
unfolding lift
read_has id (ok state) s w =
    looked_up_has id (find machines.key id state.machines) w
      (λ a. find_key machines.key id state.machines a)
read_has id (err e) s w = tt
read_has id (halt x) s w = tt

get_machine-HasId : (id : MachineId) (w : World) → Given (HasId id) (on_store (get_machine id) w)
unfolding on_store get_machine get_from ◌>>=◌
get_machine-HasId id w = let (r, s) = read_state w.store in read_has id r s _

module _ (id : MachineId) where
  found_then :
      {B : Type 0} (f : MachineRecord → Host B) (r : Outcome MachineRecord) (w : World)
      → Given (HasId id) (r, w)
      → After Halted (IsAwake id) (r, w)
      → ((a : MachineRecord) → a.id ≡ id → Rests id (f a))
      → After Halted (IsAwake id) (Exec.with_outcome f r w)
  found_then f (ok a) w g h k = (k a g).run w h
  found_then f (err e) w g h k = h
  found_then f (halt x) w g h k = tt

  get_machine_then :
      {B : Type 0} (f : MachineRecord → Host B)
      → ((a : MachineRecord) → a.id ≡ id → Rests id (f a))
      → Rests id (on_store (get_machine id) >>= f)
  unfolding ◌>>=◌
  get_machine_then f k = record {
    run = λ w h.
        let (r, v) = on_store (get_machine id) w in
        found_then f r v (get_machine-HasId id w) ((on_store-Rests id (get_machine id)).run w h) k;
  }

  lift-Rests : {A : Type 0} (r : Outcome A) → Rests id (lift r)
  unfolding lift
  lift-Rests (ok a) = record { run = λ w h. h }
  lift-Rests (err e) = record { run = λ w h. h }
  lift-Rests (halt x) = record { run = λ w h. tt }

  journaled-Rests :
      {A : Type 0} (o : OperationRecord) (body : Host A)
      → Rests id body
      → Rests id (journaled id o body)
  unfolding journaled
  journaled-Rests o body k = search resting

  unlocked_after :
      {A : Type 0} (r : Outcome A) (w : World)
      → After Halted (IsAwake id) (r, w)
      → After Halted (IsAwake id) (Exec.with_deferred (unlock_machine id) r w)
  unfolding unlock_machine
  unlocked_after (ok a) w h = elim (Option-cases (remove (λ x. x) id w.held)) [
    | inl e ↦ rw e tt
    | inr (rest, e) ↦ rw e h
  ]
  unlocked_after (err x) w h = elim (Option-cases (remove (λ x. x) id w.held)) [
    | inl e ↦ rw e tt
    | inr (rest, e) ↦ rw e h
  ]
  unlocked_after (halt x) w h = tt

  with_machine_lock-Rests :
      {A : Type 0} (m : Host A) → Rests id m → Rests id (with_machine_lock id m)
  unfolding with_machine_lock lock_machine ◌>>=◌ deferring
  with_machine_lock-Rests m k = record {
    run = λ w h. elim (Bool-cases (is_held id w.held)) [
      | inl l ↦ rw l tt
      | inr l ↦
          let v : World = record w { held = id ∷ w.held } in
          rw l (unlocked_after (m v).0 (m v).1 (k.run v h))
    ];
  }

  taken-Rests : (s : SnapshotId) (r : MachineRecord) → r.id ≡ id → Rests id (take s id r)
  taken-Rests s r e = subst (λ x. Rests x (take s id r)) e (take-Rests r s id)

  create_machine_snapshot-Rests : (s : SnapshotId) → Rests id (create_machine_snapshot id s)
  unfolding create_machine_snapshot
  create_machine_snapshot-Rests s = with_machine_lock-Rests _ (
      Keeps-bind _ _ (lift-Rests _) (λ u. get_machine_then _ (λ r e.
        let entered : (o : OperationRecord) → Rests id (journaled id o (take s id r)) =
          λ o. journaled-Rests o _ (taken-Rests s r e) in
        search (resting, refuse_pending-Rests, refuse_taken-Rests, entered) depth 10)))

-- However CreateSnapshot of a machine returns, with a value or an error, and whatever calls of the
-- system and of the runtime fail: the machine is not left paused, if it was not before. It is left
-- paused where the last of its pauses and resumes was a pause that succeeded; a resume counts whether
-- it succeeds or not. Nothing is said of a process that dies.
pub create_machine_snapshot-IsAwake :
    (id : MachineId) (s : SnapshotId) (w : World)
    → IsAwake id w
    → After (λ v. Unit) (IsAwake id) (create_machine_snapshot id s w)
create_machine_snapshot-IsAwake id s w h = (create_machine_snapshot-Rests id s).run w h
