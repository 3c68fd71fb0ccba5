-- ===== src/Store/Consistent/Keeps.antt =====
-- No call of the store breaks the uniqueness of ids and of published host ports.
use computer_host.Base.{List, [], ◌∷◌, string_key, nat_key, subst}
use computer_host.Model.{ref_key}
use computer_host.Store.Table.Unique.{upsert-IsUnique}
use computer_host.Store.FileStore.{FileStore}
use computer_host.Store.Artifacts.{put_artifact}
use computer_host.Store.Machines.{machines, create_machine, update_machine, delete_machine}
use computer_host.Store.Volumes.{volumes, create_volume, update_volume, delete_volume}
use computer_host.Store.Snapshots.{snapshots, create_snapshot, delete_snapshot}
use computer_host.Store.Mounts.{mounts, create_mount, update_mount, delete_mount}
use computer_host.Store.Ports.{create_published_port, delete_published_port}
use computer_host.Store.Operations.{upsert_operation, delete_operation}
use computer_host.Store.Consistent.{
  StoreCall, put_artifacts, create_machines, update_machines, delete_machines, create_volumes,
  update_volumes, delete_volumes, upsert_operations, delete_operations, create_snapshots,
  delete_snapshots, create_published_ports, delete_published_ports, create_mounts, update_mounts,
  delete_mounts, call_store, call_all, IsConsistent, HasOneEach, IsSound,
}
use computer_host.Store.Consistent.Slices.{
  update_state-IsSound, update_operations-IsSound, ok-injective, created-IsUnique, updated-IsUnique,
  deleted-IsUnique, with_machines, with_volumes, with_snapshots, with_mounts, with_artifacts,
  appended-IsConsistent, deleted_port-IsConsistent, without_operation-HasOneEach,
}

-- Every call that writes keeps both files whole and consistent, whether it succeeds, fails at any
-- system call or dies at any of them.
pub call_store-IsSound :
    (call : StoreCall) (s : FileStore) → IsSound s → IsSound (call_store call s).1
unfolding call_store put_artifact create_machine update_machine delete_machine create_volume
    update_volume delete_volume upsert_operation delete_operation create_snapshot delete_snapshot
    create_published_port delete_published_port create_mount update_mount delete_mount
call_store-IsSound (put_artifacts x) s = update_state-IsSound _ s λ a b c h.
    subst IsConsistent (ok-injective h)
      (with_artifacts c _ (upsert-IsUnique (λ a. a.ref) x a.artifacts c.artifact_refs))
call_store-IsSound (upsert_operations o) s = update_operations-IsSound _ s λ a b u h.
    subst HasOneEach (ok-injective h) (upsert-IsUnique (λ o. o.machine_id) o a.operations u)
call_store-IsSound (delete_operations id) s =
    update_operations-IsSound _ s
      λ a b u h. subst HasOneEach (ok-injective h) (without_operation-HasOneEach id a u)
call_store-IsSound (create_published_ports p) s = update_state-IsSound _ s (appended-IsConsistent p)
call_store-IsSound (delete_published_ports id) s =
    update_state-IsSound _ s (deleted_port-IsConsistent id)
call_store-IsSound (create_machines x) s = update_state-IsSound _ s λ a b c h.
    let (ys, u, e) = created-IsUnique machines a b _ x c.machine_ids h in
    subst IsConsistent e (with_machines c ys u)
call_store-IsSound (delete_machines x) s = update_state-IsSound _ s λ a b c h.
    let (ys, u, e) = deleted-IsUnique machines a b x c.machine_ids h in
    subst IsConsistent e (with_machines c ys u)
call_store-IsSound (update_machines x) s = update_state-IsSound _ s λ a b c h.
    let (ys, u, e) = updated-IsUnique machines a b x c.machine_ids h in
    subst IsConsistent e (with_machines c ys u)
call_store-IsSound (create_volumes x) s = update_state-IsSound _ s λ a b c h.
    let (ys, u, e) = created-IsUnique volumes a b _ x c.volume_ids h in
    subst IsConsistent e (with_volumes c ys u)
call_store-IsSound (delete_volumes x) s = update_state-IsSound _ s λ a b c h.
    let (ys, u, e) = deleted-IsUnique volumes a b x c.volume_ids h in
    subst IsConsistent e (with_volumes c ys u)
call_store-IsSound (update_volumes x) s = update_state-IsSound _ s λ a b c h.
    let (ys, u, e) = updated-IsUnique volumes a b x c.volume_ids h in
    subst IsConsistent e (with_volumes c ys u)
call_store-IsSound (create_snapshots x) s = update_state-IsSound _ s λ a b c h.
    let (ys, u, e) = created-IsUnique snapshots a b _ x c.snapshot_ids h in
    subst IsConsistent e (with_snapshots c ys u)
call_store-IsSound (delete_snapshots x) s = update_state-IsSound _ s λ a b c h.
    let (ys, u, e) = deleted-IsUnique snapshots a b x c.snapshot_ids h in
    subst IsConsistent e (with_snapshots c ys u)
call_store-IsSound (create_mounts x) s = update_state-IsSound _ s λ a b c h.
    let (ys, u, e) = created-IsUnique mounts a b _ x c.mount_ids h in
    subst IsConsistent e (with_mounts c ys u)
call_store-IsSound (delete_mounts x) s = update_state-IsSound _ s λ a b c h.
    let (ys, u, e) = deleted-IsUnique mounts a b x c.mount_ids h in
    subst IsConsistent e (with_mounts c ys u)
call_store-IsSound (update_mounts x) s = update_state-IsSound _ s λ a b c h.
    let (ys, u, e) = updated-IsUnique mounts a b x c.mount_ids h in
    subst IsConsistent e (with_mounts c ys u)

-- From files that are whole and consistent, any sequence of calls, with whatever system calls fail,
-- leaves files that are whole and consistent: no two machines, volumes, snapshots, mounts, published
-- ports or artifacts share an identifier, no two published ports a host port, and the journal has one
-- entry for a machine at most.
pub call_all-IsSound :
    (calls : List StoreCall) (s : FileStore) → IsSound s → IsSound (call_all calls s)
unfolding call_all
call_all-IsSound [] s h = h
call_all-IsSound (c ∷ cs) s h = call_all-IsSound cs (call_store c s).1 (call_store-IsSound c s h)
