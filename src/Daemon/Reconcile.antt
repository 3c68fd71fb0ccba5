-- ===== src/Daemon/Reconcile.antt =====
-- internal/daemon/lifecycle.go: Reconcile, which finishes or undoes the operations of the journal and
-- then checks every machine.
use computer_host.Base.{
  ◌&&◌, ◌||◌, none, some, Option, [], ◌∷◌, pos, leb_ℤ, is_not_found, ltb, ◌=?◌, string_key, dir,
  join, if◌then◌else◌, some_of,
}
use computer_host.Model.{
  MachineId, SnapshotId, MachineRecord, MachineOperation, OperationRecord, is_running,
}
use computer_host.Host.Exec.{
  Attempt, value, failed, ◌>>=◌, ◌>>◌, pure, raise, gets, try, ignore, when, for_each,
}
use computer_host.Host.World.{resume}
use computer_host.Host.Calls.{Host, on_store, remove_tree, run, remove_present}
use computer_host.Store.Machines.{get_machine, list_machines}
use computer_host.Store.Volumes.{delete_volume}
use computer_host.Store.Snapshots.{get_snapshot}
use computer_host.Store.Operations.{list_operations, delete_operation}
use computer_host.Daemon.Files.{system_volume_id, system_volume_path, machine_runtime_base_dir}
use computer_host.Daemon.Relays.{ensure_machine_relays, stop_machine_relays}
use computer_host.Daemon.PublishedPorts.{
  ensure_published_ports_for_machine, stop_published_ports_for_machine,
}
use computer_host.Daemon.Records.{
  stop_machine_record, resize_machine_record, delete_machine_record, detach_volumes_for_machine,
  absent_or_raised,
}
use computer_host.Daemon.Mounts.{ensure_mounts_for_machine}
use computer_host.Daemon.Boot.{is_active}
use computer_host.Daemon.Lifecycle.{reconcile_machine, start_machine}

abbrev clear : MachineId → Host (Unit {0})
clear id = on_store (delete_operation id)

-- A lookup whose missing record is told apart from the other errors.
unfoldable pub on_found :
    {A : Type 0} → (A → Host (Unit {0})) → Host (Unit {0}) → Attempt A → Host (Unit {0})
unfolding raise
on_found found missing (value a) = found a
on_found found missing (failed e) = if is_not_found e then missing else raise e

-- What is left of a machine that has no record: its disk, the records of its volumes. The directories
-- are removed by the callers, which treat their errors differently.
unfoldable pub remove_leftovers : MachineId → Host (Unit {0})
unfolding ◌>>=◌ gets try ignore
remove_leftovers id = do
  config ← gets (λ w. w.config)
  remove_present (system_volume_path config id)
  deleted ← try (on_store (delete_volume (system_volume_id id)))
  absent_or_raised deleted
  detach_volumes_for_machine id
  ignore (remove_tree (dir (system_volume_path config id)))

-- reconcileCreate.
unfoldable pub reconcile_create : MachineId → Host (Unit {0})
unfolding ◌>>=◌ gets try on_found
reconcile_create id = do
  found ← try (on_store (get_machine id))
  on_found (λ r. reconcile_machine id >> clear id)
      (do
        remove_leftovers id
        config ← gets (λ w. w.config)
        remove_tree (machine_runtime_base_dir config id)
        clear id)
      found

-- reconcileStop.
unfoldable pub reconcile_stop : MachineId → Host (Unit {0})
unfolding ◌>>=◌ try on_found
reconcile_stop id = do
  found ← try (on_store (get_machine id))
  on_found (λ r. stop_machine_record r >> clear id) (clear id) found

-- reconcileStart.
unfoldable pub reconcile_start : MachineId → Host (Unit {0})
unfolding ◌>>=◌ try on_found
reconcile_start id = do
  found ← try (on_store (get_machine id))
  on_found
      (λ r.
        if is_active r.phase
        then reconcile_machine id >> clear id
        else start_machine id >> clear id)
      (clear id) found

-- reconcileResize.
unfoldable pub reconcile_resize : OperationRecord → Host (Unit {0})
unfolding ◌>>=◌ try on_found
reconcile_resize o = do
  found ← try (on_store (get_machine o.machine_id))
  on_found
      (λ r.
        if leb_ℤ o.memory_mib (pos 0) || leb_ℤ o.storage_bytes (pos 0)
        then clear o.machine_id
        else resize_machine_record r o.memory_mib o.storage_bytes >> clear o.machine_id)
      (clear o.machine_id) found

-- reconcileDelete.
unfoldable pub reconcile_delete : MachineId → Host (Unit {0})
unfolding ◌>>=◌ gets try ignore on_found
reconcile_delete id = do
  found ← try (on_store (get_machine id))
  on_found (λ r. delete_machine_record r >> clear id)
      (do
        remove_leftovers id
        config ← gets (λ w. w.config)
        ignore (remove_tree (machine_runtime_base_dir config id))
        clear id)
      found

-- A machine that may have been left paused is resumed.
unfoldable pub resume_found : Attempt MachineRecord → Host (Unit {0})
unfolding pure when ignore
resume_found (failed _) = pure tt
resume_found (value r) = when (is_running r.phase && ltb 0 r.pid) (ignore (run (resume r.id)))

unfoldable pub undo_snapshot : MachineId → SnapshotId → Host (Unit {0})
unfolding ◌>>=◌ gets try ignore resume_found
undo_snapshot id snapshot_id = do
  config ← gets (λ w. w.config)
  ignore (remove_tree (join (config.snapshots_dir ∷ snapshot_id ∷ [])))
  found ← try (on_store (get_machine id))
  resume_found found
  clear id

unfoldable pub finish_snapshot : MachineId → Option SnapshotId → Host (Unit {0})
unfolding ◌>>=◌ try on_found undo_snapshot
finish_snapshot id none = clear id
finish_snapshot id (some snapshot_id) = do
  found ← try (on_store (get_snapshot snapshot_id))
  on_found (λ s. clear id) (undo_snapshot id snapshot_id) found

-- reconcileSnapshot.
unfoldable pub reconcile_snapshot : OperationRecord → Host (Unit {0})
unfolding finish_snapshot
reconcile_snapshot o = finish_snapshot o.machine_id o.snapshot_id

-- reconcileRestore.
unfoldable pub reconcile_restore : MachineId → Host (Unit {0})
unfolding ◌>>=◌ gets try ignore on_found
reconcile_restore id = do
  found ← try (on_store (get_machine id))
  on_found (λ r. clear id)
      (do
        config ← gets (λ w. w.config)
        ignore (remove_tree (dir (system_volume_path config id)))
        ignore (remove_tree (machine_runtime_base_dir config id))
        clear id)
      found

-- The switch of Reconcile on the type of an operation.
unfoldable pub reconcile_as : MachineOperation → OperationRecord → Host (Unit {0})
reconcile_as MachineOperation.create o = reconcile_create o.machine_id
reconcile_as MachineOperation.start o = reconcile_start o.machine_id
reconcile_as MachineOperation.stop o = reconcile_stop o.machine_id
reconcile_as MachineOperation.resize o = reconcile_resize o
reconcile_as MachineOperation.delete o = reconcile_delete o.machine_id
reconcile_as MachineOperation.snapshot o = reconcile_snapshot o
reconcile_as MachineOperation.restore o = reconcile_restore o.machine_id

-- An operation of a machine whose mutex is locked is left to its holder.
unfoldable pub reconcile_unlocked : OperationRecord → Host (Unit {0})
unfolding ◌>>=◌ gets pure
reconcile_unlocked o = do
  is_locked ← gets (λ w. some_of (λ x. x =? o.machine_id) w.held)
  if is_locked then pure tt else reconcile_as o.type o

-- The body of the second loop of Reconcile.
unfoldable pub reconcile_record : MachineRecord → Host (Unit {0})
unfolding ◌>>=◌
reconcile_record r = do
  reconciled ← reconcile_machine r.id
  if is_running reconciled.phase
      then (do
        relayed ← ensure_machine_relays reconciled
        ensure_published_ports_for_machine relayed
        ensure_mounts_for_machine relayed)
      else (do stop_machine_relays reconciled.id; stop_published_ports_for_machine reconciled.id)

-- Reconcile.
unfoldable pub reconcile : Host (Unit {0})
unfolding ◌>>=◌ for_each
reconcile = do
  operations ← on_store list_operations
  for_each operations reconcile_unlocked
  records ← on_store list_machines
  for_each records reconcile_record
