-- ===== src/Daemon/Safe/Reconciled.antt =====
-- Reconcile is safe, whatever the journal and the records ask for.
use computer_host.Base.{List, Option, none, some}
use computer_host.Model.{MachineId, SnapshotId, MachineRecord, MachineOperation, OperationRecord}
use computer_host.Host.Exec.{Attempt, value, failed}
use computer_host.Host.Calls.{Host}
use computer_host.Daemon.Reconcile
use computer_host.Daemon.Reconcile.{
  remove_leftovers, reconcile_create, reconcile_start, reconcile_stop, reconcile_resize,
  reconcile_delete, reconcile_snapshot, reconcile_restore, reconcile_as, reconcile_unlocked,
  reconcile_record, reconcile,
}
use computer_host.Daemon.Safe.{Safe, host_rules}
use computer_host.Daemon.Safe.Relays.{stop_machine_relays-Safe, ensure_machine_relays-Safe}
use computer_host.Daemon.Safe.Ports.{
  ensure_published_ports_for_machine-Safe, stop_published_ports_for_machine-Safe,
}
use computer_host.Daemon.Safe.Records.{
  stop_machine_record-Safe, resize_machine_record-Safe, delete_machine_record-Safe,
  detach_volumes_for_machine-Safe, absent_or_raised-Safe,
}
use computer_host.Daemon.Safe.Requests.{reconcile_machine-Safe, ensure_mounts_for_machine-Safe}
use computer_host.Daemon.Safe.Start.{start_machine-Safe}

module _ (held : List MachineId) where
  on_found-Safe :
      {A : Type 0} (found : A → Host (Unit {0})) (missing : Host (Unit {0})) (a : Attempt A)
      → ((x : A) → Safe held (found x))
      → Safe held missing
      → Safe held (Reconcile.on_found found missing a)
  unfolding Reconcile.on_found
  on_found-Safe found missing (value x) k m = k x
  on_found-Safe found missing (failed e) k m = search host_rules

  remove_leftovers-Safe : (id : MachineId) → Safe held (remove_leftovers id)
  unfolding remove_leftovers
  remove_leftovers-Safe id =
      search (host_rules, absent_or_raised-Safe, detach_volumes_for_machine-Safe) depth 10

  reconcile_create-Safe : (id : MachineId) → Safe held (reconcile_create id)
  unfolding reconcile_create
  reconcile_create-Safe id =
      search (host_rules, on_found-Safe, reconcile_machine-Safe, remove_leftovers-Safe) depth 12

  reconcile_stop-Safe : (id : MachineId) → Safe held (reconcile_stop id)
  unfolding reconcile_stop
  reconcile_stop-Safe id = search (host_rules, on_found-Safe, stop_machine_record-Safe) depth 9

  reconcile_start-Safe : (id : MachineId) → Safe held (reconcile_start id)
  unfolding reconcile_start
  reconcile_start-Safe id =
      search (host_rules, on_found-Safe, reconcile_machine-Safe, start_machine-Safe) depth 10

  reconcile_resize-Safe : (o : OperationRecord) → Safe held (reconcile_resize o)
  unfolding reconcile_resize
  reconcile_resize-Safe o = search (host_rules, on_found-Safe, resize_machine_record-Safe) depth 10

  reconcile_delete-Safe : (id : MachineId) → Safe held (reconcile_delete id)
  unfolding reconcile_delete
  reconcile_delete-Safe id =
      search (host_rules, on_found-Safe, delete_machine_record-Safe, remove_leftovers-Safe) depth 12

  resume_found-Safe : (a : Attempt MachineRecord) → Safe held (Reconcile.resume_found a)
  unfolding Reconcile.resume_found
  resume_found-Safe (value r) = search host_rules
  resume_found-Safe (failed e) = search host_rules

  undo_snapshot-Safe : (id : MachineId) (s : SnapshotId) → Safe held (Reconcile.undo_snapshot id s)
  unfolding Reconcile.undo_snapshot
  undo_snapshot-Safe id s = search (host_rules, resume_found-Safe) depth 10

  finish_snapshot-Safe :
      (id : MachineId) (s : Option SnapshotId) → Safe held (Reconcile.finish_snapshot id s)
  unfolding Reconcile.finish_snapshot
  finish_snapshot-Safe id none = search host_rules
  finish_snapshot-Safe id (some s) = search (host_rules, on_found-Safe, undo_snapshot-Safe) depth 9

  reconcile_snapshot-Safe : (o : OperationRecord) → Safe held (reconcile_snapshot o)
  unfolding reconcile_snapshot
  reconcile_snapshot-Safe o = finish_snapshot-Safe o.machine_id o.snapshot_id

  reconcile_restore-Safe : (id : MachineId) → Safe held (reconcile_restore id)
  unfolding reconcile_restore
  reconcile_restore-Safe id = search (host_rules, on_found-Safe) depth 10

  reconcile_as-Safe :
      (type : MachineOperation) (o : OperationRecord) → Safe held (reconcile_as type o)
  unfolding reconcile_as
  reconcile_as-Safe MachineOperation.create o = reconcile_create-Safe o.machine_id
  reconcile_as-Safe MachineOperation.start o = reconcile_start-Safe o.machine_id
  reconcile_as-Safe MachineOperation.stop o = reconcile_stop-Safe o.machine_id
  reconcile_as-Safe MachineOperation.resize o = reconcile_resize-Safe o
  reconcile_as-Safe MachineOperation.delete o = reconcile_delete-Safe o.machine_id
  reconcile_as-Safe MachineOperation.snapshot o = reconcile_snapshot-Safe o
  reconcile_as-Safe MachineOperation.restore o = reconcile_restore-Safe o.machine_id

  reconcile_unlocked-Safe : (o : OperationRecord) → Safe held (reconcile_unlocked o)
  unfolding reconcile_unlocked
  reconcile_unlocked-Safe o = search (host_rules, reconcile_as-Safe)

  reconcile_record-Safe : (r : MachineRecord) → Safe held (reconcile_record r)
  unfolding reconcile_record
  reconcile_record-Safe r =
      search
        (
          host_rules, reconcile_machine-Safe, ensure_machine_relays-Safe,
          ensure_published_ports_for_machine-Safe, ensure_mounts_for_machine-Safe,
          stop_machine_relays-Safe, stop_published_ports_for_machine-Safe,
        )
        depth 9

  pub reconcile-Safe : Safe held reconcile
  unfolding reconcile
  reconcile-Safe = search (host_rules, reconcile_unlocked-Safe, reconcile_record-Safe) depth 9
