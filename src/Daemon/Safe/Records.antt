-- ===== src/Daemon/Safe/Records.antt =====
-- What is done to a machine after its record was read is done safely.
use computer_host.Base.{ℕ, zero, suc, Bool, String, List, ℤ}
use computer_host.Model.{MachineId, MachineRecord, VolumeRecord, PublishedPortRecord}
use computer_host.Host.Exec.{Attempt, value, failed}
use computer_host.Host.World.{MachineState, GuestReadyResult}
use computer_host.Host.Calls.{Host}
use computer_host.Daemon.Startup
use computer_host.Daemon.Startup.{
  Recognised, refused, accepted, is_phase_running, fail_machine_startup, publish_running,
  complete_machine_startup,
}
use computer_host.Daemon.Records
use computer_host.Daemon.Records.{
  take_down, clean_up, await_exit, shutdown_guest_clean, stop_machine_record, grow_disk,
  resize_machine_record, detach_volume, detach_volumes_for_machine, delete_machine_record,
}
use computer_host.Daemon.Safe.{Safe, host_rules}
use computer_host.Daemon.Safe.Relays.{stop_machine_relays-Safe, ensure_machine_relays-Safe}
use computer_host.Daemon.Safe.Ports.{
  ensure_published_ports_for_machine-Safe, stop_published_ports_for_machine-Safe,
}

module _ (held : List MachineId) where
  pub fail_machine_startup-Safe :
      (r : MachineRecord) (reason : String) → Safe held (fail_machine_startup r reason)
  unfolding fail_machine_startup
  fail_machine_startup-Safe r reason =
      search (host_rules, stop_machine_relays-Safe, stop_published_ports_for_machine-Safe) depth 9

  ports_ensured-Safe :
      (r : MachineRecord) (a : Attempt (Unit {0})) → Safe held (Startup.ports_ensured r a)
  unfolding Startup.ports_ensured
  ports_ensured-Safe r (value _) = search host_rules
  ports_ensured-Safe r (failed e) =
      search (host_rules, stop_machine_relays-Safe, fail_machine_startup-Safe)

  relays_ensured-Safe :
      (r : MachineRecord) (a : Attempt MachineRecord) → Safe held (Startup.relays_ensured r a)
  unfolding Startup.relays_ensured
  relays_ensured-Safe r (value _) =
      search (host_rules, ensure_published_ports_for_machine-Safe, ports_ensured-Safe)
  relays_ensured-Safe r (failed e) = search (host_rules, fail_machine_startup-Safe)

  publish_running-Safe :
      (r : MachineRecord) (state : MachineState) (key : String)
      → Safe held (publish_running r state key)
  unfolding publish_running
  publish_running-Safe r state key =
      search (host_rules, ensure_machine_relays-Safe, relays_ensured-Safe)

  publish_recognised-Safe :
      (r : MachineRecord) (state : MachineState) (x : Recognised)
      → Safe held (Startup.publish_recognised r state x)
  unfolding Startup.publish_recognised
  publish_recognised-Safe r state (refused reason) = fail_machine_startup-Safe r reason
  publish_recognised-Safe r state (accepted key) = publish_running-Safe r state key

  answered-Safe :
      (r : MachineRecord) (state : MachineState) (a : Attempt GuestReadyResult)
      → Safe held (Startup.answered r state a)
  unfolding Startup.answered
  answered-Safe r state (value ready) = publish_recognised-Safe r state _
  answered-Safe r state (failed e) = search (host_rules, fail_machine_startup-Safe)

  pub complete_machine_startup-Safe :
      (r : MachineRecord) (state : MachineState) → Safe held (complete_machine_startup r state)
  unfolding complete_machine_startup
  complete_machine_startup-Safe r state =
      search (host_rules, fail_machine_startup-Safe, answered-Safe)

  after_inspection-Safe :
      (later : Host Bool) (a : Attempt MachineState)
      → Safe held later
      → Safe held (Records.after_inspection later a)
  unfolding Records.after_inspection
  after_inspection-Safe later (value state) k = search host_rules
  after_inspection-Safe later (failed _) k = search host_rules

  inspect_then-Safe :
      (r : MachineRecord) (rest : Host Bool)
      → Safe held rest
      → Safe held (Records.inspect_then r rest)
  unfolding Records.inspect_then
  inspect_then-Safe r rest k = search (host_rules, after_inspection-Safe)

  await_exit-Safe : (r : MachineRecord) (rounds : ℕ) → Safe held (await_exit r rounds)
  unfolding await_exit
  await_exit-Safe r zero = search host_rules
  await_exit-Safe r (suc rounds) = inspect_then-Safe r _ (await_exit-Safe r rounds)

  after_poweroff-Safe :
      (r : MachineRecord) (timed_out : Bool) (a : Attempt (Unit {0}))
      → Safe held (Records.after_poweroff r timed_out a)
  unfolding Records.after_poweroff
  after_poweroff-Safe r timed_out (value _) = await_exit-Safe r _
  after_poweroff-Safe r timed_out (failed e) = search (host_rules, await_exit-Safe)

  shutdown_guest_clean-Safe : (r : MachineRecord) → Safe held (shutdown_guest_clean r)
  unfolding shutdown_guest_clean
  shutdown_guest_clean-Safe r = search (host_rules, after_poweroff-Safe)

  pub take_down-Safe : (r : MachineRecord) → Safe held (take_down r)
  unfolding take_down
  take_down-Safe r =
      search
        (
          host_rules, stop_machine_relays-Safe, stop_published_ports_for_machine-Safe,
          shutdown_guest_clean-Safe,
        )
        depth 9

  pub stop_machine_record-Safe : (r : MachineRecord) → Safe held (stop_machine_record r)
  unfolding stop_machine_record
  stop_machine_record-Safe r = search (host_rules, take_down-Safe)

  stopped_first-Safe : (r : MachineRecord) → Safe held (Records.stopped_first r)
  unfolding Records.stopped_first
  stopped_first-Safe r = search (host_rules, stop_machine_record-Safe)

  pub grow_disk-Safe : (path : String) (n : ℤ) → Safe held (grow_disk path n)
  unfolding grow_disk
  grow_disk-Safe path n = search host_rules

  pub resize_machine_record-Safe :
      (r : MachineRecord) (m n : ℤ) → Safe held (resize_machine_record r m n)
  unfolding resize_machine_record
  resize_machine_record-Safe r m n = search (host_rules, stopped_first-Safe, grow_disk-Safe) depth 9

  pub absent_or_raised-Safe : (a : Attempt (Unit {0})) → Safe held (Records.absent_or_raised a)
  unfolding Records.absent_or_raised
  absent_or_raised-Safe (value _) = search host_rules
  absent_or_raised-Safe (failed e) = search host_rules

  detach_volume-Safe : (id : MachineId) (v : VolumeRecord) → Safe held (detach_volume id v)
  unfolding detach_volume
  detach_volume-Safe id v = search (host_rules, absent_or_raised-Safe) depth 9

  pub detach_volumes_for_machine-Safe : (id : MachineId) → Safe held (detach_volumes_for_machine id)
  unfolding detach_volumes_for_machine
  detach_volumes_for_machine-Safe id = search (host_rules, detach_volume-Safe)

  forget_ports-Safe : (a : Attempt (List PublishedPortRecord)) → Safe held (Records.forget_ports a)
  unfolding Records.forget_ports
  forget_ports-Safe (value ports) = search host_rules
  forget_ports-Safe (failed e) = search host_rules

  pub clean_up-Safe : (r : MachineRecord) → Safe held (clean_up r)
  unfolding clean_up
  clean_up-Safe r =
      search
        (
          host_rules, stop_machine_relays-Safe, stop_published_ports_for_machine-Safe,
          forget_ports-Safe, detach_volumes_for_machine-Safe,
        )
        depth 14

  pub delete_machine_record-Safe : (r : MachineRecord) → Safe held (delete_machine_record r)
  unfolding delete_machine_record
  delete_machine_record-Safe r = search (host_rules, clean_up-Safe)
