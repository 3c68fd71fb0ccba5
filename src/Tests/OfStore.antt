-- ===== src/Tests/OfStore.antt =====
-- The theorems on the store, on the two machines.
use computer_host.Base.{refl, message, [], ◌∷◌, ◌≡◌, string_key}
use computer_host.Model.{running, stopped}
use computer_host.Host.File.{write_json_file_atomically}
use computer_host.Host.File.Atomic.{Wrote, write-Wrote}
use computer_host.Host.File.Atomic.{reported}
use computer_host.Store.Refines.{creates, updates, deletes, Refines, map_change, map_of}
use computer_host.Store.Maps.{machine_methods-Refines, other_methods-Refine, machine_methods_report}
use computer_host.Store.Machines.{machines, create_machine, update_machine, delete_machine}
use computer_host.Store.Volumes.{volumes, create_volume, update_volume, delete_volume}
use computer_host.Store.Snapshots.{snapshots, create_snapshot, delete_snapshot}
use computer_host.Store.Mounts.{mounts, create_mount, update_mount, delete_mount}
use computer_host.Store.Consistent.{
  create_machines, update_machines, delete_operations, create_published_ports, call_all, IsSound,
}
use computer_host.Store.Consistent.Keeps.{call_all-IsSound}
use computer_host.Tests.{
  machine_in, web_volume, web_snapshot, web_mount, web_port, state_in, store_in, disk_with,
  store_in-IsSound,
}

-- A new machine, the change of one, and the removal of one.
machine_methods-Refines_example :
    Refines machines
      (creates (message "store: machine already exists" "cache") (machine_in "cache" stopped))
      (state_in running)
      (store_in running)
      (create_machine (machine_in "cache" stopped) (store_in running))
    × Refines machines
        (updates (machine_in "cache" stopped))
        (state_in running)
        (store_in running)
        (update_machine (machine_in "cache" stopped) (store_in running))
    × Refines machines
        (deletes "web")
        (state_in running)
        (store_in running)
        (delete_machine "web" (store_in running))
machine_methods-Refines_example =
    machine_methods-Refines (store_in running) (state_in running) refl (machine_in "cache" stopped)
      "web" ((refl, tt), (tt, tt))

machine_methods_report_example :
    ((create_machine (machine_in "web" stopped) (store_in running)).0
      ≡ reported (
          map_change machines.key
            (creates (message "store: machine already exists" "web") (machine_in "web" stopped))
            (map_of machines (state_in running))))
    × ((update_machine (machine_in "web" stopped) (store_in running)).0
        ≡ reported (
            map_change machines.key
              (updates (machine_in "web" stopped))
              (map_of machines (state_in running))))
    × ((delete_machine "none" (store_in running)).0
        ≡ reported (map_change machines.key (deletes "none") (map_of machines (state_in running))))
machine_methods_report_example =
    machine_methods_report (store_in running) (state_in running) refl (machine_in "web" stopped)
      "none" (λ n. refl) ((refl, tt), (tt, tt))

other_methods-Refine_example :
    (Refines volumes
        (creates (message "store: volume already exists" "web-system") web_volume)
        (state_in running)
        (store_in running)
        (create_volume web_volume (store_in running))
      × Refines volumes
          (updates web_volume)
          (state_in running)
          (store_in running)
          (update_volume web_volume (store_in running))
      × Refines volumes
          (deletes "data")
          (state_in running)
          (store_in running)
          (delete_volume "data" (store_in running)))
    × (Refines snapshots
          (creates (message "store: snapshot already exists" "first") web_snapshot)
          (state_in running)
          (store_in running)
          (create_snapshot web_snapshot (store_in running))
        × Refines snapshots
            (deletes "data")
            (state_in running)
            (store_in running)
            (delete_snapshot "data" (store_in running)))
    × (Refines mounts
          (creates (message "store: mount already exists" "data") web_mount)
          (state_in running)
          (store_in running)
          (create_mount web_mount (store_in running))
        × Refines mounts
            (updates web_mount)
            (state_in running)
            (store_in running)
            (update_mount web_mount (store_in running))
        × Refines mounts
            (deletes "data")
            (state_in running)
            (store_in running)
            (delete_mount "data" (store_in running)))
other_methods-Refine_example =
    other_methods-Refine (store_in running) (state_in running) refl web_volume web_snapshot
      web_mount "data" (tt, tt) tt (tt, tt)

-- The second port has the host port of the first, which the store refuses.
call_all-IsSound_example : IsSound (
    call_all
      (create_machines (machine_in "cache" stopped)
        ∷ update_machines (machine_in "web" stopped)
        ∷ create_published_ports (record web_port { id = "other" })
        ∷ delete_operations "web"
        ∷ [])
      (store_in running))
call_all-IsSound_example =
    call_all-IsSound
      (create_machines (machine_in "cache" stopped)
        ∷ update_machines (machine_in "web" stopped)
        ∷ create_published_ports (record web_port { id = "other" })
        ∷ delete_operations "web"
        ∷ [])
      (store_in running) (store_in-IsSound running)

write-Wrote_example :
    Wrote
      (disk_with (state_in running))
      (state_in stopped)
      (write_json_file_atomically (state_in stopped) (disk_with (state_in running)))
write-Wrote_example = write-Wrote (state_in stopped) (disk_with (state_in running))
