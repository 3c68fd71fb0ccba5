-- ===== src/Tests/OfDaemon.antt =====
-- The theorems on the daemon, on the two machines.
use computer_host.Base.{
  true, List, ◌⊎◌, is_rooted, string_key, ℕ, ◌+◌, ◌≡◌, ◌≢◌, ◌≤ℤ◌, ◌↔◌, refl, false, ok, some,
  String, Option, [], ◌∷◌, pos, All, String, trim_space, is_blank,
}
use computer_host.Model.{
  MountKind, PortProtocol, MachinePortName, MachineRecord, exec, running, starting,
}
use computer_host.Network.{
  NetworkAllocator, NetworkAllocation, guest_ip, network_at, network_for_index, allocate,
  allocate_from, allocation_from_guest_ip,
}
use computer_host.Host.Exec.Post.{After}
use computer_host.Host.Exec.Yields.{Given}
use computer_host.Daemon.MachinePorts.{
  build_machine_ports, set_machine_exec_relay_port, machine_relay_host_port,
}
use computer_host.Daemon.MachinePorts.Laws.{host_port-set_machine_exec_relay_port}
use computer_host.Daemon.PublishedPorts.{
  first_unused, min_published_host_port, max_published_host_port,
}
use computer_host.Daemon.PublishedPorts.Allocate.{LeastUnused, published_search-LeastUnused}
use computer_host.Daemon.Startup.{recognise, accepted}
use computer_host.Daemon.Startup.Recognition.{AnswersNonce, IsKeyOf, recognise-accepted}
use computer_host.Daemon.Boot.{networks_of}
use computer_host.Daemon.Boot
use computer_host.Daemon.Boot.Networks.{IsInUse, allocate_apart}
use computer_host.Daemon.Lifecycle.{start_machine, stop_machine, delete_machine, reconcile_machine}
use computer_host.Store.Machines.{get_machine}
use computer_host.Store.Table.{find, has}
use computer_host.Store.Collection.{get_from}
use computer_host.Store.FileStore.{read_state, on_state}
use computer_host.Host.File.{read_json_file}
use computer_host.Daemon.Safe.{IsTidy, IsTidyHolding}
use computer_host.Daemon.Safe.Start.{DiesOfUnlock, start_machine-IsKilled}
use computer_host.Daemon.Results.{IsStoppedIn, IsGoneFrom}
use computer_host.Daemon.Results.Resize.{IsResizedIn, HasGrown, resize_machine_record-IsResizedIn}
use computer_host.Daemon.Records.{resize_machine_record}
use computer_host.Daemon.Results.Stop.{stop_machine-IsStoppedIn, delete_machine-IsGoneFrom}
use computer_host.Daemon.Run.{
  Request, hangs, start, stop, delete, resize, reconcile_all, serve, run_all,
}
use computer_host.Daemon.Run.Invariant.{serve-Safe, run_all-IsTidy}
use computer_host.Host.Exec.Fails.{Failing}
use computer_host.Host.File.{Event}
use computer_host.Host.World.{World}
use computer_host.Store.Volumes.{get_volume}
use computer_host.Daemon.PublishedPorts.{CreatePublishedPortRequest, create_published_port}
use computer_host.Daemon.PublishedPorts.Failure.{create_published_port-Failing}
use computer_host.Daemon.Mounts.{CreateMountRequest, check_mount_request, pending_mount}
use computer_host.Daemon.Mounts.Rclone.{
  EnvVar, IsUsable, build_rclone_config_env, build_rclone_config_env-IsUsable,
}
use computer_host.Tests.{
  web_mount, store_in, state_in, disk_with, machine_in, web_port, host_in, host_in-IsTidy,
}

-- The third request kills the process, which is started again.
abbrev requests : List Request
requests = stop "db" ∷ resize "db" (pos 4096) (pos 8192) ∷ start "web" ∷ reconcile_all ∷ []

run_all-IsTidy_example :
    IsTidy (run_all requests (host_in starting))
    × (((run_all requests (host_in starting)).held ≡ [])
        ⊎ (hangs requests (host_in starting) ≡ true))
run_all-IsTidy_example = run_all-IsTidy requests (host_in starting) (host_in-IsTidy starting, refl)

serve-Safe_example : After IsTidy (IsTidyHolding []) (serve (delete "web") (host_in running))
serve-Safe_example = serve-Safe (delete "web") (host_in running) (host_in-IsTidy running)

web_found : (get_machine "web" (host_in starting).store).0 ≡ ok (machine_in "web" starting)
unfolding get_machine get_from read_state on_state read_json_file find
web_found = refl

start_machine-IsKilled_example :
    DiesOfUnlock
      (reconcile_machine "web"
        (record (host_in starting) { store = (get_machine "web" (host_in starting).store).1 })).0
      (start_machine "web" (host_in starting)).0
start_machine-IsKilled_example =
    start_machine-IsKilled "web" (machine_in "web" starting) (host_in starting)
      (host_in-IsTidy starting) refl web_found refl

stop_machine-IsStoppedIn_example :
    Given (λ u w. IsStoppedIn "web" w.store) (stop_machine "web" (host_in running))
stop_machine-IsStoppedIn_example =
    stop_machine-IsStoppedIn "web" (host_in running) (host_in-IsTidy running)

delete_machine-IsGoneFrom_example :
    Given (λ u w. IsGoneFrom "web" w.store) (delete_machine "web" (host_in running))
delete_machine-IsGoneFrom_example =
    delete_machine-IsGoneFrom "web" (host_in running) (host_in-IsTidy running)

-- 172.16.0.2 is the guest of the first block of 172.16.0.0/29.
abbrev web_ip : String → Option (Option ℕ)
web_ip s = some (some 2886729730)

abbrev two_blocks : NetworkAllocator
two_blocks = record { base_prefix = record { addr = 2886729728; bits = 29 } }

abbrev first_network : NetworkAllocation
first_network = network_at 2886729728 (trim_space "fctap0")

abbrev second_network : NetworkAllocation
second_network = network_for_index two_blocks 1

networks_found : networks_of web_ip "new" (machine_in "web" running ∷ []) ≡ ok (first_network ∷ [])
unfolding networks_of Boot.with_network allocation_from_guest_ip is_blank trim_space
networks_found = refl

second_allocated : allocate two_blocks (first_network ∷ []) ≡ ok second_network
unfolding allocate allocate_from network_for_index
second_allocated = refl

allocate_apart_example :
    All
      (λ r. IsInUse web_ip "new" r → web_ip r.runtime_host ≢ some (some (guest_ip second_network)))
      (machine_in "web" running ∷ [])
allocate_apart_example =
    allocate_apart web_ip "new" two_blocks (machine_in "web" running ∷ []) (first_network ∷ [])
      second_network networks_found second_allocated

published_search-LeastUnused_example :
    LeastUnused
      (web_port ∷ [])
      min_published_host_port
      (max_published_host_port + 1)
      (first_unused (web_port ∷ []) 20000 min_published_host_port)
published_search-LeastUnused_example = published_search-LeastUnused (web_port ∷ [])

recognise-accepted_example :
    (recognise
        (machine_in "web" starting)
        (record { ready_nonce = "0a1b"; guest_ssh_public_key = "ssh-ed25519 AAAA" })
      ≡ accepted "ssh-ed25519 AAAA")
    ↔ (AnswersNonce
          (machine_in "web" starting)
          (record { ready_nonce = "0a1b"; guest_ssh_public_key = "ssh-ed25519 AAAA" })
        × IsKeyOf
            (machine_in "web" starting)
            (record { ready_nonce = "0a1b"; guest_ssh_public_key = "ssh-ed25519 AAAA" })
            "ssh-ed25519 AAAA")
recognise-accepted_example =
    recognise-accepted (machine_in "web" starting)
      (record { ready_nonce = "0a1b"; guest_ssh_public_key = "ssh-ed25519 AAAA" })
      "ssh-ed25519 AAAA"

-- Port 40000 is used by another machine, and 40001 was given up.
abbrev database : MachineRecord
database = record (machine_in "database" running) { ports = build_machine_ports 40000 45000 0 }

host_port-set_machine_exec_relay_port_example :
    (machine_relay_host_port
        (set_machine_exec_relay_port (build_machine_ports 40000 45000 0) 50000)
        exec
      ≡ 50000)
    × ((name : MachinePortName)
        → name ≢ exec
        → machine_relay_host_port
            (set_machine_exec_relay_port (build_machine_ports 40000 45000 0) 50000)
            name
          ≡ machine_relay_host_port (build_machine_ports 40000 45000 0) name)
host_port-set_machine_exec_relay_port_example =
    host_port-set_machine_exec_relay_port (build_machine_ports 40000 45000 0) 50000

resize_machine_record-IsResizedIn_example :
    Given
      (λ u v.
        (pos 4096 ≤ℤ pos 8192)
        × IsResizedIn "web" (pos 4096) (pos 8192) v.store
        × HasGrown
            (get_volume (machine_in "web" running).system_volume_id (store_in running)).0
            (pos 8192)
            v)
      (resize_machine_record (machine_in "web" running) (pos 4096) (pos 8192) (host_in running))
resize_machine_record-IsResizedIn_example =
    resize_machine_record-IsResizedIn (machine_in "web" running) (pos 4096) (pos 8192)
      (host_in running) (host_in-IsTidy running)

-- A port is published, and nothing can be written any more.
abbrev full_host : World
full_host = record (host_in running) {
  published_port_listeners = record { key = "http"; host_port = 20000 } ∷ [];
  store = record (store_in running) {
    state = record (disk_with (state_in running)) { events = λ n. Event.fails };
  };
}

abbrev api_request : CreatePublishedPortRequest
api_request = record {
  published_port_id = "api";
  name = "api";
  port = 8080;
  protocol = PortProtocol.tcp;
}

api_is_new : has (λ l. l.key) "api" full_host.published_port_listeners ≡ false
unfolding has
api_is_new = refl

create_published_port-Failing_example :
    Failing
      (λ v. v.published_port_listeners ≡ full_host.published_port_listeners)
      (create_published_port "web" api_request full_host)
create_published_port-Failing_example =
    create_published_port-Failing "web" api_request full_host api_is_new

-- A bucket of Google without an endpoint.
abbrev gcs_request : CreateMountRequest
gcs_request = record {
  mount_id = "data";
  kind = MountKind.gcs;
  target_path = "/data";
  read_only = true;
  config = record web_mount.config { endpoint = "" };
}

gcs_request_passes : check_mount_request gcs_request ≡ ok tt
unfolding check_mount_request is_blank trim_space is_rooted
gcs_request_passes = refl

build_rclone_config_env-IsUsable_example :
    (env : List EnvVar) × (build_rclone_config_env (pending_mount "web" gcs_request 9) "s" ≡ ok env)
    × IsUsable MountKind.gcs "s" env
build_rclone_config_env-IsUsable_example =
    build_rclone_config_env-IsUsable gcs_request "web" 9 "s" gcs_request_passes
