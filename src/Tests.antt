-- ===== src/Tests.antt =====
-- A host with two machines and a published port, on which the theorems are tried.
pub mod OfStore
pub mod OfNetwork
pub mod OfDaemon
pub mod OfWorkspace
pub mod OfCreation
pub mod OfDownloads
pub mod OfReport
pub mod OfSettings
pub mod OfRuntime
use computer_host.Base.{ℕ, String, true, false, refl, inr, none, some, [], ◌∷◌, ℤ, pos}
use computer_host.Model.{
  Time, MachinePhase, MachineRecord, VolumeRecord, SnapshotRecord, MountRecord, MountKind,
  MountStatus, ArtifactRef, VolumeKind, PublishedPortRecord, PortProtocol, OperationRecord,
  MachineOperation, StoragePool, VolumePurpose,
}
use computer_host.Host.File.{Event, Content, Disk}
use computer_host.Host.World.{World, Env, Config, DiskCloneMode, Phase, MachineState}
use computer_host.Firecracker.Spec.{DriveIoEngine}
use computer_host.Store.Persisted.{PersistedState, PersistedOperations}
use computer_host.Store.FileStore.{FileStore}
use computer_host.Store.Consistent.{IsConsistent, IsSound}
use computer_host.Daemon.Safe.{IsTidy, IsTidyHolding}

abbrev pub image : ArtifactRef
image = record { kernel_image_url = "https://images/kernel"; rootfs_url = "https://images/rootfs" }

abbrev pub machine_in : String → MachinePhase → MachineRecord
machine_in id phase = record {
  id = id;
  artifact = image;
  memory_mib = pos 2048;
  storage_bytes = pos 4096;
  guest_config = none;
  system_volume_id = "web-system";
  user_volume_ids = [];
  runtime_host = "172.16.0.2";
  tap_device = "fctap0";
  ports = [];
  guest_ssh_public_key = "ssh-ed25519 AAAA";
  guest_ready_nonce = "0a1b";
  phase = phase;
  error = "";
  pid = 7;
  socket_path = "/run/web.sock";
  created_at = 1;
  started_at = some 2;
}

abbrev pub web_volume : VolumeRecord
web_volume = record {
  id = "web-system";
  kind = VolumeKind.system;
  attached_machine_id = some "web";
  source_artifact = some image;
  pool = StoragePool.machine_disks;
  path = "/disks/web/system.img";
  purpose = VolumePurpose.none_given;
  delete_on_machine_delete = false;
  created_at = 1;
}

abbrev pub web_snapshot : SnapshotRecord
web_snapshot = record {
  id = "first";
  machine_id = "web";
  artifact = image;
  mem_file_path = "/snapshots/first/mem";
  state_file_path = "/snapshots/first/state";
  disk_paths = [];
  artifacts = [];
  source_runtime_host = "172.16.0.2";
  source_tap_device = "fctap0";
  created_at = 3;
}

abbrev pub web_mount : MountRecord
web_mount = record {
  id = "data";
  machine_id = "web";
  kind = MountKind.s3;
  target_path = "/data";
  read_only = false;
  config = record {
    bucket = "b";
    endpoint = "";
    region = "";
    access_key_id = "k";
    secret_access_key = "s";
    vfs_cache_mode = "";
    extra_flags = [];
  };
  status = MountStatus.pending;
  status_message = "";
  created_at = 4;
}

abbrev pub web_port : PublishedPortRecord
web_port = record {
  id = "http";
  machine_id = "web";
  name = "http";
  port = 80;
  host_port = 20000;
  protocol = PortProtocol.tcp;
  created_at = 5;
}

abbrev pub web_stop : OperationRecord
web_stop = record {
  machine_id = "web";
  type = MachineOperation.stop;
  started_at = 6;
  snapshot_id = none;
  memory_mib = pos 0;
  storage_bytes = pos 0;
}

-- The machine "web" in the phase, and one that is stopped.
abbrev pub state_in : MachinePhase → PersistedState
state_in phase = record {
  artifacts = [];
  machines = machine_in "web" phase ∷ machine_in "db" MachinePhase.stopped ∷ [];
  volumes = web_volume ∷ [];
  snapshots = [];
  published_ports = web_port ∷ [];
  mounts = web_mount ∷ [];
}

abbrev pub disk_with : {A : Type 0} → A → Disk A
disk_with a = record {
  events = λ n. Event.succeeds;
  clock = 0;
  file = record { current = some (Content.whole a); temp = none };
}

abbrev pub store_in : MachinePhase → FileStore
store_in phase = record {
  state = disk_with (state_in phase);
  operations = disk_with (record { operations = web_stop ∷ [] });
}

abbrev pub running_state : MachineState
running_state = record {
  id = "web";
  phase = Phase.running;
  pid = 7;
  runtime_host = "172.16.0.2";
  socket_path = "/run/web.sock";
  tap_name = "fctap0";
  started_at = some 2;
  error = "";
}

abbrev all_well : Env
all_well = record {
  outcome = λ n. Event.succeeds;
  now = λ n. n;
  booted = λ n. running_state;
  inspected = λ n. running_state;
  ready = λ n. record { ready_nonce = "0a1b"; guest_ssh_public_key = "ssh-ed25519 AAAA" };
  size = λ n. pos 4096;
  answer = λ n. true;
  text = λ n. "0a1b";
  parsed_ip = λ s. none;
  parsed_url = λ s. some (record { scheme = "https"; host = "images" });
  sha256_hex = λ s. "e3b0";
  sha256_prefix = λ s. 0xe3b0c442;
}

abbrev settings : Config
settings = record {
  root_dir = "/var/lib/host";
  state_path = "/var/lib/host/state.json";
  operations_path = "/var/lib/host/ops.json";
  artifacts_dir = "/var/lib/host/artifacts";
  machine_disks_dir = "/var/lib/host/machine-disks";
  snapshots_dir = "/var/lib/host/snapshots";
  runtime_dir = "/var/lib/host/runtime";
  disk_clone_mode = DiskCloneMode.reflink;
  drive_io_engine = DriveIoEngine.sync_engine;
  enable_pci = false;
  socket_path = "/run/host.sock";
  http_addr = "";
  egress_interface = "eth0";
  reconcile_interval = pos 5;
  firecracker_binary_path = "/usr/bin/firecracker";
  jailer_binary_path = "/usr/bin/jailer";
  guest_login_ca_public_key = "";
}

abbrev pub host_in : MachinePhase → World
host_in phase = record {
  env = all_well;
  config = settings;
  store = store_in phase;
  held = [];
  machine_relay_listeners = [];
  published_port_listeners = [];
  removed = [];
  overwritten = [];
  trace = [];
  clock = 0;
}

state_in-IsConsistent : (phase : MachinePhase) → IsConsistent (state_in phase)
state_in-IsConsistent phase = record {
  artifact_refs = tt;
  machine_ids = ((refl, tt), (tt, tt));
  volume_ids = (tt, tt);
  snapshot_ids = tt;
  port_ids = (tt, tt);
  host_ports = (tt, tt);
  mount_ids = (tt, tt);
}

pub store_in-IsSound : (phase : MachinePhase) → IsSound (store_in phase)
store_in-IsSound phase = record {
  state = (state_in phase, refl, state_in-IsConsistent phase);
  journal = (record { operations = web_stop ∷ [] }, refl, (tt, tt));
}

pub host_in-IsTidy : (phase : MachinePhase) → IsTidy (host_in phase)
host_in-IsTidy phase = record {
  is_sound = record {
    state = inr (store_in-IsSound phase).state;
    journal = inr (store_in-IsSound phase).journal;
  };
  relay_keys = tt;
  published_keys = tt;
}
