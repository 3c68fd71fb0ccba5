-- ===== src/Host/World.antt =====
-- The host as the daemon sees it: its configuration, its store, what it keeps in memory, and the
-- outcomes of the calls that leave the program.
use computer_host.Base.{ℕ, String, Bool, Option, List, ℤ}
use computer_host.Model.{MachineId, Time}
use computer_host.Host.File.{Event}
use computer_host.Firecracker.Spec.{DriveIoEngine, MachineSpec}
use computer_host.Network.{NetworkAllocation}
use computer_host.Store.FileStore.{FileStore}

-- internal/config/config.go: the settings that the daemon reads.
pub data DiskCloneMode : Type 0 where
  reflink copy : DiskCloneMode
  other_mode : String → DiskCloneMode

pub record Config : Type 0 where
  pub root_dir : String
  pub state_path : String
  pub operations_path : String
  pub artifacts_dir : String
  pub machine_disks_dir : String
  pub snapshots_dir : String
  pub runtime_dir : String
  pub disk_clone_mode : DiskCloneMode
  pub drive_io_engine : DriveIoEngine
  pub enable_pci : Bool
  pub socket_path : String
  pub http_addr : String
  pub egress_interface : String
  pub reconcile_interval : ℤ
  pub firecracker_binary_path : String
  pub jailer_binary_path : String
  pub guest_login_ca_public_key : String

-- internal/firecracker/state.go.
pub data Phase : Type 0 where
  running stopped failed : Phase

pub record MachineState : Type 0 where
  pub id : MachineId
  pub phase : Phase
  pub pid : ℕ
  pub runtime_host : String
  pub socket_path : String
  pub tap_name : String
  pub started_at : Option Time
  pub error : String

-- internal/daemon/startup.go: what a guest answers when it is ready.
pub record GuestReadyResult : Type 0 where
  pub ready_nonce : String
  pub guest_ssh_public_key : String

-- The calls that leave the program, and those of its parts that are not modelled: the Firecracker
-- runtime (internal/firecracker/runtime.go), the dialogue with the guest, downloads, and what the
-- tools mkfs.ext4, debugfs, blkid and ssh-keygen do to images and keys.
pub data Call : Type 0 where
  boot : MachineSpec → List NetworkAllocation → Call
  inspect delete_vm pause resume personalize : MachineId → Call
  listen close_listener : ℕ → Call
  sync_guest poweroff_guest : String → Call
  remove_file remove_all stat_file mkdir repair : String → Call
  truncate_file : String → ℤ → Call
  mount_guest unmount_guest verify_mount : String → Call
  nonce host_key : Call
  read_file make_dir read_label hash_file edit_image : String → Call
  create_image : String → ℤ → Call
  reflink_file copy_file download : String → String → Call

-- What net/url finds in a text.
pub record ParsedUrl : Type 0 where
  pub scheme : String
  pub host : String

-- What those calls return. The argument is the number of calls before.
pub record Env : Type 0 where
  pub outcome : ℕ → Event
  pub now : ℕ → Time
  pub booted : ℕ → MachineState
  pub inspected : ℕ → MachineState
  pub ready : ℕ → GuestReadyResult
  pub size : ℕ → ℤ
  pub answer : ℕ → Bool
  pub text : ℕ → String
  -- net.ParseIP and To4 of a text, trimmed: no address, one that is not IPv4, or an IPv4 address
  pub parsed_ip : String → Option (Option ℕ)
  -- url.Parse of a text, trimmed: its scheme and its host
  pub parsed_url : String → Option ParsedUrl
  -- the SHA-256 sum of a text: in hexadecimal, and its first four bytes, big-endian
  pub sha256_hex : String → String
  pub sha256_prefix : String → ℕ

-- A listener that the daemon holds under a key.
pub record Listener : Type 0 where
  pub key : String
  pub host_port : ℕ

pub record World : Type 0 where
  pub env : Env
  pub config : Config
  pub store : FileStore
  -- the machines whose mutex is locked
  pub held : List MachineId
  pub machine_relay_listeners : List Listener
  pub published_port_listeners : List Listener
  -- what os.RemoveAll was called with
  pub removed : List String
  -- the targets of the downloads whose names come from a request
  pub overwritten : List String
  -- the calls so far, the last one first, and their number
  pub trace : List Call
  pub clock : ℕ
