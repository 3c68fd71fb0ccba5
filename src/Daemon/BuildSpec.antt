-- ===== src/Daemon/BuildSpec.antt =====
-- internal/daemon/guest_metadata.go, guest_personalization.go and buildMachineSpec of create.go: the
-- specification of a machine.
pub mod Accepted
use Prim.Native.String.{◌++◌}
use computer_host.Base.{
  ℕ, suc, ◌+◌, ◌-◌, ◌%◌, String, Bool, true, false, List, [], ◌∷◌, Option, none, some, message,
  Outcome, ok, err, ℤ, pos, trim_space, is_blank, decimal, ◌=?◌, string_key, if◌then◌else◌,
}
use computer_host.Model.{MachineId, GuestConfig, GuestMetadata, VolumeRecord, ArtifactRecord}
use computer_host.Host.World.{Config}
use computer_host.Firecracker.Spec.{
  DriveCacheType, MmdsVersion, DriveSpec, MmdsSpec, VsockSpec, MachineSpec, validate,
}
use computer_host.Daemon.Files.{resolve_requested_memory_mib}

-- guestHostname.
abbrev pub guest_hostname : MachineId → Option GuestConfig → String
guest_hostname id none = trim_space id
guest_hostname id (some c) =
    let hostname = trim_space c.hostname in if hostname =? "" then trim_space id else hostname

abbrev metadata : String → String → Option GuestConfig → GuestMetadata
metadata name ready_nonce none = record {
  version = "v1";
  machine_id = name;
  hostname = name;
  ready_nonce = trim_space ready_nonce;
  authorized_keys = [];
  trusted_user_ca_keys = [];
  login_webhook = none;
}
metadata name ready_nonce (some c) = record {
  version = "v1";
  machine_id = name;
  hostname = name;
  ready_nonce = trim_space ready_nonce;
  authorized_keys = c.authorized_keys;
  trusted_user_ca_keys = c.trusted_user_ca_keys;
  login_webhook = c.login_webhook;
}

abbrev pub mmds_of : String → String → Option GuestConfig → MmdsSpec
mmds_of name ready_nonce guest_config = record {
  network_interfaces = "net0" ∷ [];
  version = MmdsVersion.v2;
  ipv4_address = "169.254.170.2";
  imds_compat = false;
  content = metadata name ready_nonce guest_config;
}

-- guestMetadataSpec.
unfoldable pub guest_metadata_spec : MachineId → Option GuestConfig → String → Outcome MmdsSpec
guest_metadata_spec id guest_config ready_nonce =
    let name = guest_hostname id guest_config in
    if name =? ""
    then err (message "machine id is required" "")
    else ok (mmds_of name ready_nonce guest_config)

abbrev pub min_guest_vsock_cid : ℕ
min_guest_vsock_cid = 3

abbrev pub max_guest_vsock_cid : ℕ
max_guest_vsock_cid = 2147483647

-- guestVsockCID of an id whose SHA-256 sum begins with the four bytes of `prefix`. All its uint32
-- operations stay below 2^32.
abbrev pub guest_vsock_cid : ℕ → ℕ
guest_vsock_cid prefix =
    min_guest_vsock_cid + prefix % (max_guest_vsock_cid - min_guest_vsock_cid + 1)

-- guestVsockSpec.
abbrev pub guest_vsock_spec : ℕ → VsockSpec
guest_vsock_spec prefix = record {
  id = "microagent-personalizer";
  cid = guest_vsock_cid prefix;
  path = "microagent-personalizer.vsock";
}

abbrev default_guest_kernel_args : String
default_guest_kernel_args =
    "console=ttyS0 reboot=k panic=1 loglevel=1 random.trust_cpu=on tsc=reliable i8042.nokbd i8042.noaux"

-- guestKernelArgs.
abbrev pub guest_kernel_args : Bool → String
guest_kernel_args enable_pci =
    if enable_pci then default_guest_kernel_args else default_guest_kernel_args ++ " pci=off"

-- The drives of the user volumes, the first one with the number `i`.
unfoldable pub user_drives : Config → ℕ → List VolumeRecord → List DriveSpec
user_drives config i [] = []
user_drives config i (volume ∷ volumes) =
    record {
      id = "user-" ++ decimal i;
      path = volume.path;
      read_only = false;
      cache_type = DriveCacheType.unsafe;
      io_engine = config.drive_io_engine;
    }
    ∷ user_drives config (i + 1) volumes

abbrev pub default_guest_vcpus : ℤ
default_guest_vcpus = pos 2

abbrev machine_spec :
    Config
    → ℕ
    → MachineId
    → ℤ
    → ArtifactRecord
    → List VolumeRecord
    → String
    → MmdsSpec
    → MachineSpec
machine_spec config prefix id memory_mib artifact user_volumes system_volume_path mmds = record {
  id = id;
  vcpus = default_guest_vcpus;
  memory_mib = resolve_requested_memory_mib memory_mib;
  kernel_image_path = artifact.kernel_image_path;
  rootfs_path = system_volume_path;
  root_drive = record {
    id = "root_drive";
    path = system_volume_path;
    read_only = false;
    cache_type = DriveCacheType.unsafe;
    io_engine = config.drive_io_engine;
  };
  kernel_args = guest_kernel_args config.enable_pci;
  drives = user_drives config 0 user_volumes;
  mmds = some mmds;
  vsock = some (guest_vsock_spec prefix);
}

unfoldable pub checked_spec : MachineSpec → Outcome (Unit {0}) → Outcome MachineSpec
checked_spec spec (ok u) = ok spec
checked_spec spec (err e) = err e
checked_spec spec (Outcome.halt h) = Outcome.halt h

unfoldable pub checked_with : (MmdsSpec → MachineSpec) → Outcome MmdsSpec → Outcome MachineSpec
unfolding checked_spec
checked_with spec_of (ok mmds) = let spec = spec_of mmds in checked_spec spec (validate spec)
checked_with spec_of (err e) = err e
checked_with spec_of (Outcome.halt h) = Outcome.halt h

-- buildMachineSpec; the second argument is the prefix of the SHA-256 sum of the id.
unfoldable pub build_machine_spec :
    Config
    → ℕ
    → MachineId
    → ℤ
    → ArtifactRecord
    → List VolumeRecord
    → String
    → Option GuestConfig
    → String
    → Outcome MachineSpec
unfolding guest_metadata_spec checked_with
build_machine_spec config prefix id memory_mib artifact volumes path guest_config ready_nonce =
    checked_with (machine_spec config prefix id memory_mib artifact volumes path)
      (guest_metadata_spec id guest_config ready_nonce)
