-- ===== src/Host/Settings.antt =====
-- internal/config/config.go: the settings are read from the environment and checked. os.Getenv,
-- strconv.ParseBool and time.ParseDuration are parameters.
pub mod Described
pub mod Loaded
use computer_host.Base.{
  not, String, Bool, true, false, Option, none, some, List, [], ◌∷◌, ℤ, pos, leb_ℤ, message,
  Outcome, ok, err, halt, trim_space, is_blank, clean, join, ◌=?◌, string_key, if◌then◌else◌,
}
use computer_host.Host.World.{Config, DiskCloneMode}
use computer_host.Firecracker.Spec.{DriveIoEngine, ◌and_then◌, refuse}

pub record Environment : Type 0 where
  pub getenv : String → String
  pub parsed_bool : String → Option Bool
  pub parsed_duration : String → Option ℤ

-- DiskCloneMode of a text.
abbrev mode_of : String → DiskCloneMode
mode_of value =
    if value =? "reflink"
    then DiskCloneMode.reflink
    else if value =? "copy"
    then DiskCloneMode.copy
    else DiskCloneMode.other_mode value

abbrev engine_of : String → DriveIoEngine
engine_of value =
    if value =? "Sync"
    then DriveIoEngine.sync_engine
    else if value =? "Async"
    then DriveIoEngine.async_engine
    else DriveIoEngine.other_engine value

unfoldable pub load_disk_clone_mode : String → DiskCloneMode
load_disk_clone_mode raw = if is_blank raw then DiskCloneMode.reflink else mode_of (trim_space raw)

unfoldable pub load_drive_io_engine : String → DriveIoEngine
load_drive_io_engine raw =
    if is_blank raw then DriveIoEngine.sync_engine else engine_of (trim_space raw)

-- DiskCloneMode.Validate accepts these.
abbrev pub is_known_mode : DiskCloneMode → Bool
is_known_mode DiskCloneMode.reflink = true
is_known_mode DiskCloneMode.copy = true
is_known_mode (DiskCloneMode.other_mode m) = false

abbrev parsed_or : {A : Type 0} → String → String → Option A → Outcome A
parsed_or name text none = err (message text name)
parsed_or name text (some a) = ok a

unfoldable pub load_bool : Environment → String → Outcome Bool
load_bool e name =
    if is_blank (e.getenv name)
    then ok false
    else parsed_or name "must be a boolean" (e.parsed_bool (trim_space (e.getenv name)))

unfoldable pub duration_default : Environment → String → ℤ → Outcome ℤ
duration_default e name fallback =
    if is_blank (e.getenv name)
    then ok fallback
    else parsed_or name "must be a duration" (e.parsed_duration (trim_space (e.getenv name)))

-- validateDriveIOEngine accepts these.
abbrev pub is_named_engine : DriveIoEngine → Bool
is_named_engine DriveIoEngine.sync_engine = true
is_named_engine DriveIoEngine.async_engine = true
is_named_engine (DriveIoEngine.other_engine text) = false

-- Config.Validate.
unfoldable pub validate_config : Config → Outcome (Unit {0})
validate_config c =
    refuse (c.root_dir =? "") "FIRECRACKER_HOST_ROOT_DIR is required"
    and_then refuse (c.firecracker_binary_path =? "") "FIRECRACKER_BINARY_PATH is required"
    and_then refuse (c.jailer_binary_path =? "") "JAILER_BINARY_PATH is required"
    and_then refuse (is_blank c.state_path) "state path is required"
    and_then refuse (is_blank c.operations_path) "operations path is required"
    and_then refuse (is_blank c.artifacts_dir) "artifacts dir is required"
    and_then refuse (is_blank c.machine_disks_dir) "machine disks dir is required"
    and_then refuse (is_blank c.snapshots_dir) "snapshots dir is required"
    and_then refuse (is_blank c.runtime_dir) "runtime dir is required"
    and_then refuse (not (is_known_mode c.disk_clone_mode)) "unknown disk clone mode"
    and_then refuse (not (is_named_engine c.drive_io_engine)) "unknown drive io engine"
    and_then refuse (is_blank c.socket_path) "socket path is required"
    and_then refuse (is_blank c.egress_interface) "FIRECRACKER_HOST_EGRESS_INTERFACE is required"
    and_then refuse (leb_ℤ c.reconcile_interval (pos 0)) "the interval must be greater than zero"

abbrev below : String → String → String
below root_dir name = join (root_dir ∷ name ∷ [])

-- The settings that Load gathers, with the interval and the use of PCI.
unfoldable pub gathered : Environment → Bool → ℤ → Config
unfolding load_disk_clone_mode load_drive_io_engine
gathered e enable_pci interval =
    let root_dir : String = clean (trim_space (e.getenv "FIRECRACKER_HOST_ROOT_DIR")) in
    record {
      root_dir = root_dir;
      state_path = join (root_dir ∷ "state" ∷ "state.json" ∷ []);
      operations_path = join (root_dir ∷ "state" ∷ "ops.json" ∷ []);
      artifacts_dir = below root_dir "artifacts";
      machine_disks_dir = below root_dir "machine-disks";
      snapshots_dir = below root_dir "snapshots";
      runtime_dir = below root_dir "runtime";
      disk_clone_mode = load_disk_clone_mode (e.getenv "FIRECRACKER_HOST_DISK_CLONE_MODE");
      drive_io_engine = load_drive_io_engine (e.getenv "FIRECRACKER_HOST_DRIVE_IO_ENGINE");
      enable_pci = enable_pci;
      socket_path = below root_dir "firecracker-host.sock";
      http_addr = trim_space (e.getenv "FIRECRACKER_HOST_HTTP_ADDR");
      egress_interface = trim_space (e.getenv "FIRECRACKER_HOST_EGRESS_INTERFACE");
      reconcile_interval = interval;
      firecracker_binary_path = trim_space (e.getenv "FIRECRACKER_BINARY_PATH");
      jailer_binary_path = trim_space (e.getenv "JAILER_BINARY_PATH");
      guest_login_ca_public_key = trim_space (e.getenv "GUEST_LOGIN_CA_PUBLIC_KEY");
    }

abbrev pub checked : Outcome (Unit {0}) → Config → Outcome Config
checked (ok u) c = ok c
checked (err x) c = err x
checked (halt h) c = halt h

abbrev pub with_interval : Environment → Bool → Outcome ℤ → Outcome Config
with_interval e pci (ok n) = checked (validate_config (gathered e pci n)) (gathered e pci n)
with_interval e pci (err x) = err x
with_interval e pci (halt h) = halt h

-- The five seconds of the interval that is not given, in nanoseconds.
abbrev pub default_interval : ℤ
default_interval = pos 5000000000

abbrev pub with_pci : Environment → Outcome Bool → Outcome Config
with_pci e (ok pci) =
    with_interval e pci (duration_default e "FIRECRACKER_HOST_RECONCILE_INTERVAL" default_interval)
with_pci e (err x) = err x
with_pci e (halt h) = halt h

-- Load.
unfoldable pub load : Environment → Outcome Config
unfolding load_bool duration_default gathered validate_config
load e = with_pci e (load_bool e "FIRECRACKER_HOST_ENABLE_PCI")
