-- ===== src/Firecracker/Paths.antt =====
-- internal/firecracker/paths.go, and the names of staged files of internal/firecracker/launch.go.
use Prim.Native.String.{◌++◌}
use computer_host.Base.{
  ℕ, String, Bool, ◌||◌, [], ◌∷◌, message, Outcome, ok, err, is_blank, trim_space, ◌=?◌, string_key,
  base, join, decimal, if◌then◌else◌,
}
use computer_host.Model.{MachineId}
use computer_host.Firecracker.Spec.{VsockSpec}

pub record MachinePaths : Type 0 where
  pub base_dir : String
  pub chroot_root_dir : String
  pub jailer_base_dir : String
  pub log_dir : String
  pub firecracker_log_path : String
  pub jailed_firecracker_log_path : String
  pub serial_log_path : String
  pub jailed_serial_log_path : String
  pub pid_file_path : String
  pub socket_path : String

-- Whether filepath.Base gives no name of a file.
abbrev pub is_no_name : String → Bool
is_no_name name = name =? "." || name =? "/" || name =? ""

abbrev paths_in : String → MachineId → String → MachinePaths
paths_in root_dir id bin_name =
    let base_dir = join (root_dir ∷ "machines" ∷ id ∷ []) in
    let jailer_base_dir = join (base_dir ∷ "jailer" ∷ []) in
    let chroot_root_dir = join (jailer_base_dir ∷ bin_name ∷ id ∷ "root" ∷ []) in
    let log_dir = join (chroot_root_dir ∷ "logs" ∷ []) in
    record {
      base_dir = base_dir;
      chroot_root_dir = chroot_root_dir;
      jailer_base_dir = jailer_base_dir;
      log_dir = log_dir;
      firecracker_log_path = join (log_dir ∷ "firecracker.log" ∷ []);
      jailed_firecracker_log_path = join ("/" ∷ "logs" ∷ "firecracker.log" ∷ []);
      serial_log_path = join (log_dir ∷ "serial.log" ∷ []);
      jailed_serial_log_path = join ("/" ∷ "logs" ∷ "serial.log" ∷ []);
      pid_file_path = join (chroot_root_dir ∷ (bin_name ++ ".pid") ∷ []);
      socket_path = join (chroot_root_dir ∷ "run" ∷ "firecracker.socket" ∷ []);
    }

-- buildMachinePaths.
unfoldable pub build_machine_paths : String → MachineId → String → Outcome MachinePaths
build_machine_paths root_dir id firecracker_binary_path =
    if is_blank root_dir
    then err (message "root dir is required" "")
    else if is_blank id
    then err (message "machine id is required" "")
    else if is_no_name (base (trim_space firecracker_binary_path))
    then err (message "firecracker binary path is required" "")
    else ok (paths_in (trim_space root_dir) id (base (trim_space firecracker_binary_path)))

-- procSocketPath.
abbrev pub proc_socket_path : ℕ → String
proc_socket_path pid = join ("/proc" ∷ decimal pid ∷ "root" ∷ "run" ∷ "firecracker.socket" ∷ [])

-- jailedVSockDevicePath.
abbrev pub jailed_vsock_device_path : VsockSpec → String
jailed_vsock_device_path spec = join ("/run" ∷ base (trim_space spec.path) ∷ [])

-- stagedFileName.
unfoldable pub staged_file_name : String → Outcome String
staged_file_name file_path =
    if is_no_name (base (trim_space file_path))
    then err (message "file path is required" "")
    else ok (base (trim_space file_path))
