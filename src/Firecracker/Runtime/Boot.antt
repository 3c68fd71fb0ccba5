-- ===== src/Firecracker/Runtime/Boot.antt =====
-- internal/firecracker/runtime.go and launch.go: Boot, and what it undoes where it fails.
pub mod Added
pub mod Undone
use computer_host.Base.{
  ℕ, String, Bool, true, false, Option, none, some, List, [], ◌∷◌, Outcome, ok, err, ltb, ◌=?◌,
  string_key, join, if◌then◌else◌,
}
use computer_host.Model.{MachineId, Time}
use computer_host.Host.Exec.{◌>>=◌, ◌>>◌, pure, gets, ignore, lift, on_error, wrapping, when}
use computer_host.Host.World.{MachineState, Phase}
use computer_host.Network.{NetworkAllocator, NetworkAllocation, allocate, guest_ip}
use computer_host.Firecracker.Spec.{
  MachineSpec, DriveSpec, VsockSpec, MmdsSpec, root_drive, validate,
}
use computer_host.Firecracker.Paths.{
  MachinePaths, build_machine_paths, proc_socket_path, jailed_vsock_device_path, staged_file_name,
}
use computer_host.Firecracker.Runtime.{
  RuntimeWorld, Runs, act, take_away, ask, unchanged, with_tap, without_tap, with_dir, without_dir,
  with_signal, wait_for_pid_file, wait_for_socket, init_ticks,
}

-- The fields of Runtime that its methods read. The text of an address, and net.ParseIP with To4 of a
-- trimmed text, are parameters.
pub record Runtime : Type 0 where
  pub root_dir : String
  pub firecracker_binary_path : String
  pub network_allocator : NetworkAllocator
  pub ip_text : ℕ → String
  pub parsed_ip : String → Option (Option ℕ)

-- cleanupRunningProcess.
unfoldable pub cleanup_running_process : ℕ → Runs (Unit {0})
unfolding ignore when act
cleanup_running_process pid = when (ltb 0 pid) (ignore (act (with_signal pid)))

-- The function `cleanup` of Boot, by whether a failure is preserved; `started` says whether there is a
-- command to kill.
unfoldable pub clean_up_unless : Bool → NetworkAllocation → String → Bool → ℕ → Runs (Unit {0})
unfolding ◌>>=◌ pure ignore when act take_away cleanup_running_process
clean_up_unless true network base_dir started pid = pure tt
clean_up_unless false network base_dir started pid = do
  cleanup_running_process pid
  when started (ignore (act unchanged))
  ignore (take_away (without_tap network.tap_name))
  if base_dir =? "" then pure tt else ignore (take_away (without_dir base_dir))

unfoldable pub clean_up_boot : NetworkAllocation → String → Bool → ℕ → Runs (Unit {0})
unfolding ◌>>=◌ gets clean_up_unless
clean_up_boot network base_dir started pid = do
  preserves ← gets (λ w. w.env.preserves_failure)
  clean_up_unless preserves network base_dir started pid

-- linkMachineFile: the link lies in the directory of the machine.
unfoldable pub link_machine_file : String → String → Runs (Unit {0})
unfolding ◌>>=◌ act
link_machine_file source target = do act unchanged; act unchanged

-- The link of one file; its name in the jail is returned.
unfoldable pub stage_file : String → String → Runs String
unfolding ◌>>=◌ pure lift link_machine_file
stage_file chroot_root_dir path = do
  name ← lift (staged_file_name path)
  link_machine_file path (join (chroot_root_dir ∷ name ∷ []))
  pure name

unfoldable pub stage_drive_then : String → DriveSpec → Runs (List DriveSpec) → Runs (List DriveSpec)
unfolding ◌>>=◌ pure stage_file
stage_drive_then chroot_root_dir drive rest = do
  name ← stage_file chroot_root_dir drive.path
  others ← rest
  pure (record drive { path = name } ∷ others)

unfoldable pub stage_drives : String → List DriveSpec → Runs (List DriveSpec)
unfolding pure stage_drive_then
stage_drives chroot_root_dir [] = pure []
stage_drives chroot_root_dir (d ∷ ds) =
    stage_drive_then chroot_root_dir d (stage_drives chroot_root_dir ds)

abbrev staged_vsock : Option VsockSpec → Option VsockSpec
staged_vsock none = none
staged_vsock (some v) = some (record v { path = jailed_vsock_device_path v })

-- stageMachineFiles.
unfoldable pub stage_machine_files : MachineSpec → MachinePaths → Runs MachineSpec
unfolding ◌>>=◌ pure wrapping stage_file stage_drives
stage_machine_files spec paths = do
  kernel ← wrapping "kernel image" (stage_file paths.chroot_root_dir spec.kernel_image_path)
  rootfs ← wrapping "root drive" (stage_file paths.chroot_root_dir spec.rootfs_path)
  drives ← wrapping "drive" (stage_drives paths.chroot_root_dir spec.drives)
  pure (record spec {
    kernel_image_path = kernel;
    rootfs_path = rootfs;
    root_drive = record (root_drive spec) { path = rootfs };
    drives = drives;
    vsock = staged_vsock spec.vsock;
  })

-- Boot from the directory of the machine to the start of the jailer.
unfoldable pub prepare_jail : MachineSpec → MachinePaths → NetworkAllocation → Runs (Unit {0})
unfolding ◌>>=◌ wrapping act stage_machine_files
prepare_jail spec paths network = do
  wrapping "create machine log dir" (act (with_dir paths.base_dir))
  act (with_tap network.tap_name)
  jailed_spec ← stage_machine_files spec paths
  wrapping "write config file" (act unchanged)
  wrapping "start jailer" (act unchanged)

-- The metadata are sent once the socket of the process answers.
unfoldable pub send_mmds : Option MmdsSpec → Runs (Unit {0})
unfolding ◌>>=◌ pure wrapping act wait_for_socket
send_mmds none = pure tt
send_mmds (some mmds) = do
  wrapping "wait for firecracker socket" (wait_for_socket init_ticks)
  wrapping "put mmds data" (act unchanged)

abbrev pub running_state : Runtime → MachineSpec → NetworkAllocation → ℕ → Time → MachineState
running_state r spec network pid started_at = record {
  id = spec.id;
  phase = Phase.running;
  pid = pid;
  runtime_host = r.ip_text (guest_ip network);
  socket_path = proc_socket_path pid;
  tap_name = network.tap_name;
  started_at = some started_at;
  error = "";
}

-- Boot, once it has a network and paths.
unfoldable pub boot_in :
    Runtime → MachineSpec → NetworkAllocation → MachinePaths → Runs MachineState
unfolding ◌>>=◌ pure on_error wrapping ask clean_up_boot prepare_jail wait_for_pid_file send_mmds
boot_in r spec network paths = do
  on_error (clean_up_boot network paths.base_dir false 0) (prepare_jail spec paths network)
  pid ←
      on_error (clean_up_boot network paths.base_dir true 0)
        (wrapping "wait for firecracker pid" (wait_for_pid_file init_ticks))
  on_error (clean_up_boot network paths.base_dir true pid) (send_mmds spec.mmds)
  started_at ← ask (λ env n. env.now n)
  pure (running_state r spec network pid started_at)

-- Boot.
unfoldable pub boot_machine : Runtime → MachineSpec → List NetworkAllocation → Runs MachineState
unfolding ◌>>=◌ lift on_error clean_up_boot boot_in
boot_machine r spec used = do
  lift (validate spec)
  network ← lift (allocate r.network_allocator used)
  paths ←
      on_error (clean_up_boot network "" false 0)
        (lift (build_machine_paths r.root_dir spec.id r.firecracker_binary_path))
  boot_in r spec network paths
