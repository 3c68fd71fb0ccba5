-- ===== src/Daemon/Disks.antt =====
-- internal/daemon/files.go and resolveRequestedStorageBytes of create.go: the disks of a machine are made.
-- What the commands mkfs.ext4 and debugfs do to an image is a call.
use computer_host.Base.{
  String, true, none, some, message, ℤ, pos, leb_ℤ, ltb_ℤ, is_blank, string_key, if◌then◌else◌,
}
use computer_host.Model.{
  MachineId, VolumeRecord, VolumeKind, VolumePurpose, StoragePool, GuestConfig, Time,
}
use computer_host.Host.Exec.{
  ◌>>=◌, ◌>>◌, pure, raise, gets, ignore, refuse_if, on_error, wrapping, when,
}
use computer_host.Host.World.{
  DiskCloneMode, stat_file, remove_file, edit_image, create_image, reflink_file, copy_file,
}
use computer_host.Host.Calls.{Host, call, run, now}
use computer_host.Daemon.Files.{workspace_volume_id, workspace_volume_path}
use computer_host.Daemon.GuestConfigs.{has_guest_config}

abbrev pub default_guest_disk_size_bytes : ℤ
default_guest_disk_size_bytes = pos 10737418240

abbrev requested_or_default : ℤ → ℤ
requested_or_default storage_bytes =
    if leb_ℤ storage_bytes (pos 0) then default_guest_disk_size_bytes else storage_bytes

-- resolveRequestedStorageBytes.
unfoldable pub resolve_requested_storage_bytes : ℤ → String → Host ℤ
unfolding ◌>>=◌ pure refuse_if wrapping
resolve_requested_storage_bytes storage_bytes source_disk_path = do
  size ← wrapping "stat source disk" (call (stat_file source_disk_path) (λ env n. env.size n))
  refuse_if (ltb_ℤ (requested_or_default storage_bytes) size)
      (message "requested storage is smaller than source disk" "")
  pure (requested_or_default storage_bytes)

-- cloneDiskFile, by the setting of the daemon.
unfoldable pub clone_disk_as : DiskCloneMode → String → String → Host (Unit {0})
unfolding raise wrapping
clone_disk_as DiskCloneMode.reflink source target =
    wrapping "FIRECRACKER_HOST_DISK_CLONE_MODE=reflink requires a CoW filesystem"
      (run (reflink_file source target))
clone_disk_as DiskCloneMode.copy source target = run (copy_file source target)
clone_disk_as (DiskCloneMode.other_mode mode) source target =
    raise (message "unsupported disk clone mode" mode)

unfoldable pub clone_disk : String → String → Host (Unit {0})
unfolding ◌>>=◌ gets clone_disk_as
clone_disk source target = do
  config ← gets (λ w. w.config)
  clone_disk_as config.disk_clone_mode source target

-- createExt4VolumeImage, whose commands are one call.
unfoldable pub create_ext4_volume_image : String → ℤ → Host (Unit {0})
unfolding ◌>>=◌ refuse_if
create_ext4_volume_image path size_bytes = do
  refuse_if (leb_ℤ size_bytes (pos 0)) (message "ext4 volume size must be greater than zero" "")
  run (create_image path size_bytes)

abbrev workspace_volume : MachineId → String → Time → VolumeRecord
workspace_volume id path created_at = record {
  id = workspace_volume_id id;
  kind = VolumeKind.user;
  attached_machine_id = some id;
  source_artifact = none;
  pool = StoragePool.user_volumes;
  path = path;
  purpose = VolumePurpose.workspace;
  delete_on_machine_delete = true;
  created_at = created_at;
}

-- createWorkspaceVolume.
unfoldable pub create_workspace_volume : MachineId → ℤ → Host VolumeRecord
unfolding ◌>>=◌ pure gets ignore on_error wrapping create_ext4_volume_image
create_workspace_volume id size_bytes = do
  config ← gets (λ w. w.config)
  let path = workspace_volume_path config id
  create_ext4_volume_image path size_bytes
  on_error (ignore (run (remove_file path)))
      (wrapping "prepare workspace volume" (run (edit_image path)))
  created_at ← now
  pure (workspace_volume id path created_at)

-- injectMachineIdentity, injectGuestConfig, ensureOfflineWorkspaceRoot and injectGuestSSHHostKey; the
-- edits of the image by debugfs are calls.
unfoldable pub inject_machine_identity : String → MachineId → Host (Unit {0})
unfolding ◌>>=◌ refuse_if
inject_machine_identity path id = do
  refuse_if (is_blank id) (message "machine_id is required" "")
  run (edit_image path)

unfoldable pub inject_guest_config : String → GuestConfig → Host (Unit {0})
unfolding when
inject_guest_config path config = when (has_guest_config (some config)) (run (edit_image path))

unfoldable pub inject_guest_ssh_host_key : String → String → Host (Unit {0})
unfolding ◌>>=◌ refuse_if
inject_guest_ssh_host_key path public_key = do
  refuse_if (is_blank public_key) (message "guest ssh host public key is required" "")
  run (edit_image path)
