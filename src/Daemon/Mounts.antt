-- ===== src/Daemon/Mounts.antt =====
-- internal/daemon/mounts.go: the buckets that are mounted in a machine. The commands that mount in the
-- guest, test a mount point and unmount are calls of the guest.
pub mod Rclone
use computer_host.Base.{
  String, Bool, true, false, not, ◌&&◌, ◌||◌, Outcome, ok, err, message, is_blank, is_rooted,
  trim_space, is_not_found, ◌=?◌, string_key, if◌then◌else◌,
}
use computer_host.Model.{
  Time, MachineId, MountId, MachineRecord, MountKind, MountConfig, MountRecord, MountStatus,
  is_running,
}
use computer_host.Host.Exec.{
  Attempt, value, failed, ◌>>=◌, ◌>>◌, pure, raise, try, lift, when, refuse_if, for_each,
}
use computer_host.Host.World.{mount_guest, unmount_guest, verify_mount}
use computer_host.Host.Calls.{Host, on_store, call, run, now, with_machine_lock}
use computer_host.Store.Machines.{get_machine}
use computer_host.Store.Mounts
use computer_host.Store.Mounts.{get_mount, list_mounts, update_mount}
use computer_host.Daemon.Startup.{error_text}

pub record CreateMountRequest : Type 0 where
  pub mount_id : MountId
  pub kind : MountKind
  pub target_path : String
  pub read_only : Bool
  pub config : MountConfig

-- isValidMountKind.
abbrev pub is_valid_mount_kind : MountKind → Bool
is_valid_mount_kind MountKind.unset = false
is_valid_mount_kind (MountKind.other _) = false
is_valid_mount_kind _ = true

abbrev is_unset : MountKind → Bool
is_unset MountKind.unset = true
is_unset _ = false

abbrev pub is_webdav : MountKind → Bool
is_webdav MountKind.webdav = true
is_webdav _ = false

abbrev pub is_r2 : MountKind → Bool
is_r2 MountKind.r2 = true
is_r2 _ = false

-- The checks at the top of CreateMount: those of the keys, of the bucket, and all of them.
abbrev check_credentials : MountConfig → Outcome (Unit {0})
check_credentials config =
    if is_blank config.access_key_id
    then err (message "config.access_key_id is required" "")
    else if is_blank config.secret_access_key
    then err (message "config.secret_access_key is required" "")
    else ok tt

abbrev check_bucket : MountKind → MountConfig → Outcome (Unit {0})
check_bucket kind config =
    if is_blank config.bucket
    then err (message "config.bucket is required" "")
    else if is_webdav kind && is_blank config.endpoint
    then err (message "config.endpoint is required for webdav mounts" "")
    else if is_r2 kind && is_blank config.endpoint
    then err (message "config.endpoint is required for r2 mounts" "")
    else check_credentials config

unfoldable pub check_mount_request : CreateMountRequest → Outcome (Unit {0})
check_mount_request req =
    if is_blank req.mount_id
    then err (message "mount_id is required" "")
    else if is_unset req.kind
    then err (message "kind is required" "")
    else if not (is_valid_mount_kind req.kind)
    then err (message "unsupported mount kind" "")
    else if is_blank req.target_path
    then err (message "target_path is required" "")
    else if not (is_rooted (trim_space req.target_path))
    then err (message "target_path must be absolute" "")
    else check_bucket req.kind req.config

-- The record after the attempt to mount.
abbrev pub settled : MountRecord → Attempt (Unit {0}) → MountRecord
settled m (value _) = record m { status = MountStatus.mounted; status_message = "" }
settled m (failed e) = record m { status = MountStatus.failed; status_message = error_text e }

-- Mounts in the guest and records how that ended.
unfoldable pub settle : MountRecord → Host MountRecord
unfolding ◌>>=◌ pure try
settle m = do
  mounted ← try (run (mount_guest m.target_path))
  on_store (update_mount (settled m mounted))
  pure (settled m mounted)

unfoldable pub refuse_existing : MountId → Attempt MountRecord → Host (Unit {0})
unfolding pure raise
refuse_existing id (value _) = raise (message "mount already exists" id)
refuse_existing id (failed e) = if is_not_found e then pure tt else raise e

-- The record of a mount that is to be mounted.
abbrev pub pending_mount : MachineId → CreateMountRequest → Time → MountRecord
pending_mount machine_id req created_at = record {
  id = req.mount_id;
  machine_id = machine_id;
  kind = req.kind;
  target_path = trim_space req.target_path;
  read_only = req.read_only;
  config = req.config;
  status = MountStatus.pending;
  status_message = "";
  created_at = created_at;
}

-- CreateMount.
unfoldable pub create_mount : MachineId → CreateMountRequest → Host MountRecord
unfolding ◌>>=◌ try lift with_machine_lock refuse_if refuse_existing
create_mount machine_id req = do
  lift (check_mount_request req)
  with_machine_lock machine_id (do
    r ← on_store (get_machine machine_id)
    refuse_if (not (is_running r.phase)) (message "machine is not running" machine_id)
    refuse_if (is_blank r.runtime_host) (message "machine runtime host is unavailable" machine_id)
    existing ← try (on_store (get_mount req.mount_id))
    refuse_existing req.mount_id existing
    created_at ← now
    let mount : MountRecord = pending_mount machine_id req created_at
    on_store (Mounts.create_mount mount)
    settle mount)

unfoldable pub unmounted : String → Host (Unit {0})
unfolding ◌>>=◌ when
unmounted path = do
  active ← call (verify_mount path) (λ env n. env.answer n)
  when active (run (unmount_guest path))

unfoldable pub delete_found : MachineId → MountId → Attempt MountRecord → Host (Unit {0})
unfolding ◌>>=◌ pure raise refuse_if when unmounted
delete_found machine_id id (failed e) = if is_not_found e then pure tt else raise e
delete_found machine_id id (value m) = do
  refuse_if (not (m.machine_id =? machine_id)) (message "mount does not belong to machine" id)
  r ← on_store (get_machine machine_id)
  when (is_running r.phase && not (is_blank r.runtime_host)) (unmounted m.target_path)
  on_store (Mounts.delete_mount id)

-- DeleteMount.
unfoldable pub delete_mount : MachineId → MountId → Host (Unit {0})
unfolding ◌>>=◌ try with_machine_lock delete_found
delete_mount machine_id id =
    with_machine_lock machine_id
      (do found ← try (on_store (get_mount id)); delete_found machine_id id found)

abbrev is_active : Attempt Bool → Bool
is_active (value active) = active
is_active (failed _) = false

-- A mount that is recorded as mounted is tested, and mounted again where it is not active.
unfoldable pub remounted : MountRecord → Attempt Bool → Host (Unit {0})
unfolding ◌>>=◌ pure
remounted m active =
    let pending = record m { status = MountStatus.pending; status_message = "" } in
    if is_active active
    then pure tt
    else (do on_store (update_mount pending); settle pending; pure tt)

-- The body of the loop of ensureMountsForMachine, by the status of the mount.
unfoldable pub ensure_from : MountStatus → MountRecord → Host (Unit {0})
unfolding ◌>>=◌ pure try
ensure_from MountStatus.failed m = pure tt
ensure_from MountStatus.mounted m = do
  active ← try (call (verify_mount m.target_path) (λ env n. env.answer n))
  remounted m active
ensure_from MountStatus.pending m = do settle m; pure tt
ensure_from MountStatus.mounting m = do settle m; pure tt

abbrev pub ensure_mount : MountRecord → Host (Unit {0})
ensure_mount m = ensure_from m.status m

-- ensureMountsForMachine.
unfoldable pub ensure_mounts_for_machine : MachineRecord → Host (Unit {0})
unfolding ◌>>=◌ pure for_each
ensure_mounts_for_machine r =
    if not (is_running r.phase) || is_blank r.runtime_host
    then pure tt
    else (do mounts ← on_store (list_mounts r.id); for_each mounts ensure_mount)
