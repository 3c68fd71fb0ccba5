-- ===== src/Model/Records.antt =====
-- internal/model/types.go: the records that the store keeps.
use computer_host.Base.{
  ℕ, String, Bool, Option, List, ℤ, Key, ◌=?◌, string_key, ◌&&◌, ◌≡◌, true, ◌↔◌, arith,
}
use computer_host.Model.Contract.{
  MachineId, VolumeId, SnapshotId, PublishedPortId, MountId, Time, MachinePhase, VolumeKind,
  MachinePort, PortProtocol, ArtifactRef, GuestConfig, MountKind, MountStatus, MountConfig,
  SnapshotArtifactKind,
}

pub data StoragePool : Type 0 where
  artifacts machine_disks published_ports snapshots state user_volumes : StoragePool

-- `none_given` is the empty text.
pub data VolumePurpose : Type 0 where
  workspace none_given : VolumePurpose

pub record ArtifactRecord : Type 0 where
  pub ref : ArtifactRef
  pub local_key : String
  pub local_dir : String
  pub kernel_image_path : String
  pub rootfs_path : String
  pub created_at : Time

pub record MachineRecord : Type 0 where
  pub id : MachineId
  pub artifact : ArtifactRef
  pub memory_mib : ℤ
  pub storage_bytes : ℤ
  pub guest_config : Option GuestConfig
  pub system_volume_id : VolumeId
  pub user_volume_ids : List VolumeId
  pub runtime_host : String
  pub tap_device : String
  pub ports : List MachinePort
  pub guest_ssh_public_key : String
  pub guest_ready_nonce : String
  pub phase : MachinePhase
  pub error : String
  pub pid : ℕ
  pub socket_path : String
  pub created_at : Time
  pub started_at : Option Time

pub record VolumeRecord : Type 0 where
  pub id : VolumeId
  pub kind : VolumeKind
  pub attached_machine_id : Option MachineId
  pub source_artifact : Option ArtifactRef
  pub pool : StoragePool
  pub path : String
  pub purpose : VolumePurpose
  pub delete_on_machine_delete : Bool
  pub created_at : Time

pub data MachineOperation : Type 0 where
  create start stop resize delete snapshot restore : MachineOperation

pub record SnapshotArtifactRecord : Type 0 where
  pub id : String
  pub kind : SnapshotArtifactKind
  pub name : String
  pub local_path : String
  pub size_bytes : ℤ
  pub sha256_hex : String

pub record SnapshotRecord : Type 0 where
  pub id : SnapshotId
  pub machine_id : MachineId
  pub artifact : ArtifactRef
  pub mem_file_path : String
  pub state_file_path : String
  pub disk_paths : List String
  pub artifacts : List SnapshotArtifactRecord
  pub source_runtime_host : String
  pub source_tap_device : String
  pub created_at : Time

pub record PublishedPortRecord : Type 0 where
  pub id : PublishedPortId
  pub machine_id : MachineId
  pub name : String
  pub port : ℕ
  pub host_port : ℕ
  pub protocol : PortProtocol
  pub created_at : Time

pub record MountRecord : Type 0 where
  pub id : MountId
  pub machine_id : MachineId
  pub kind : MountKind
  pub target_path : String
  pub read_only : Bool
  pub config : MountConfig
  pub status : MountStatus
  pub status_message : String
  pub created_at : Time

pub record OperationRecord : Type 0 where
  pub machine_id : MachineId
  pub type : MachineOperation
  pub started_at : Time
  pub snapshot_id : Option SnapshotId
  pub memory_mib : ℤ
  pub storage_bytes : ℤ

-- Go's `==` on two artifact references.
abbrev same_ref : ArtifactRef → ArtifactRef → Bool
same_ref a b = a.kernel_image_url =? b.kernel_image_url && a.rootfs_url =? b.rootfs_url

pub same_ref_iff : (a b : ArtifactRef) → (same_ref a b ≡ true) ↔ (a ≡ b)
same_ref_iff a b = ground (
  arith,
  string_key.same_iff a.kernel_image_url b.kernel_image_url,
  string_key.same_iff a.rootfs_url b.rootfs_url,
)

instance abbrev pub ref_key : Key ArtifactRef
ref_key = record { same = same_ref; same_iff = same_ref_iff }
