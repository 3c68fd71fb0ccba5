-- ===== src/Model/Contract.antt =====
-- contract/: the identifiers and enumerations of the host's interface. A text type whose values come
-- from a request keeps the other texts by the constructor `other`.
use computer_host.Base.{ℕ, String, Bool, true, false, Option, List, string_key}

abbrev pub MachineId : Type 0
MachineId = String

abbrev pub VolumeId : Type 0
VolumeId = String

abbrev pub SnapshotId : Type 0
SnapshotId = String

abbrev pub PublishedPortId : Type 0
PublishedPortId = String

abbrev pub MountId : Type 0
MountId = String

-- A reading of the clock.
abbrev pub Time : Type 0
Time = ℕ

pub data MachinePhase : Type 0 where
  starting running stopped failed : MachinePhase

abbrev pub is_running : MachinePhase → Bool
is_running running = true
is_running _ = false

abbrev pub is_starting : MachinePhase → Bool
is_starting starting = true
is_starting _ = false

abbrev pub is_stopped : MachinePhase → Bool
is_stopped stopped = true
is_stopped _ = false

pub data VolumeKind : Type 0 where
  system user : VolumeKind

abbrev pub is_user : VolumeKind → Bool
is_user user = true
is_user system = false

pub data MachinePortName : Type 0 where
  ssh vnc exec : MachinePortName

abbrev pub same_port_name : MachinePortName → MachinePortName → Bool
same_port_name ssh ssh = true
same_port_name vnc vnc = true
same_port_name exec exec = true
same_port_name _ _ = false

-- `tcp` is the only protocol; a request may leave it out or name another.
pub data PortProtocol : Type 0 where
  tcp unset : PortProtocol
  other : String → PortProtocol

pub record MachinePort : Type 0 where
  pub name : MachinePortName
  pub port : ℕ
  pub host_port : ℕ
  pub protocol : PortProtocol

pub record ArtifactRef : Type 0 where
  pub kernel_image_url : String
  pub rootfs_url : String

pub record GuestLoginWebhook : Type 0 where
  pub url : String
  pub bearer_token : String

pub record GuestConfig : Type 0 where
  pub hostname : String
  pub authorized_keys : List String
  pub trusted_user_ca_keys : List String
  pub login_webhook : Option GuestLoginWebhook

pub data MountKind : Type 0 where
  r2 s3 gcs webdav unset : MountKind
  other : String → MountKind

pub data MountStatus : Type 0 where
  pending mounting mounted failed : MountStatus

pub record MountConfig : Type 0 where
  pub bucket : String
  pub endpoint : String
  pub region : String
  pub access_key_id : String
  pub secret_access_key : String
  pub vfs_cache_mode : String
  pub extra_flags : List String

pub data SnapshotArtifactKind : Type 0 where
  memory vmstate disk manifest : SnapshotArtifactKind
