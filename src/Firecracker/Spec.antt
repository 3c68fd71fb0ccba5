-- ===== src/Firecracker/Spec.antt =====
-- internal/firecracker/spec.go: the description of a machine that is booted, and its checks.
pub mod Bootable
use computer_host.Base.{
  ℕ, String, Bool, true, false, not, List, [], ◌∷◌, Option, none, some, Error, message, Outcome, ok,
  err, ℤ, pos, ltb_ℤ, trim_space, is_blank, is_base_name, ◌=?◌, ◌==◌, string_key, if◌then◌else◌,
}
use computer_host.Model.{MachineId, GuestMetadata}

-- A text type of which the other texts are kept.
pub data DriveCacheType : Type 0 where
  unsafe writeback : DriveCacheType
  other_cache : String → DriveCacheType

pub data DriveIoEngine : Type 0 where
  sync_engine async_engine : DriveIoEngine
  other_engine : String → DriveIoEngine

pub data MmdsVersion : Type 0 where
  v1 v2 : MmdsVersion
  other_version : String → MmdsVersion

pub record DriveSpec : Type 0 where
  pub id : String
  pub path : String
  pub read_only : Bool
  pub cache_type : DriveCacheType
  pub io_engine : DriveIoEngine

pub record MmdsSpec : Type 0 where
  pub network_interfaces : List String
  pub version : MmdsVersion
  pub ipv4_address : String
  pub imds_compat : Bool
  pub content : GuestMetadata

pub record VsockSpec : Type 0 where
  pub id : String
  pub cid : ℕ
  pub path : String

pub record MachineSpec : Type 0 where
  pub id : MachineId
  pub vcpus : ℤ
  pub memory_mib : ℤ
  pub kernel_image_path : String
  pub rootfs_path : String
  pub root_drive : DriveSpec
  pub kernel_args : String
  pub drives : List DriveSpec
  pub mmds : Option MmdsSpec
  pub vsock : Option VsockSpec

-- The first error of two checks.
infixr 5 ◌and_then◌
abbrev pub ◌and_then◌ : Outcome (Unit {0}) → Outcome (Unit {0}) → Outcome (Unit {0})
ok u and_then rest = rest
err e and_then rest = err e
Outcome.halt h and_then rest = Outcome.halt h

-- if refused { return fmt.Errorf(text) }
abbrev pub refuse : Bool → String → Outcome (Unit {0})
refuse true text = err (message text "")
refuse false text = ok tt

-- fmt.Errorf("text: %w", err)
abbrev pub prefixed : String → Outcome (Unit {0}) → Outcome (Unit {0})
prefixed text (ok u) = ok u
prefixed text (err e) = err (message text "")
prefixed text (Outcome.halt h) = Outcome.halt h

abbrev pub is_known_cache : DriveCacheType → Bool
is_known_cache DriveCacheType.unsafe = true
is_known_cache DriveCacheType.writeback = true
is_known_cache (DriveCacheType.other_cache text) = text =? ""

abbrev pub is_known_engine : DriveIoEngine → Bool
is_known_engine DriveIoEngine.sync_engine = true
is_known_engine DriveIoEngine.async_engine = true
is_known_engine (DriveIoEngine.other_engine text) = text =? ""

abbrev pub is_known_version : MmdsVersion → Bool
is_known_version MmdsVersion.v1 = true
is_known_version MmdsVersion.v2 = true
is_known_version (MmdsVersion.other_version text) = text =? ""

-- DriveSpec.Validate.
unfoldable pub validate_drive : DriveSpec → Outcome (Unit {0})
validate_drive d =
    refuse (is_blank d.path) "drive path is required"
    and_then refuse (is_blank d.id) "drive id is required"
    and_then refuse (not (is_known_cache d.cache_type)) "unsupported drive cache type"
    and_then refuse (not (is_known_engine d.io_engine)) "unsupported drive io engine"

unfoldable pub validate_interfaces : List String → Outcome (Unit {0})
validate_interfaces [] = ok tt
validate_interfaces (name ∷ names) =
    refuse (is_blank name) "mmds network_interfaces is required" and_then validate_interfaces names

abbrev is_empty : {A : Type 0} → List A → Bool
is_empty [] = true
is_empty (x ∷ xs) = false

-- MMDSSpec.Validate.
unfoldable pub validate_mmds : MmdsSpec → Outcome (Unit {0})
unfolding validate_interfaces
validate_mmds m =
    refuse (is_empty m.network_interfaces) "mmds network interfaces are required"
    and_then refuse (not (is_known_version m.version)) "unsupported mmds version"
    and_then validate_interfaces m.network_interfaces

-- VsockSpec.Validate.
unfoldable pub validate_vsock : VsockSpec → Outcome (Unit {0})
validate_vsock v =
    refuse (is_blank v.id) "vsock id is required"
    and_then refuse (v.cid == 0) "vsock cid must be non zero"
    and_then refuse (is_blank v.path) "vsock path is required"

-- rootDrive: what the specification leaves out of its root drive.
abbrev pub root_drive : MachineSpec → DriveSpec
root_drive s = record s.root_drive {
  id = if is_blank s.root_drive.id then "root_drive" else s.root_drive.id;
  path = if is_blank s.root_drive.path then s.rootfs_path else s.root_drive.path;
}

unfoldable pub validate_drives : List DriveSpec → Outcome (Unit {0})
validate_drives [] = ok tt
validate_drives (d ∷ ds) = prefixed "drive" (validate_drive d) and_then validate_drives ds

abbrev pub if_given : {A : Type 0} → (A → Outcome (Unit {0})) → Option A → Outcome (Unit {0})
if_given check none = ok tt
if_given check (some a) = check a

-- MachineSpec.Validate.
unfoldable pub validate : MachineSpec → Outcome (Unit {0})
validate s =
    refuse (is_blank s.id) "machine id is required"
    and_then refuse (ltb_ℤ s.vcpus (pos 1)) "machine vcpus must be at least 1"
    and_then refuse (ltb_ℤ s.memory_mib (pos 1)) "machine memory must be at least 1 MiB"
    and_then refuse (is_blank s.kernel_image_path) "machine kernel image path is required"
    and_then refuse (not (is_base_name (trim_space s.id)))
        "machine id must not contain path separators"
    and_then prefixed "root drive" (validate_drive (root_drive s))
    and_then validate_drives s.drives
    and_then if_given (λ m. prefixed "mmds" (validate_mmds m)) s.mmds
    and_then if_given (λ v. prefixed "vsock" (validate_vsock v)) s.vsock
