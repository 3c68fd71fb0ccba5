-- ===== src/Firecracker/Spec/Bootable.antt =====
-- What a specification that passes MachineSpec.Validate has, said without the order of the checks.
use computer_host.Base.{
  ◌<◌, String, Bool, true, false, List, [], ◌∷◌, Option, none, some, Outcome, ok, err, ◌≡◌, ◌≢◌,
  ◌↔◌, refl, pos, ◌≤ℤ◌, trim_space, is_blank, is_base_name, All, arith,
}
use computer_host.Firecracker.Spec
use computer_host.Firecracker.Spec.{
  DriveSpec, MmdsSpec, VsockSpec, MachineSpec, ◌and_then◌, refuse, prefixed, is_known_cache,
  is_known_engine, is_known_version, validate_drive, validate_interfaces, validate_mmds,
  validate_vsock, root_drive, validate_drives, if_given, validate,
}

-- A text with something other than space.
abbrev pub HasText : String → Type 0
HasText s = is_blank s ≡ false

pub record IsUsableDrive (d : DriveSpec) : Type 0 where
  pub path : HasText d.path
  pub id : HasText d.id
  pub cache : is_known_cache d.cache_type ≡ true
  pub engine : is_known_engine d.io_engine ≡ true

pub record IsUsableMmds (m : MmdsSpec) : Type 0 where
  pub some_interface : m.network_interfaces ≢ []
  pub version : is_known_version m.version ≡ true
  pub interfaces : All HasText m.network_interfaces

pub record IsUsableVsock (v : VsockSpec) : Type 0 where
  pub id : HasText v.id
  pub cid : 0 < v.cid
  pub path : HasText v.path

abbrev IfGiven : {A : Type 0} → (A → Type 0) → Option A → Type 0
IfGiven P none = Unit
IfGiven P (some a) = P a

pub record IsBootable (s : MachineSpec) : Type 0 where
  pub id : HasText s.id
  pub vcpus : pos 1 ≤ℤ s.vcpus
  pub memory : pos 1 ≤ℤ s.memory_mib
  pub kernel : HasText s.kernel_image_path
  pub base_name : is_base_name (trim_space s.id) ≡ true
  pub root : IsUsableDrive (root_drive s)
  pub drives : All IsUsableDrive s.drives
  pub mmds : IfGiven IsUsableMmds s.mmds
  pub vsock : IfGiven IsUsableVsock s.vsock

-- A check passes exactly where `P` holds.
abbrev Decides : Outcome (Unit {0}) → Type 0 → Type 0
Decides r P = (r ≡ ok tt) ↔ P

and_then_passes : (a b : Outcome (Unit {0})) → Decides (a and_then b) ((a ≡ ok tt) × (b ≡ ok tt))
and_then_passes (ok u) b = (λ h. (refl, h), λ h. h.1)
and_then_passes (err e) b = (λ h. cc, λ h. cc)
and_then_passes (Outcome.halt x) b = (λ h. cc, λ h. cc)

prefixed_passes : (text : String) (r : Outcome (Unit {0})) → Decides (prefixed text r) (r ≡ ok tt)
prefixed_passes text (ok u) = (λ h. h, λ h. h)
prefixed_passes text (err e) = (λ h. cc, λ h. cc)
prefixed_passes text (Outcome.halt x) = (λ h. cc, λ h. cc)

refuse_passes : (b : Bool) (text : String) → Decides (refuse b text) (b ≡ false)
refuse_passes b text = ground arith

validate_drive-IsUsableDrive : (d : DriveSpec) → Decides (validate_drive d) (IsUsableDrive d)
unfolding validate_drive
validate_drive-IsUsableDrive d = ground arith

validate_interfaces-All :
    (names : List String) → Decides (validate_interfaces names) (All HasText names)
unfolding validate_interfaces
validate_interfaces-All [] = (λ h. tt, λ h. refl)
validate_interfaces-All (name ∷ names) = ground (arith, validate_interfaces-All names)

some_element : (names : List String) → (Spec.is_empty names ≡ false) ↔ (names ≢ [])
some_element [] = (λ h. cc, λ h. absurd (h refl))
some_element (name ∷ names) = (λ h e. cc, λ h. refl)

validate_mmds-IsUsableMmds : (m : MmdsSpec) → Decides (validate_mmds m) (IsUsableMmds m)
unfolding validate_mmds
validate_mmds-IsUsableMmds m =
    let (some_given, given_some) = some_element m.network_interfaces in
    ground (arith, validate_interfaces-All m.network_interfaces, some_given, given_some)

validate_vsock-IsUsableVsock : (v : VsockSpec) → Decides (validate_vsock v) (IsUsableVsock v)
unfolding validate_vsock
validate_vsock-IsUsableVsock v = ground arith

validate_drives-All : (ds : List DriveSpec) → Decides (validate_drives ds) (All IsUsableDrive ds)
unfolding validate_drives
validate_drives-All [] = (λ h. tt, λ h. refl)
validate_drives-All (d ∷ ds) =
    ground (arith, validate_drive-IsUsableDrive d, validate_drives-All ds)

mmds_given :
    (o : Option MmdsSpec)
    → Decides (if_given (λ m. prefixed "mmds" (validate_mmds m)) o) (IfGiven IsUsableMmds o)
mmds_given none = (λ h. tt, λ h. refl)
mmds_given (some m) = ground (arith, validate_mmds-IsUsableMmds m)

vsock_given :
    (o : Option VsockSpec)
    → Decides (if_given (λ v. prefixed "vsock" (validate_vsock v)) o) (IfGiven IsUsableVsock o)
vsock_given none = (λ h. tt, λ h. refl)
vsock_given (some v) = ground (arith, validate_vsock-IsUsableVsock v)

-- A specification passes MachineSpec.Validate exactly where it has an id that is a file name, a virtual
-- processor, memory, a kernel, a usable root drive (with the defaults that are filled in), usable further
-- drives, and usable metadata and socket settings where these are given.
pub validate-IsBootable : (s : MachineSpec) → (validate s ≡ ok tt) ↔ IsBootable s
unfolding validate
validate-IsBootable s = ground (
  arith,
  validate_drive-IsUsableDrive (root_drive s),
  validate_drives-All s.drives,
  mmds_given s.mmds,
  vsock_given s.vsock,
)
