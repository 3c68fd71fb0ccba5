-- ===== src/Host/Settings/Described.antt =====
-- The settings that an environment describes, said apart from Load (internal/config/config.go), and
-- the parts of Load that read one setting.
use computer_host.Base.{
  String, Bool, true, false, ℤ, pos, ◌≤ℤ◌, List, [], ◌∷◌, Option, some, ok, ◌≡◌, ◌↔◌, ◌⊎◌, inl, inr,
  refl, sym, ap, arith, Bool-cases, Option-cases, trim_space, is_blank, clean, join, ◌∙◌, ◌=?◌,
  =?→≡, string_key, if◌then◌else◌,
}
use computer_host.Host.World.{Config, DiskCloneMode}
use computer_host.Firecracker.Spec.{DriveIoEngine}
use computer_host.Host.Settings
use computer_host.Host.Settings.{
  Environment, load_bool, duration_default, load_disk_clone_mode, load_drive_io_engine,
  is_known_mode, is_named_engine, validate_config, gathered, checked, with_interval, with_pci,
  default_interval, load,
}

pub record IsUsable (c : Config) : Type 0 where
  pub root : (c.root_dir =? "") ≡ false
  pub firecracker : (c.firecracker_binary_path =? "") ≡ false
  pub jailer : (c.jailer_binary_path =? "") ≡ false
  pub state : is_blank c.state_path ≡ false
  pub operations : is_blank c.operations_path ≡ false
  pub artifacts : is_blank c.artifacts_dir ≡ false
  pub disks : is_blank c.machine_disks_dir ≡ false
  pub snapshots : is_blank c.snapshots_dir ≡ false
  pub runtime : is_blank c.runtime_dir ≡ false
  pub mode : is_known_mode c.disk_clone_mode ≡ true
  pub engine : is_named_engine c.drive_io_engine ≡ true
  pub socket : is_blank c.socket_path ≡ false
  pub egress : is_blank c.egress_interface ≡ false
  pub interval : pos 1 ≤ℤ c.reconcile_interval

pub validate_config-IsUsable : (c : Config) → (validate_config c ≡ ok tt) ↔ IsUsable c
unfolding validate_config
validate_config-IsUsable c = ground arith

-- What Load takes from a text of the environment, where it is blank and where it is not.
abbrev pub Defaults : {A : Type 0} → String → A → (String → A → Type 0) → A → Type 0
Defaults text fallback P a =
    ((is_blank text ≡ true) × (a ≡ fallback)) ⊎ ((is_blank text ≡ false) × P (trim_space text) a)

abbrev pub IsMode : String → DiskCloneMode → Type 0
IsMode text mode =
    ((text ≡ "reflink") × (mode ≡ DiskCloneMode.reflink))
    ⊎ ((text ≡ "copy") × (mode ≡ DiskCloneMode.copy))

abbrev pub IsEngine : String → DriveIoEngine → Type 0
IsEngine text engine =
    ((text ≡ "Sync") × (engine ≡ DriveIoEngine.sync_engine))
    ⊎ ((text ≡ "Async") × (engine ≡ DriveIoEngine.async_engine))

-- The settings that an environment describes.
pub record IsDescribed (e : Environment) (c : Config) : Type 0 where
  pub root : c.root_dir ≡ clean (trim_space (e.getenv "FIRECRACKER_HOST_ROOT_DIR"))
  pub state : c.state_path ≡ join (c.root_dir ∷ "state" ∷ "state.json" ∷ [])
  pub operations : c.operations_path ≡ join (c.root_dir ∷ "state" ∷ "ops.json" ∷ [])
  pub artifacts : c.artifacts_dir ≡ join (c.root_dir ∷ "artifacts" ∷ [])
  pub disks : c.machine_disks_dir ≡ join (c.root_dir ∷ "machine-disks" ∷ [])
  pub snapshots : c.snapshots_dir ≡ join (c.root_dir ∷ "snapshots" ∷ [])
  pub runtime : c.runtime_dir ≡ join (c.root_dir ∷ "runtime" ∷ [])
  pub socket : c.socket_path ≡ join (c.root_dir ∷ "firecracker-host.sock" ∷ [])
  pub mode :
      Defaults
        (e.getenv "FIRECRACKER_HOST_DISK_CLONE_MODE")
        DiskCloneMode.reflink
        IsMode
        c.disk_clone_mode
  pub engine :
      Defaults
        (e.getenv "FIRECRACKER_HOST_DRIVE_IO_ENGINE")
        DriveIoEngine.sync_engine
        IsEngine
        c.drive_io_engine
  pub pci :
      Defaults
        (e.getenv "FIRECRACKER_HOST_ENABLE_PCI")
        false
        (λ text b. e.parsed_bool text ≡ some b)
        c.enable_pci
  pub interval :
      Defaults
        (e.getenv "FIRECRACKER_HOST_RECONCILE_INTERVAL")
        (pos 5000000000)
        (λ text n. e.parsed_duration text ≡ some n)
        c.reconcile_interval
  pub http : c.http_addr ≡ trim_space (e.getenv "FIRECRACKER_HOST_HTTP_ADDR")
  pub egress : c.egress_interface ≡ trim_space (e.getenv "FIRECRACKER_HOST_EGRESS_INTERFACE")
  pub firecracker : c.firecracker_binary_path ≡ trim_space (e.getenv "FIRECRACKER_BINARY_PATH")
  pub jailer : c.jailer_binary_path ≡ trim_space (e.getenv "JAILER_BINARY_PATH")
  pub ca : c.guest_login_ca_public_key ≡ trim_space (e.getenv "GUEST_LOGIN_CA_PUBLIC_KEY")

abbrev pub IsLoaded : Environment → Config → Type 0
IsLoaded e c = IsDescribed e c × IsUsable c

-- A value that is parsed where its text is not blank.
pub parsed_iff :
    {A : Type 0} (text name why : String) (fallback a : A) (parse : String → Option A)
    → ((if is_blank text
          then ok fallback
          else Settings.parsed_or name why (parse (trim_space text)))
        ≡ ok a)
      ↔ Defaults text fallback (λ t x. parse t ≡ some x) a
parsed_iff text name why fallback a parse = elim (Bool-cases (is_blank text)) [
  | inl k ↦ ground arith
  | inr k ↦ elim (Option-cases (parse (trim_space text))) [
    | inl n ↦ ground arith
    | inr (x, e) ↦ ground arith
  ]
]

IsMode-read :
    (text : String)
    → is_known_mode (load_disk_clone_mode text) ≡ true
    → Defaults text DiskCloneMode.reflink IsMode (load_disk_clone_mode text)
unfolding load_disk_clone_mode
IsMode-read text h = elim (Bool-cases (is_blank text)) [
  | inl k ↦ ground arith
  | inr k ↦ elim (Bool-cases (trim_space text =? "reflink")) [
    | inl a ↦ let p = =?→≡ (trim_space text) "reflink" a in ground arith
    | inr a ↦ elim (Bool-cases (trim_space text =? "copy")) [
      | inl b ↦ let p = =?→≡ (trim_space text) "copy" b in ground arith
      | inr b ↦ ground arith
    ]
  ]
]

IsEngine-read :
    (text : String)
    → is_named_engine (load_drive_io_engine text) ≡ true
    → Defaults text DriveIoEngine.sync_engine IsEngine (load_drive_io_engine text)
unfolding load_drive_io_engine
IsEngine-read text h = elim (Bool-cases (is_blank text)) [
  | inl k ↦ ground arith
  | inr k ↦ elim (Bool-cases (trim_space text =? "Sync")) [
    | inl a ↦ let p = =?→≡ (trim_space text) "Sync" a in ground arith
    | inr a ↦ elim (Bool-cases (trim_space text =? "Async")) [
      | inl b ↦ let p = =?→≡ (trim_space text) "Async" b in ground arith
      | inr b ↦ ground arith
    ]
  ]
]

mode_written :
    (text : String) (mode : DiskCloneMode)
    → Defaults text DiskCloneMode.reflink IsMode mode
    → load_disk_clone_mode text ≡ mode
unfolding load_disk_clone_mode
mode_written text mode (inl (k, e)) = rw k (sym e)
mode_written text mode (inr (k, inl (t, e))) = rw (k, t) (sym e)
mode_written text mode (inr (k, inr (t, e))) = rw (k, t) (sym e)

engine_written :
    (text : String) (engine : DriveIoEngine)
    → Defaults text DriveIoEngine.sync_engine IsEngine engine
    → load_drive_io_engine text ≡ engine
unfolding load_drive_io_engine
engine_written text engine (inl (k, e)) = rw k (sym e)
engine_written text engine (inr (k, inl (t, e))) = rw (k, t) (sym e)
engine_written text engine (inr (k, inr (t, e))) = rw (k, t) (sym e)

pub gathered-IsDescribed :
    (e : Environment) (pci : Bool) (n : ℤ)
    → Defaults (e.getenv "FIRECRACKER_HOST_ENABLE_PCI") false (λ t b. e.parsed_bool t ≡ some b) pci
    → Defaults
        (e.getenv "FIRECRACKER_HOST_RECONCILE_INTERVAL")
        (pos 5000000000)
        (λ t m. e.parsed_duration t ≡ some m)
        n
    → IsUsable (gathered e pci n)
    → IsDescribed e (gathered e pci n)
unfolding gathered
gathered-IsDescribed e pci n b d u = record {
  root = refl;
  state = refl;
  operations = refl;
  artifacts = refl;
  disks = refl;
  snapshots = refl;
  runtime = refl;
  socket = refl;
  mode = IsMode-read (e.getenv "FIRECRACKER_HOST_DISK_CLONE_MODE") u.mode;
  engine = IsEngine-read (e.getenv "FIRECRACKER_HOST_DRIVE_IO_ENGINE") u.engine;
  pci = b;
  interval = d;
  http = refl;
  egress = refl;
  firecracker = refl;
  jailer = refl;
  ca = refl;
}

pub described_gathered :
    (e : Environment) (c : Config)
    → IsDescribed e c
    → gathered e c.enable_pci c.reconcile_interval ≡ c
unfolding gathered
described_gathered e c d =
    let root = clean (trim_space (e.getenv "FIRECRACKER_HOST_ROOT_DIR")) in
    let mode = mode_written _ _ d.mode in
    let engine = engine_written _ _ d.engine in
    let below : (names : List String) → join (root ∷ names) ≡ join (c.root_dir ∷ names) =
      λ names. ap (λ r. join (r ∷ names)) (sym d.root) in
    λ i. record {
      root_dir = sym d.root i;
      state_path = (below ("state" ∷ "state.json" ∷ []) ∙ sym d.state) i;
      operations_path = (below ("state" ∷ "ops.json" ∷ []) ∙ sym d.operations) i;
      artifacts_dir = (below ("artifacts" ∷ []) ∙ sym d.artifacts) i;
      machine_disks_dir = (below ("machine-disks" ∷ []) ∙ sym d.disks) i;
      snapshots_dir = (below ("snapshots" ∷ []) ∙ sym d.snapshots) i;
      runtime_dir = (below ("runtime" ∷ []) ∙ sym d.runtime) i;
      disk_clone_mode = mode i;
      drive_io_engine = engine i;
      enable_pci = c.enable_pci;
      socket_path = (below ("firecracker-host.sock" ∷ []) ∙ sym d.socket) i;
      http_addr = sym d.http i;
      egress_interface = sym d.egress i;
      reconcile_interval = c.reconcile_interval;
      firecracker_binary_path = sym d.firecracker i;
      jailer_binary_path = sym d.jailer i;
      guest_login_ca_public_key = sym d.ca i;
    }
