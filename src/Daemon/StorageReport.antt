-- ===== src/Daemon/StorageReport.antt =====
-- internal/daemon/storage_report.go: the report on the storage that the daemon uses. What os.Stat and
-- filepath.WalkDir answer is a parameter. A size is the number of a file's bytes; a sum of sizes, an
-- int64, is given by its bits.
pub mod Sums
pub mod Totals
use computer_host.Base.{
  ℕ, ◌+◌, ◌%◌, ◌^◌, Bool, true, false, String, Option, none, some, List, [], ◌∷◌, length, Error,
  message, Outcome, ok, err, halt, ◌=?◌, string_key, dir, if◌then◌else◌,
}
use computer_host.Model.{
  MachineId, SnapshotId, VolumeKind, system, user, VolumeRecord, SnapshotRecord, Time,
}
use computer_host.Host.Exec.{◌>>=◌, gets, lift}
use computer_host.Host.World.{Config}
use computer_host.Host.Calls.{Host, on_store}
use computer_host.Store.Volumes.{list_volumes}
use computer_host.Store.Snapshots.{list_snapshots}
use computer_host.Store.Ports.{list_published_ports}

-- What os.Stat of a path gives.
pub data Stat : Type 0 where
  missing : Stat
  sized : ℕ → Stat
  unknown : Error → Stat

-- What filepath.WalkDir hands to its function for one entry.
pub data Entry : Type 0 where
  directory : Entry
  file : ℕ → Entry
  unreadable : Error → Entry

pub record FileSystem : Type 0 where
  pub stat : String → Stat
  pub walk : String → List Entry

-- The sum of two numbers of int64.
abbrev pub add_int64 : ℕ → ℕ → ℕ
add_int64 a b = (a + b) % 2 ^ 64

abbrev pub with_ok : {A B : Type 0} → Outcome A → (A → Outcome B) → Outcome B
with_ok (ok a) f = f a
with_ok (err e) f = err e
with_ok (halt h) f = halt h

abbrev sized_as : String → Stat → Outcome ℕ
sized_as path missing = ok 0
sized_as path (sized n) = ok n
sized_as path (unknown e) = err (message "stat" path)

-- fileSize.
unfoldable pub bytes_of_file : FileSystem → String → Outcome ℕ
bytes_of_file fs path = if path =? "" then ok 0 else sized_as path (fs.stat path)

-- The walk of directorySize.
unfoldable pub walked : String → List Entry → ℕ → Outcome ℕ
walked root [] total = ok total
walked root (directory ∷ entries) total = walked root entries total
walked root (file n ∷ entries) total = walked root entries (add_int64 total n)
walked root (unreadable e ∷ entries) total = err (message "walk" root)

abbrev found_size : String → Stat → Outcome ℕ → Outcome ℕ
found_size root missing rest = ok 0
found_size root (sized n) rest = rest
found_size root (unknown e) rest = err (message "stat" root)

unfoldable pub directory_size : FileSystem → String → Outcome ℕ
unfolding walked
directory_size fs root =
    if root =? "" then ok 0 else found_size root (fs.stat root) (walked root (fs.walk root) 0)

pub data StoragePool : Type 0 where
  artifacts machine_disks published_ports snapshots state : StoragePool

pub record StoragePoolUsage : Type 0 where
  pub pool : StoragePool
  pub bytes : ℕ

pub record MachineStorageUsage : Type 0 where
  pub machine_id : MachineId
  pub system_bytes : ℕ
  pub user_bytes : ℕ
  pub runtime_bytes : ℕ

pub record SnapshotStorageUsage : Type 0 where
  pub snapshot_id : SnapshotId
  pub bytes : ℕ

pub record StorageReport : Type 0 where
  pub generated_at : Time
  pub total_bytes : ℕ
  pub pools : List StoragePoolUsage
  pub machines : List MachineStorageUsage
  pub snapshots : List SnapshotStorageUsage
  pub published_ports : ℕ

abbrev pub pool_paths : Config → List (StoragePool × String)
pool_paths c =
    (artifacts, c.artifacts_dir)
    ∷ (machine_disks, c.machine_disks_dir)
    ∷ (published_ports, "")
    ∷ (snapshots, c.snapshots_dir)
    ∷ (state, dir c.state_path)
    ∷ []

-- The loop over the pools, with the total so far.
unfoldable pub add_pools :
    FileSystem → List (StoragePool × String) → ℕ → Outcome (List StoragePoolUsage × ℕ)
unfolding directory_size
add_pools fs [] total = ok ([], total)
add_pools fs ((pool, path) ∷ pools) total = with_ok (directory_size fs path) (λ bytes.
    with_ok (add_pools fs pools (add_int64 total bytes))
      (λ rest. ok (record { pool = pool; bytes = bytes } ∷ rest.0, rest.1)))

abbrev pub credited : VolumeKind → ℕ → MachineStorageUsage → MachineStorageUsage
credited system n u = record u { system_bytes = add_int64 u.system_bytes n }
credited user n u = record u { user_bytes = add_int64 u.user_bytes n }

abbrev pub no_usage : MachineId → MachineStorageUsage
no_usage id = record { machine_id = id; system_bytes = 0; user_bytes = 0; runtime_bytes = 0 }

-- The map machineUsageByID, as its entries, with the usage of one machine changed.
unfoldable pub credit :
    MachineId → VolumeKind → ℕ → List MachineStorageUsage → List MachineStorageUsage
credit id kind n [] = credited kind n (no_usage id) ∷ []
credit id kind n (u ∷ us) =
    let rest = credit id kind n us in
    if u.machine_id =? id then credited kind n u ∷ us else u ∷ rest

-- A volume that is not attached is passed over.
abbrev pub for_owner :
    Option MachineId
    → Outcome (List MachineStorageUsage)
    → (MachineId → Outcome (List MachineStorageUsage))
    → Outcome (List MachineStorageUsage)
for_owner none others owned = others
for_owner (some id) others owned = owned id

-- The loop over the volumes.
unfoldable pub add_volumes :
    FileSystem → List VolumeRecord → List MachineStorageUsage → Outcome (List MachineStorageUsage)
unfolding bytes_of_file credit
add_volumes fs [] us = ok us
add_volumes fs (v ∷ volumes) us =
    for_owner v.attached_machine_id (add_volumes fs volumes us) (λ id.
      with_ok (bytes_of_file fs v.path) (λ n. add_volumes fs volumes (credit id v.kind n us)))

-- The sum of the sizes of files, from a sum so far.
unfoldable pub add_files : FileSystem → List String → ℕ → Outcome ℕ
unfolding bytes_of_file
add_files fs [] total = ok total
add_files fs (path ∷ paths) total =
    with_ok (bytes_of_file fs path) (λ n. add_files fs paths (add_int64 total n))

-- The usage of one snapshot.
unfoldable pub snapshot_bytes : FileSystem → SnapshotRecord → Outcome ℕ
unfolding bytes_of_file add_files
snapshot_bytes fs s = with_ok (bytes_of_file fs s.mem_file_path) (λ bytes.
    with_ok (bytes_of_file fs s.state_file_path)
      (λ state_bytes. add_files fs s.disk_paths (add_int64 bytes state_bytes)))

unfoldable pub add_snapshots :
    FileSystem → List SnapshotRecord → Outcome (List SnapshotStorageUsage)
unfolding snapshot_bytes
add_snapshots fs [] = ok []
add_snapshots fs (s ∷ ss) = with_ok (snapshot_bytes fs s) (λ bytes.
    with_ok (add_snapshots fs ss)
      (λ rest. ok (record { snapshot_id = s.id; bytes = bytes } ∷ rest)))

-- GetStorageReport, once the store has been read.
unfoldable pub storage_report :
    FileSystem → Config → List VolumeRecord → List SnapshotRecord → ℕ → Time → Outcome StorageReport
unfolding add_pools add_volumes add_snapshots
storage_report fs c volumes snaps ports now = with_ok (add_pools fs (pool_paths c) 0) (λ pools.
    with_ok (add_volumes fs volumes []) (λ machines. with_ok (add_snapshots fs snaps) (λ usages.
      ok (record {
        generated_at = now;
        total_bytes = pools.1;
        pools = pools.0;
        machines = machines;
        snapshots = usages;
        published_ports = ports;
      }))))

unfoldable pub get_storage_report : FileSystem → Time → Host StorageReport
unfolding ◌>>=◌ gets lift on_store list_volumes list_snapshots list_published_ports storage_report
get_storage_report fs now = do
  volumes ← on_store list_volumes
  snaps ← on_store list_snapshots
  ports ← on_store (list_published_ports "")
  c ← gets (λ w. w.config)
  lift (storage_report fs c volumes snaps (length ports) now)
