-- ===== src/Daemon/StorageReport/Totals.antt =====
-- What the report says of pools and snapshots, and what it says as a whole.
use computer_host.Base.{ℕ, String, List, [], ◌∷◌, Outcome, ok, ◌≡◌, refl, sym, ap, subst, arith}
use computer_host.Model.{MachineId, VolumeRecord, SnapshotRecord, Time}
use computer_host.Host.World.{Config}
use computer_host.Daemon.StorageReport.{
  FileSystem, StoragePoolUsage, SnapshotStorageUsage, StorageReport, StoragePool, add_int64,
  bytes_of_file, directory_size, add_volumes, add_pools, add_files, snapshot_bytes, add_snapshots,
  pool_paths, storage_report,
}
use computer_host.Daemon.StorageReport.Sums.{
  usage_of, sum_from, size_at, or_zero, got, with_ok_parts, usage_as, add_volumes-IsSummed,
}

-- The pools of a report, in their order, have the sizes of their directories.
abbrev pub IsMeasured : FileSystem → List (StoragePool × String) → List StoragePoolUsage → Type 0
IsMeasured fs [] [] = Unit
IsMeasured fs [] (u ∷ us) = ⊥
IsMeasured fs (p ∷ ps) [] = ⊥
IsMeasured fs (p ∷ ps) (u ∷ us) =
    (u.pool ≡ p.0) × (directory_size fs p.1 ≡ ok u.bytes) × IsMeasured fs ps us

abbrev pub pool_sizes : List StoragePoolUsage → List ℕ
pool_sizes [] = []
pool_sizes (u ∷ us) = u.bytes ∷ pool_sizes us

IsMeasured-more :
    (fs : FileSystem) (p : StoragePool × String) (ps : List (StoragePool × String))
    (start total : ℕ) (us : List StoragePoolUsage) (bytes : ℕ) (rest : List StoragePoolUsage × ℕ)
    → directory_size fs p.1 ≡ ok bytes
    → IsMeasured fs ps rest.0 × (rest.1 ≡ sum_from (add_int64 start bytes) (pool_sizes rest.0))
    → ◌≡◌ {A = Outcome (List StoragePoolUsage × ℕ)}
        (ok (record { pool = p.0; bytes = bytes } ∷ rest.0, rest.1))
        (ok (us, total))
    → IsMeasured fs (p ∷ ps) us × (total ≡ sum_from start (pool_sizes us))
IsMeasured-more fs p ps start total us bytes rest e (m, t) k =
    subst
      (λ (r : List StoragePoolUsage × ℕ).
        IsMeasured fs (p ∷ ps) r.0 × (r.1 ≡ sum_from start (pool_sizes r.0)))
      (ap (got ([], 0)) k) ((refl, e, m), t)

add_pools-IsMeasured :
    (fs : FileSystem) (ps : List (StoragePool × String)) (start total : ℕ)
    (us : List StoragePoolUsage)
    → add_pools fs ps start ≡ ok (us, total)
    → IsMeasured fs ps us × (total ≡ sum_from start (pool_sizes us))
unfolding add_pools
add_pools-IsMeasured fs [] start total [] h = (tt, ground arith)
add_pools-IsMeasured fs [] start total (u ∷ us) h = ground arith
add_pools-IsMeasured fs (p ∷ ps) start total us h =
    let (bytes, e, g) = with_ok_parts (directory_size fs p.1) _ (us, total) h in
    let (rest, f, k) = with_ok_parts (add_pools fs ps (add_int64 start bytes)) _ (us, total) g in
    IsMeasured-more fs p ps start total us bytes rest e
      (add_pools-IsMeasured fs ps (add_int64 start bytes) rest.1 rest.0 f) k

abbrev pub file_sizes : FileSystem → List String → List ℕ
file_sizes fs [] = []
file_sizes fs (path ∷ paths) = size_at fs path ∷ file_sizes fs paths

add_files_total :
    (fs : FileSystem) (paths : List String) (start total : ℕ)
    → add_files fs paths start ≡ ok total
    → total ≡ sum_from start (file_sizes fs paths)
unfolding add_files
add_files_total fs [] start total h = ap (got 0) (sym h)
add_files_total fs (path ∷ paths) start total h =
    let (n, e, g) = with_ok_parts (bytes_of_file fs path) _ total h in
    let size : size_at fs path ≡ n = ap or_zero e in
    rw size (add_files_total fs paths (add_int64 start n) total g)

-- The usage of a snapshot is the sum of the sizes of its files.
abbrev pub IsCounted : FileSystem → List SnapshotRecord → List SnapshotStorageUsage → Type 0
IsCounted fs [] [] = Unit
IsCounted fs [] (u ∷ us) = ⊥
IsCounted fs (s ∷ ss) [] = ⊥
IsCounted fs (s ∷ ss) (u ∷ us) =
    (u.snapshot_id ≡ s.id)
    × (u.bytes
        ≡ sum_from (size_at fs s.mem_file_path)
            (size_at fs s.state_file_path ∷ file_sizes fs s.disk_paths))
    × IsCounted fs ss us

snapshot_bytes_total :
    (fs : FileSystem) (s : SnapshotRecord) (total : ℕ)
    → snapshot_bytes fs s ≡ ok total
    → total
      ≡ sum_from
          (size_at fs s.mem_file_path)
          (size_at fs s.state_file_path ∷ file_sizes fs s.disk_paths)
unfolding snapshot_bytes
snapshot_bytes_total fs s total h =
    let (m, e, g) = with_ok_parts (bytes_of_file fs s.mem_file_path) _ total h in
    let (n, f, k) = with_ok_parts (bytes_of_file fs s.state_file_path) _ total g in
    let mem : size_at fs s.mem_file_path ≡ m = ap or_zero e in
    let state : size_at fs s.state_file_path ≡ n = ap or_zero f in
    rw mem (rw state (add_files_total fs s.disk_paths (add_int64 m n) total k))

IsCounted-more :
    (fs : FileSystem) (s : SnapshotRecord) (ss : List SnapshotRecord)
    (us : List SnapshotStorageUsage) (bytes : ℕ) (rest : List SnapshotStorageUsage)
    → bytes
      ≡ sum_from
          (size_at fs s.mem_file_path)
          (size_at fs s.state_file_path ∷ file_sizes fs s.disk_paths)
    → IsCounted fs ss rest
    → ok (record { snapshot_id = s.id; bytes = bytes } ∷ rest) ≡ ok us
    → IsCounted fs (s ∷ ss) us
IsCounted-more fs s ss us bytes rest e m k =
    subst (IsCounted fs (s ∷ ss)) (ap (got []) k) (refl, e, m)

add_snapshots-IsCounted :
    (fs : FileSystem) (ss : List SnapshotRecord) (us : List SnapshotStorageUsage)
    → add_snapshots fs ss ≡ ok us
    → IsCounted fs ss us
unfolding add_snapshots
add_snapshots-IsCounted fs [] [] h = tt
add_snapshots-IsCounted fs [] (u ∷ us) h = ground arith
add_snapshots-IsCounted fs (s ∷ ss) us h =
    let (bytes, e, g) = with_ok_parts (snapshot_bytes fs s) _ us h in
    let (rest, f, k) = with_ok_parts (add_snapshots fs ss) _ us g in
    IsCounted-more fs s ss us bytes rest (snapshot_bytes_total fs s bytes e)
      (add_snapshots-IsCounted fs ss rest f) k

-- Where GetStorageReport returns a report: each pool has the size of its directory, and the total is their
-- sum; a machine has an entry exactly where a volume is attached to it, with the sums of the sizes of its
-- system volumes and of its other ones; each snapshot has the sum of the sizes of its files. The sums wrap
-- around as those of int64.
pub storage_report-IsSummed :
    (fs : FileSystem) (c : Config) (volumes : List VolumeRecord) (snaps : List SnapshotRecord)
    (ports : ℕ) (now : Time) (report : StorageReport)
    → storage_report fs c volumes snaps ports now ≡ ok report
    → IsMeasured fs (pool_paths c) report.pools
      × (report.total_bytes ≡ sum_from 0 (pool_sizes report.pools))
      × ((id : MachineId) → usage_of id report.machines ≡ usage_as fs volumes id)
      × IsCounted fs snaps report.snapshots
unfolding storage_report
storage_report-IsSummed fs c volumes snaps ports now report h =
    let (pools, e, g) = with_ok_parts (add_pools fs (pool_paths c) 0) _ report h in
    let (machines, f, k) = with_ok_parts (add_volumes fs volumes []) _ report g in
    let (usages, d, m) = with_ok_parts (add_snapshots fs snaps) _ report k in
    let (measured, total) = add_pools-IsMeasured fs (pool_paths c) 0 pools.1 pools.0 e in
    let made : StorageReport = record {
      generated_at = now;
      total_bytes = pools.1;
      pools = pools.0;
      machines = machines;
      snapshots = usages;
      published_ports = ports;
    } in
    let same : made ≡ report = ap (got made) m in
    subst
      (λ (r : StorageReport).
        IsMeasured fs (pool_paths c) r.pools
        × (r.total_bytes ≡ sum_from 0 (pool_sizes r.pools))
        × ((id : MachineId) → usage_of id r.machines ≡ usage_as fs volumes id)
        × IsCounted fs snaps r.snapshots)
      same
      (
        measured,
        total,
        (λ id. add_volumes-IsSummed fs volumes machines id f),
        add_snapshots-IsCounted fs snaps usages d,
      )
