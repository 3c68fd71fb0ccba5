-- ===== src/Daemon/Snapshots/Restored.antt =====
-- internal/daemon/snapshot.go and snapshot_transfer.go: the artifacts that a machine is restored from,
-- on this host or downloaded.

use Prim.Native.Char.{code}
use computer_host.Base.{
  ℕ, ◌+◌, leb, String, Bool, true, false, not, ◌&&◌, Option, none, some, List, [], ◌∷◌, message, ℤ,
  is_not_found, is_blank, trim_space, ◌=?◌, ◌==◌, string_key, join, if◌then◌else◌,
}
use computer_host.Model.{
  MachineId, SnapshotId, SnapshotArtifactKind, SnapshotArtifactRecord, SnapshotRecord, ArtifactRef,
  GuestConfig,
}
use computer_host.Host.Exec.{
  Attempt, value, failed, ◌>>=◌, ◌>>◌, pure, raise, gets, try, ignore, refuse_if, on_error,
  wrapping,
}
use computer_host.Host.World.{stat_file, hash_file, mkdir}
use computer_host.Host.Calls.{Host, on_store, remove_tree, remove_one, download_to, call, run}
use computer_host.Store.Table.{upsert}
use computer_host.Store.Snapshots.{get_snapshot}

pub record SnapshotArtifact : Type 0 where
  pub id : String
  pub kind : SnapshotArtifactKind
  pub name : String
  pub size_bytes : ℤ
  pub sha256_hex : String
  pub object_key : String
  pub download_url : String

-- LocalSnapshotSpec has the identifier only; of DurableSnapshotSpec the restore reads these two.
pub record DurableSnapshotSpec : Type 0 where
  pub snapshot_id : SnapshotId
  pub artifacts : List SnapshotArtifact

pub record RestoreSnapshotRequest : Type 0 where
  pub machine_id : MachineId
  pub artifact : ArtifactRef
  pub memory_mib : ℤ
  pub storage_bytes : ℤ
  pub local_snapshot : Option SnapshotId
  pub snapshot : Option DurableSnapshotSpec
  pub guest_config : Option GuestConfig

-- restoredSnapshotArtifact. A map of these by their names is a list without two of one name.
pub record RestoredArtifact : Type 0 where
  pub artifact : SnapshotArtifact
  pub local_path : String

abbrev pub restored_name : RestoredArtifact → String
restored_name a = a.artifact.name

abbrev put : RestoredArtifact → List RestoredArtifact → List RestoredArtifact
put a others = upsert restored_name a others

abbrev restored_from : SnapshotArtifactRecord → RestoredArtifact
restored_from a = record {
  artifact = record {
    id = a.id;
    kind = a.kind;
    name = a.name;
    size_bytes = a.size_bytes;
    sha256_hex = a.sha256_hex;
    object_key = "";
    download_url = "";
  };
  local_path = a.local_path;
}

-- localSnapshotArtifacts; `restored` are the artifacts so far.
unfoldable pub local_snapshot_artifacts :
    List RestoredArtifact → List SnapshotArtifactRecord → Host (List RestoredArtifact)
unfolding ◌>>=◌ pure refuse_if wrapping upsert
local_snapshot_artifacts restored [] = pure restored
local_snapshot_artifacts restored (a ∷ others) =
    refuse_if (is_blank a.local_path) (message "snapshot artifact is missing a local path" a.id)
    >> (wrapping "snapshot artifact is unavailable"
          (call (stat_file a.local_path) (λ env n. env.size n))
        >>= λ size. local_snapshot_artifacts (put (restored_from a) restored) others)

-- The texts of hexadecimal digits that strings.EqualFold takes for one.
unfoldable pub equal_fold : String → String → Bool
equal_fold String.[] String.[] = true
equal_fold String.[] (String.◌∷◌ d t) = false
equal_fold (String.◌∷◌ c s) String.[] = false
equal_fold (String.◌∷◌ c s) (String.◌∷◌ d t) =
    let lower : ℕ → ℕ = λ x. if leb b'A' x && leb x b'Z' then x + 32 else x in
    lower (code c) == lower (code d) && equal_fold s t

unfoldable pub check_sum : String → String → Host (Unit {0})
unfolding ◌>>=◌ pure raise ignore
check_sum path expected = if expected =? "" then pure tt else (do
  actual ← call (hash_file path) (λ env n. env.text n)
  if equal_fold actual expected
      then pure tt
      else (do ignore (remove_one path); raise (message "restore artifact sha256 mismatch" path)))

-- One artifact of downloadDurableSnapshotArtifacts.
unfoldable pub download_artifact : String → SnapshotArtifact → Host (Unit {0})
unfolding ◌>>=◌ refuse_if check_sum
download_artifact path a = do
  refuse_if (is_blank a.download_url) (message "artifact is missing download url" a.id)
  download_to a.download_url path
  check_sum path (trim_space a.sha256_hex)

unfoldable pub download_all :
    String → List RestoredArtifact → List SnapshotArtifact → Host (List RestoredArtifact)
unfolding ◌>>=◌ pure download_artifact upsert
download_all root restored [] = pure restored
download_all root restored (a ∷ others) =
    let path = join (root ∷ a.name ∷ []) in
    download_artifact path a
    >> download_all root (put (record { artifact = a; local_path = path }) restored) others

abbrev is_empty : {A : Type 0} → List A → Bool
is_empty [] = true
is_empty (x ∷ xs) = false

-- downloadDurableSnapshotArtifacts.
unfoldable pub download_durable_snapshot_artifacts :
    String → List SnapshotArtifact → Host (List RestoredArtifact)
unfolding ◌>>=◌ refuse_if wrapping download_all
download_durable_snapshot_artifacts root artifacts = do
  refuse_if (is_empty artifacts) (message "restore snapshot is missing artifacts" "")
  wrapping "create restore staging dir" (run (mkdir root))
  download_all root [] artifacts

-- The directory into which the artifacts of a restore are downloaded.
abbrev pub staging_dir : String → SnapshotId → MachineId → String
staging_dir snapshots_dir id machine_id = join (snapshots_dir ∷ id ∷ "restores" ∷ machine_id ∷ [])

-- A local snapshot that is gone is an error of its own, other errors of the store are returned.
unfoldable pub found_locally : Attempt SnapshotRecord → Host (List RestoredArtifact)
unfolding raise wrapping local_snapshot_artifacts
found_locally (value s) =
    wrapping "local snapshot restore unavailable" (local_snapshot_artifacts [] s.artifacts)
found_locally (failed e) =
    if is_not_found e then raise (message "local snapshot restore unavailable" "") else raise e

unfoldable pub prepare_durable :
    SnapshotId → MachineId → Option DurableSnapshotSpec → Host (List RestoredArtifact)
unfolding ◌>>=◌ raise gets ignore on_error wrapping download_durable_snapshot_artifacts
prepare_durable id machine_id none = raise (message "durable snapshot spec is required" "")
prepare_durable id machine_id (some spec) = do
  config ← gets (λ w. w.config)
  on_error (ignore (remove_tree (staging_dir config.snapshots_dir id machine_id))) (
      wrapping "download durable snapshot artifacts" (
        download_durable_snapshot_artifacts (staging_dir config.snapshots_dir id machine_id)
          spec.artifacts))

-- Whether the identifier in the body of a request is another one than that of its path.
abbrev pub is_mismatch : SnapshotId → SnapshotId → Bool
is_mismatch id given = not (given =? "") && not (given =? id)

-- prepareRestoreArtifacts.
unfoldable pub prepare_restore_artifacts :
    SnapshotId → RestoreSnapshotRequest → Option SnapshotId → Host (List RestoredArtifact)
unfolding ◌>>=◌ try refuse_if found_locally prepare_durable
prepare_restore_artifacts id req none = prepare_durable id req.machine_id req.snapshot
prepare_restore_artifacts id req (some given) = do
  refuse_if (is_mismatch id given) (message "local snapshot id mismatch" id)
  found ← try (on_store (get_snapshot id))
  found_locally found

-- The cleanup that prepareRestoreArtifacts returns.
unfoldable pub clean_restore_artifacts :
    SnapshotId → RestoreSnapshotRequest → Option SnapshotId → Host (Unit {0})
unfolding ◌>>=◌ pure gets ignore
clean_restore_artifacts id req (some given) = pure tt
clean_restore_artifacts id req none = do
  config ← gets (λ w. w.config)
  ignore (remove_tree (staging_dir config.snapshots_dir id req.machine_id))
