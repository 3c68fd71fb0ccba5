-- ===== src/Daemon/Snapshots.antt =====
-- internal/daemon/snapshot.go and snapshot_transfer.go: the files of a snapshot, and how its local
-- records are looked up and deleted.
pub mod Take
pub mod Restored
pub mod Order
pub mod Restore
use Prim.Native.String.{◌++◌}
use computer_host.Base.{
  String, Bool, true, false, not, Option, none, some, List, [], ◌∷◌, message, ℤ, pos, is_not_found,
  is_blank, trim_space, ◌=?◌, string_key, dir, base, stem, if◌then◌else◌,
}
use computer_host.Model.{SnapshotId, SnapshotRecord, SnapshotArtifactRecord, SnapshotArtifactKind}
use computer_host.Host.Exec.{Attempt, value, failed, ◌>>=◌, ◌>>◌, pure, raise, gets, try, wrapping}
use computer_host.Host.World.{stat_file, hash_file, remove_all}
use computer_host.Host.Calls.{Host, on_store, remove_tree, call, run}
use computer_host.Store.Snapshots.{get_snapshot, delete_snapshot}

-- The directory of the first text that is not blank.
abbrev first_directory : List String → Option String
first_directory [] = none
first_directory (path ∷ paths) =
    let rest = first_directory paths in if is_blank path then rest else some (dir (trim_space path))

abbrev local_paths : List SnapshotArtifactRecord → List String
local_paths [] = []
local_paths (a ∷ others) = a.local_path ∷ local_paths others

abbrev or_else : Option String → Option String → Option String
or_else none b = b
or_else (some a) b = some a

-- snapshotDirectory.
unfoldable pub snapshot_directory : SnapshotRecord → Option String
snapshot_directory s = or_else (first_directory (local_paths s.artifacts)) (
    or_else (first_directory s.disk_paths)
      (first_directory (s.mem_file_path ∷ s.state_file_path ∷ [])))

unfoldable pub known_size : Bool → Attempt ℤ → Host ℤ
unfolding pure raise
known_size missing (value size) = pure size
known_size missing (failed e) = if missing then pure (pos 0) else raise (message "stat" "")

-- fileSize of storage_report.go.
unfoldable pub file_size : String → Host ℤ
unfolding ◌>>=◌ pure gets try known_size
file_size path = if path =? "" then pure (pos 0) else (do
  missing ← gets (λ w. w.env.answer w.clock)
  size ← try (call (stat_file path) (λ env n. env.size n))
  known_size missing size)

-- snapshotArtifactRecord of a disk.
unfoldable pub disk_artifact : String → Host SnapshotArtifactRecord
unfolding ◌>>=◌ pure file_size
disk_artifact path = do
  size ← file_size path
  sum ← call (hash_file path) (λ env n. env.text n)
  pure (record {
    id = "disk-" ++ stem (base path);
    kind = SnapshotArtifactKind.disk;
    name = base path;
    local_path = path;
    size_bytes = size;
    sha256_hex = sum;
  })

unfoldable pub removed_from : SnapshotId → Option String → Host (Unit {0})
unfolding ◌>>=◌ raise wrapping
removed_from id none = raise (message "snapshot has no local artifact directory" id)
removed_from id (some directory) = do
  wrapping "remove snapshot dir" (remove_tree directory)
  on_store (delete_snapshot id)

-- DeleteSnapshotByID.
unfoldable pub delete_snapshot_by_id : SnapshotId → Host (Unit {0})
unfolding ◌>>=◌ removed_from
delete_snapshot_by_id id = do s ← on_store (get_snapshot id); removed_from id (snapshot_directory s)

-- The name and the path of an artifact that is served.
pub record SnapshotArtifactContent : Type 0 where
  pub name : String
  pub path : String

unfoldable pub stat_present : SnapshotId → Bool → Attempt ℤ → Host (Unit {0})
unfolding pure raise
stat_present id missing (value size) = pure tt
stat_present id missing (failed e) =
    if missing
    then raise (message "snapshot artifact not found" id)
    else raise (message "stat snapshot artifact" id)

-- The first artifact with the id.
unfoldable pub content_of :
    SnapshotId → String → List SnapshotArtifactRecord → Host SnapshotArtifactContent
unfolding ◌>>=◌ pure raise gets try stat_present
content_of id artifact_id [] = raise (message "snapshot artifact not found" id)
content_of id artifact_id (a ∷ others) =
    let rest = content_of id artifact_id others in
    if not (a.id =? artifact_id)
    then rest
    else if is_blank a.local_path
    then raise (message "snapshot artifact not found" id)
    else (do
      missing ← gets (λ w. w.env.answer w.clock)
      found ← try (call (stat_file (trim_space a.local_path)) (λ env n. env.size n))
      stat_present id missing found
      pure (record { name = a.name; path = trim_space a.local_path }))

-- GetSnapshotArtifact.
unfoldable pub get_snapshot_artifact : SnapshotId → String → Host SnapshotArtifactContent
unfolding ◌>>=◌ raise content_of
get_snapshot_artifact id artifact_id = do
  s ← on_store (get_snapshot id)
  if is_blank artifact_id
      then raise (message "snapshot artifact id is required" "")
      else content_of id (trim_space artifact_id) s.artifacts
