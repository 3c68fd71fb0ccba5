-- ===== src/Daemon/Snapshots/Order.antt =====
-- internal/daemon/snapshot.go: the disks of the user among the artifacts of a snapshot, in their order.
use computer_host.Base.{
  ltb_ℤ, eqb_ℤ, String, Bool, true, false, ◌&&◌, Option, none, some, List, ℤ, ◌=?◌, string_key,
  atoi, ext, stem, strip_prefix, select, sort_by, if◌then◌else◌,
}
use computer_host.Daemon.Snapshots.Take.{text_before}
use computer_host.Daemon.Snapshots.Restored.{RestoredArtifact, restored_name}

abbrev is_given : Option String → Bool
is_given none = false
is_given (some s) = true

-- strings.HasPrefix(name, "user-") && filepath.Ext(name) == ".img"
abbrev pub is_user_disk : String → Bool
is_user_disk name = is_given (strip_prefix "user-" name) && ext name =? ".img"

abbrev number_of : Option String → Option ℤ
number_of none = none
number_of (some rest) = atoi (stem rest)

-- restoredUserDiskIndex.
unfoldable pub restored_user_disk_index : String → Option ℤ
restored_user_disk_index name =
    if ext name =? ".img" then number_of (strip_prefix "user-" name) else none

-- The comparison of sort.Slice: numbered disks by their numbers, before the others, else by names.
abbrev pub index_before : Option ℤ → Option ℤ → Bool → Bool
index_before (some i) (some j) names = if eqb_ℤ i j then names else ltb_ℤ i j
index_before (some i) none names = true
index_before none (some j) names = false
index_before none none names = names

unfoldable pub disk_before : RestoredArtifact → RestoredArtifact → Bool
unfolding restored_user_disk_index
disk_before a b =
    index_before (restored_user_disk_index (restored_name a))
      (restored_user_disk_index (restored_name b)) (text_before (restored_name a) (restored_name b))

-- orderedRestoredUserDiskArtifacts.
unfoldable pub ordered_restored_user_disk_artifacts : List RestoredArtifact → List RestoredArtifact
unfolding sort_by disk_before
ordered_restored_user_disk_artifacts artifacts =
    sort_by disk_before (select (λ a. is_user_disk (restored_name a)) artifacts)
