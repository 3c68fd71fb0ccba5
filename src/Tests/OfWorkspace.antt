-- ===== src/Tests/OfWorkspace.antt =====
-- The theorems on the workspace, on a small file and on a path with a step up.
use computer_host.Base.{
  ℕ, ◌+◌, ◌-◌, ltb, refl, ◌≡◌, ok, List, [], ◌∷◌, some, pos, arith, if◌then◌else◌, trim_space,
  clean, join, is_rooted, strip_prefix,
}
use computer_host.Daemon.GuestConfigs.{has_char}
use computer_host.Daemon.Workspace.{
  WorkspacePath, resolve_workspace_path, guest_of, within_root, display_path_from_guest,
}
use computer_host.Daemon.Workspace.Contained.{IsInWorkspace, resolve_workspace_path-IsInWorkspace}
use computer_host.Daemon.Workspace.Ranges.{Ranged, take, drop, apply_read_range, apply_write_range}
use computer_host.Daemon.Workspace.Ranges.Laws.{
  byte_at, overflows, apply_read_range_lem, apply_write_range-Wrote,
  apply_read_range-apply_write_range,
}

abbrev notes : WorkspacePath
notes = record { guest = "/home/node/workspace/notes.txt"; display = "notes.txt" }

stepped_up : resolve_workspace_path " drafts/../notes.txt" ≡ ok notes
unfolding resolve_workspace_path trim_space clean join is_rooted strip_prefix has_char guest_of
    within_root display_path_from_guest
stepped_up = refl

resolve_workspace_path-IsInWorkspace_example : IsInWorkspace "/home/node/workspace/notes.txt"
resolve_workspace_path-IsInWorkspace_example =
    resolve_workspace_path-IsInWorkspace " drafts/../notes.txt" notes stepped_up

abbrev abc : List ℕ
abc = 97 ∷ 98 ∷ 99 ∷ []

-- The end of this range is beyond the largest int64.
apply_read_range_lem_example : apply_read_range abc (pos 1) (pos 9223372036854775807) ≡ (
    if overflows 3 1 9223372036854775807
    then Ranged.panics
    else Ranged.gives (take 9223372036854775807 (drop 1 abc)))
apply_read_range_lem_example = apply_read_range_lem abc 1 9223372036854775807 (omega arith)

apply_write_range-Wrote_example :
    (out : List ℕ) × (apply_write_range abc (pos 5) (120 ∷ []) ≡ Ranged.gives out)
    × ((i : ℕ)
        → byte_at i out ≡ (
            if ltb i 5
            then (if ltb i 3 then byte_at i abc else some 0)
            else if ltb i (5 + 1)
            then byte_at (i - 5) (120 ∷ [])
            else byte_at i abc))
apply_write_range-Wrote_example = apply_write_range-Wrote abc 5 (120 ∷ []) (omega arith)

five_zeroed :
    apply_write_range abc (pos 5) (120 ∷ []) ≡ Ranged.gives (97 ∷ 98 ∷ 99 ∷ 0 ∷ 0 ∷ 120 ∷ [])
unfolding apply_write_range
five_zeroed = refl

apply_read_range-apply_write_range_example :
    apply_read_range (97 ∷ 98 ∷ 99 ∷ 0 ∷ 0 ∷ 120 ∷ []) (pos 5) (pos 1) ≡ Ranged.gives (120 ∷ [])
apply_read_range-apply_write_range_example =
    apply_read_range-apply_write_range abc 5 (120 ∷ []) (97 ∷ 98 ∷ 99 ∷ 0 ∷ 0 ∷ 120 ∷ [])
      (omega arith) five_zeroed
