-- ===== src/Daemon/Workspace.antt =====
-- internal/daemon/filesystem_service.go: the paths of the workspace, ranges of bytes, and patches.
pub mod Contained
pub mod Ranges
use Prim.Native.String.{◌++◌}
use computer_host.Base.{
  ℕ, String, Bool, true, false, not, ◌&&◌, ◌||◌, ◌==◌, Option, none, some, List, [], ◌∷◌, message,
  Outcome, ok, err, halt, ℤ, pos, leb_ℤ, trim_space, ◌=?◌, string_key, is_rooted, clean, join,
  strip_prefix, if◌then◌else◌,
}
use computer_host.Daemon.GuestConfigs.{has_char}

abbrev pub workspace_root_path : String
workspace_root_path = "/home/node/workspace"

pub record WorkspacePath : Type 0 where
  pub guest : String
  pub display : String

abbrev is_given : Option String → Bool
is_given none = false
is_given (some s) = true

-- strings.HasPrefix(s, prefix).
abbrev pub has_prefix : String → String → Bool
has_prefix prefix s = is_given (strip_prefix prefix s)

-- The rest of a path below the root.
abbrev or_root : Option String → String
or_root none = "."
or_root (some rest) = if rest =? "" then "." else rest

-- displayPathFromGuest.
unfoldable pub display_path_from_guest : String → String
display_path_from_guest guest =
    if clean guest =? workspace_root_path
    then "."
    else or_root (strip_prefix "/home/node/workspace/" (clean guest))

-- The path in the guest of a path that was trimmed.
unfoldable pub guest_of : String → Outcome String
guest_of value =
    if value =? "."
    then ok workspace_root_path
    else if has_prefix workspace_root_path value
    then ok (clean value)
    else if is_rooted value
    then err (message "path must stay inside the workspace" value)
    else if clean value =? ".." || has_prefix "../" (clean value)
    then err (message "path escapes the workspace root" value)
    else if clean value =? "."
    then ok workspace_root_path
    else ok (join (workspace_root_path ∷ clean value ∷ []))

unfoldable pub within_root : Outcome String → Outcome WorkspacePath
unfolding display_path_from_guest
within_root (ok guest) =
    if not (guest =? workspace_root_path) && not (has_prefix "/home/node/workspace/" guest)
    then err (message "path must stay inside the workspace" guest)
    else ok (record { guest = guest; display = display_path_from_guest guest })
within_root (err e) = err e
within_root (halt h) = halt h

abbrev or_here : String → String
or_here value = if value =? "" then "." else value

abbrev is_nul : ℕ → Bool
is_nul c = c == 0

abbrev is_newline : ℕ → Bool
is_newline c = c == 10 || c == 13

-- resolveWorkspacePath.
unfoldable pub resolve_workspace_path : String → Outcome WorkspacePath
unfolding has_char guest_of within_root
resolve_workspace_path raw =
    let value = or_here (trim_space raw) in
    if has_char is_nul value
    then err (message "path must not contain NUL bytes" "")
    else if has_char is_newline value
    then err (message "path must not contain newline characters" "")
    else within_root (guest_of value)

-- workspacePathContains.
unfoldable pub workspace_path_contains : String → String → Bool
workspace_path_contains parent child = has_prefix (clean parent ++ "/") (clean child)

-- coalesceMode.
abbrev pub coalesce_mode : Option ℤ → ℤ → ℤ
coalesce_mode none fallback = fallback
coalesce_mode (some mode) fallback = if leb_ℤ mode (pos 0) then fallback else mode
