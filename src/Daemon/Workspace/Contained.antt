-- ===== src/Daemon/Workspace/Contained.antt =====
-- What resolveWorkspacePath accepts is in the workspace.
use computer_host.Base.{
  String, Bool, true, false, not, ◌&&◌, ◌||◌, ◌≡◌, refl, ap, subst, [], ◌∷◌, Outcome, ok, err, halt,
  trim_space, ◌=?◌, string_key, =?→≡, is_rooted, clean, join, strip_prefix, if◌then◌else◌,
  Bool-cases, inl, inr, ◌⊎◌, BelowRoot, clean-BelowRoot, join-BelowRoot, message, arith,
}
use computer_host.Daemon.Workspace
use computer_host.Daemon.Workspace.{
  WorkspacePath, workspace_root_path, has_prefix, guest_of, within_root, resolve_workspace_path,
}

-- The root itself or a path below it, none of whose elements is a step up.
abbrev pub IsInWorkspace : String → Type 0
IsInWorkspace guest =
    ((guest ≡ workspace_root_path) ⊎ (has_prefix "/home/node/workspace/" guest ≡ true))
    × BelowRoot guest

prefix_rooted : (p s : String) → has_prefix (String.◌∷◌ "/" p) s ≡ true → is_rooted s ≡ true
unfolding strip_prefix is_rooted
prefix_rooted p String.[] h = cc
prefix_rooted p (String.◌∷◌ d s) h = ground arith

root_below : BelowRoot workspace_root_path
unfolding is_rooted clean
root_below = clean-BelowRoot workspace_root_path refl

module _ (value g : String) where
  relative_below :
      (if clean value =? ".." || has_prefix "../" (clean value)
          then err (message "path escapes the workspace root" value)
          else if clean value =? "."
          then ok workspace_root_path
          else ok (join (workspace_root_path ∷ clean value ∷ [])))
        ≡ ok g
      → BelowRoot g
  unfolding is_rooted
  relative_below e = elim (Bool-cases (clean value =? ".." || has_prefix "../" (clean value))) [
    | inl a ↦ ground arith
    | inr a ↦ elim (Bool-cases (clean value =? ".")) [
      | inl b ↦ let k : workspace_root_path ≡ g = ground arith in subst BelowRoot k root_below
      | inr b ↦
          let k : join (workspace_root_path ∷ clean value ∷ []) ≡ g = ground arith in
          subst BelowRoot k (join-BelowRoot workspace_root_path (clean value) refl)
    ]
  ]

  guest_of-BelowRoot : guest_of value ≡ ok g → BelowRoot g
  unfolding guest_of
  guest_of-BelowRoot e = elim (Bool-cases (value =? ".")) [
    | inl a ↦ let k : workspace_root_path ≡ g = ground arith in subst BelowRoot k root_below
    | inr a ↦ elim (Bool-cases (has_prefix workspace_root_path value)) [
      | inl b ↦
          let k : clean value ≡ g = ground arith in
          subst BelowRoot k (clean-BelowRoot value (prefix_rooted _ value b))
      | inr b ↦ elim (Bool-cases (is_rooted value)) [
        | inl c ↦ ground arith
        | inr c ↦ relative_below (ground arith)
      ]
    ]
  ]

guest_in : Outcome WorkspacePath → String
guest_in (ok p) = p.guest
guest_in (err e) = ""
guest_in (halt h) = ""

in_root :
    (g : String)
    → (not (g =? workspace_root_path) && not (has_prefix "/home/node/workspace/" g)) ≡ false
    → (g ≡ workspace_root_path) ⊎ (has_prefix "/home/node/workspace/" g ≡ true)
in_root g a = elim (Bool-cases (g =? workspace_root_path)) [
  | inl k ↦ inl (=?→≡ g workspace_root_path k)
  | inr k ↦ inr (ground arith)
]

within_root-IsInWorkspace :
    (r : Outcome String) (p : WorkspacePath)
    → ((g : String) → r ≡ ok g → BelowRoot g)
    → within_root r ≡ ok p
    → IsInWorkspace p.guest
unfolding within_root guest_in
within_root-IsInWorkspace (ok g) p k e =
    let outside : Bool =
      not (g =? workspace_root_path) && not (has_prefix "/home/node/workspace/" g) in
    elim (Bool-cases outside) [
      | inl a ↦ ground arith
      | inr a ↦
          let q : g ≡ p.guest = rw⁻¹ (ap guest_in e) (rw a refl) in
          subst IsInWorkspace q (in_root g a, k g refl)
    ]
within_root-IsInWorkspace (err x) p k e = cc
within_root-IsInWorkspace (halt x) p k e = cc

-- Whatever text a request gives as a path: if resolveWorkspacePath accepts it, the path in the guest is
-- /home/node/workspace itself, or begins with /home/node/workspace/, and it is a slash and names with
-- slashes between them, none of which is empty, ".", ".." or has a slash in it.
pub resolve_workspace_path-IsInWorkspace :
    (raw : String) (p : WorkspacePath) → resolve_workspace_path raw ≡ ok p → IsInWorkspace p.guest
unfolding resolve_workspace_path
resolve_workspace_path-IsInWorkspace raw p e =
    within_root-IsInWorkspace (guest_of (Workspace.or_here (trim_space raw))) p
      (guest_of-BelowRoot (Workspace.or_here (trim_space raw))) (ground arith)
