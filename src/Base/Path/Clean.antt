-- ===== src/Base/Path/Clean.antt =====
-- What filepath.Clean gives for a rooted path: elements that stay below the root.
use Prim.Native.Char.{Char, code}
use Prim.Native.String.{String, ◌++◌}
use text.Mathlib.TextLemmas.{cons-append, nil-append}
use mathlib.Core.Path.{◌≡◌, refl}
use mathlib.Core.Logic.{inl, inr}
use mathlib.Core.Bool.{Bool, true, false, not, ◌&&◌, ◌||◌}
use mathlib.Core.List
use mathlib.Core.List.{List, [], ◌∷◌, reverse}
use native.Mathlib.Omega.{arith}
use computer_host.Base.Tests.{if◌then◌else◌, ◌==◌, ◌=?◌, string_key, Bool-cases}
use computer_host.Base.Lists.{All}
use computer_host.Base.Text.{cons_not_empty}
use computer_host.Base.Path.{
  split_from, is_rooted, clean_element, clean_elements, join_slash, or_dot, clean, has_no_slash,
  join, without_empty, clean_if_some,
}

-- A name of a file or a directory, not a step up or a step nowhere.
abbrev pub is_plain : String → Bool
unfolding has_no_slash
is_plain e = not (e =? "") && not (e =? ".") && not (e =? "..") && has_no_slash e

abbrev HasNoSlash : String → Type 0
HasNoSlash e = has_no_slash e ≡ true

abbrev pub IsPlain : String → Type 0
IsPlain e = is_plain e ≡ true

slash_free-append :
    (s : String) (c : Char)
    → has_no_slash s ≡ true
    → (code c == b'/') ≡ false
    → has_no_slash (s ++ String.◌∷◌ c String.[]) ≡ true
unfolding has_no_slash
slash_free-append String.[] c h k = rw (nil-append (String.◌∷◌ c String.[])) (ground arith)
slash_free-append (String.◌∷◌ d s) c h k =
    rw (cons-append d s (String.◌∷◌ c String.[])) (ground (arith, slash_free-append s c))

split_from-HasNoSlash : (word s : String) → HasNoSlash word → All HasNoSlash (split_from word s)
unfolding split_from has_no_slash
split_from-HasNoSlash word String.[] h = (h, tt)
split_from-HasNoSlash word (String.◌∷◌ c s) h = elim (Bool-cases (code c == b'/')) [
  | inl k ↦ rw k (h, split_from-HasNoSlash "" s refl)
  | inr k ↦
      rw k (split_from-HasNoSlash (word ++ String.◌∷◌ c String.[]) s (slash_free-append word c h k))
]

clean_element-IsPlain :
    (e : String) (out : List String)
    → HasNoSlash e
    → All IsPlain out
    → All IsPlain (clean_element true e out)
unfolding clean_element has_no_slash
clean_element-IsPlain e [] h k = elim (Bool-cases (e =? "" || e =? ".")) [
  | inl p ↦ rw p tt
  | inr p ↦ elim (Bool-cases (e =? "..")) [
    | inl q ↦ rw (p, q) tt
    | inr q ↦ rw (p, q) (ground arith, tt)
  ]
]
clean_element-IsPlain e (last ∷ out) h (k, ks) = elim (Bool-cases (e =? "" || e =? ".")) [
  | inl p ↦ rw p (k, ks)
  | inr p ↦ elim (Bool-cases (e =? "..")) [
    | inl q ↦ let l : (last =? "..") ≡ false = ground arith in rw (p, q, l) ks
    | inr q ↦ rw (p, q) (ground arith, (k, ks))
  ]
]

clean_elements-IsPlain :
    (es out : List String)
    → All HasNoSlash es
    → All IsPlain out
    → All IsPlain (clean_elements true es out)
unfolding clean_elements
clean_elements-IsPlain [] out h k = k
clean_elements-IsPlain (e ∷ es) out (h, hs) k =
    clean_elements-IsPlain es (clean_element true e out) hs (clean_element-IsPlain e out h k)

reverse-All :
    (P : String → Type 0) (xs ys : List String)
    → All P xs
    → All P ys
    → All P (List.reverse_aux xs ys)
reverse-All P [] ys h k = k
reverse-All P (x ∷ xs) ys (h, hs) k = reverse-All P xs (x ∷ ys) hs (h, k)

-- The elements of a path, each after a slash, and none of them a step up.
abbrev pub BelowRoot : String → Type 0
unfolding join_slash
BelowRoot p = (es : List String) × (p ≡ "/" ++ join_slash es) × All IsPlain es

-- filepath.Clean of a rooted path stays below the root.
pub clean-BelowRoot : (p : String) → is_rooted p ≡ true → BelowRoot (clean p)
unfolding clean or_dot has_no_slash
clean-BelowRoot p h =
    let es : List String = reverse (clean_elements true (split_from "" p) []) in
    (
      es,
      rw (h, cons-append "/" "" (join_slash es))
          (let c = cons_not_empty "/" ("" ++ join_slash es) in rw c refl),
      reverse-All IsPlain _ [] (clean_elements-IsPlain _ [] (split_from-HasNoSlash "" p refl) tt)
          tt,
    )

-- So is a rooted path that something is joined to.
pub join-BelowRoot : (p e : String) → is_rooted p ≡ true → BelowRoot (join (p ∷ e ∷ []))
unfolding join without_empty clean_if_some join_slash is_rooted
join-BelowRoot String.[] e h = cc
join-BelowRoot (String.◌∷◌ c s) e h = elim (Bool-cases (e =? "")) [
  | inl k ↦
      rw (cons_not_empty c s) (rw k (rw (cons_not_empty c s) (clean-BelowRoot (String.◌∷◌ c s) h)))
  | inr k ↦ rw (cons_not_empty c s) (
      rw k (
        rw (cons-append c s ("/" ++ e)) (
          rw (cons_not_empty c (s ++ ("/" ++ e)))
            (clean-BelowRoot (String.◌∷◌ c (s ++ ("/" ++ e))) h))))
]

-- No path is empty.
pub clean_not_empty : (p : String) → (clean p =? "") ≡ false
unfolding clean or_dot
clean_not_empty p =
    let s : String =
      (if is_rooted p then "/" else "")
      ++ join_slash (reverse (clean_elements (is_rooted p) (split_from "" p) [])) in
    elim (Bool-cases (s =? "")) [ inl k ↦ rw k refl | inr k ↦ rw k k ]

joined_not_empty :
    (p : String) (es : List String) → (p =? "") ≡ false → (join_slash (p ∷ es) =? "") ≡ false
unfolding join_slash
joined_not_empty p [] h = h
joined_not_empty String.[] (e ∷ es) h = cc
joined_not_empty (String.◌∷◌ c s) (e ∷ es) h =
    rw (cons-append c s ("/" ++ join_slash (e ∷ es))) (cons_not_empty c _)

pub join_not_empty :
    (p : String) (es : List String) → (p =? "") ≡ false → (join (p ∷ es) =? "") ≡ false
unfolding join without_empty clean_if_some
join_not_empty p es h =
    rw (h, joined_not_empty p (without_empty es) h)
      (clean_not_empty (join_slash (p ∷ without_empty es)))
