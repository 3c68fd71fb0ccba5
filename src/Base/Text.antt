-- ===== src/Base/Text.antt =====
-- What the program uses of Go's `strings` and `path/filepath`, over the characters of a text.

use Prim.Native.Char.{Char, code}
use Prim.Native.String.{String, [], ◌∷◌}
use mathlib.Core.Path.{◌≡◌, ap}
use mathlib.Core.Logic.{inl, inr}
use mathlib.Core.Bool.{false≢true, Bool, true, false, not, ◌&&◌, ◌||◌}
use computer_host.Base.Tests.{Bool-cases, leb, ◌==◌, ◌=?◌, string_key, if◌then◌else◌}

-- unicode.IsSpace.
unfoldable pub is_space : Char → Bool
is_space c =
    let n = code c in
    (leb 9 n && leb n 13)
    || n == 32
    || n == 0x85
    || n == 0xa0
    || n == 0x1680
    || (leb 0x2000 n && leb n 0x200a)
    || n == 0x2028
    || n == 0x2029
    || n == 0x202f
    || n == 0x205f
    || n == 0x3000

is_empty : String → Bool
is_empty [] = true
is_empty (c ∷ s) = false

trim_left : String → String
trim_left [] = []
trim_left (c ∷ s) = if is_space c then trim_left s else c ∷ s

trim_right : String → String
trim_right [] = []
trim_right (c ∷ s) = let rest = trim_right s in if is_space c && is_empty rest then [] else c ∷ rest

-- strings.TrimSpace.
unfoldable pub trim_space : String → String
unfolding is_space is_empty trim_left trim_right
trim_space s = trim_right (trim_left s)

-- strings.TrimSpace(s) == "".
unfoldable pub is_blank : String → Bool
unfolding trim_space
is_blank s = trim_space s =? ""

-- Whether a text has the byte '/'.
unfoldable pub has_slash : String → Bool
has_slash [] = false
has_slash (c ∷ s) = code c == b'/' || has_slash s

-- filepath.Base(s) == s, for a text that is not empty: the text is "/", or it has no slash.
unfoldable pub is_base_name : String → Bool
unfolding has_slash
is_base_name s = not (s =? "") && (not (has_slash s) || s =? "/")

pub cons_not_empty : (c : Char) (s : String) → ((c ∷ s) =? "") ≡ false
unfolding is_empty
cons_not_empty c s = elim (Bool-cases ((c ∷ s) =? "")) [
  | inl e ↦ absurd (false≢true (ap is_empty ((string_key.same_iff (c ∷ s) "").0 e)))
  | inr e ↦ e
]

-- A text that begins with something other than space is not blank.
pub is_blank_cons : (c : Char) (s : String) → is_space c ≡ false → is_blank (c ∷ s) ≡ false
unfolding is_blank trim_space trim_left trim_right
is_blank_cons c s h = rw h (rw h (cons_not_empty c (trim_right s)))
