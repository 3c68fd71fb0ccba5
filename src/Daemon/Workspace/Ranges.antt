-- ===== src/Daemon/Workspace/Ranges.antt =====
-- internal/daemon/filesystem_service.go: ranges of bytes are read and written. Offsets and sizes are
-- int64, whose sum wraps around; a slice expression out of its bounds panics.
pub mod Laws
use computer_host.Base.{
  ℕ, zero, suc, ◌+◌, ◌-◌, ltb, leb, ◌==◌, List, [], ◌∷◌, ◌++◌, length, ℤ, pos, negsuc, ltb_ℤ,
  String, if◌then◌else◌,
}

-- What comes of a range.
pub data Ranged : Type 0 where
  gives : List ℕ → Ranged
  refuses : String → Ranged
  panics : Ranged

-- The sum of two numbers of int64 that are not negative.
abbrev pub int64 : ℕ → ℤ
int64 n = if ltb n 9223372036854775808 then pos n else negsuc (18446744073709551615 - n)

abbrev pub take : ℕ → List ℕ → List ℕ
take n [] = []
take zero (x ∷ xs) = []
take (suc n) (x ∷ xs) = x ∷ take n xs

abbrev pub drop : ℕ → List ℕ → List ℕ
drop n [] = []
drop zero (x ∷ xs) = x ∷ xs
drop (suc n) (x ∷ xs) = drop n xs

-- payload[offset:end]
abbrev pub slice : List ℕ → ℕ → ℤ → Ranged
slice payload offset (negsuc n) = Ranged.panics
slice payload offset (pos end) =
    if leb offset end
    then Ranged.gives (take (end - offset) (drop offset payload))
    else Ranged.panics

abbrev pub at_most : ℕ → ℤ → ℤ
at_most size end = if ltb_ℤ (pos size) end then pos size else end

-- applyReadRange.
unfoldable pub apply_read_range : List ℕ → ℤ → ℤ → Ranged
apply_read_range payload (negsuc o) size = Ranged.refuses "offset must be non-negative"
apply_read_range payload (pos o) (negsuc n) = Ranged.refuses "length must be non-negative"
apply_read_range payload (pos o) (pos n) =
    if leb (length payload) o
    then Ranged.gives []
    else if n == 0
    then Ranged.gives []
    else slice payload o (at_most (length payload) (int64 (o + n)))

-- copy(existing, chunk)
abbrev pub copied : List ℕ → List ℕ → List ℕ
copied [] chunk = []
copied (x ∷ xs) [] = x ∷ xs
copied (x ∷ xs) (c ∷ chunk) = c ∷ copied xs chunk

-- copy(existing[offset:], chunk), for an offset in the slice.
abbrev pub copied_at : ℕ → List ℕ → List ℕ → List ℕ
copied_at zero xs chunk = copied xs chunk
copied_at (suc o) [] chunk = []
copied_at (suc o) (x ∷ xs) chunk = x ∷ copied_at o xs chunk

-- A slice of the size with the bytes, the others zero.
abbrev pub expanded : ℕ → List ℕ → List ℕ
expanded zero xs = xs
expanded (suc n) [] = 0 ∷ expanded n []
expanded (suc n) (x ∷ xs) = x ∷ expanded n xs

abbrev pub write_at : List ℕ → ℕ → List ℕ → ℤ → Ranged
write_at existing o chunk (negsuc n) = Ranged.refuses "range write exceeds supported size"
write_at existing o chunk (pos required) =
    Ranged.gives (copied_at o (expanded required existing) chunk)

-- applyWriteRange. A slice that is long enough is copied, which is no matter here.
unfoldable pub apply_write_range : List ℕ → ℤ → List ℕ → Ranged
apply_write_range existing (negsuc o) chunk = Ranged.refuses "offset must be non-negative"
apply_write_range existing (pos o) chunk = write_at existing o chunk (int64 (o + length chunk))
