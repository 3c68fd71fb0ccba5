-- ===== src/Daemon/Workspace/Ranges/Laws.antt =====
-- What is read of a range, and what a file holds after a range of it was written.
use computer_host.Base.{
  ℕ, zero, suc, ◌+◌, ◌-◌, ◌≤◌, ◌<◌, ltb, leb, ◌==◌, ◌&&◌, not, Bool, List, [], ◌∷◌, length, pos,
  Option, none, some, ◌≡◌, refl, ap, subst, arith, Bool-cases, inl, inr, if◌then◌else◌,
}
use computer_host.Daemon.Workspace.Ranges.{
  Ranged, take, drop, copied, copied_at, expanded, apply_read_range, apply_write_range,
}

pub take-all : (n : ℕ) (xs : List ℕ) → length xs ≤ n → take n xs ≡ xs
take-all n [] h = refl
take-all zero (x ∷ xs) h = ground arith
take-all (suc n) (x ∷ xs) h = ap (λ ys. x ∷ ys) (take-all n xs (omega arith))

take-none : (n : ℕ) (xs : List ℕ) → n ≡ 0 → take n xs ≡ []
take-none n [] h = refl
take-none zero (x ∷ xs) h = refl
take-none (suc n) (x ∷ xs) h = ground arith

drop-all : (o : ℕ) (xs : List ℕ) → length xs ≤ o → drop o xs ≡ []
drop-all o [] h = refl
drop-all zero (x ∷ xs) h = ground arith
drop-all (suc o) (x ∷ xs) h = drop-all o xs (omega arith)

length-drop : (o : ℕ) (xs : List ℕ) → length (drop o xs) ≡ length xs - o
length-drop o [] = omega arith
length-drop zero (x ∷ xs) = omega arith
length-drop (suc o) (x ∷ xs) = omega (arith, length-drop o xs)

abbrev pub overflows : ℕ → ℕ → ℕ → Bool
overflows size o n = ltb o size && (not (n == 0) && leb 9223372036854775808 (o + n))

-- applyReadRange of an offset and a length that are not negative, on a payload whose length is an int64:
-- the bytes of the range that the payload has; but where the range is not empty, begins in the payload
-- and ends beyond the largest int64, it panics.
pub apply_read_range_lem :
    (payload : List ℕ) (o n : ℕ)
    → length payload < 9223372036854775808
    → apply_read_range payload (pos o) (pos n) ≡ (
        if overflows (length payload) o n
        then Ranged.panics
        else Ranged.gives (take n (drop o payload)))
unfolding apply_read_range
apply_read_range_lem payload o n h = elim (Bool-cases (leb (length payload) o)) [
  | inl a ↦ let d : drop o payload ≡ [] = drop-all o payload (ground arith) in rw d (ground arith)
  | inr a ↦ elim (Bool-cases (n == 0)) [
    | inl b ↦
        let t : take n (drop o payload) ≡ [] = take-none n (drop o payload) (ground arith) in
        rw t (ground arith)
    | inr b ↦ elim (Bool-cases (leb 9223372036854775808 (o + n))) [
      | inl c ↦ ground arith
      | inr c ↦ elim (Bool-cases (ltb (length payload) (o + n))) [
        | inl d ↦
            let l = length-drop o payload in
            let s : take (length payload - o) (drop o payload) ≡ drop o payload =
              take-all (length payload - o) (drop o payload) (omega arith) in
            let t : take n (drop o payload) ≡ drop o payload =
              take-all n (drop o payload) (ground arith) in
            ground arith
        | inr d ↦ let k : o + n - o ≡ n = omega arith in ground arith
      ]
    ]
  ]
]

abbrev pub byte_at : ℕ → List ℕ → Option ℕ
byte_at i [] = none
byte_at zero (x ∷ xs) = some x
byte_at (suc i) (x ∷ xs) = byte_at i xs

byte_at-copied :
    (i : ℕ) (xs chunk : List ℕ)
    → length chunk ≤ length xs
    → byte_at i (copied xs chunk) ≡ (if ltb i (length chunk) then byte_at i chunk else byte_at i xs)
byte_at-copied i [] [] h = ground arith
byte_at-copied i [] (c ∷ chunk) h = ground arith
byte_at-copied i (x ∷ xs) [] h = ground arith
byte_at-copied zero (x ∷ xs) (c ∷ chunk) h = ground arith
byte_at-copied (suc i) (x ∷ xs) (c ∷ chunk) h =
    ground (arith, byte_at-copied i xs chunk (omega arith))

byte_at-copied_at :
    (o i : ℕ) (xs chunk : List ℕ)
    → o + length chunk ≤ length xs
    → byte_at i (copied_at o xs chunk) ≡ (
        if ltb i o
        then byte_at i xs
        else if ltb i (o + length chunk)
        then byte_at (i - o) chunk
        else byte_at i xs)
byte_at-copied_at zero i xs chunk h =
    let k : i - 0 ≡ i = omega arith in
    rw k (ground (arith, byte_at-copied i xs chunk (omega arith)))
byte_at-copied_at (suc o) i [] chunk h = ground arith
byte_at-copied_at (suc o) zero (x ∷ xs) chunk h = ground arith
byte_at-copied_at (suc o) (suc i) (x ∷ xs) chunk h =
    let k : suc i - suc o ≡ i - o = omega arith in
    rw k (ground (arith, byte_at-copied_at o i xs chunk (omega arith)))

byte_at_end :
    (i : ℕ) (xs : List ℕ) → byte_at i xs ≡ (if ltb i (length xs) then byte_at i xs else none)
byte_at_end i [] = ground arith
byte_at_end zero (x ∷ xs) = ground arith
byte_at_end (suc i) (x ∷ xs) = ground (arith, byte_at_end i xs)

byte_at-expanded :
    (i r : ℕ) (xs : List ℕ)
    → byte_at i (expanded r xs)
      ≡ (if ltb i (length xs) then byte_at i xs else if ltb i r then some 0 else none)
byte_at-expanded i zero xs = ground (arith, byte_at_end i xs)
byte_at-expanded zero (suc r) [] = ground arith
byte_at-expanded (suc i) (suc r) [] = ground (arith, byte_at-expanded i r [])
byte_at-expanded zero (suc r) (x ∷ xs) = ground arith
byte_at-expanded (suc i) (suc r) (x ∷ xs) = ground (arith, byte_at-expanded i r xs)

length-expanded : (r : ℕ) (xs : List ℕ) → r ≤ length (expanded r xs)
length-expanded zero xs = omega arith
length-expanded (suc r) [] = omega (arith, length-expanded r [])
length-expanded (suc r) (x ∷ xs) = omega (arith, length-expanded r xs)

abbrev written : List ℕ → ℕ → List ℕ → List ℕ
written existing o chunk = copied_at o (expanded (o + length chunk) existing) chunk

-- applyWriteRange at an offset that is not negative, where the range ends by the largest int64: a byte of
-- the range is that of the chunk, a byte before it is what it was, or zero where there was none, and a
-- byte after it is what it was.
pub apply_write_range-Wrote :
    (existing : List ℕ) (o : ℕ) (chunk : List ℕ)
    → o + length chunk < 9223372036854775808
    → (out : List ℕ) × (apply_write_range existing (pos o) chunk ≡ Ranged.gives out)
      × ((i : ℕ)
          → byte_at i out ≡ (
              if ltb i o
              then (if ltb i (length existing) then byte_at i existing else some 0)
              else if ltb i (o + length chunk)
              then byte_at (i - o) chunk
              else byte_at i existing))
unfolding apply_write_range
apply_write_range-Wrote existing o chunk h = (
  written existing o chunk,
  ground arith,
  λ i.
      let l = length-expanded (o + length chunk) existing in
      let c = byte_at-copied_at o i (expanded (o + length chunk) existing) chunk l in
      let e = byte_at-expanded i (o + length chunk) existing in
      let d = byte_at_end i existing in ground arith,
)

take-copied :
    (xs chunk : List ℕ) → length chunk ≤ length xs → take (length chunk) (copied xs chunk) ≡ chunk
take-copied [] [] h = refl
take-copied [] (c ∷ chunk) h = ground arith
take-copied (x ∷ xs) [] h = refl
take-copied (x ∷ xs) (c ∷ chunk) h = ap (λ ys. c ∷ ys) (take-copied xs chunk (omega arith))

drop-copied_at :
    (o : ℕ) (xs chunk : List ℕ) → drop o (copied_at o xs chunk) ≡ copied (drop o xs) chunk
drop-copied_at zero [] chunk = refl
drop-copied_at zero (x ∷ xs) [] = refl
drop-copied_at zero (x ∷ xs) (c ∷ chunk) = refl
drop-copied_at (suc o) [] chunk = refl
drop-copied_at (suc o) (x ∷ xs) chunk = drop-copied_at o xs chunk

length-copied : (xs chunk : List ℕ) → length (copied xs chunk) ≡ length xs
length-copied [] chunk = refl
length-copied (x ∷ xs) [] = refl
length-copied (x ∷ xs) (c ∷ chunk) = ap suc (length-copied xs chunk)

pub length-copied_at : (o : ℕ) (xs chunk : List ℕ) → length (copied_at o xs chunk) ≡ length xs
length-copied_at zero xs chunk = length-copied xs chunk
length-copied_at (suc o) [] chunk = refl
length-copied_at (suc o) (x ∷ xs) chunk = ap suc (length-copied_at o xs chunk)

pub expanded_size : (r : ℕ) (xs : List ℕ) → length (expanded r xs) ≡ length xs + (r - length xs)
expanded_size zero xs = omega arith
expanded_size (suc r) [] = omega (arith, expanded_size r [])
expanded_size (suc r) (x ∷ xs) = omega (arith, expanded_size r xs)

reread :
    (existing : List ℕ) (o : ℕ) (chunk : List ℕ)
    → take (length chunk) (drop o (written existing o chunk)) ≡ chunk
reread existing o chunk =
    let xs : List ℕ = expanded (o + length chunk) existing in
    rw (drop-copied_at o xs chunk) (
      take-copied (drop o xs) chunk
        (omega (arith, length-drop o xs, length-expanded (o + length chunk) existing)))

-- For a file whose length is an int64: what applyWriteRange wrote at an offset, applyReadRange reads there
-- again.
pub apply_read_range-apply_write_range :
    (existing : List ℕ) (o : ℕ) (chunk out : List ℕ)
    → length existing < 9223372036854775808
    → apply_write_range existing (pos o) chunk ≡ Ranged.gives out
    → apply_read_range out (pos o) (pos (length chunk)) ≡ Ranged.gives chunk
unfolding apply_write_range
apply_read_range-apply_write_range existing o chunk out h e =
    elim (Bool-cases (ltb (o + length chunk) 9223372036854775808)) [
      | inl a ↦
          let k : written existing o chunk ≡ out = ground arith in
          subst (λ ys. apply_read_range ys (pos o) (pos (length chunk)) ≡ Ranged.gives chunk) k
            (let l = length-copied_at o (expanded (o + length chunk) existing) chunk in
              let m = expanded_size (o + length chunk) existing in
              let r =
                apply_read_range_lem (written existing o chunk) o (length chunk) (ground arith) in
              let c = reread existing o chunk in ground arith)
      | inr a ↦ ground arith
    ]
