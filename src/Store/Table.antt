-- ===== src/Store/Table.antt =====
-- The loops of internal/store/file_store.go over a slice of records, for every type of record. Each
-- loop compares the record's key by `==` and acts on the first match.
pub mod Laws
pub mod Unique
use computer_host.Base.{
  ℕ, Bool, true, false, ◌≡◌, List, [], ◌∷◌, ◌++◌, Option, none, some, Key, ◌=?◌, if◌then◌else◌,
}
use mathlib.Core.Option

module _ {A K : Type 0} ⦃k : Key K⦄ (key : A → K) where
  -- for i := range xs { if key(xs[i]) == id { return &xs[i] } }
  unfoldable pub find : K → List A → Option A
  find id [] = none
  find id (x ∷ xs) = if key x =? id then some x else find id xs

  -- The same loop where only the presence of the key counts.
  unfoldable pub has : K → List A → Bool
  has id [] = false
  has id (x ∷ xs) = if key x =? id then true else has id xs

  -- for i := range xs { if key(xs[i]) == key(a) { xs[i] = a; return nil } }; `none` if no key fits.
  unfoldable pub replace : A → List A → Option (List A)
  replace a [] = none
  replace a (x ∷ xs) =
      if key x =? key a then some (a ∷ xs) else Option.map (λ r. x ∷ r) (replace a xs)

  -- for i := range xs { if key(xs[i]) == id { xs = append(xs[:i], xs[i+1:]...); return nil } }
  unfoldable pub remove : K → List A → Option (List A)
  remove id [] = none
  remove id (x ∷ xs) = if key x =? id then some xs else Option.map (λ r. x ∷ r) (remove id xs)

  -- The last record of the slice is the new one, unless its key was there.
  unfoldable pub insert : A → List A → Option (List A)
  unfolding has
  insert a xs = if has (key a) xs then none else some (xs ++ a ∷ [])

  -- Replaces the record with the key, or appends.
  unfoldable pub upsert : A → List A → List A
  unfolding replace
  upsert a xs = elim (replace a xs) [ none ↦ xs ++ a ∷ [] | some ys ↦ ys ]

  -- No record has the key.
  abbrev pub IsAbsent : K → List A → Type 0
  IsAbsent id [] = Unit
  IsAbsent id (x ∷ xs) = ((key x =? id) ≡ false) × IsAbsent id xs

  -- No two records have one key.
  abbrev pub IsUnique : List A → Type 0
  IsUnique [] = Unit
  IsUnique (x ∷ xs) = IsAbsent (key x) xs × IsUnique xs
