-- ===== src/Store/Table/Unique.antt =====
-- The loops keep the keys of a table unique.
use computer_host.Base.{
  false, ◌≡◌, List, [], ◌∷◌, ◌++◌, none, some, Key, ◌=?◌, arith, Bool-cases, Option-cases, inl, inr,
  =?→≡,
}
use computer_host.Store.Table.{find, has, replace, remove, insert, upsert, IsAbsent, IsUnique}
use computer_host.Store.Table.Laws.{step_some, none-replace, find-has}

module _ {A K : Type 0} ⦃k : Key K⦄ (key : A → K) where
  IsAbsent-find : (id : K) (xs : List A) → find key id xs ≡ none → IsAbsent key id xs
  unfolding find
  IsAbsent-find id [] h = tt
  IsAbsent-find id (x ∷ xs) h = elim (Bool-cases (key x =? id)) [
    | inl hit ↦ ground arith
    | inr miss ↦ (miss, IsAbsent-find id xs (ground arith))
  ]

  append-IsAbsent :
      (id : K) (a : A) (xs : List A)
      → (key a =? id) ≡ false
      → IsAbsent key id xs
      → IsAbsent key id (xs ++ a ∷ [])
  append-IsAbsent id a [] h u = (h, tt)
  append-IsAbsent id a (x ∷ xs) h u = (u.0, append-IsAbsent id a xs h u.1)

  append-IsUnique :
      (a : A) (xs : List A)
      → IsAbsent key (key a) xs
      → IsUnique key xs
      → IsUnique key (xs ++ a ∷ [])
  append-IsUnique a [] h u = (tt, tt)
  append-IsUnique a (x ∷ xs) h u = (
    append-IsAbsent (key x) a xs
        (ground (arith, k.same_iff (key a) (key x), k.same_iff (key x) (key a))) u.0,
    append-IsUnique a xs h.1 u.1,
  )

  pub has-IsAbsent : (id : K) (xs : List A) → has key id xs ≡ false → IsAbsent key id xs
  has-IsAbsent id xs h = IsAbsent-find id xs (find-has key id xs h)

  pub append_new-IsUnique :
      (a : A) (xs : List A)
      → has key (key a) xs ≡ false
      → IsUnique key xs
      → IsUnique key (xs ++ a ∷ [])
  append_new-IsUnique a xs h u =
      append-IsUnique a xs (IsAbsent-find (key a) xs (find-has key (key a) xs h)) u

  pub insert-IsUnique :
      (a : A) (xs ys : List A) → insert key a xs ≡ some ys → IsUnique key xs → IsUnique key ys
  unfolding insert
  insert-IsUnique a xs ys h u = elim (Bool-cases (has key (key a) xs)) [
    | inl old ↦ ground arith
    | inr new ↦ let e : xs ++ a ∷ [] ≡ ys = ground arith in rw e at (append_new-IsUnique a xs new u)
  ]

  replace-IsAbsent :
      (id : K) (a : A) (xs ys : List A)
      → replace key a xs ≡ some ys
      → IsAbsent key id xs
      → IsAbsent key id ys
  unfolding replace
  replace-IsAbsent id a [] ys h u = cc
  replace-IsAbsent id a (x ∷ xs) ys h u = elim (Bool-cases (key x =? key a)) [
    | inl hit ↦
        let e : ys ≡ a ∷ xs = ground arith in rw e (rw (=?→≡ (key x) (key a) hit) at u.0, u.1)
    | inr miss ↦
        let (r, e, p) = step_some key x (replace key a xs) ys (rw (miss, replace) at h) in
        rw p (u.0, replace-IsAbsent id a xs r e u.1)
  ]

  pub replace-IsUnique :
      (a : A) (xs ys : List A) → replace key a xs ≡ some ys → IsUnique key xs → IsUnique key ys
  unfolding replace
  replace-IsUnique a [] ys h u = cc
  replace-IsUnique a (x ∷ xs) ys h u = elim (Bool-cases (key x =? key a)) [
    | inl hit ↦
        let e : ys ≡ a ∷ xs = ground arith in rw e (rw (=?→≡ (key x) (key a) hit) at u.0, u.1)
    | inr miss ↦
        let (r, e, p) = step_some key x (replace key a xs) ys (rw (miss, replace) at h) in
        rw p (replace-IsAbsent (key x) a xs r e u.0, replace-IsUnique a xs r e u.1)
  ]

  pub upsert-IsUnique : (a : A) (xs : List A) → IsUnique key xs → IsUnique key (upsert key a xs)
  unfolding upsert
  upsert-IsUnique a xs u = elim (Option-cases (replace key a xs)) [
    | inl e ↦
        rw (e, upsert) (append-IsUnique a xs (IsAbsent-find (key a) xs (none-replace key a xs e)) u)
    | inr (ys, e) ↦ rw (e, upsert) (replace-IsUnique a xs ys e u)
  ]

-- Taking a record out by one key keeps the values of every other key unique.
module _ {A K L : Type 0} ⦃k : Key K⦄ ⦃l : Key L⦄ (key : A → K) (other : A → L) where
  remove-IsAbsent :
      (id : L) (d : K) (xs ys : List A)
      → remove key d xs ≡ some ys
      → IsAbsent other id xs
      → IsAbsent other id ys
  unfolding remove
  remove-IsAbsent id d [] ys h u = cc
  remove-IsAbsent id d (x ∷ xs) ys h u = elim (Bool-cases (key x =? d)) [
    | inl hit ↦ let e : xs ≡ ys = ground arith in rw e at u.1
    | inr miss ↦
        let (r, e, p) = step_some key x (remove key d xs) ys (rw (miss, remove) at h) in
        rw p (u.0, remove-IsAbsent id d xs r e u.1)
  ]

  pub remove-IsUnique :
      (d : K) (xs ys : List A) → remove key d xs ≡ some ys → IsUnique other xs → IsUnique other ys
  unfolding remove
  remove-IsUnique d [] ys h u = cc
  remove-IsUnique d (x ∷ xs) ys h u = elim (Bool-cases (key x =? d)) [
    | inl hit ↦ let e : xs ≡ ys = ground arith in rw e at u.1
    | inr miss ↦
        let (r, e, p) = step_some key x (remove key d xs) ys (rw (miss, remove) at h) in
        rw p (remove-IsAbsent (other x) d xs r e u.0, remove-IsUnique d xs r e u.1)
  ]
