-- ===== src/Store/Table/Laws.antt =====
-- A table of records with unique keys is a finite map, which `find` reads.
use mathlib.Core.Option
use computer_host.Base.{
  false, ◌≡◌, refl, List, [], ◌∷◌, ◌++◌, Option, none, some, Key, ◌=?◌, if◌then◌else◌, arith,
  Bool-cases, inl, inr, =?→≡, Option-cases,
}
use computer_host.Store.Table.{find, has, replace, remove, insert, upsert, IsAbsent, IsUnique}

module _ {A K : Type 0} ⦃k : Key K⦄ (key : A → K) where
  pub find-has : (id : K) (xs : List A) → has key id xs ≡ false → find key id xs ≡ none
  unfolding has find
  find-has id [] h = refl
  find-has id (x ∷ xs) h = ground (arith, find-has id xs)

  pub has-find : (id : K) (xs : List A) → find key id xs ≡ none → has key id xs ≡ false
  unfolding has find
  has-find id [] h = refl
  has-find id (x ∷ xs) h = ground (arith, has-find id xs)

  -- What the loop finds has the key.
  pub find_key : (id : K) (xs : List A) (r : A) → find key id xs ≡ some r → key r ≡ id
  unfolding find
  find_key id [] r h = cc
  find_key id (x ∷ xs) r h = elim (Bool-cases (key x =? id)) [
    | inl hit ↦ let e : x ≡ r = ground arith in rw⁻¹ e (=?→≡ (key x) id hit)
    | inr miss ↦ find_key id xs r (ground arith)
  ]

  find-append :
      (id : K) (a : A) (xs : List A)
      → find key (key a) xs ≡ none
      → find key id (xs ++ a ∷ []) ≡ (if key a =? id then some a else find key id xs)
  unfolding find
  find-append id a [] h = refl
  find-append id a (x ∷ xs) h = ground (
    arith,
    find-append id a xs,
    k.same_iff (key x) id,
    k.same_iff (key a) id,
    k.same_iff (key x) (key a),
  )

  pub find-insert :
      (id : K) (a : A) (xs ys : List A)
      → insert key a xs ≡ some ys
      → find key id ys ≡ (if key a =? id then some a else find key id xs)
  unfolding insert
  find-insert id a xs ys h = ground (arith, find-append id a xs, find-has (key a) xs)

  pub find-append_new :
      (id : K) (a : A) (xs : List A)
      → has key (key a) xs ≡ false
      → find key id (xs ++ a ∷ []) ≡ (if key a =? id then some a else find key id xs)
  find-append_new id a xs h = find-append id a xs (find-has (key a) xs h)

  -- What a step of a loop that goes on past `x` returned, returned from the rest.
  pub step_some :
      (x : A) (o : Option (List A)) (ys : List A)
      → Option.map (λ r. x ∷ r) o ≡ some ys
      → (r : List A) × (o ≡ some r) × (ys ≡ x ∷ r)
  step_some x none ys h = cc
  step_some x (some r) ys h = (r, refl, cc)

  pub find-replace :
      (id : K) (a : A) (xs ys : List A)
      → replace key a xs ≡ some ys
      → find key id ys ≡ (if key a =? id then some a else find key id xs)
  unfolding find replace
  find-replace id a [] ys h = ground arith
  find-replace id a (x ∷ xs) ys h = elim (Bool-cases (key x =? key a)) [
    | inl hit ↦ ground (arith, k.same_iff (key x) (key a), k.same_iff (key x) id)
    | inr miss ↦
        let (r, e, p) = step_some x (replace key a xs) ys (rw (miss, replace) at h) in
        rw p (
          ground (
            arith,
            find-replace id a xs r e,
            k.same_iff (key x) (key a),
            k.same_iff (key x) id,
            k.same_iff (key a) id,
          ))
  ]

  pub find-absent : (id : K) (xs : List A) → IsAbsent key id xs → find key id xs ≡ none
  unfolding find
  find-absent id [] h = refl
  find-absent id (x ∷ xs) h = ground (arith, find-absent id xs)

  pub find-remove :
      (d id : K) (xs ys : List A)
      → IsUnique key xs
      → remove key d xs ≡ some ys
      → find key id ys ≡ (if d =? id then none else find key id xs)
  unfolding find remove
  find-remove d id [] ys u h = ground arith
  find-remove d id (x ∷ xs) ys u h = elim (Bool-cases (key x =? d)) [
    | inl hit ↦
        let e : key x ≡ d = =?→≡ (key x) d hit in
        ground (arith, e, find-absent (key x) xs u.0, k.same_iff (key x) id, k.same_iff d id)
    | inr miss ↦
        let (r, e, p) = step_some x (remove key d xs) ys (rw (miss, remove) at h) in
        rw p (
          ground (
            arith,
            find-remove d id xs r u.1 e,
            k.same_iff (key x) d,
            k.same_iff (key x) id,
            k.same_iff d id,
          ))
  ]

  -- The loops that write stop without a change exactly where `find` finds nothing.
  pub replace-none : (a : A) (xs : List A) → find key (key a) xs ≡ none → replace key a xs ≡ none
  unfolding find replace
  replace-none a [] h = refl
  replace-none a (x ∷ xs) h = ground (arith, replace-none a xs)

  pub remove-none : (d : K) (xs : List A) → find key d xs ≡ none → remove key d xs ≡ none
  unfolding find remove
  remove-none d [] h = refl
  remove-none d (x ∷ xs) h = ground (arith, remove-none d xs)

  pub replace-some :
      (a r : A) (xs : List A)
      → find key (key a) xs ≡ some r
      → (ys : List A) × (replace key a xs ≡ some ys)
  unfolding find replace
  replace-some a r [] h = cc
  replace-some a r (x ∷ xs) h = elim (Bool-cases (key x =? key a)) [
    | inl hit ↦ (a ∷ xs, ground arith)
    | inr miss ↦ let (ys, e) = replace-some a r xs (ground arith) in (x ∷ ys, ground arith)
  ]

  pub remove-some :
      (d : K) (r : A) (xs : List A)
      → find key d xs ≡ some r
      → (ys : List A) × (remove key d xs ≡ some ys)
  unfolding find remove
  remove-some d r [] h = cc
  remove-some d r (x ∷ xs) h = elim (Bool-cases (key x =? d)) [
    | inl hit ↦ (xs, ground arith)
    | inr miss ↦ let (ys, e) = remove-some d r xs (ground arith) in (x ∷ ys, ground arith)
  ]

  pub none-replace : (a : A) (xs : List A) → replace key a xs ≡ none → find key (key a) xs ≡ none
  unfolding find replace
  none-replace a [] h = refl
  none-replace a (x ∷ xs) h = elim (Bool-cases (key x =? key a)) [
    | inl hit ↦ ground arith
    | inr miss ↦ ground (arith, none-replace a xs)
  ]

  pub find-upsert :
      (id : K) (a : A) (xs : List A)
      → find key id (upsert key a xs) ≡ (if key a =? id then some a else find key id xs)
  unfolding upsert
  find-upsert id a xs = elim (Option-cases (replace key a xs)) [
    | inl e ↦ rw (e, upsert) (find-append id a xs (none-replace a xs e))
    | inr (ys, e) ↦ rw (e, upsert) (find-replace id a xs ys e)
  ]

  pub insert_new :
      (a : A) (xs : List A) → find key (key a) xs ≡ none → insert key a xs ≡ some (xs ++ a ∷ [])
  unfolding insert
  insert_new a xs h = ground (arith, has-find (key a) xs h)

  pub insert_taken : (a r : A) (xs : List A) → find key (key a) xs ≡ some r → insert key a xs ≡ none
  unfolding insert
  insert_taken a r xs h = elim (Bool-cases (has key (key a) xs)) [
    | inl e ↦ ground arith
    | inr e ↦ ground (arith, find-has (key a) xs e)
  ]
