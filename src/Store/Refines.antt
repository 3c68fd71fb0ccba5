-- ===== src/Store/Refines.antt =====
-- A slice of the store, as its methods change it, is a finite map.
use computer_host.Base.{
  ◌≡◌, ◌≢◌, refl, sym, ◌∙◌, ◌⊎◌, inl, inr, ap, Error, not_found, Outcome, ok, err, halt, Option,
  none, some, ◌++◌, ◌∷◌, [], Key, ◌=?◌, if◌then◌else◌, Option-cases,
}
use computer_host.Host.File.Atomic.{Holds, NoFaults, reported, update-Updated, update_no_fault}
use computer_host.Store.Persisted.{PersistedState}
use computer_host.Store.Table.{find, IsUnique}
use computer_host.Store.Table.Laws.{
  find-insert, find-replace, find-remove, replace-none, remove-none, replace-some, remove-some,
  insert_new, insert_taken,
}
use computer_host.Store.FileStore.{FileStore, update_state}
use computer_host.Store.Collection.{Collection, created, updated, deleted}

-- The changes that a slice of records admits.
pub data Change (A K : Type 0) : Type 0 where
  creates : Error → A → Change A K
  updates : A → Change A K
  deletes : K → Change A K

module _ {A : Type 0} where
  abbrev pub on_absent : {B : Type 0} → Option A → Error → B → Outcome B
  on_absent none e b = ok b
  on_absent (some a) e b = err e

  abbrev pub on_present : {B : Type 0} → Option A → Error → B → Outcome B
  on_present none e b = err e
  on_present (some a) e b = ok b

module _ {A K : Type 0} ⦃k : Key K⦄ where
  -- The specification: what a change makes of a map from keys to records.
  abbrev pub put_key : K → Option A → (K → Option A) → K → Option A
  put_key id a m j = if id =? j then a else m j

  abbrev pub map_change : (A → K) → Change A K → (K → Option A) → Outcome (K → Option A)
  map_change key (creates taken a) m = on_absent (m (key a)) taken (put_key (key a) (some a) m)
  map_change key (updates a) m = on_present (m (key a)) not_found (put_key (key a) (some a) m)
  map_change key (deletes id) m = on_present (m id) not_found (put_key id none m)

  abbrev pub state_change : Collection A K → Change A K → PersistedState → Outcome PersistedState
  state_change c (creates taken a) = created c taken a
  state_change c (updates a) = updated c a
  state_change c (deletes id) = deleted c id

  abbrev pub map_of : Collection A K → PersistedState → K → Option A
  map_of c s id = find c.key id (c.items s)

  -- Two outcomes agree: the same error, or a state that reads as the map.
  abbrev pub Agrees : Collection A K → Outcome PersistedState → Outcome (K → Option A) → Type 0
  Agrees c (ok s) (ok m) = (j : K) → map_of c s j ≡ m j
  Agrees c (err e) (err e') = e ≡ e'
  Agrees c _ _ = ⊥

  module _ (c : Collection A K) (s : PersistedState) where
    creates-Agrees :
        (taken : Error) (a : A)
        → Agrees c (created c taken a s) (map_change c.key (creates taken a) (map_of c s))
    creates-Agrees taken a = elim (Option-cases (find c.key (c.key a) (c.items s))) [
      | inl e ↦
          let p = insert_new c.key a (c.items s) e in
          rw (p, e)
            (λ j.
              rw (c.items-with_items s (c.items s ++ a ∷ []))
                (find-insert c.key j a (c.items s) (c.items s ++ a ∷ []) p))
      | inr (r, e) ↦ rw (insert_taken c.key a r (c.items s) e, e) refl
    ]

    updates-Agrees : (a : A) → Agrees c (updated c a s) (map_change c.key (updates a) (map_of c s))
    updates-Agrees a = elim (Option-cases (find c.key (c.key a) (c.items s))) [
      | inl e ↦ rw (replace-none c.key a (c.items s) e, e) refl
      | inr (r, e) ↦
          let (ys, p) = replace-some c.key a r (c.items s) e in
          rw (p, e) (λ j. rw (c.items-with_items s ys) (find-replace c.key j a (c.items s) ys p))
    ]

    deletes-Agrees :
        IsUnique c.key (c.items s)
        → (id : K) → Agrees c (deleted c id s) (map_change c.key (deletes id) (map_of c s))
    deletes-Agrees u id = elim (Option-cases (find c.key id (c.items s))) [
      | inl e ↦ rw (remove-none c.key id (c.items s) e, e) refl
      | inr (r, e) ↦
          let (ys, p) = remove-some c.key id r (c.items s) e in
          rw (p, e) (λ j. rw (c.items-with_items s ys) (find-remove c.key id j (c.items s) ys u p))
    ]

    pub change-Agrees :
        (ch : Change A K)
        → IsUnique c.key (c.items s)
        → Agrees c (state_change c ch s) (map_change c.key ch (map_of c s))
    change-Agrees (creates taken a) u = creates-Agrees taken a
    change-Agrees (updates a) u = updates-Agrees a
    change-Agrees (deletes id) u = deletes-Agrees u id

  -- What a call on the store did to a slice, next to what the specification says.
  pub record Refines (c : Collection A K) (ch : Change A K) (before : PersistedState)
      (s : FileStore) (run : Outcome (Unit {0}) × FileStore) : Type 0 where
    -- The journal is left alone.
    pub journal : run.1.operations ≡ s.operations
    -- The file is as it was, without a report of success, or it holds what the specification says.
    pub state_file :
        ((run.1.state.file.current ≡ s.state.file.current) × (run.0 ≢ ok tt))
        ⊎ ((after : PersistedState) × (m : K → Option A) × (Holds run.1.state after)
            × (map_change c.key ch (map_of c before) ≡ ok m)
            × ((j : K) → map_of c after j ≡ m j))

  Agrees-ok :
      (c : Collection A K) (q : Outcome PersistedState) (r : Outcome (K → Option A))
      (s : PersistedState)
      → Agrees c q r
      → q ≡ ok s
      → (m : K → Option A) × (r ≡ ok m) × ((j : K) → map_of c s j ≡ m j)
  Agrees-ok c (ok x) (ok m) s h e = (m, refl, λ j. sym (ap (λ o. agreed o j) e) ∙ h j)
    where
      agreed : Outcome PersistedState → K → Option A
      agreed (ok x) j = map_of c x j
      agreed _ j = none
  Agrees-ok c (ok x) (err y) s h e = absurd h
  Agrees-ok c (ok x) (halt y) s h e = absurd h
  Agrees-ok c (err x) r s h e = cc
  Agrees-ok c (halt x) r s h e = cc

  Agrees-report :
      (c : Collection A K) (q : Outcome PersistedState) (r : Outcome (K → Option A))
      → Agrees c q r
      → reported q ≡ reported r
  Agrees-report c (ok x) (ok m) h = refl
  Agrees-report c (err x) (err y) h = ap err h
  Agrees-report c (ok x) (err y) h = absurd h
  Agrees-report c (ok x) (halt y) h = absurd h
  Agrees-report c (err x) (ok y) h = absurd h
  Agrees-report c (err x) (halt y) h = absurd h
  Agrees-report c (halt x) (ok y) h = absurd h
  Agrees-report c (halt x) (err y) h = absurd h
  Agrees-report c (halt x) (halt y) h = absurd h

  pub update_state-Refines :
      (c : Collection A K) (ch : Change A K) (before : PersistedState) (s : FileStore)
      → Holds s.state before
      → IsUnique c.key (c.items before)
      → Refines c ch before s (update_state (state_change c ch) s)
  unfolding update_state
  update_state-Refines c ch before s h u = record {
    journal = refl;
    state_file = elim (update-Updated (state_change c ch) s.state before h) [
      | inl w ↦ inl w
      | inr (b, e, w) ↦
          let (m, p, q) = Agrees-ok c _ _ b (change-Agrees c before ch u) e in inr (b, m, w, p, q)
    ];
  }

  -- Where no system call fails, the call reports what the specification does.
  pub update_state_report :
      (c : Collection A K) (ch : Change A K) (before : PersistedState) (s : FileStore)
      → NoFaults s.state
      → Holds s.state before
      → IsUnique c.key (c.items before)
      → (update_state (state_change c ch) s).0 ≡ reported (map_change c.key ch (map_of c before))
  unfolding update_state
  update_state_report c ch before s n h u =
      update_no_fault (state_change c ch) s.state before n h
      ∙ Agrees-report c _ _ (change-Agrees c before ch u)
