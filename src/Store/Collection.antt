-- ===== src/Store/Collection.antt =====
-- One slice of the state, its key, and the loops of the store over it.

use computer_host.Base.{◌≡◌, List, Error, not_found, Outcome, Key}
use computer_host.Host.Exec.{or_error, Exec, ◌>>=◌, lift}
use computer_host.Store.Persisted.{PersistedState}
use computer_host.Store.Table.{find, insert, replace, remove}
use computer_host.Store.FileStore.{FileStore, read_state}

pub record Collection (A K : Type 0) : Type 0 where
  pub key : A → K
  pub items : PersistedState → List A
  pub with_items : PersistedState → List A → PersistedState
  pub items-with_items : (s : PersistedState) (xs : List A) → items (with_items s xs) ≡ xs

module _ {A K : Type 0} ⦃k : Key K⦄ (c : Collection A K) where
  -- Appends a record, or returns the error if its key is taken.
  abbrev pub created : Error → A → PersistedState → Outcome PersistedState
  created taken a s = or_error taken (c.with_items s) (insert c.key a (c.items s))

  -- Replaces the record with the key.
  abbrev pub updated : A → PersistedState → Outcome PersistedState
  updated a s = or_error not_found (c.with_items s) (replace c.key a (c.items s))

  -- Takes the record with the key out.
  abbrev pub deleted : K → PersistedState → Outcome PersistedState
  deleted id s = or_error not_found (c.with_items s) (remove c.key id (c.items s))

  -- The record with the key, in the state that the file holds.
  unfoldable pub get_from : K → Exec FileStore A
  unfolding ◌>>=◌ lift read_state
  get_from id = do
    state ← read_state
    lift (or_error not_found (λ (a : A). a) (find c.key id (c.items state)))
