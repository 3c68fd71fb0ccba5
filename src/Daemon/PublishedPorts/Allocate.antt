-- ===== src/Daemon/PublishedPorts/Allocate.antt =====
-- The search for a host port returns the least one of its range that no record has.
use computer_host.Base.{
  ℕ, zero, suc, ◌+◌, ◌≤◌, ◌<◌, ◌≡◌, refl, true, false, Outcome, ok, err, List, arith, Bool-cases,
  inl, inr, message, subst, some_of, ◌==◌,
}
use native.Mathlib.Decide.{ℕ_discrete}
use computer_host.Model.{PublishedPortRecord}
use computer_host.Daemon.PublishedPorts.{
  first_unused, min_published_host_port, max_published_host_port,
}

module _ (ports : List PublishedPortRecord) where
  -- A record has the host port `i`.
  abbrev pub IsRecorded : ℕ → Type 0
  IsRecorded i = some_of (λ p. p.host_port == i) ports ≡ true

  -- The least unrecorded port at `i` or later, or none below `end`.
  abbrev pub LeastUnused : ℕ → ℕ → Outcome ℕ → Type 0
  LeastUnused i end (ok n) =
      (i ≤ n)
      × (n < end)
      × (some_of (λ p. p.host_port == n) ports ≡ false)
      × ((j : ℕ) → i ≤ j → j < n → IsRecorded j)
  LeastUnused i end (err e) =
      (e ≡ message "no published host ports are available" "")
      × ((j : ℕ) → i ≤ j → j < end → IsRecorded j)
  LeastUnused i end (Outcome.halt h) = ⊥

  IsRecorded-from :
      (i end j : ℕ)
      → IsRecorded i
      → ((j : ℕ) → i + 1 ≤ j → j < end → IsRecorded j)
      → i ≤ j
      → j < end
      → IsRecorded j
  IsRecorded-from i end j t g h k = elim (ℕ_discrete i j) [
    | yes e ↦ subst IsRecorded e t
    | no n ↦ g j (omega arith) k
  ]

  recorded_before :
      (i end : ℕ) (r : Outcome ℕ) → IsRecorded i → LeastUnused (i + 1) end r → LeastUnused i end r
  recorded_before i end (ok n) t (p, q, f, g) =
      (omega arith, q, f, λ j h k. IsRecorded-from i n j t g h k)
  recorded_before i end (err e) t (p, g) = (p, λ j h k. IsRecorded-from i end j t g h k)
  recorded_before i end (Outcome.halt h) t f = f

  first_unused-LeastUnused :
      (rounds i end : ℕ) → i + rounds ≡ end → LeastUnused i end (first_unused ports rounds i)
  unfolding first_unused
  first_unused-LeastUnused zero i end e = (refl, λ j h k. absurd (omega arith))
  first_unused-LeastUnused (suc rounds) i end e =
      elim (Bool-cases (some_of (λ p. p.host_port == i) ports)) [
        | inl t ↦
            rw t (
              recorded_before i end _ t (first_unused-LeastUnused rounds (i + 1) end (omega arith)))
        | inr f ↦ rw f (omega arith, omega arith, f, λ j h k. absurd (omega arith))
      ]

  -- The search returns the least port from 20000 to 39999 that no record has as its host port, and
  -- fails, with an error that says so, exactly where records have all of them.
  pub published_search-LeastUnused :
      LeastUnused min_published_host_port
        (max_published_host_port + 1)
        (first_unused ports 20000 min_published_host_port)
  published_search-LeastUnused = first_unused-LeastUnused 20000 20000 40000 (omega arith)
