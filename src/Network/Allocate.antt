-- ===== src/Network/Allocate.antt =====
-- The allocator returns the first free network, and fails only where none is free.
use computer_host.Base.{
  ℕ, zero, suc, ◌+◌, ◌≤◌, ◌<◌, ◌≡◌, refl, true, false, Outcome, ok, err, List, arith, Bool-cases,
  inl, inr, message, subst,
}
use native.Mathlib.Decide.{ℕ_discrete}
use computer_host.Network.{
  NetworkAllocation, NetworkAllocator, guest_ip, network_for_index, total_subnets, is_allocated,
  allocate_from, allocate,
}

module _ (a : NetworkAllocator) (used : List NetworkAllocation) where
  -- The guest address of block `i` is taken.
  abbrev pub IsTaken : ℕ → Type 0
  IsTaken i = is_allocated used (guest_ip (network_for_index a i)) ≡ true

  -- The first free block at `i` or later, or none below `end`.
  abbrev pub FirstFree : ℕ → ℕ → Outcome NetworkAllocation → Type 0
  FirstFree i end (ok network) =
      (n : ℕ) × (i ≤ n)
      × (n < end)
      × (network ≡ network_for_index a n)
      × (is_allocated used (guest_ip network) ≡ false)
      × ((j : ℕ) → i ≤ j → j < n → IsTaken j)
  FirstFree i end (err e) =
      (e ≡ message "network cidr is exhausted" "") × ((j : ℕ) → i ≤ j → j < end → IsTaken j)
  FirstFree i end (Outcome.halt h) = ⊥

  IsTaken-from :
      (i end j : ℕ)
      → IsTaken i
      → ((j : ℕ) → i + 1 ≤ j → j < end → IsTaken j)
      → i ≤ j
      → j < end
      → IsTaken j
  IsTaken-from i end j t g h k = elim (ℕ_discrete i j) [
    | yes e ↦ subst IsTaken e t
    | no n ↦ g j (omega arith) k
  ]

  taken_before :
      (i end : ℕ) (r : Outcome NetworkAllocation)
      → IsTaken i
      → FirstFree (i + 1) end r
      → FirstFree i end r
  taken_before i end (ok network) t (n, p, q, e, f, g) =
      (n, omega arith, q, e, f, λ j h k. IsTaken-from i n j t g h k)
  taken_before i end (err e) t (p, g) = (p, λ j h k. IsTaken-from i end j t g h k)
  taken_before i end (Outcome.halt h) t f = f

  from-FirstFree :
      (rounds i end : ℕ) → i + rounds ≡ end → FirstFree i end (allocate_from a used rounds i)
  unfolding allocate_from
  from-FirstFree zero i end e = (refl, λ j h k. absurd (omega arith))
  from-FirstFree (suc rounds) i end e =
      elim (Bool-cases (is_allocated used (guest_ip (network_for_index a i)))) [
        | inl t ↦ rw t (taken_before i end _ t (from-FirstFree rounds (i + 1) end (omega arith)))
        | inr f ↦ rw f (i, omega arith, omega arith, refl, f, λ j h k. absurd (omega arith))
      ]

  -- Allocate returns the network with the least index whose guest address no network in use has, among
  -- the indices of the blocks of the prefix; it fails, with an error that says so, exactly where the
  -- guest addresses of all blocks are in use.
  pub allocate-FirstFree : FirstFree 0 (total_subnets a) (allocate a used)
  unfolding allocate
  allocate-FirstFree = from-FirstFree (total_subnets a) 0 (total_subnets a) (omega arith)
