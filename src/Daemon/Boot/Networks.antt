-- ===== src/Daemon/Boot/Networks.antt =====
-- The network that a machine is booted with is none of those of the other machines.
use computer_host.Base.{
  ℕ, ◌+◌, ◌-◌, ◌%◌, ◌<◌, ◌≡◌, ◌≢◌, refl, sym, ◌∙◌, ap, subst, Bool, true, false, String, List, [],
  ◌∷◌, Outcome, ok, err, halt, Option, some, is_blank, ◌=?◌, string_key, not, ◌||◌, arith,
  Bool-cases, inl, inr, All,
}
use computer_host.Model.{MachineId, MachineRecord}
use computer_host.Network.{
  NetworkAllocation, NetworkAllocator, network_for_index, total_subnets, allocate, guest_ip,
  is_allocated, allocation_from_guest_ip, u32_mod,
}
use computer_host.Network.Allocate.{FirstFree, allocate-FirstFree}
use computer_host.Store.Consistent.Slices.{ok-injective}
use computer_host.Daemon.Boot
use computer_host.Daemon.Boot.{networks_of, is_active}

abbrev pub is_skipped : MachineId → MachineRecord → Bool
is_skipped ignored r =
    r.id =? ignored || not (is_active r.phase) || is_blank r.runtime_host || is_blank r.tap_device

with_network_ok :
    (q : Outcome NetworkAllocation) (rest : Outcome (List NetworkAllocation))
    (used : List NetworkAllocation)
    → Boot.with_network q rest ≡ ok used
    → (n : NetworkAllocation) × (us : List NetworkAllocation) × (q ≡ ok n)
      × (rest ≡ ok us)
      × (used ≡ n ∷ us)
unfolding Boot.with_network
with_network_ok (err x) rest used e = cc
with_network_ok (halt x) rest used e = cc
with_network_ok (ok n) (err x) used e = cc
with_network_ok (ok n) (halt x) used e = cc
with_network_ok (ok n) (ok us) used e = (n, us, refl, refl, sym (ok-injective e))

two_back : (addr : ℕ) → addr < u32_mod → ((addr + u32_mod - 2) % u32_mod + 2) % u32_mod ≡ addr
two_back addr b = omega arith

from_guest_ip_address :
    (addr : ℕ) (tap : String) (n : NetworkAllocation)
    → addr < u32_mod
    → allocation_from_guest_ip (some (some addr)) tap ≡ ok n
    → guest_ip n ≡ addr
unfolding allocation_from_guest_ip
from_guest_ip_address addr tap n b e = sym (ap guest_ip (ok-injective e)) ∙ two_back addr b

listed_first :
    (n : NetworkAllocation) (us : List NetworkAllocation) (addr : ℕ)
    → guest_ip n ≡ addr
    → is_allocated (n ∷ us) addr ≡ true
listed_first n us addr e = ground arith

guest_ip_fits : (a : NetworkAllocator) (n : ℕ) → guest_ip (network_for_index a n) < u32_mod
unfolding network_for_index
guest_ip_fits a n = omega arith

true≢false : true ≢ false
true≢false h = cc

module _ (parsed_ip : String → Option (Option ℕ)) (ignored : MachineId) where
  -- The record of another machine that runs or starts, with a host and a device.
  abbrev pub IsInUse : MachineRecord → Type 0
  IsInUse r =
      ((r.id =? ignored) ≡ false)
      × (is_active r.phase ≡ true)
      × (is_blank r.runtime_host ≡ false)
      × (is_blank r.tap_device ≡ false)

  -- The guest address of the record is in the list.
  abbrev pub IsListed : List NetworkAllocation → MachineRecord → Type 0
  IsListed used r =
      IsInUse r
      → (addr : ℕ) → parsed_ip r.runtime_host ≡ some (some addr)
      → addr < u32_mod
      → is_allocated used addr ≡ true

  IsListed-more :
      (n : NetworkAllocation) (used : List NetworkAllocation) (rs : List MachineRecord)
      → All (IsListed used) rs
      → All (IsListed (n ∷ used)) rs
  IsListed-more n used [] h = tt
  IsListed-more n used (r ∷ rs) h =
      (λ u addr p b. ground (arith, h.0 u addr p b), IsListed-more n used rs h.1)

  skipped_unused : (r : MachineRecord) → is_skipped ignored r ≡ true → IsInUse r → ⊥
  skipped_unused r c u = ground arith

  -- The networks that listRunningNetworks returns have the guest address of every other machine that
  -- runs or starts.
  pub networks_of-IsListed :
      (records : List MachineRecord) (used : List NetworkAllocation)
      → networks_of parsed_ip ignored records ≡ ok used
      → All (IsListed used) records
  unfolding networks_of Boot.with_network allocation_from_guest_ip
  networks_of-IsListed [] used e = tt
  networks_of-IsListed (r ∷ records) used e = elim (Bool-cases (is_skipped ignored r)) [
    | inl c ↦
        (λ u addr p b. absurd (skipped_unused r c u), networks_of-IsListed records used (rw c at e))
    | inr c ↦
        let (n, us, q, f, g) =
          with_network_ok (allocation_from_guest_ip (parsed_ip r.runtime_host) r.tap_device)
            (networks_of parsed_ip ignored records) used (rw c at e) in
        subst (λ x. All (IsListed x) (r ∷ records)) (sym g)
          (
            λ u addr p b.
                listed_first n us addr (from_guest_ip_address addr r.tap_device n b (rw p at q)),
            IsListed-more n us records (networks_of-IsListed records us f),
          )
  ]

  not_listed :
      (used : List NetworkAllocation) (ip : ℕ) (rs : List MachineRecord)
      → ip < u32_mod
      → is_allocated used ip ≡ false
      → All (IsListed used) rs
      → All (λ r. IsInUse r → parsed_ip r.runtime_host ≢ some (some ip)) rs
  not_listed used ip [] b f h = tt
  not_listed used ip (r ∷ rs) b f h =
      (λ u p. true≢false (sym (h.0 u ip p b) ∙ f), not_listed used ip rs b f h.1)

  -- If listRunningNetworks returns and the allocator finds a network beside those, the guest address of
  -- that network is not the host of any other machine that runs or starts with a host and a device.
  pub allocate_apart :
      (a : NetworkAllocator) (records : List MachineRecord) (used : List NetworkAllocation)
      (network : NetworkAllocation)
      → networks_of parsed_ip ignored records ≡ ok used
      → allocate a used ≡ ok network
      → All (λ r. IsInUse r → parsed_ip r.runtime_host ≢ some (some (guest_ip network))) records
  allocate_apart a records used network e f =
      let (n, p, q, i, g, k) =
        subst (FirstFree a used 0 (total_subnets a)) f (allocate-FirstFree a used) in
      not_listed used (guest_ip network) records (rw i (guest_ip_fits a n)) g
        (networks_of-IsListed records used e)
