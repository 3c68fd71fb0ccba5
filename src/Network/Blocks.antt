-- ===== src/Network/Blocks.antt =====
-- The networks that the allocator hands out are the /30 blocks of its prefix, with no wrap-around.
use native.Mathlib.Nat.{div-add-mod', div-lt_iff_lt-mul, mul-le-mul_right, mul-mod_left}
use native.Mathlib.Decide.{ℕ_discrete}
use computer_host.Base.{
  ℕ, zero, suc, ◌+◌, ◌-◌, ◌*◌, ◌/◌, ◌%◌, ◌^◌, ◌≤◌, ◌<◌, ◌≡◌, refl, Bool, true, ok, arith,
  Bool-cases, inl, inr, some, ◌==◌, ==_iff, ◌&&◌, String, trim_space, ap, ltb, subst,
}
use computer_host.Network.{
  Prefix, NetworkAllocator, guest_ip, network_for_index, network_at, masked, total_subnets,
  new_network_allocator, allocation_from_guest_ip, u32_mod,
}

-- A table of the sizes of all prefixes is computed and then read.
up_to : (ℕ → Bool) → ℕ → Bool
up_to test zero = test 0
up_to test (suc last) = up_to test last && test (suc last)

module _ (test : ℕ → Bool) where
  up_to_lem : (last b : ℕ) → b ≤ last → up_to test last ≡ true → test b ≡ true
  unfolding up_to
  up_to_lem zero b le t = let e : 0 ≡ b = omega arith in subst (λ i. test i ≡ true) e t
  up_to_lem (suc last) b le t = elim (ℕ_discrete (suc last) b) [
    | yes e ↦ subst (λ i. test i ≡ true) e (ground arith)
    | no n ↦ up_to_lem last b (omega arith) (ground arith)
  ]

-- The addresses of a prefix of at most 30 bits, by the number of its blocks.
block_table : up_to (λ b. 2 ^ (32 - b) == (4 * 2 ^ (30 - b))) 30 ≡ true
unfolding up_to
block_table = refl

size_blocks : (b : ℕ) → b ≤ 30 → 2 ^ (32 - b) ≡ 4 * 2 ^ (30 - b)
size_blocks b h =
    (==_iff _ _).0 (up_to_lem (λ b. 2 ^ (32 - b) == (4 * 2 ^ (30 - b))) 30 b h block_table)

prefix_table : up_to (λ b. (2 ^ b * 2 ^ (32 - b)) == u32_mod) 30 ≡ true
unfolding up_to
prefix_table = refl

size_prefix : (b : ℕ) → b ≤ 30 → 2 ^ b * 2 ^ (32 - b) ≡ u32_mod
size_prefix b h =
    (==_iff _ _).0 (up_to_lem (λ b. (2 ^ b * 2 ^ (32 - b)) == u32_mod) 30 b h prefix_table)

-- The prefix is of at most 30 bits, its address is a multiple of its size, and it ends by 2^32.
pub record IsMasked (a : NetworkAllocator) : Type 0 where
  pub short : a.base_prefix.bits ≤ 30
  pub aligned : a.base_prefix.addr % 2 ^ (32 - a.base_prefix.bits) ≡ 0
  pub fits : a.base_prefix.addr + 2 ^ (32 - a.base_prefix.bits) ≤ u32_mod

pos_factor : (n m : ℕ) → n * m ≡ u32_mod → 0 < m
pos_factor n zero e = absurd (omega arith)
pos_factor n (suc m) e = omega arith

-- Masking an address to a multiple of a power of two.
masked_fits :
    (addr m n : ℕ)
    → n * m ≡ u32_mod
    → addr < u32_mod
    → ((addr - addr % m) % m ≡ 0) × (addr - addr % m + m ≤ u32_mod)
masked_fits addr m n e h =
    let q : addr - addr % m ≡ addr / m * m = omega (arith, div-add-mod' addr m) in
    let below : addr / m < n = (div-lt_iff_lt-mul (pos_factor n m e)).1 (rw e h) in
    let room : (addr / m + 1) * m ≤ n * m = mul-le-mul_right m (omega (arith, below)) in
    (rw q (mul-mod_left (addr / m) m), omega (arith, q, room, e))

masked-IsMasked :
    (prefix : Prefix)
    → prefix.addr < u32_mod
    → prefix.bits ≤ 30
    → IsMasked (record { base_prefix = masked prefix })
unfolding masked
masked-IsMasked prefix h bound =
    let (p, q) =
      masked_fits prefix.addr (2 ^ (32 - prefix.bits)) (2 ^ prefix.bits)
        (size_prefix prefix.bits bound) h in
    record { short = bound; aligned = p; fits = q }

-- The allocator that NewNetworkAllocator makes of an IPv4 prefix is masked: a prefix of at most 30
-- bits whose address is a multiple of its size and which ends by 2^32.
pub new_network_allocator-IsMasked :
    (prefix : Prefix) (a : NetworkAllocator)
    → prefix.addr < u32_mod
    → new_network_allocator (some (true, prefix)) ≡ ok a
    → IsMasked a
unfolding new_network_allocator
new_network_allocator-IsMasked prefix a h e = elim (Bool-cases (ltb 30 prefix.bits)) [
  | inl long ↦ ground arith
  | inr short ↦
      subst IsMasked (ground (arith, e, short)) (masked-IsMasked prefix h (ground (arith, short)))
]

less_two : (s : ℕ) → s < u32_mod → ((s + 2) % u32_mod + u32_mod - 2) % u32_mod ≡ s
less_two s h = omega arith

module _ (a : NetworkAllocator) (i : ℕ) (masked : IsMasked a) (below : i < total_subnets a) where
  -- Block `i` of the prefix: its host and guest addresses are the second and the third of its four, and
  -- all four lie in the prefix.
  pub network_for_index_block :
      ((network_for_index a i).host_cidr.addr ≡ a.base_prefix.addr + 4 * i + 1)
      × (guest_ip (network_for_index a i) ≡ a.base_prefix.addr + 4 * i + 2)
      × ((network_for_index a i).gateway_ip ≡ a.base_prefix.addr + 4 * i + 1)
      × (a.base_prefix.addr + 4 * i + 4 ≤ a.base_prefix.addr + 2 ^ (32 - a.base_prefix.bits))
  unfolding network_for_index
  network_for_index_block = omega (arith, size_blocks a.base_prefix.bits masked.short, masked.fits)

  -- Rebuilding the allocation of a machine from its guest address and a tap name gives back the host
  -- address, the gateway and the hardware address that it was allocated with.
  pub from_guest_ip-network_for_index :
      (tap_name : String)
      → allocation_from_guest_ip (some (some (guest_ip (network_for_index a i)))) tap_name
        ≡ ok (record (network_for_index a i) { tap_name = trim_space tap_name })
  unfolding allocation_from_guest_ip network_for_index
  from_guest_ip-network_for_index tap_name =
      ap (λ x. ok (network_at x (trim_space tap_name)))
        (less_two ((a.base_prefix.addr + i * 4 % u32_mod) % u32_mod) (omega arith))
