-- ===== src/Tests/OfNetwork.antt =====
-- The theorems on the networks, on 172.16.0.0/29.
use computer_host.Base.{
  ℕ, ◌+◌, ◌*◌, ◌-◌, ◌^◌, ◌≤◌, ◌≡◌, refl, true, ok, some, [], ◌∷◌, trim_space, arith,
}
use computer_host.Network.{
  Prefix, NetworkAllocator, guest_ip, network_for_index, allocation_from_guest_ip, allocate,
  total_subnets, new_network_allocator, masked,
}
use computer_host.Network.Allocate.{FirstFree, allocate-FirstFree}
use computer_host.Network.Blocks.{
  IsMasked, new_network_allocator-IsMasked, network_for_index_block,
  from_guest_ip-network_for_index,
}

-- 172.16.0.0
abbrev base : ℕ
base = 2886729728

abbrev two_blocks : NetworkAllocator
two_blocks = record { base_prefix = record { addr = base; bits = 29 } }

-- The prefix 172.16.0.3/29 as it is given.
abbrev given : Prefix
given = record { addr = 2886729731; bits = 29 }

two_blocks_made : new_network_allocator (some (true, given)) ≡ ok two_blocks
unfolding new_network_allocator masked
two_blocks_made = refl

two_blocks-IsMasked : IsMasked two_blocks
two_blocks-IsMasked = new_network_allocator-IsMasked given two_blocks (omega arith) two_blocks_made

new_network_allocator-IsMasked_example : IsMasked two_blocks
new_network_allocator-IsMasked_example =
    new_network_allocator-IsMasked given two_blocks (omega arith) two_blocks_made

network_for_index_block_example :
    ((network_for_index two_blocks 1).host_cidr.addr ≡ base + 4 * 1 + 1)
    × (guest_ip (network_for_index two_blocks 1) ≡ base + 4 * 1 + 2)
    × ((network_for_index two_blocks 1).gateway_ip ≡ base + 4 * 1 + 1)
    × (base + 4 * 1 + 4 ≤ base + 2 ^ (32 - 29))
network_for_index_block_example =
    network_for_index_block two_blocks 1 two_blocks-IsMasked (omega arith)

from_guest_ip-network_for_index_example :
    allocation_from_guest_ip (some (some (guest_ip (network_for_index two_blocks 1)))) " fctap1 "
    ≡ ok (record (network_for_index two_blocks 1) { tap_name = trim_space " fctap1 " })
from_guest_ip-network_for_index_example =
    from_guest_ip-network_for_index two_blocks 1 two_blocks-IsMasked (omega arith) " fctap1 "

-- The first block is in use, the second is free.
allocate-FirstFree_example :
    FirstFree two_blocks
      (network_for_index two_blocks 0 ∷ [])
      0
      (total_subnets two_blocks)
      (allocate two_blocks (network_for_index two_blocks 0 ∷ []))
allocate-FirstFree_example = allocate-FirstFree two_blocks (network_for_index two_blocks 0 ∷ [])
