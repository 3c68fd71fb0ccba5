-- ===== src/Network.antt =====
-- internal/firecracker/network.go: the /30 networks of the machines. Addresses are IPv4 addresses, kept
-- as 32-bit numbers.
pub mod Allocate
pub mod Blocks
use Prim.Native.String.{◌++◌}
use computer_host.Base.{
  ℕ, zero, suc, ◌+◌, ◌-◌, ◌*◌, ◌/◌, ◌%◌, ◌^◌, String, Bool, true, false, Outcome, ok, err, message,
  Option, none, some, List, decimal, hex_byte, trim_space, ltb, if◌then◌else◌, some_of, ◌==◌,
}

abbrev pub u32_mod : ℕ
u32_mod = 2 ^ 32

-- netip.Prefix.
pub record Prefix : Type 0 where
  pub addr : ℕ
  pub bits : ℕ

pub record NetworkAllocation : Type 0 where
  pub interface_id : String
  pub tap_name : String
  pub host_cidr : Prefix
  pub guest_cidr : Prefix
  pub gateway_ip : ℕ
  pub guest_mac : String

pub record NetworkAllocator : Type 0 where
  pub base_prefix : Prefix

-- GuestIP.
abbrev pub guest_ip : NetworkAllocation → ℕ
guest_ip network = network.guest_cidr.addr

-- The byte of an address that has `2 ^ k` for its lowest bit.
abbrev byte_at : ℕ → ℕ → ℕ
byte_at k ip = ip / 2 ^ k % 256

pub mac_for_ipv4 : ℕ → String
mac_for_ipv4 ip =
    "06:00:"
    ++ (hex_byte (byte_at 24 ip)
        ++ (":"
            ++ (hex_byte (byte_at 16 ip)
                ++ (":" ++ (hex_byte (byte_at 8 ip) ++ (":" ++ hex_byte (byte_at 0 ip)))))))

-- The network whose block of four addresses begins at `subnet_base`.
abbrev pub network_at : ℕ → String → NetworkAllocation
network_at subnet_base tap_name =
    let host_ip = (subnet_base + 1) % u32_mod in
    let guest = (subnet_base + 2) % u32_mod in
    record {
      interface_id = "net0";
      tap_name = tap_name;
      host_cidr = record { addr = host_ip; bits = 30 };
      guest_cidr = record { addr = guest; bits = 30 };
      gateway_ip = host_ip;
      guest_mac = mac_for_ipv4 guest;
    }

-- AllocationFromGuestIP. Its first argument is what net.ParseIP and To4 make of the trimmed text: no
-- address, an address that is no IPv4 address, or an IPv4 address.
unfoldable pub allocation_from_guest_ip : Option (Option ℕ) → String → Outcome NetworkAllocation
allocation_from_guest_ip none tap_name = err (message "parse guest ip" "")
allocation_from_guest_ip (some none) tap_name = err (message "guest ip must be IPv4" "")
allocation_from_guest_ip (some (some addr)) tap_name =
    ok (network_at ((addr + u32_mod - 2) % u32_mod) (trim_space tap_name))

-- Prefix.Masked, of an IPv4 prefix of at most 32 bits.
unfoldable pub masked : Prefix → Prefix
masked prefix = record prefix { addr = prefix.addr - prefix.addr % 2 ^ (32 - prefix.bits) }

-- NewNetworkAllocator, after netip.ParsePrefix: the parsed prefix, and whether it is an IPv4 one.
unfoldable pub new_network_allocator : Option (Bool × Prefix) → Outcome NetworkAllocator
new_network_allocator none = err (message "parse network cidr" "")
new_network_allocator (some (false, prefix)) = err (message "network cidr must be IPv4" "")
new_network_allocator (some (true, prefix)) =
    if ltb 30 prefix.bits
    then err (message "network cidr must be no more specific than /30" "")
    else ok (record { base_prefix = masked prefix })

-- networkForIndex, whose index is never negative here.
unfoldable pub network_for_index : NetworkAllocator → ℕ → NetworkAllocation
network_for_index a index =
    network_at ((a.base_prefix.addr + index * 4 % u32_mod) % u32_mod) ("fctap" ++ decimal index)

-- The number of /30 blocks in the prefix.
abbrev pub total_subnets : NetworkAllocator → ℕ
total_subnets a = 2 ^ (30 - a.base_prefix.bits)

-- Whether an address is in the set `allocated`.
abbrev pub is_allocated : List NetworkAllocation → ℕ → Bool
is_allocated used ip = some_of (λ network. guest_ip network == ip) used

-- The loop of Allocate with `rounds` indices left, the next being `i`.
unfoldable pub allocate_from :
    NetworkAllocator → List NetworkAllocation → ℕ → ℕ → Outcome NetworkAllocation
allocate_from a used zero i = err (message "network cidr is exhausted" "")
allocate_from a used (suc rounds) i =
    let rest = allocate_from a used rounds (i + 1) in
    let network = network_for_index a i in
    if is_allocated used (guest_ip network) then rest else ok network

-- Allocate.
unfoldable pub allocate : NetworkAllocator → List NetworkAllocation → Outcome NetworkAllocation
unfolding allocate_from
allocate a used = allocate_from a used (total_subnets a) 0
