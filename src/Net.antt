-- ===== src/Net.antt =====
-- The address helpers of dsmip-ha/dual-stack-mobile-ipv6-lh/common.h.
-- An `in_addr` is the number of its 32-bit word in memory. Words 0 to 2 of an `in6_addr` are read in
-- network order, so that `htonl` of a constant is the constant; word 3 is only copied or compared.
use dsmip.Common.{
  ℕ, Bool, true, ◌&&◌, ◌≡◌, ◌↔◌, Option, none, some, arith, ◌==◌, ==_refl, if◌then◌else◌,
}

-- `struct in6_addr`, by its `s6_addr32` words.
pub record In6Addr : Type 0 where
  pub w0 : ℕ
  pub w1 : ℕ
  pub w2 : ℕ
  pub w3 : ℕ

-- `memcmp(&a, &b, sizeof(struct in6_addr)) == 0`
unfoldable pub v6_eq : In6Addr → In6Addr → Bool
v6_eq a b = a.w0 == b.w0 && (a.w1 == b.w1 && (a.w2 == b.w2 && a.w3 == b.w3))

-- `IN6_IS_ADDR_V4MAPPED`
unfoldable pub is_v4mapped : In6Addr → Bool
is_v4mapped a = a.w0 == 0 && (a.w1 == 0 && a.w2 == 0xffff)

-- `none` where the function returns 0 and leaves `*a4` alone.
unfoldable pub ipv6_unmap_addr : In6Addr → Option ℕ
unfolding is_v4mapped
ipv6_unmap_addr a6 = if is_v4mapped a6 then some a6.w3 else none

unfoldable pub ipv6_map_addr : ℕ → In6Addr
ipv6_map_addr a4 = record { w0 = 0; w1 = 0; w2 = 0xffff; w3 = a4 }

pub v6_eq_refl : (a : In6Addr) → v6_eq a a ≡ true
unfolding v6_eq
v6_eq_refl a = ground (arith, ==_refl a.w0, ==_refl a.w1, ==_refl a.w2, ==_refl a.w3)

pub v6_eq_sound : (a b : In6Addr) → v6_eq a b ≡ true → a ≡ b
unfolding v6_eq
v6_eq_sound a b h = ground arith

-- Unmapping accepts exactly the addresses that mapping an IPv4 address gives, and gives it back.
ipv6_unmap_addr-map : (a : In6Addr) (v : ℕ) → (ipv6_unmap_addr a ≡ some v) ↔ (a ≡ ipv6_map_addr v)
unfolding ipv6_unmap_addr ipv6_map_addr
ipv6_unmap_addr-map a v = (λ h. ground arith, λ h. ground arith)
