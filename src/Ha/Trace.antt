-- ===== src/Ha/Trace.antt =====
-- What a log of requests says about routes, rules, tunnels and encapsulations, read without regard to
-- the code that made it: a thing is up if the newest request about it is the one that sets it up. What
-- the kernel refuses or takes down by itself is in Routing, for routes and their tunnels.
pub mod Detour
pub mod Routing
pub mod Routed
pub mod Main
pub mod Tunnels
pub mod Leaks
pub mod Encap
use dsmip.Common.{
  ℕ, ℤ, ◌==ℤ◌, Bool, true, false, ◌&&◌, Option, none, some, List, [], ◌∷◌, ◌==◌, if◌then◌else◌,
}
use dsmip.Net.{In6Addr, v6_eq}
use dsmip.Ha.State.{
  Kernel, Log, Request, Table, mobile, mobile_tmp, route4_add, route4_del, route_add, route_del,
  rule4_add, rule4_del, rule_add, rule_del, tunnel44_add, tunnel44_del, tunnel64_add, tunnel64_del,
  tunnel66_add, tunnel66_del, start_udp_encap, stop_udp_encap,
}

-- What a request does to one thing: set it up (true), take it down (false), or neither.
abbrev pub Effect : Type 0
Effect = Request → Option Bool

abbrev pub up : Effect → Log → Bool
up e [] = false
up e (r ∷ log) = elim (e r) [ none ↦ up e log | some b ↦ b ]

abbrev pub same_table : Table → Table → Bool
same_table mobile mobile = true
same_table mobile mobile_tmp = false
same_table mobile_tmp mobile = false
same_table mobile_tmp mobile_tmp = true

abbrev when : Bool → Bool → Option Bool
when true b = some b
when false b = none

-- The rule that sends traffic for this destination to the table.
abbrev pub rule4 : Table → ℕ → Effect
rule4 t dst (rule4_add u d) = when (same_table u t && d == dst) true
rule4 t dst (rule4_del u d) = when (same_table u t && d == dst) false
rule4 t dst _ = none

abbrev pub rule6 : Table → In6Addr → Effect
rule6 t dst (rule_add u d) = when (same_table u t && v6_eq d dst) true
rule6 t dst (rule_del u d) = when (same_table u t && v6_eq d dst) false
rule6 t dst _ = none

-- The UDP encapsulation of a node's traffic, known by all its arguments.
abbrev pub encap : In6Addr → ℕ → ℕ → ℕ → ℕ → Effect
encap hoav6 hoav4 src dst port (start_udp_encap a b c d e) =
    when (v6_eq a hoav6 && (b == hoav4 && (c == src && (d == dst && e == port)))) true
encap hoav6 hoav4 src dst port (stop_udp_encap a b c d e) =
    when (v6_eq a hoav6 && (b == hoav4 && (c == src && (d == dst && e == port)))) false
encap hoav6 hoav4 src dst port _ = none

-- A tunnel is known by the index that the kernel answered when it was added.
module _ (kernel : Kernel) (i : ℤ) where
  abbrev pub tunnel44_up : Log → Bool
  tunnel44_up [] = false
  tunnel44_up (tunnel44_add l r k ∷ log) =
      if kernel (tunnel44_add l r k ∷ log) ==ℤ i then true else tunnel44_up log
  tunnel44_up (tunnel44_del j ∷ log) = if j ==ℤ i then false else tunnel44_up log
  tunnel44_up (_ ∷ log) = tunnel44_up log

  abbrev pub tunnel64_up : Log → Bool
  tunnel64_up [] = false
  tunnel64_up (tunnel64_add l r k ∷ log) =
      if kernel (tunnel64_add l r k ∷ log) ==ℤ i then true else tunnel64_up log
  tunnel64_up (tunnel64_del j ∷ log) = if j ==ℤ i then false else tunnel64_up log
  tunnel64_up (_ ∷ log) = tunnel64_up log

  abbrev pub tunnel66_up : Log → Bool
  tunnel66_up [] = false
  tunnel66_up (tunnel66_add l r k ∷ log) =
      if kernel (tunnel66_add l r k ∷ log) ==ℤ i then true else tunnel66_up log
  tunnel66_up (tunnel66_del j ∷ log) = if j ==ℤ i then false else tunnel66_up log
  tunnel66_up (_ ∷ log) = tunnel66_up log
