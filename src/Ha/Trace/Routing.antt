-- ===== src/Ha/Trace/Routing.antt =====
-- The kernel's tunnels and the routes of a table, as the requests of ha.c leave them: a route goes with
-- its interface, and where a destination has a route, another one is refused (`NLM_F_EXCL` in rtnl.h).
use dsmip.Common.{
  ℕ, ℤ, ◌==ℤ◌, ◌≡◌, Bool, true, false, ◌&&◌, is_pos, Option, none, some, [], ◌∷◌, ◌==◌,
  if◌then◌else◌,
}
use dsmip.Net.{In6Addr, v6_eq}
use dsmip.Ha.State.{
  Kernel, Log, Request, Table, route4_add, route4_del, route_add, route_del, tunnel44_add,
  tunnel44_del, tunnel64_add, tunnel64_del, tunnel66_add, tunnel66_del,
}
use dsmip.Ha.Trace.{same_table}

-- A kind of tunnel and its end points.
pub data Ends : Type 0 where
  ends44 ends64 ends66 : In6Addr → In6Addr → Ends

abbrev pub is44 : Option Ends → Bool
is44 (some (ends44 l r)) = true
is44 _ = false

abbrev pub is64 : Option Ends → Bool
is64 (some (ends64 l r)) = true
is64 _ = false

abbrev pub is66 : Option Ends → Bool
is66 (some (ends66 l r)) = true
is66 _ = false

abbrev pub ends_of : Request → Option Ends
ends_of (tunnel44_add l r k) = some (ends44 l r)
ends_of (tunnel64_add l r k) = some (ends64 l r)
ends_of (tunnel66_add l r k) = some (ends66 l r)
ends_of _ = none

-- A request to add a tunnel gives its index a tunnel, unless it has one.
abbrev given : Bool → Ends → Option Ends → Option Ends
given true e o = some e
given false e o = o

abbrev taken : Bool → Option Ends → Option Ends
taken true o = none
taken false o = o

-- The tunnel of an index.
abbrev pub tunnel_of : Kernel → ℤ → Log → Option Ends
tunnel_of kernel i [] = none
tunnel_of kernel i (tunnel44_add l r k ∷ log) =
    given (kernel (tunnel44_add l r k ∷ log) ==ℤ i) (ends44 l r) (tunnel_of kernel i log)
tunnel_of kernel i (tunnel64_add l r k ∷ log) =
    given (kernel (tunnel64_add l r k ∷ log) ==ℤ i) (ends64 l r) (tunnel_of kernel i log)
tunnel_of kernel i (tunnel66_add l r k ∷ log) =
    given (kernel (tunnel66_add l r k ∷ log) ==ℤ i) (ends66 l r) (tunnel_of kernel i log)
tunnel_of kernel i (tunnel44_del j ∷ log) = taken (j ==ℤ i) (tunnel_of kernel i log)
tunnel_of kernel i (tunnel64_del j ∷ log) = taken (j ==ℤ i) (tunnel_of kernel i log)
tunnel_of kernel i (tunnel66_del j ∷ log) = taken (j ==ℤ i) (tunnel_of kernel i log)
tunnel_of kernel i (_ ∷ log) = tunnel_of kernel i log

-- Where the index that a request for a tunnel is answered with, if it succeeds, has a tunnel already, that one has the
-- end points asked for (`ipip_tunnel_locate` of tnls/ipip/ipip.c and its like).
pub record IsDriver (kernel : Kernel) : Type 0 where
  pub same :
      (q : Request) (e e' : Ends) (log : Log)
      → ends_of q ≡ some e
      → is_pos (kernel (q ∷ log)) ≡ true
      → tunnel_of kernel (kernel (q ∷ log)) log ≡ some e'
      → e' ≡ e

abbrev exists : Option Ends → Bool
exists none = false
exists (some e) = true

abbrev is_device : Kernel → ℤ → Log → Bool
is_device kernel i log = is_pos i && exists (tunnel_of kernel i log)

-- A route through `j` is asked for: nothing if there is a route, or no such interface.
abbrev routed : Bool → ℤ → Option ℤ → Option ℤ
routed b j (some i) = some i
routed true j none = some j
routed false j none = none

-- The route through `j` goes.
abbrev unrouted : ℤ → Option ℤ → Option ℤ
unrouted j none = none
unrouted j (some i) = if j ==ℤ i then none else some i

-- The interface of the route to a destination, in a table.
abbrev pub via4 : Kernel → Table → ℕ → Log → Option ℤ
via4 kernel t dst [] = none
via4 kernel t dst (route4_add j u d ∷ log) =
    if same_table u t && d == dst
    then routed (is_device kernel j log) j (via4 kernel t dst log)
    else via4 kernel t dst log
via4 kernel t dst (route4_del j u d ∷ log) =
    if same_table u t && d == dst then unrouted j (via4 kernel t dst log) else via4 kernel t dst log
via4 kernel t dst (tunnel44_del j ∷ log) = unrouted j (via4 kernel t dst log)
via4 kernel t dst (tunnel64_del j ∷ log) = unrouted j (via4 kernel t dst log)
via4 kernel t dst (tunnel66_del j ∷ log) = unrouted j (via4 kernel t dst log)
via4 kernel t dst (_ ∷ log) = via4 kernel t dst log

abbrev pub via6 : Kernel → Table → In6Addr → Log → Option ℤ
via6 kernel t dst [] = none
via6 kernel t dst (route_add j u d ∷ log) =
    if same_table u t && v6_eq d dst
    then routed (is_device kernel j log) j (via6 kernel t dst log)
    else via6 kernel t dst log
via6 kernel t dst (route_del j u d ∷ log) =
    if same_table u t && v6_eq d dst
    then unrouted j (via6 kernel t dst log)
    else via6 kernel t dst log
via6 kernel t dst (tunnel44_del j ∷ log) = unrouted j (via6 kernel t dst log)
via6 kernel t dst (tunnel64_del j ∷ log) = unrouted j (via6 kernel t dst log)
via6 kernel t dst (tunnel66_del j ∷ log) = unrouted j (via6 kernel t dst log)
via6 kernel t dst (_ ∷ log) = via6 kernel t dst log
