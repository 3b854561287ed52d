-- ===== src/Mobile/Pool.antt =====
-- The pool of tunnels of mn/tunlctl.h. `tunnel66_add`, `tunnel64_add` and `tunnel44_add` differ in the
-- type and in the part of `tunnel_pool`, 25 entries from 0, 75 and 50 on; here a part is a list, and an
-- index counts from its beginning. `type==0` is `is_used` false.
pub mod Found
pub mod Again
use dsmip.Common.{
  ℕ, zero, suc, ◌+◌, ℤ, Bool, true, false, not, ◌&&◌, List, [], ◌∷◌, get_elem?, Option, none, some,
  ltb, ◌==◌, if◌then◌else◌,
}
use dsmip.Net.{In6Addr, v6_eq}
use dsmip.Mobile.Handoff.{find_iface}

-- `struct Tunnel_data`
pub record Tunnel : Type 0 where
  pub is_used : Bool
  pub src : In6Addr
  pub dst : In6Addr
  pub link : ℕ
  pub ifindex : ℤ
  pub last_access : ℕ

-- `_tunnelXX_add` and `_tunnelXX_del`
pub data Ioctl : Type 0 where
  create : In6Addr → In6Addr → ℕ → Ioctl
  destroy : ℤ → Ioctl

-- The answer to the newest call: the new tunnel's index, or -1.
abbrev pub Driver : Type 0
Driver = List Ioctl → ℤ

pub record Pool : Type 0 where
  pub tunnels : List Tunnel
  pub calls : List Ioctl

-- `return i`, with the feedback 0; `return replacei` with the feedback 1, `none` for -1.
pub data Slot : Type 0 where
  at : ℕ → Slot
  instead_of : Option ℕ → Slot

abbrev pub matches : In6Addr → In6Addr → ℕ → Tunnel → Bool
matches src dst link t = v6_eq src t.src && (v6_eq dst t.dst && link == t.link)

unfoldable pub find_from : In6Addr → In6Addr → ℕ → ℕ → ℕ → Option ℕ → List Tunnel → Slot
find_from src dst link i min replacei [] = instead_of replacei
find_from src dst link i min replacei (t ∷ ts) =
    let is_older = ltb t.last_access min in
    let later =
      find_from src dst link (i + 1) (if is_older then t.last_access else min)
        (if is_older then some i else replacei) ts in
    if not t.is_used then at i else if matches src dst link t then at i else later

unfoldable pub find_tunnel : In6Addr → In6Addr → ℕ → List Tunnel → Slot
unfolding find_from
find_tunnel src dst link ts = find_from src dst link 0 0x7fffffff none ts

abbrev pub put : ℕ → Tunnel → List Tunnel → List Tunnel
put i t [] = []
put zero t (u ∷ ts) = t ∷ ts
put (suc i) t (u ∷ ts) = u ∷ put i t ts

-- The result, and the pool; `none` where the code reads or writes outside the array.
pub record Added : Type 0 where
  pub ifindex : ℤ
  pub pool : Pool

abbrev pub fresh : Driver → In6Addr → In6Addr → ℕ → ℕ → ℕ → List Ioctl → List Tunnel → Added
fresh driver src dst link now i calls ts =
    let asked : List Ioctl = create src dst link ∷ calls in
    let ifindex = driver asked in
    let t : Tunnel = record {
      is_used = true;
      src = src;
      dst = dst;
      link = link;
      ifindex = ifindex;
      last_access = now;
    } in
    record { ifindex = ifindex; pool = record { tunnels = put i t ts; calls = asked } }

-- An entry that is found: in use, its tunnel is reused; free, it gets a new one.
abbrev pub hand_out : Driver → In6Addr → In6Addr → ℕ → ℕ → ℕ → Pool → Option Tunnel → Option Added
hand_out driver src dst link now i p none = none
hand_out driver src dst link now i p (some t) = some (
    if t.is_used
    then record {
      ifindex = t.ifindex;
      pool = record p { tunnels = put i (record t { last_access = now }) p.tunnels };
    }
    else fresh driver src dst link now i p.calls p.tunnels)

-- An entry that is replaced: its tunnel is deleted first.
abbrev pub make_room : Driver → In6Addr → In6Addr → ℕ → ℕ → ℕ → Pool → Option Tunnel → Option Added
make_room driver src dst link now i p none = none
make_room driver src dst link now i p (some t) =
    some (fresh driver src dst link now i (destroy t.ifindex ∷ p.calls) p.tunnels)

abbrev pub add_at : Driver → In6Addr → In6Addr → ℕ → ℕ → Pool → Slot → Option Added
add_at driver src dst link now p (at i) =
    hand_out driver src dst link now i p (get_elem? p.tunnels i)
add_at driver src dst link now p (instead_of none) = none
add_at driver src dst link now p (instead_of (some i)) =
    make_room driver src dst link now i p (get_elem? p.tunnels i)

unfoldable pub tunnel_add : Driver → In6Addr → In6Addr → ℕ → ℕ → Pool → Option Added
unfolding find_tunnel
tunnel_add driver src dst link now p =
    add_at driver src dst link now p (find_tunnel src dst link p.tunnels)

-- `tunnelXX_del` does nothing.
unfoldable pub tunnel_del : ℤ → Pool → Pool
tunnel_del ifindex p = p

-- `tnl_cleanup` of the part: every entry's tunnel is deleted.
unfoldable pub tnl_cleanup : List Tunnel → List Ioctl → List Ioctl
tnl_cleanup [] calls = calls
tnl_cleanup (t ∷ ts) calls = tnl_cleanup ts (if t.is_used then destroy t.ifindex ∷ calls else calls)
