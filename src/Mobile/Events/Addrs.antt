-- ===== src/Mobile/Events/Addrs.antt =====
-- `process_addr` of mn/mn.c. The result is `none` where the code reads or writes outside `ifaces`. The
-- return value, which the caller does not read, is left out.
use dsmip.Common.{
  ℕ, Bool, true, false, not, ◌&&◌, ◌||◌, List, [], ◌∷◌, get_elem?, Option, none, some, ◌==◌, ltb,
  if◌then◌else◌,
}
use dsmip.Net.{In6Addr, v6_eq}
use dsmip.Mobile.State.{
  nifaces, Card, wlan, gprs, other_card, Flags, Iface, nat_probe_send, Env, Node, note,
}
use dsmip.Mobile.Handoff.Steps.{to_v6, to_v4, is_on_v6, is_on_v4, is_at_home}
use dsmip.Mobile.Handoff.{find_iface}
use dsmip.Mobile.Events.Slots.{zero_iface, edit_iface, find_slot, is_up, uint16, prefer, use_iface}

-- IFA_ADDRESS, by the family of the message.
pub data Addr : Type 0 where
  inet6 : In6Addr → Addr
  inet : ℕ → Addr
  other_family : Addr

-- A message: its type, its length, the fields of its `struct ifaddrmsg`, and which attributes it has.
pub record AddrMsg : Type 0 where
  pub is_new : Bool
  pub nlmsg_len : ℕ
  pub ifa_scope : ℕ
  pub ifa_index : ℕ
  pub addr : Addr
  pub has_address : Bool
  pub has_cacheinfo : Bool

abbrev pub is_wlan : Card → Bool
is_wlan wlan = true
is_wlan gprs = false
is_wlan other_card = false

abbrev pub is_other_card : Card → Bool
is_other_card other_card = true
is_other_card wlan = false
is_other_card gprs = false

abbrev pub both_up : Flags
both_up = record { up = true; running = true }

-- The end of a new IPv6 address: the handoff, if the interface is the preferred one.
unfoldable pub take6 : Env → In6Addr → ℕ → ℕ → Node → Node
unfolding prefer
take6 env a ifindex i n =
    let kept : Node = edit_iface (λ f. record f { invalidv6 = 0; coav6 = a }) i n in
    let p = if kept.auto_handoff_enabled == 0 then kept.preferred_ifindex else uint16 ifindex in
    if p == 0 || p == ifindex
    then prefer env (to_v6 a) (uint16 ifindex) kept
    else record kept { preferred_ifindex = p }

-- The entry that is filled in for an interface whose first address is IPv6.
abbrev pub first6 : Env → ℕ → Iface
first6 env ifindex = record zero_iface {
  ifindex = uint16 ifindex;
  flags = both_up;
  ifname = env.card_of (uint16 ifindex);
  invalidv4 = 1;
}

abbrev pub slot6 : Env → In6Addr → ℕ → ℕ → Node → Option Iface → Option Node
slot6 env a ifindex i n none = none
slot6 env a ifindex i n (some f) = some (
    if f.ifindex == 0
    then if is_other_card (env.card_of (uint16 ifindex))
      then edit_iface (λ g. zero_iface) i n
      else take6 env a ifindex i (edit_iface (λ g. first6 env ifindex) i n)
    else if is_up f.flags
    then take6 env a ifindex i n
    else n)

-- RT_SCOPE_UNIVERSE is 0.
unfoldable pub new_addr6 : Env → In6Addr → AddrMsg → Node → Option Node
unfolding find_slot take6
new_addr6 env a msg n =
    let m : Node = if n.consecutive_bu == 0 then n else record n { last_bu_t = 0 } in
    let i = find_slot msg.ifa_index m.ifaces in
    if msg.ifa_scope == 0 then slot6 env a msg.ifa_index i m (get_elem? m.ifaces i) else some m

-- The end of a new IPv4 address: a probe, and the handoff, if the interface is the preferred one.
unfoldable pub take4 : Env → ℕ → ℕ → ℕ → Iface → Node → Node
unfolding prefer
take4 env a ifindex i f n =
    let kept : Node =
      edit_iface
        (λ g. record g { invalidv4 = 0; flags = both_up; coav4 = a; last_nat_probe_t = env.uptime })
        i (note (nat_probe_send f.ifindex a) n) in
    let p = if n.preferred_ifindex == 0 then f.ifindex else n.preferred_ifindex in
    let q = if is_wlan f.ifname && not (n.auto_handoff_enabled == 0) then uint16 ifindex else p in
    if not (ifindex == q || q == 0)
    then record kept { preferred_ifindex = q }
    else if f.invalidv6 == 0
    then prefer env (to_v6 f.coav6) (uint16 ifindex) kept
    else prefer env (to_v4 true a) (uint16 ifindex) kept

abbrev pub known4 : Env → ℕ → ℕ → ℕ → Node → Option Iface → Option Node
known4 env a ifindex i n none = none
known4 env a ifindex i n (some f) = some (take4 env a ifindex i f n)

-- An interface without an entry: a free one, of which only these fields are set; -1 if none is free.
abbrev pub first4 : Env → ℕ → ℕ → ℕ → Node → Option Iface → Option Node
first4 env a ifindex i n none = some n
first4 env a ifindex i n (some f) =
    let card = env.card_of (uint16 ifindex) in
    let g : Iface = record f { ifindex = uint16 ifindex; ifname = card; invalidv6 = 1 } in
    some (
      if is_other_card card
      then edit_iface (λ h. zero_iface) i n
      else take4 env a ifindex i g (edit_iface (λ h. g) i n))

unfoldable pub new_addr4 : Env → ℕ → AddrMsg → Node → Option Node
unfolding find_iface take4
new_addr4 env a msg n =
    let i = find_iface msg.ifa_index n.ifaces in
    let j = find_iface 0 n.ifaces in
    if a == env.hoav4
    then some n
    else if i == nifaces
    then first4 env a msg.ifa_index j n (get_elem? n.ifaces j)
    else known4 env a msg.ifa_index i n (get_elem? n.ifaces i)

-- The loop over `ifaces` breaks at the end of its first pass, whatever the first entry is.
abbrev pub from_first : Env → ℕ → Node → List Iface → Option Node
from_first env ifindex n [] = none
from_first env ifindex n (f ∷ fs) = some (
    if f.ifindex == 0 || f.ifindex == ifindex
    then n
    else use_iface env f (prefer env (to_v6 env.hoav6) 0 n) n)

unfoldable pub leave_addr : Env → ℕ → Node → Option Node
unfolding use_iface
leave_addr env ifindex n =
    if n.auto_handoff_enabled == 0 then some n else from_first env ifindex n n.ifaces

abbrev pub forget6 : In6Addr → ℕ → Node → Node
forget6 a ifindex n =
    edit_iface
      (λ f.
        if v6_eq f.coav6 a
        then record f { coav6 = record { w0 = 0; w1 = 0; w2 = 0; w3 = 0 }; invalidv6 = 1 }
        else f)
      (find_iface ifindex n.ifaces) n

abbrev pub forget4 : ℕ → ℕ → Node → Node
forget4 a ifindex n =
    edit_iface (λ f. if f.coav4 == a then record f { coav4 = 0; invalidv4 = 1 } else f)
      (find_iface ifindex n.ifaces) n

abbrev pub and_then : Option Node → (Node → Node) → Option Node
and_then none g = none
and_then (some n) g = some (g n)

-- Is the address the care-of address in use?
abbrev pub is_current6 : In6Addr → ℕ → Node → Bool
is_current6 a ifindex n =
    (is_on_v6 n.current_coa_type || is_at_home n.current_coa_type)
    && (ifindex == n.current_ifindex && v6_eq n.current_coav6 a)

abbrev pub is_current4 : ℕ → ℕ → Node → Bool
is_current4 a ifindex n =
    is_on_v4 n.current_coa_type && (ifindex == n.current_ifindex && n.current_coav4 == a)

unfoldable pub del_addr6 : Env → In6Addr → AddrMsg → Node → Option Node
unfolding leave_addr find_iface
del_addr6 env a msg n =
    and_then (if is_current6 a msg.ifa_index n then leave_addr env msg.ifa_index n else some n)
      (forget6 a msg.ifa_index)

unfoldable pub del_addr4 : Env → ℕ → AddrMsg → Node → Option Node
unfolding leave_addr find_iface
del_addr4 env a msg n =
    and_then (if is_current4 a msg.ifa_index n then leave_addr env msg.ifa_index n else some n)
      (forget4 a msg.ifa_index)

abbrev pub by_family : Env → AddrMsg → Node → Addr → Option Node
by_family env msg n (inet6 a) = if msg.is_new then new_addr6 env a msg n else del_addr6 env a msg n
by_family env msg n (inet a) = if msg.is_new then new_addr4 env a msg n else del_addr4 env a msg n
by_family env msg n other_family = some n

abbrev pub is_inet : Addr → Bool
is_inet (inet a) = true
is_inet (inet6 a) = false
is_inet other_family = false

unfoldable pub is_ignored_addr : AddrMsg → Bool
is_ignored_addr msg =
    ltb msg.nlmsg_len 24
    || (not msg.has_address || (not msg.has_cacheinfo && not (is_inet msg.addr)))

unfoldable pub process_addr : Env → AddrMsg → Node → Option Node
unfolding new_addr6 new_addr4 del_addr6 del_addr4 is_ignored_addr
process_addr env msg n = if is_ignored_addr msg then some n else by_family env msg n msg.addr
