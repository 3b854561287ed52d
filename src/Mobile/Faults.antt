-- ===== src/Mobile/Faults.antt =====
-- Which messages make `process_link` and `process_addr` of mn/mn.c leave the array `ifaces`.
mod Parts
pub use Parts.*
use dsmip.Common.{
  ℕ, zero, suc, ◌+◌, ◌≤◌, ◌≡◌, refl, ap, ◌∙◌, arith, Bool, true, false, not, ◌&&◌, ◌||◌, List, [],
  ◌∷◌, length, get_elem?, Option, none, some, Bool-cases, inl, inr, ◌==◌, leb, if◌then◌else◌,
}
use dsmip.Net.{In6Addr}
use dsmip.Mobile.State.{nifaces, Card, wlan, gprs, other_card, Iface, Env, Node}
use dsmip.Mobile.Handoff.{find_iface}
use dsmip.Mobile.Events.Slots.{find_slot}
use dsmip.Mobile.Events.Links.{
  LinkMsg, wlan_slot, gprs_slot, new_link, new_wlan, new_gprs, scan, go_other, wipe, del_link,
  is_ignored_link, process_link,
}
use dsmip.Mobile.Events.Addrs.{
  AddrMsg, Addr, inet6, inet, other_family, slot6, new_addr6, known4, first4, new_addr4, from_first,
  leave_addr, and_then, is_current6, is_current4, del_addr6, del_addr4, by_family, is_ignored_addr,
  process_addr,
}
use dsmip.Mobile.Entries.{Reachable-IsFull}
use dsmip.Mobile.Worker.{Nlmsg, link_msg, addr_msg, other_msg, process_nlmsg, Reachable}

-- Does the message make its handler leave the array?
abbrev pub link_leaves : Env → LinkMsg → List Iface → Bool
link_leaves env msg fs =
    not (is_ignored_link msg)
    && (if msg.is_new
        then is_card (env.card_of msg.ifi_index) && not (has_slot msg.ifi_index fs)
        else not (comes_first msg.ifi_index fs))

abbrev pub is_inet6 : Addr → Bool
is_inet6 (inet6 a) = true
is_inet6 (inet a) = false
is_inet6 other_family = false

abbrev pub addr_leaves : AddrMsg → List Iface → Bool
addr_leaves msg fs =
    not (is_ignored_addr msg)
    && (is_inet6 msg.addr
        && (msg.is_new && (msg.ifa_scope == 0 && not (has_slot msg.ifa_index fs))))

abbrev pub leaves_ifaces : Env → Nlmsg → List Iface → Bool
leaves_ifaces env (link_msg m) fs = link_leaves env m fs
leaves_ifaces env (addr_msg m) fs = addr_leaves m fs
leaves_ifaces env other_msg fs = false

module _ (env : Env) (n : Node) (len : length n.ifaces ≡ nifaces) where
  new_link-none :
      (msg : LinkMsg) (c : Card)
      → is_none (new_link env msg n c) ≡ (is_card c && not (has_slot msg.ifi_index n.ifaces))
  unfolding new_wlan new_gprs
  new_link-none msg wlan =
      wlan_slot-none env msg (find_slot msg.ifi_index n.ifaces) _ _
      ∙ find_slot-absent msg.ifi_index n.ifaces len
  new_link-none msg gprs =
      gprs_slot-none msg (find_slot msg.ifi_index n.ifaces) n _
      ∙ find_slot-absent msg.ifi_index n.ifaces len
  new_link-none msg other_card = refl

  del_link-none :
      (msg : LinkMsg) → is_none (del_link env msg n) ≡ not (comes_first msg.ifi_index n.ifaces)
  unfolding del_link
  del_link-none msg =
      wipe-none _ (go_other env (scan msg.ifi_index 0 none n.ifaces).other n)
      ∙ ap (λ b. not b) (scan-id msg.ifi_index 0 none n.ifaces)

  new_addr6-none :
      (a : In6Addr) (msg : AddrMsg)
      → is_none (new_addr6 env a msg n)
        ≡ (msg.ifa_scope == 0 && not (has_slot msg.ifa_index n.ifaces))
  unfolding new_addr6
  new_addr6-none a msg =
      let m : Node = if n.consecutive_bu == 0 then n else record n { last_bu_t = 0 } in
      let i = find_slot msg.ifa_index m.ifaces in
      let same : m.ifaces ≡ n.ifaces = ground arith in
      let full : length m.ifaces ≡ nifaces = rw same len in
      let there : has_slot msg.ifa_index m.ifaces ≡ has_slot msg.ifa_index n.ifaces =
        ap (has_slot msg.ifa_index) same in
      let slot : is_none (slot6 env a msg.ifa_index i m (get_elem? m.ifaces i))
          ≡ not (has_slot msg.ifa_index n.ifaces) =
        slot6-none env a msg.ifa_index i m _
        ∙ find_slot-absent msg.ifa_index m.ifaces full
        ∙ ap (λ b. not b) there in
      elim (Bool-cases (msg.ifa_scope == 0)) [
        | inl e ↦ rw (new_addr6, e) slot
        | inr e ↦ rw (new_addr6, e) refl
      ]

  new_addr4-none : (a : ℕ) (msg : AddrMsg) → is_none (new_addr4 env a msg n) ≡ false
  unfolding new_addr4
  new_addr4-none a msg =
      let i = find_iface msg.ifa_index n.ifaces in
      let j = find_iface 0 n.ifaces in
      elim (Bool-cases (a == env.hoav4)) [
        | inl e ↦ rw (new_addr4, e) refl
        | inr e ↦ elim (Bool-cases (i == nifaces)) [
          | inl f ↦ rw (new_addr4, e, f) (first4-none env a msg.ifa_index j n _)
          | inr f ↦
              rw (new_addr4, e, f)
                (known4-none env a msg.ifa_index i n (get_elem? n.ifaces i)
                  ∙ get_elem?-absent n.ifaces i
                  ∙ ground (arith, len, f, find_iface-le msg.ifa_index n.ifaces))
        ]
      ]

  leave_addr-none : (ifindex : ℕ) → is_none (leave_addr env ifindex n) ≡ false
  unfolding leave_addr
  leave_addr-none ifindex = elim (Bool-cases (n.auto_handoff_enabled == 0)) [
    | inl e ↦ rw (leave_addr, e) refl
    | inr e ↦ rw (leave_addr, e) (from_first-none env ifindex n n.ifaces len)
  ]

  if-none :
      (b : Bool) (ifindex : ℕ) → is_none (if b then leave_addr env ifindex n else some n) ≡ false
  if-none true ifindex = leave_addr-none ifindex
  if-none false ifindex = refl

  del_addr6-none : (a : In6Addr) (msg : AddrMsg) → is_none (del_addr6 env a msg n) ≡ false
  unfolding del_addr6
  del_addr6-none a msg =
      and_then-none
        (if is_current6 a msg.ifa_index n then leave_addr env msg.ifa_index n else some n) _
      ∙ if-none (is_current6 a msg.ifa_index n) msg.ifa_index

  del_addr4-none : (a : ℕ) (msg : AddrMsg) → is_none (del_addr4 env a msg n) ≡ false
  unfolding del_addr4
  del_addr4-none a msg =
      and_then-none
        (if is_current4 a msg.ifa_index n then leave_addr env msg.ifa_index n else some n) _
      ∙ if-none (is_current4 a msg.ifa_index n) msg.ifa_index

  by_family-none :
      (msg : AddrMsg) (a : Addr)
      → is_none (by_family env msg n a) ≡ (
          is_inet6 a
          && (msg.is_new && (msg.ifa_scope == 0 && not (has_slot msg.ifa_index n.ifaces))))
  by_family-none msg (inet6 a) = ground (arith, new_addr6-none a msg, del_addr6-none a msg)
  by_family-none msg (inet a) = ground (arith, new_addr4-none a msg, del_addr4-none a msg)
  by_family-none msg other_family = refl

  process_link-none :
      (msg : LinkMsg) → is_none (process_link env msg n) ≡ link_leaves env msg n.ifaces
  unfolding process_link
  process_link-none msg =
      ground (arith, new_link-none msg (env.card_of msg.ifi_index), del_link-none msg)

  process_addr-none : (msg : AddrMsg) → is_none (process_addr env msg n) ≡ addr_leaves msg n.ifaces
  unfolding process_addr
  process_addr-none msg = ground (arith, by_family-none msg msg.addr)

  process_nlmsg-none : (m : Nlmsg) → is_none (process_nlmsg env m n) ≡ leaves_ifaces env m n.ifaces
  unfolding process_nlmsg
  process_nlmsg-none (link_msg m) = process_link-none m
  process_nlmsg-none (addr_msg m) = process_addr-none m
  process_nlmsg-none other_msg = refl

-- After any rounds of mn_worker, a netlink message makes its handler leave the array of interfaces
-- exactly if it is not ignored and is of a new wlan or gprs interface, or a new IPv6 address of
-- global scope, with no entry for the interface and none free, or the deletion of an interface that
-- has no entry before the first entry of another.
pub Reachable-none :
    (env : Env) (m : Nlmsg) {n : Node}
    → Reachable n
    → is_none (process_nlmsg env m n) ≡ leaves_ifaces env m n.ifaces
Reachable-none env m {n} r = process_nlmsg-none env n (Reachable-IsFull r) m
