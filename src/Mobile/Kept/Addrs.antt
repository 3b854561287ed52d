-- ===== src/Mobile/Kept/Addrs.antt =====
-- `process_addr` keeps what `do_handoff` and the small changes keep.
use dsmip.Common.{
  ℕ, refl, true, not, ◌&&◌, ◌||◌, List, [], ◌∷◌, Option, none, some, ◌==◌, if◌then◌else◌,
}
use dsmip.Net.{In6Addr}
use dsmip.Mobile.State.{nifaces, Iface, nat_probe_send, Env, Node}
use dsmip.Mobile.Handoff.Steps.{to_v6, to_v4}
use dsmip.Mobile.Handoff.{find_iface}
use dsmip.Mobile.Events.Slots.{find_slot, uint16}
use dsmip.Mobile.Events.Addrs.{
  inet6, inet, other_family, both_up, is_wlan, first6, Addr, AddrMsg, take6, slot6, new_addr6,
  take4, known4, first4, new_addr4, from_first, leave_addr, and_then, forget6, forget4, is_current6,
  is_current4, del_addr6, del_addr4, by_family, is_ignored_addr, process_addr,
}
use dsmip.Mobile.Kept.{Kept, probe_quiet, OnSome, if-P, prefer-Kept, use_iface-Kept}

module _ {P : Node → Type 0} (k : Kept P) where
  module _ (env : Env) where
    take6-Kept : (a : In6Addr) (ifindex i : ℕ) (n : Node) → P n → P (take6 env a ifindex i n)
    unfolding take6
    take6-Kept a ifindex i n p =
        let q = k.edits (λ f. record f { invalidv6 = 0; coav6 = a }) i n p in
        let preferred =
          if n.auto_handoff_enabled == 0 then n.preferred_ifindex else uint16 ifindex in
        if-P P (preferred == 0 || preferred == ifindex)
          (prefer-Kept k env (to_v6 a) (uint16 ifindex) _ refl q)
          (k.settings preferred n.auto_handoff_enabled n.wlan_ifindex n.consecutive_bu n.last_bu_t
            n.skip_ctrl_fd _ q)

    slot6-Kept :
        (a : In6Addr) (ifindex i : ℕ) (n : Node) (o : Option Iface)
        → P n
        → OnSome P (slot6 env a ifindex i n o)
    slot6-Kept a ifindex i n none p = refl
    slot6-Kept a ifindex i n (some f) p =
        if-P P _
          (if-P P _ (k.edits _ i n p)
            (take6-Kept a ifindex i _ (k.edits (λ g. first6 env ifindex) i n p)))
          (if-P P _ (take6-Kept a ifindex i n p) p)

    new_addr6-Kept :
        (a : In6Addr) (msg : AddrMsg) (n : Node) → P n → OnSome P (new_addr6 env a msg n)
    unfolding new_addr6
    new_addr6-Kept a msg n p =
        let m : Node = if n.consecutive_bu == 0 then n else record n { last_bu_t = 0 } in
        let q : P m = if-P P (n.consecutive_bu == 0) p (
          k.settings n.preferred_ifindex n.auto_handoff_enabled n.wlan_ifindex n.consecutive_bu 0
            n.skip_ctrl_fd n p) in
        if-P (OnSome P) (msg.ifa_scope == 0)
          (slot6-Kept a msg.ifa_index (find_slot msg.ifa_index m.ifaces) m _ q) q

    take4-Kept : (a ifindex i : ℕ) (f : Iface) (n : Node) → P n → P (take4 env a ifindex i f n)
    unfolding take4
    take4-Kept a ifindex i f n p =
        let taken = (λ (g : Iface). record g {
          invalidv4 = 0;
          flags = both_up;
          coav4 = a;
          last_nat_probe_t = env.uptime;
        }) in
        let q =
          k.edits taken i _ (k.notes (nat_probe_send f.ifindex a) n (probe_quiet f.ifindex a) p) in
        let old = if n.preferred_ifindex == 0 then f.ifindex else n.preferred_ifindex in
        let preferred =
          if is_wlan f.ifname && not (n.auto_handoff_enabled == 0) then uint16 ifindex else old in
        if-P P (not (ifindex == preferred || preferred == 0))
          (k.settings preferred n.auto_handoff_enabled n.wlan_ifindex n.consecutive_bu n.last_bu_t
            n.skip_ctrl_fd _ q)
          (if-P P (f.invalidv6 == 0) (prefer-Kept k env (to_v6 f.coav6) (uint16 ifindex) _ refl q)
            (prefer-Kept k env (to_v4 true a) (uint16 ifindex) _ refl q))

    known4-Kept :
        (a ifindex i : ℕ) (n : Node) (o : Option Iface)
        → P n
        → OnSome P (known4 env a ifindex i n o)
    known4-Kept a ifindex i n none p = refl
    known4-Kept a ifindex i n (some f) p = take4-Kept a ifindex i f n p

    first4-Kept :
        (a ifindex i : ℕ) (n : Node) (o : Option Iface)
        → P n
        → OnSome P (first4 env a ifindex i n o)
    first4-Kept a ifindex i n none p = p
    first4-Kept a ifindex i n (some f) p =
        if-P P _ (k.edits _ i n p) (take4-Kept a ifindex i _ _ (k.edits _ i n p))

    new_addr4-Kept : (a : ℕ) (msg : AddrMsg) (n : Node) → P n → OnSome P (new_addr4 env a msg n)
    unfolding new_addr4
    new_addr4-Kept a msg n p =
        let i = find_iface msg.ifa_index n.ifaces in
        let j = find_iface 0 n.ifaces in
        if-P (OnSome P) (a == env.hoav4) p (
          if-P (OnSome P) (i == nifaces) (first4-Kept a msg.ifa_index j n _ p)
            (known4-Kept a msg.ifa_index i n _ p))

    from_first-Kept :
        (ifindex : ℕ) (n : Node) (fs : List Iface) → P n → OnSome P (from_first env ifindex n fs)
    from_first-Kept ifindex n [] p = refl
    from_first-Kept ifindex n (f ∷ fs) p =
        if-P P _ p (use_iface-Kept k env f _ n (prefer-Kept k env (to_v6 env.hoav6) 0 n refl p) p)

    leave_addr-Kept : (ifindex : ℕ) (n : Node) → P n → OnSome P (leave_addr env ifindex n)
    unfolding leave_addr
    leave_addr-Kept ifindex n p =
        if-P (OnSome P) (n.auto_handoff_enabled == 0) p (from_first-Kept ifindex n n.ifaces p)

    and_then-Kept :
        (o : Option Node) (g : Node → Node)
        → ((m : Node) → P m → P (g m))
        → OnSome P o
        → OnSome P (and_then o g)
    and_then-Kept none g h p = refl
    and_then-Kept (some m) g h p = h m p

    del_addr6-Kept :
        (a : In6Addr) (msg : AddrMsg) (n : Node) → P n → OnSome P (del_addr6 env a msg n)
    unfolding del_addr6
    del_addr6-Kept a msg n p =
        and_then-Kept _ (forget6 a msg.ifa_index)
          (λ m q. k.edits _ (find_iface msg.ifa_index m.ifaces) m q)
          (if-P (OnSome P) (is_current6 a msg.ifa_index n) {y = some n}
            (leave_addr-Kept msg.ifa_index n p) p)

    del_addr4-Kept : (a : ℕ) (msg : AddrMsg) (n : Node) → P n → OnSome P (del_addr4 env a msg n)
    unfolding del_addr4
    del_addr4-Kept a msg n p =
        and_then-Kept _ (forget4 a msg.ifa_index)
          (λ m q. k.edits _ (find_iface msg.ifa_index m.ifaces) m q)
          (if-P (OnSome P) (is_current4 a msg.ifa_index n) {y = some n}
            (leave_addr-Kept msg.ifa_index n p) p)

    by_family-Kept : (msg : AddrMsg) (n : Node) (a : Addr) → P n → OnSome P (by_family env msg n a)
    by_family-Kept msg n (inet6 a) p =
        if-P (OnSome P) msg.is_new (new_addr6-Kept a msg n p) (del_addr6-Kept a msg n p)
    by_family-Kept msg n (inet a) p =
        if-P (OnSome P) msg.is_new (new_addr4-Kept a msg n p) (del_addr4-Kept a msg n p)
    by_family-Kept msg n other_family p = p

    pub process_addr-Kept : (msg : AddrMsg) (n : Node) → P n → OnSome P (process_addr env msg n)
    unfolding process_addr
    process_addr-Kept msg n p =
        if-P (OnSome P) (is_ignored_addr msg) p (by_family-Kept msg n msg.addr p)
