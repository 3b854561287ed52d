-- ===== src/Mobile/Kept/Links.antt =====
-- `process_link` keeps what `do_handoff` and the small changes keep.
use dsmip.Common.{ℕ, refl, not, Option, none, some, ◌==◌, ltb}
use dsmip.Mobile.State.{nifaces, Card, wlan, gprs, other_card, Iface, gprsfix, Env, Node}
use dsmip.Mobile.Handoff.Steps.{to_v6}
use dsmip.Mobile.Handoff.{find_iface}
use dsmip.Mobile.Events.Slots.{edit_iface, find_slot, is_up}
use dsmip.Mobile.Events.Links.{
  cngictrl_ipfix, LinkMsg, find_up, use_found, wlan_down, wlan_changed, wlan_slot, new_wlan,
  gprs_slot, new_gprs, scan, go_other, wipe, del_link, new_link, is_ignored_link, process_link,
  enter,
}
use dsmip.Mobile.Kept.{Kept, ipfix_quiet, gprsfix_quiet, OnSome, if-P, prefer-Kept, use_iface-Kept}

module _ {P : Node → Type 0} (k : Kept P) where
  module _ (env : Env) where
    cngictrl_ipfix-Kept : (flag : ℕ) (n : Node) → P n → P (cngictrl_ipfix flag n)
    unfolding cngictrl_ipfix
    cngictrl_ipfix-Kept flag n p = k.notes _ _ (ipfix_quiet _ _ _) (
        k.settings n.preferred_ifindex n.auto_handoff_enabled n.wlan_ifindex n.consecutive_bu
          n.last_bu_t 0 n p)

    use_found-Kept : (o : Option Iface) (n : Node) → P n → P (use_found env o n)
    use_found-Kept none n p = p
    use_found-Kept (some f) n p = use_iface-Kept k env f n n p p

    wlan_down-Kept : (i : ℕ) (n : Node) → P n → P (wlan_down env i n)
    unfolding wlan_down
    wlan_down-Kept i n p =
        let down = (λ (f : Iface). record f { invalidv6 = 1; invalidv4 = 1 }) in
        let j = find_iface i n.ifaces in
        let m : Node = edit_iface down j (cngictrl_ipfix 0 n) in
        let q = k.edits down j _ (cngictrl_ipfix-Kept 0 n p) in
        if-P P (not (ltb j nifaces)) p
          (if-P P (m.auto_handoff_enabled == 0) q (use_found-Kept (find_up i m.ifaces) m q))

    wlan_changed-Kept : (msg : LinkMsg) (i : ℕ) (n : Node) → P n → P (wlan_changed env msg i n)
    unfolding wlan_changed
    wlan_changed-Kept msg i n p =
        let q = k.edits _ i n p in
        if-P P (is_up msg.ifi_flags)
          (cngictrl_ipfix-Kept 1 _ (
            k.settings n.preferred_ifindex n.auto_handoff_enabled n.wlan_ifindex 1 n.last_bu_t
              n.skip_ctrl_fd _ q))
          (wlan_down-Kept msg.ifi_index _ q)

    enter-Kept : (msg : LinkMsg) (c : Card) (i : ℕ) (n : Node) → P n → P (enter msg c i n)
    enter-Kept msg c i n p = if-P P (is_up msg.ifi_flags) (k.edits _ i n p) p

    wlan_slot-Kept :
        (msg : LinkMsg) (i : ℕ) (n : Node) (o : Option Iface)
        → P n
        → OnSome P (wlan_slot env msg i n o)
    wlan_slot-Kept msg i n none p = refl
    wlan_slot-Kept msg i n (some f) p =
        if-P P _ (enter-Kept msg wlan i n p) (if-P P _ p (wlan_changed-Kept msg i n p))

    new_wlan-Kept : (msg : LinkMsg) (n : Node) → P n → OnSome P (new_wlan env msg n)
    unfolding new_wlan
    new_wlan-Kept msg n p = wlan_slot-Kept msg (find_slot msg.ifi_index n.ifaces) _ _ (
        k.settings n.preferred_ifindex n.auto_handoff_enabled msg.ifi_index n.consecutive_bu
          n.last_bu_t n.skip_ctrl_fd n p)

    gprs_slot-Kept :
        (msg : LinkMsg) (i : ℕ) (n : Node) (o : Option Iface) → P n → OnSome P (gprs_slot msg i n o)
    gprs_slot-Kept msg i n none p = refl
    gprs_slot-Kept msg i n (some f) p =
        let q = k.edits _ i n p in
        if-P P _ (enter-Kept msg gprs i n p)
          (if-P P _ p (if-P P _ (k.notes gprsfix _ gprsfix_quiet q) q))

    new_gprs-Kept : (msg : LinkMsg) (n : Node) → P n → OnSome P (new_gprs msg n)
    unfolding new_gprs
    new_gprs-Kept msg n p = gprs_slot-Kept msg _ n _ p

    go_other-Kept : (o : Option Iface) (n : Node) → P n → P (go_other env o n)
    go_other-Kept (some f) n p =
        use_iface-Kept k env f _ n (prefer-Kept k env (to_v6 env.hoav6) f.ifindex n refl p) p
    go_other-Kept none n p = prefer-Kept k env (to_v6 env.hoav6) 0 n refl p

    wipe-Kept : (o : Option ℕ) (n : Node) → P n → OnSome P (wipe o n)
    wipe-Kept none n p = refl
    wipe-Kept (some i) n p = k.edits _ i n p

    del_link-Kept : (msg : LinkMsg) (n : Node) → P n → OnSome P (del_link env msg n)
    unfolding del_link
    del_link-Kept msg n p =
        wipe-Kept _ _ (go_other-Kept (scan msg.ifi_index 0 none n.ifaces).other n p)

    new_link-Kept : (msg : LinkMsg) (n : Node) (c : Card) → P n → OnSome P (new_link env msg n c)
    new_link-Kept msg n wlan p = new_wlan-Kept msg n p
    new_link-Kept msg n gprs p = new_gprs-Kept msg n p
    new_link-Kept msg n other_card p = p

    pub process_link-Kept : (msg : LinkMsg) (n : Node) → P n → OnSome P (process_link env msg n)
    unfolding process_link
    process_link-Kept msg n p =
        if-P (OnSome P) (is_ignored_link msg) p
          (if-P (OnSome P) msg.is_new (new_link-Kept msg n _ p) (del_link-Kept msg n p))
