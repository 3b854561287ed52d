-- ===== src/Mobile/Kept/Rest.antt =====
-- The control commands and the workers keep what `do_handoff` and the small changes keep.
use dsmip.Common.{
  ℕ, refl, Bool, true, not, ◌&&◌, ◌||◌, List, [], ◌∷◌, get_elem?, Option, none, some, ◌==◌,
  if◌then◌else◌,
}
use dsmip.Mobile.State.{Iface, nat_probe_send, Env, Node}
use dsmip.Mobile.Handoff.Steps.{to_v6, to_v4}
use dsmip.Mobile.Handoff.{find_iface}
use dsmip.Mobile.Events.Listing.{listing_fits}
use dsmip.Mobile.Events.Control.{
  CtrlCmd, lscoa, auto_handoff_on, auto_handoff_off, other_command, handoff, CtrlResult, to_iface,
  ctrl_handoff, ctrl_fd_check,
}
use dsmip.Mobile.Events.Workers.{is_due, bu_worker, probe_calls, nat_probe_worker, wants_probe}
use dsmip.Mobile.Kept.{Kept, probe_quiet, OnSome, if-P}

module _ {P : Node → Type 0} (k : Kept P) where
  module _ (env : Env) where
    abbrev pub OfNode : CtrlResult → Type 0
    OfNode o = P o.node

    to_iface-Kept : (n : Node) (o : Option Iface) → P n → OnSome OfNode (to_iface env n o)
    to_iface-Kept n none p = p
    to_iface-Kept n (some f) p =
        if-P (OnSome OfNode) (f.invalidv6 == 0) (k.handoffs env (to_v6 f.coav6) f.ifindex n refl p)
          (if-P (OnSome OfNode) (f.invalidv4 == 0)
            (k.handoffs env (to_v4 true f.coav4) f.ifindex n refl p) refl)

    ctrl_handoff-Kept : (i : ℕ) (n : Node) → P n → OnSome OfNode (ctrl_handoff env i n)
    unfolding ctrl_handoff
    ctrl_handoff-Kept i n p =
        let q =
          k.settings i n.auto_handoff_enabled n.wlan_ifindex n.consecutive_bu n.last_bu_t
            n.skip_ctrl_fd n p in
        if-P (OnSome OfNode) (not (n.current_ifindex == i) && not (n.auto_handoff_enabled == 0)) q (
          if-P (OnSome OfNode) (n.current_ifindex == i) q
            (to_iface-Kept _ (get_elem? n.ifaces (find_iface i n.ifaces)) q))

    pub ctrl_fd_check-Kept : (c : CtrlCmd) (n : Node) → P n → OnSome OfNode (ctrl_fd_check env c n)
    unfolding ctrl_fd_check
    ctrl_fd_check-Kept lscoa n p = if-P (OnSome OfNode) (listing_fits env n) p refl
    ctrl_fd_check-Kept (handoff i) n p = ctrl_handoff-Kept i n p
    ctrl_fd_check-Kept auto_handoff_on n p =
        k.settings n.preferred_ifindex 1 n.wlan_ifindex n.consecutive_bu n.last_bu_t n.skip_ctrl_fd
          n p
    ctrl_fd_check-Kept auto_handoff_off n p =
        k.settings n.preferred_ifindex 0 n.wlan_ifindex n.consecutive_bu n.last_bu_t n.skip_ctrl_fd
          n p
    ctrl_fd_check-Kept other_command n p = p

    pub bu_worker-Kept : (force : Bool) (n : Node) → P n → P (bu_worker env force n)
    unfolding bu_worker
    bu_worker-Kept force n p = if-P P (is_due n.last_bu_t env.uptime || force) (k.updates env n p) p

    probe_calls-Kept :
        (preferred : ℕ) (fs : List Iface) (n : Node)
        → P n
        → P (record n { log = probe_calls env preferred fs n.log })
    unfolding probe_calls
    probe_calls-Kept preferred [] n p = p
    probe_calls-Kept preferred (f ∷ fs) n p =
        probe_calls-Kept preferred fs
          (record n {
            log =
                if wants_probe env preferred f
                then nat_probe_send f.ifindex f.coav4 ∷ n.log
                else n.log;
          })
          (if-P (λ l. P (record n { log = l })) (wants_probe env preferred f)
            (k.notes (nat_probe_send f.ifindex f.coav4) n (probe_quiet f.ifindex f.coav4) p) p)

    pub nat_probe_worker-Kept : (n : Node) → P n → P (nat_probe_worker env n)
    unfolding nat_probe_worker
    nat_probe_worker-Kept n p = probe_calls-Kept n.preferred_ifindex n.ifaces _ (k.times env n p)
