-- ===== src/Mobile/Kept.antt =====
-- What `do_handoff` and the small changes keep, every handler of mn/mn.c keeps: the interface.
pub mod Links
pub mod Addrs
pub mod Rest
use dsmip.Common.{
  ℕ, zero, suc, ◌≡◌, refl, Bool, true, false, not, ◌&&◌, ◌||◌, List, [], ◌∷◌, get_elem?, Option,
  none, some, ◌==◌, ltb, leb, if◌then◌else◌,
}
use dsmip.Net.{In6Addr, ipv6_map_addr}
use dsmip.Mobile.State.{
  nifaces, CoaType, at_home, nat_v4, plain_v4, on_v6, Card, wlan, gprs, other_card, Iface, Call,
  Calls, ipfix, gprsfix, nat_probe_send, Env, Node, note,
}
use dsmip.Mobile.Handoff.Steps.{Coa, to_v6, to_v4, send_bu}
use dsmip.Mobile.Handoff.{find_iface, edit, do_handoff}
use dsmip.Mobile.Sound.Handoffs.{is_asked}
use dsmip.Mobile.Events.Slots.{edit_iface, find_slot, prefer, use_iface, is_up, uint16}
use dsmip.Mobile.Events.Links.{
  cngictrl_ipfix, LinkMsg, find_up, use_found, wlan_down, wlan_changed, wlan_slot, new_wlan,
  gprs_changed, gprs_slot, new_gprs, scan, go_other, wipe, del_link, new_link, is_ignored_link,
  process_link, enter,
}
use dsmip.Mobile.Events.Addrs.{
  inet6, inet, other_family, both_up, is_wlan, first6, Addr, AddrMsg, take6, slot6, new_addr6,
  take4, known4, first4, new_addr4, from_first, leave_addr, and_then, forget6, forget4, is_current6,
  is_current4, del_addr6, del_addr4, by_family, is_ignored_addr, process_addr,
}
use dsmip.Mobile.Events.Control.{
  CtrlCmd, lscoa, auto_handoff_on, auto_handoff_off, other_command, handoff, CtrlResult, to_iface,
  ctrl_handoff, ctrl_fd_check,
}
use dsmip.Mobile.Events.Workers.{
  is_due, refresh, bu_worker, probe_times, probe_calls, nat_probe_worker, wants_probe,
}

-- The calls that concern neither the kernel's tables nor the Home Agent's binding.
pub data IsQuiet : Call → Type 0 where
  ipfix_quiet : (a b c : ℕ) → IsQuiet (ipfix a b c)
  gprsfix_quiet : IsQuiet gprsfix
  probe_quiet : (i a : ℕ) → IsQuiet (nat_probe_send i a)

pub record Kept (P : Node → Type 0) : Type 0 where
  pub handoffs :
      (env : Env) (coa : Coa) (i : ℕ) (n : Node)
      → is_asked coa ≡ true
      → P n
      → P (do_handoff env coa i n)
  pub notes : (c : Call) (n : Node) → IsQuiet c → P n → P (note c n)
  pub edits : (e : Iface → Iface) (i : ℕ) (n : Node) → P n → P (edit_iface e i n)
  pub settings :
      (preferred auto wlan consecutive last skip : ℕ) (n : Node)
      → P n
      → P (record n {
        preferred_ifindex = preferred;
        auto_handoff_enabled = auto;
        wlan_ifindex = wlan;
        consecutive_bu = consecutive;
        last_bu_t = last;
        skip_ctrl_fd = skip;
      })
  pub updates : (env : Env) (n : Node) → P n → P (refresh env n n.current_coa_type)
  pub times :
      (env : Env) (n : Node)
      → P n
      → P (record n { ifaces = probe_times env n.preferred_ifindex n.ifaces })

module _ {A : Type 0} (P : A → Type 0) where
  -- Of every result that there is.
  abbrev pub OnSome : Option A → Type 0
  OnSome none = true ≡ true
  OnSome (some a) = P a

  pub if-P : (b : Bool) {x y : A} → P x → P y → P (if b then x else y)
  if-P true p q = p
  if-P false p q = q

module _ {P : Node → Type 0} (k : Kept P) where
  module _ (env : Env) where
    pub prefer-Kept :
        (coa : Coa) (i : ℕ) (n : Node) → is_asked coa ≡ true → P n → P (prefer env coa i n)
    unfolding prefer
    prefer-Kept coa i n asked p = k.handoffs env coa i _ asked (
        k.settings i n.auto_handoff_enabled n.wlan_ifindex n.consecutive_bu n.last_bu_t
          n.skip_ctrl_fd n p)

    pub use_iface-Kept : (f : Iface) (m n : Node) → P m → P n → P (use_iface env f m n)
    unfolding use_iface
    use_iface-Kept f m n q p =
        if-P P (f.invalidv6 == 0) (prefer-Kept (to_v6 f.coav6) f.ifindex n refl p)
          (if-P P (f.invalidv4 == 0) (prefer-Kept (to_v4 true f.coav4) f.ifindex n refl p) q)
