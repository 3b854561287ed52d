-- ===== src/Mobile/Events/Workers.antt =====
-- `bu_worker`, `nat_probe_worker`, `mn_init` and `mn_cleanup` of mn/mn.c.
use dsmip.Common.{ℕ, ◌-◌, pos, Bool, not, ◌&&◌, ◌||◌, List, [], ◌∷◌, ◌==◌, ltb, leb, if◌then◌else◌}
use dsmip.Net.{v6_eq, ipv6_map_addr}
use dsmip.Mobile.State.{
  CoaType, at_home, nat_v4, plain_v4, on_v6, Iface, default_table, mobile_table, any_source,
  route4_del, route_del, rule4_any_add, rule_any_add, rule4_any_del, rule_any_del, rule4_del,
  rule_del, tunnel44_del, tunnel64_del, tunnel66_del, nat_probe_send, Calls, Env, Node, note,
}
use dsmip.Mobile.Handoff.Steps.{high_prio, send_bu, mn_dstopt_policies_del, stop_encap}
use dsmip.Mobile.Events.Slots.{zero_iface, is_up}

-- `abs(last_t-now)>5`
abbrev pub is_due : ℕ → ℕ → Bool
is_due t now = ltb 5 (if leb t now then now - t else t - now)

-- The binding update for the care-of address in use.
abbrev pub refresh : Env → Node → CoaType → Node
refresh env n on_v6 = send_bu env n.current_coav6 n
refresh env n nat_v4 = send_bu env (ipv6_map_addr n.current_coav4) n
refresh env n plain_v4 = send_bu env (ipv6_map_addr n.current_coav4) n
refresh env n at_home = n

unfoldable pub bu_worker : Env → Bool → Node → Node
unfolding send_bu
bu_worker env force n =
    if is_due n.last_bu_t env.uptime || force then refresh env n n.current_coa_type else n

unfoldable pub wants_probe : Env → ℕ → Iface → Bool
wants_probe env preferred f =
    not (f.ifindex == 0)
    && (f.ifindex == preferred
        && (is_up f.flags && (f.invalidv4 == 0 && is_due f.last_nat_probe_t env.uptime)))

-- The loop over the interfaces: what becomes of them, and of the log.
unfoldable pub probe_times : Env → ℕ → List Iface → List Iface
unfolding wants_probe
probe_times env preferred [] = []
probe_times env preferred (f ∷ fs) =
    (if wants_probe env preferred f then record f { last_nat_probe_t = env.uptime } else f)
    ∷ probe_times env preferred fs

unfoldable pub probe_calls : Env → ℕ → List Iface → Calls → Calls
unfolding wants_probe
probe_calls env preferred [] log = log
probe_calls env preferred (f ∷ fs) log =
    probe_calls env preferred fs
      (if wants_probe env preferred f then nat_probe_send f.ifindex f.coav4 ∷ log else log)

unfoldable pub nat_probe_worker : Env → Node → Node
unfolding probe_times probe_calls
nat_probe_worker env n = record n {
  ifaces = probe_times env n.preferred_ifindex n.ifaces;
  log = probe_calls env n.preferred_ifindex n.ifaces n.log;
}

-- RULE_MOBILE_PRIO
abbrev pub mobile_prio : ℕ
mobile_prio = 888

-- What `mn_init` resets; the other globals keep their values.
unfoldable pub mn_init : Node → Node
mn_init n = record n {
  ifaces = zero_iface ∷ zero_iface ∷ zero_iface ∷ [];
  current_coav6 = record { w0 = 0; w1 = 0; w2 = 0; w3 = 0 };
  current_coav4 = 0;
  current_coa_type = at_home;
  current_ifindex = 0;
  preferred_ifindex = 0;
  tnl66_ifindex = 0;
  tnl64_ifindex = 0;
  tnl44_ifindex = 0;
  log = rule_any_add mobile_table mobile_prio ∷ rule4_any_add mobile_table mobile_prio ∷ n.log;
}

abbrev pub unrule_coas : Env → Node → Node
unrule_coas env n =
    let m : Node =
      if n.current_coav4 == env.hoav4
      then n
      else note (rule4_del default_table high_prio n.current_coav4) n in
    if v6_eq n.current_coav6 env.hoav6
    then m
    else note (rule_del default_table high_prio n.current_coav6) m

abbrev pub close66 : Node → Node
close66 n =
    let t = pos n.tnl66_ifindex in
    if n.tnl66_ifindex == 0 then n else record n {
      current_coav6 = record { w0 = 0; w1 = 0; w2 = 0; w3 = 0 };
      log =
          rule_del default_table high_prio n.current_coav6
          ∷ tunnel66_del t
          ∷ mn_dstopt_policies_del
              (route_del t mobile_table any_source ∷ route4_del t mobile_table any_source ∷ n.log);
    }

abbrev pub close64 : Node → Node
close64 n =
    let t = pos n.tnl64_ifindex in
    if n.tnl64_ifindex == 0
    then n
    else note (tunnel64_del t) (note (route_del t mobile_table any_source) n)

abbrev pub close44 : Node → Node
close44 n =
    let t = pos n.tnl44_ifindex in
    if n.tnl44_ifindex == 0
    then n
    else note (tunnel44_del t) (note (route4_del t mobile_table any_source) n)

unfoldable pub mn_cleanup : Env → Node → Node
unfolding mn_dstopt_policies_del
mn_cleanup env n =
    let m = close44 (close64 (close66 (unrule_coas env n))) in
    record m {
      tnl66_ifindex = 0;
      tnl44_ifindex = 0;
      tnl64_ifindex = 0;
      log =
          stop_encap m (
            rule_any_del mobile_table mobile_prio ∷ rule4_any_del mobile_table mobile_prio ∷ m.log);
    }
