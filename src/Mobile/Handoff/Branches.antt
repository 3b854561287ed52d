-- ===== src/Mobile/Handoff/Branches.antt =====
-- The branches of `do_handoff`: home, an IPv6 care-of address, an IPv4 care-of address.
use dsmip.Common.{ℕ, Bool, ◌∷◌, ◌==◌, if◌then◌else◌}
use dsmip.Net.{In6Addr, v6_eq, ipv6_map_addr}
use dsmip.Mobile.State.{
  at_home, nat_v4, plain_v4, on_v6, default_table, rule4_add, rule4_del, rule_add, tunnel44_add,
  tunnel64_add, tunnel66_add, addr_add, addr4_add, start_udp_encap, mod_ipv6_gateway, Calls, Env,
  Node, to_uint16, note,
}
use dsmip.Mobile.Handoff.Steps.{
  is_on_v4, is_on_v6, high_prio, send_bu, tell, tell_probed, begin_detour, detour_rules, end_detour,
  add_routes, mn_dstopt_policies_add, leave_v6, leave_v4_home, leave_v4_v6, leave_v4_v4, stop_encap,
}

-- Back at the home address.
unfoldable pub arrive_home : Env → In6Addr → Node → Node
unfolding leave_v6 leave_v4_home
arrive_home env coa n =
    let left : Node =
      if is_on_v6 n.current_coa_type
      then leave_v6 n
      else if is_on_v4 n.current_coa_type
      then leave_v4_home env n
      else n in
    note mod_ipv6_gateway
      (record left { current_coa_type = at_home; current_coav6 = coa; current_coav4 = env.hoav4 })

unfoldable pub go_home : Env → In6Addr → Node → Node
go_home env coa n = tell env coa (arrive_home env coa n)

-- An IPv6 care-of address away from home: new tunnel, detour, old tunnels, routes, end of the detour.
unfoldable pub arrive_v6 : Env → In6Addr → ℕ → Node → Node
unfolding begin_detour detour_rules end_detour add_routes mn_dstopt_policies_add leave_v6
    leave_v4_v6
arrive_v6 env coa ifindex n =
    let asked : Calls = tunnel66_add coa ifindex ∷ n.log in
    let tnl66 = env.answer asked in
    let opened : Node = record n {
      log = detour_rules (begin_detour tnl66 tnl66 (addr4_add tnl66 ∷ addr_add tnl66 ∷ asked));
    } in
    let left : Node =
      if is_on_v6 n.current_coa_type
      then leave_v6 opened
      else if is_on_v4 n.current_coa_type
      then leave_v4_v6 opened
      else opened in
    record left {
      tnl66_ifindex = to_uint16 tnl66;
      current_coav6 = coa;
      current_coa_type = on_v6;
      log =
          mod_ipv6_gateway
          ∷ end_detour tnl66 tnl66 (mn_dstopt_policies_add coa (add_routes tnl66 tnl66 left.log));
    }

unfoldable pub switch_v6 : Env → In6Addr → ℕ → Node → Node
switch_v6 env coa ifindex n = tell env coa (arrive_v6 env coa ifindex n)

-- Type -1: from an IPv4 care-of address, a binding update goes out on the old path first.
unfoldable pub forewarn : Env → In6Addr → Node → Node
unfolding send_bu
forewarn env coa n = if is_on_v4 n.current_coa_type then send_bu env coa n else n

unfoldable pub go_v6 : Env → In6Addr → ℕ → Node → Node
unfolding forewarn
go_v6 env coa ifindex n =
    let told = forewarn env coa n in
    if v6_eq coa env.hoav6
    then go_home env coa told
    else switch_v6 env coa ifindex (note (rule_add default_table high_prio coa) told)

-- `rule4_add` for the new care-of address and `rule4_del` for the old one, if they differ.
unfoldable pub swap_rule4 : ℕ → Node → Calls
swap_rule4 coav4 n =
    if n.current_coav4 == coav4
    then n.log
    else rule4_del default_table high_prio n.current_coav4
      ∷ rule4_add default_table high_prio coav4
      ∷ n.log

-- An IPv4 care-of address, behind a NAT (type 1) or not.
unfoldable pub arrive_v4 : Env → Bool → ℕ → ℕ → Node → Node
unfolding swap_rule4 begin_detour detour_rules end_detour add_routes leave_v6 leave_v4_v4
arrive_v4 env behind_nat coav4 ifindex n =
    let mapped = ipv6_map_addr coav4 in
    let asked64 : Calls = tunnel64_add mapped ifindex ∷ swap_rule4 coav4 n in
    let tnl64 = env.answer asked64 in
    let asked44 : Calls = tunnel44_add mapped ifindex ∷ addr_add tnl64 ∷ asked64 in
    let tnl44 = env.answer asked44 in
    let opened : Calls = begin_detour tnl44 tnl64 (addr4_add tnl44 ∷ asked44) in
    let encapsulated : Calls =
      if behind_nat then start_udp_encap coav4 ∷ stop_encap n opened else opened in
    let ruled : Node = record n { log = detour_rules encapsulated } in
    let left : Node =
      if is_on_v6 n.current_coa_type
      then leave_v6 ruled
      else if is_on_v4 n.current_coa_type
      then leave_v4_v4 ruled
      else ruled in
    record left {
      current_coav4 = coav4;
      tnl64_ifindex = to_uint16 tnl64;
      tnl44_ifindex = to_uint16 tnl44;
      current_coa_type = if behind_nat then nat_v4 else plain_v4;
      log = mod_ipv6_gateway ∷ end_detour tnl44 tnl64 (add_routes tnl44 tnl64 left.log);
    }

unfoldable pub switch_v4 : Env → Bool → ℕ → ℕ → Node → Node
switch_v4 env behind_nat coav4 ifindex n =
    tell_probed env (ipv6_map_addr coav4) ifindex coav4 (arrive_v4 env behind_nat coav4 ifindex n)

-- Type 1 or 2: an address equal to the home address is refused.
unfoldable pub go_v4 : Env → Bool → ℕ → ℕ → Node → Node
go_v4 env behind_nat coav4 ifindex n =
    if coav4 == env.hoav4 then n else switch_v4 env behind_nat coav4 ifindex n
