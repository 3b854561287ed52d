-- ===== src/Mobile/Handoff/Steps.antt =====
-- Groups of calls that the branches of `do_handoff` make.
use dsmip.Common.{ℕ, zero, suc, ◌+◌, ◌%◌, ◌^◌, ℤ, pos, Bool, true, false, ◌∷◌, ◌==◌, if◌then◌else◌}
use dsmip.Net.{In6Addr}
use dsmip.Mobile.State.{
  CoaType, at_home, nat_v4, plain_v4, on_v6, default_table, node_table, mobile_table, temp_table,
  any_source, home_source, route4_add, route4_del, route_add, route_del, rule4_any_add,
  rule4_any_del, rule_any_add, rule_any_del, rule4_del, rule_del, tunnel44_del, tunnel64_del,
  tunnel66_del, policy_add, policy_del, state_add, state_del, stop_udp_encap, sendbu,
  nat_probe_send, Calls, Env, Node, note,
}

-- The arguments `coav6`, `coav4` and `type`: -1 with an IPv6 address, or with an IPv4 address 1 (true)
-- or 2.
pub data Coa : Type 0 where
  to_v6 : In6Addr → Coa
  to_v4 : Bool → ℕ → Coa

abbrev pub is_on_v4 : CoaType → Bool
is_on_v4 nat_v4 = true
is_on_v4 plain_v4 = true
is_on_v4 at_home = false
is_on_v4 on_v6 = false

abbrev pub is_on_v6 : CoaType → Bool
is_on_v6 on_v6 = true
is_on_v6 at_home = false
is_on_v6 nat_v4 = false
is_on_v6 plain_v4 = false

abbrev pub is_at_home : CoaType → Bool
is_at_home at_home = true
is_at_home on_v6 = false
is_at_home nat_v4 = false
is_at_home plain_v4 = false

abbrev pub is_nat : CoaType → Bool
is_nat nat_v4 = true
is_nat at_home = false
is_nat plain_v4 = false
is_nat on_v6 = false

-- MN_MOBILE_RULE_HIGH_PRIO and RULE_MOBILE_PRIO-1
abbrev pub high_prio : ℕ
high_prio = 870

abbrev pub temp_prio : ℕ
temp_prio = 887

-- `sendbu` of the next sequence number, which is sent in 16 bits.
unfoldable pub send_bu : Env → In6Addr → Node → Node
send_bu env coa n =
    let log : Calls = sendbu coa (n.bu_seq % 2 ^ 16) ∷ n.log in
    record n {
      bu_seq = n.bu_seq + 1;
      last_bu_t = if env.is_sent log then env.uptime else n.last_bu_t;
      log = log;
    }

-- `for(;k>0;--k)` around `sendbu`.
unfoldable pub send_bus : Env → In6Addr → ℕ → Node → Node
unfolding send_bu
send_bus env coa zero n = n
send_bus env coa (suc k) n = send_bus env coa k (send_bu env coa n)

-- The same with a NAT probe in front of each.
unfoldable pub send_probed_bus : Env → In6Addr → ℕ → ℕ → ℕ → Node → Node
unfolding send_bu
send_probed_bus env coa ifindex coav4 zero n = n
send_probed_bus env coa ifindex coav4 (suc k) n =
    send_probed_bus env coa ifindex coav4 k
      (send_bu env coa (note (nat_probe_send ifindex coav4) n))

-- `consecutive_bu?10:1`
abbrev pub bu_count : Node → ℕ
bu_count n = if n.consecutive_bu == 0 then 1 else 10

-- The end of each branch: the binding updates, and the reset of the flag.
unfoldable pub tell : Env → In6Addr → Node → Node
unfolding send_bus
tell env coa n = record (send_bus env coa (bu_count n) n) { consecutive_bu = 0 }

unfoldable pub tell_probed : Env → In6Addr → ℕ → ℕ → Node → Node
unfolding send_probed_bus
tell_probed env coa ifindex coav4 n =
    record (send_probed_bus env coa ifindex coav4 (bu_count n) n) { consecutive_bu = 0 }

-- Routes in the temporary table and the rules that lead there, and their end.
unfoldable pub begin_detour : ℤ → ℤ → Calls → Calls
begin_detour oif4 oif6 log =
    route_add oif6 temp_table any_source ∷ route4_add oif4 temp_table any_source ∷ log

unfoldable pub detour_rules : Calls → Calls
detour_rules log = rule_any_add temp_table temp_prio ∷ rule4_any_add temp_table temp_prio ∷ log

unfoldable pub end_detour : ℤ → ℤ → Calls → Calls
end_detour oif4 oif6 log =
    rule_any_del temp_table temp_prio
    ∷ rule4_any_del temp_table temp_prio
    ∷ route_del oif6 temp_table any_source
    ∷ route4_del oif4 temp_table any_source
    ∷ log

unfoldable pub add_routes : ℤ → ℤ → Calls → Calls
add_routes oif4 oif6 log =
    route_add oif6 mobile_table any_source ∷ route4_add oif4 mobile_table any_source ∷ log

-- `mn_dstopt_policies_add` and `mn_dstopt_policies_del`
unfoldable pub mn_dstopt_policies_add : In6Addr → Calls → Calls
mn_dstopt_policies_add coa log = state_add coa ∷ policy_add ∷ log

unfoldable pub mn_dstopt_policies_del : Calls → Calls
mn_dstopt_policies_del log = state_del ∷ policy_del ∷ log

-- The IPv6 care-of address in use is left.
unfoldable pub leave_v6 : Node → Node
unfolding mn_dstopt_policies_del
leave_v6 n =
    let t : ℤ = pos n.tnl66_ifindex in
    record n {
      tnl66_ifindex = 0;
      log =
          rule_del default_table high_prio n.current_coav6
          ∷ tunnel66_del t
          ∷ mn_dstopt_policies_del
              (route_del t mobile_table any_source ∷ route4_del t mobile_table any_source ∷ n.log);
    }

-- The two IPv4 tunnels go.
unfoldable pub drop_tunnels4 : Node → Node
drop_tunnels4 n = record n {
  tnl44_ifindex = 0;
  tnl64_ifindex = 0;
  log = tunnel44_del (pos n.tnl44_ifindex) ∷ tunnel64_del (pos n.tnl64_ifindex) ∷ n.log;
}

-- The routes through the IPv4 tunnels go.
abbrev pub unroute4 : (n : Node) → Calls → Calls
unroute4 n log =
    route_del (pos n.tnl64_ifindex) mobile_table any_source
    ∷ route4_del (pos n.tnl44_ifindex) mobile_table any_source
    ∷ log

abbrev pub stop_encap : Node → Calls → Calls
stop_encap n log = if is_nat n.current_coa_type then stop_udp_encap n.current_coav4 ∷ log else log

-- The IPv4 care-of address in use is left for home.
unfoldable pub leave_v4_home : Env → Node → Node
unfolding drop_tunnels4
leave_v4_home env n =
    let unruled : Calls =
      if n.current_coav4 == env.hoav4
      then n.log
      else rule4_del node_table high_prio n.current_coav4 ∷ n.log in
    drop_tunnels4 (record n {
      log =
          route_del (pos n.tnl64_ifindex) mobile_table home_source
          ∷ route4_del (pos n.tnl44_ifindex) mobile_table home_source
          ∷ stop_encap n unruled;
    })

-- The IPv4 care-of address in use is left for an IPv6 one.
unfoldable pub leave_v4_v6 : Node → Node
unfolding drop_tunnels4
leave_v4_v6 n =
    note (rule4_del node_table high_prio n.current_coav4)
      (drop_tunnels4 (record n { log = unroute4 n (stop_encap n n.log) }))

-- The IPv4 care-of address in use is left for another IPv4 one; the encapsulation has been dealt with.
unfoldable pub leave_v4_v4 : Node → Node
unfolding drop_tunnels4
leave_v4_v4 n = drop_tunnels4 (record n { log = unroute4 n n.log })
