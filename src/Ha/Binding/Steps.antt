-- ===== src/Ha/Binding/Steps.antt =====
-- Groups of requests that the branches of a binding update make, newest first.
use dsmip.Common.{
  ℤ, pos, pos_part, is_pos, is_neg, Bool, not, ◌&&◌, ◌∷◌, ◌==◌, get_or, if◌then◌else◌,
}
use dsmip.Ha.State.{
  Config, Mn, Host, Log, Table, mobile, mobile_tmp, route4_add, route4_del, route_add, route_del,
  rule4_add, rule4_del, rule_add, rule_del, tunnel44_del, tunnel64_del, tunnel66_del,
}
use dsmip.Ha.Cleanup.{stop_encap_of}

-- The routes to the mobile node's home addresses through a pair of interfaces.
unfoldable pub add_routes : Table → ℤ → ℤ → Mn → Log → Log
add_routes t oif4 oif6 m log = route_add oif6 t m.hoav6 ∷ route4_add oif4 t m.hoav4 ∷ log

unfoldable pub del_routes : Table → ℤ → ℤ → Mn → Log → Log
del_routes t oif4 oif6 m log = route_del oif6 t m.hoav6 ∷ route4_del oif4 t m.hoav4 ∷ log

-- Routes in the temporary table and the rules that lead there.
unfoldable pub begin_detour : ℤ → ℤ → Mn → Log → Log
unfolding add_routes
begin_detour oif4 oif6 m log =
    rule_add mobile_tmp m.hoav6
    ∷ rule4_add mobile_tmp m.hoav4
    ∷ add_routes mobile_tmp oif4 oif6 m log

unfoldable pub end_detour : ℤ → ℤ → Mn → Log → Log
unfolding del_routes
end_detour oif4 oif6 m log =
    del_routes mobile_tmp oif4 oif6 m
      (rule4_del mobile_tmp m.hoav4 ∷ rule_del mobile_tmp m.hoav6 ∷ log)

-- The IPv6 tunnel in use goes, with its routes.
unfoldable pub drop_tunnel66 : Host → Host
unfolding del_routes
drop_tunnel66 h =
    let m = h.mn in
    record {
      mn = record m { tnl66_ifindex = pos 0 };
      log =
          tunnel66_del m.tnl66_ifindex ∷ del_routes mobile m.tnl66_ifindex m.tnl66_ifindex m h.log;
    }

-- The two IPv4 tunnels in use go.
unfoldable pub drop_tunnels4 : Host → Host
drop_tunnels4 h =
    let m = h.mn in
    record {
      mn = record m { tnl64_ifindex = pos 0; tnl44_ifindex = pos 0 };
      log = tunnel64_del m.tnl64_ifindex ∷ tunnel44_del m.tnl44_ifindex ∷ h.log;
    }

-- `if(active<0) … else if(active>0) …` in front of the new routes.
unfoldable pub drop_old_tunnels : Host → Host
unfolding drop_tunnel66 drop_tunnels4
drop_old_tunnels h =
    if is_neg h.mn.active
    then drop_tunnel66 h
    else if is_pos h.mn.active
    then drop_tunnels4 h
    else h

-- `mns[imn].active>0&&mns[imn].in_nat[mns[imn].active]`
unfoldable pub is_encapsulated : Mn → Bool
is_encapsulated m = is_pos m.active && not (get_or m.in_nat (pos_part m.active) 0 == 0)

unfoldable pub stop_old_encap : Config → Mn → Log → Log
unfolding is_encapsulated stop_encap_of
stop_old_encap cfg m log =
    if is_encapsulated m then stop_encap_of cfg m (pos_part m.active) ∷ log else log
