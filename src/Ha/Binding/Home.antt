-- ===== src/Ha/Binding/Home.antt =====
-- A binding update whose care-of address is the home address: the mobile node has come back. The
-- source sends no acknowledgement on this branch.
use dsmip.Common.{pos, is_neg, is_pos, if◌then◌else◌}
use dsmip.Ha.State.{Config, Host, mobile}
use dsmip.Ha.Binding.Steps.{del_routes, drop_tunnel66, drop_tunnels4, stop_old_encap}

-- From `next_v6_process`: routes in the main table and both tunnels go.
unfoldable pub leave_v4 : Config → Host → Host
unfolding del_routes drop_tunnels4 stop_old_encap
leave_v4 cfg h =
    let m = h.mn in
    drop_tunnels4 (record h {
      log = del_routes mobile m.tnl44_ifindex m.tnl64_ifindex m (stop_old_encap cfg m h.log);
    })

unfoldable pub go_home : Config → Host → Host
unfolding leave_v4 drop_tunnel66
go_home cfg h =
    let left : Host =
      if is_neg h.mn.active
      then drop_tunnel66 h
      else if is_pos h.mn.active
      then leave_v4 cfg h
      else h in
    record left { mn = record (left.mn) { active = pos 0 } }
