-- ===== src/Ha/Trace/Main.antt =====
-- The routes in the main table that carry a node's traffic while it is away.
use dsmip.Common.{ℕ, ◌≢◌, ap, ◌∙◌, some}
use dsmip.Net.{ipv6_unmap_addr}
use dsmip.Ha.State.{Host, Config, Kernel}
use dsmip.Ha.Trace.Routing.{IsDriver}
use dsmip.Ha.Valid.{IsValid}
use dsmip.Ha.Binding.V4.{}
use dsmip.Ha.Binding.V6.{}
use dsmip.Ha.Binding.Handler.{Bu, rebind_cases, accept_bu}
use dsmip.Ha.Trace.Routed.{IsRouted, IsMove, go_home-IsRouted, bu_v6-IsRouted}
use dsmip.Ha.Trace.Routed.V4.{bu_v4-IsRouted}

-- With a kernel that shares a tunnel among requests for its end points only, where a route goes with
-- its interface and is refused without one or beside another, an accepted binding update of a valid
-- entry keeps the property that, away from home, the main table routes both home addresses through
-- the tunnels in use, which exist, and at home routes neither. The care-of address is not the mapped
-- 0.0.0.0, the requests for its tunnels would succeed, and the tunnels in use before have other end
-- points.
pub accept_bu-IsRouted :
    (kernel : Kernel) (cfg : Config) (now : ℕ) (bu : Bu) (h : Host)
    → IsDriver kernel
    → ipv6_unmap_addr bu.coa ≢ some 0
    → IsValid h.mn
    → IsMove kernel cfg bu.ifindex bu.coa h
    → IsRouted kernel h
    → IsRouted kernel (accept_bu kernel cfg now bu h)
unfolding accept_bu
accept_bu-IsRouted kernel cfg now bu h w nz valid new v =
    rebind_cases (IsRouted kernel) kernel cfg bu noted
      (λ a e.
        bu_v4-IsRouted kernel cfg bu.ifindex a bu.coa noted e w kept moved bu.seqno bu.hoa
          (λ z. nz (e ∙ ap some z)) valid.slot_zero)
      (λ e. go_home-IsRouted kernel cfg noted kept)
      (λ e f. bu_v6-IsRouted kernel cfg bu.ifindex bu.coa noted w kept moved bu.seqno bu.hoa e)
  where
    noted : Host
    noted = record h { mn = record (h.mn) { last_bu_seq = bu.seqno; last_bu_t = now } }

    kept : IsRouted kernel noted
    kept = record { on_v4 = v.on_v4; on_v6 = v.on_v6; at_home = v.at_home }

    moved : IsMove kernel cfg bu.ifindex bu.coa noted
    moved = record { made4 = new.made4; made6 = new.made6; new4 = new.new4; new6 = new.new6 }
