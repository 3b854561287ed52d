-- ===== src/Daemon/Core/Shell.antt =====
-- The handlers of the daemon cngictrl that only run commands: they change its log, by calls that are not of the core.
use dsmip.Common.{ℕ, ◌≡◌, refl, false, List, [], ◌∷◌, arith}
use dsmip.Daemon.Text.{Text, codes}
use dsmip.Daemon.State.{
  ip4_addr, ip4_addr_wlan, ip4_route, Call, ip_addr_del, ip_addr_add, ip_route_del, ip_route_add,
  default_add, netcfg_dhcp, Env, Daemon, IpCfgWay, dhcpway, staticway, noway, note,
}
use dsmip.Daemon.Core.{
  is_core, Keeps, Blind, Keeps-none, Keeps-some, Keeps-self, Keeps-if, Keeps-then, Keeps-read,
  Keeps-ask,
}
use dsmip.Daemon.Routes.{
  run, run_all, ipaddrdel, iproutedel, default_lines, rmnet_route_add, rmnet_route_del, run_wlan,
  wlan_route_add,
}
use dsmip.Daemon.Ipfix.{staticwayfix, by_way, wayfix, ipfix_mnoff}

module _ {V : Type 0} {view : Daemon → V} (v : Blind view) where
  pub run-Keeps :
      (fixed : ℕ) (t : Text) (c : Text → Call) (d : Daemon)
      → is_core (c t) ≡ false
      → Keeps view d (run fixed t c d)
  unfolding run
  run-Keeps fixed t c d quiet =
      Keeps-if d _ (Keeps-some d (note (c t) d) (v.blind (c t) d quiet)) (Keeps-none d)

  run_all-Keeps :
      (fixed : ℕ) (c : Text → Call) (ts : List Text) (d : Daemon)
      → ((t : Text) → is_core (c t) ≡ false)
      → Keeps view d (run_all fixed c ts d)
  unfolding run_all
  run_all-Keeps fixed c [] d quiet = Keeps-self d
  run_all-Keeps fixed c (t ∷ ts) d quiet =
      Keeps-then d _ _ (run-Keeps fixed t c d (quiet t)) λ e. run_all-Keeps fixed c ts e quiet

  pub ipaddrdel-Keeps : (env : Env) (d : Daemon) → Keeps view d (ipaddrdel env d)
  unfolding ipaddrdel
  ipaddrdel-Keeps env d = Keeps-ask v env ip4_addr d _ λ r. Keeps-if r.1 _ (Keeps-self r.1) (
      Keeps-ask v env ip4_addr_wlan r.1 _
        λ s. Keeps-read s.1 _ _ λ ws. run_all-Keeps 22 ip_addr_del ws s.1 (λ t. refl))

  pub iproutedel-Keeps : (env : Env) (d : Daemon) → Keeps view d (iproutedel env d)
  unfolding iproutedel
  iproutedel-Keeps env d =
      Keeps-ask v env ip4_route d _
        λ r. run_all-Keeps 13 ip_route_del (default_lines false r.0) r.1 (λ t. refl)

  pub rmnet_route_add-Keeps : (d : Daemon) → Keeps view d (rmnet_route_add d)
  unfolding rmnet_route_add
  rmnet_route_add-Keeps d =
      Keeps-if d _ (run-Keeps 13 d.rmnet_route ip_route_add d refl) (Keeps-self d)

  pub rmnet_route_del-Keeps : (d : Daemon) → Keeps view d (rmnet_route_del d)
  unfolding rmnet_route_del
  rmnet_route_del-Keeps d =
      Keeps-if d _ (run-Keeps 13 d.rmnet_route ip_route_del d refl) (Keeps-self d)

  pub run_wlan-Keeps :
      (verb : Text) (c : Text → Call) (d : Daemon)
      → ((t : Text) → is_core (c t) ≡ false)
      → Keeps view d (run_wlan verb c d)
  unfolding run_wlan run
  run_wlan-Keeps verb c d quiet = record {
    at = λ e h. ground (arith, v.blind (c d.wlan_route) d (quiet d.wlan_route));
  }

  pub wlan_route_add-Keeps : (d : Daemon) → Keeps view d (wlan_route_add d)
  unfolding wlan_route_add
  wlan_route_add-Keeps d =
      Keeps-if d _ (run_wlan-Keeps (codes "ip route add ") ip_route_add d (λ t. refl))
        (Keeps-self d)

  staticwayfix-Keeps : (d : Daemon) → Keeps view d (staticwayfix d)
  unfolding staticwayfix
  staticwayfix-Keeps d = Keeps-read d _ _ λ s.
      Keeps-then d _ _ (run-Keeps 22 s.addr ip_addr_add d refl)
        λ e. Keeps-if e _ (run-Keeps 35 s.gateway default_add e refl) (Keeps-self e)

  by_way-Keeps : (w : IpCfgWay) (d : Daemon) → Keeps view d (by_way w d)
  unfolding by_way
  by_way-Keeps dhcpway d = Keeps-some d (note netcfg_dhcp d) (v.blind netcfg_dhcp d refl)
  by_way-Keeps staticway d = staticwayfix-Keeps d
  by_way-Keeps noway d = Keeps-self d

  pub wayfix-Keeps : (d : Daemon) → Keeps view d (wayfix d)
  unfolding wayfix
  wayfix-Keeps d = by_way-Keeps d.ipcfg d

  pub ipfix_mnoff-Keeps : (env : Env) (d : Daemon) → Keeps view d (ipfix_mnoff env d)
  unfolding ipfix_mnoff
  ipfix_mnoff-Keeps env d = Keeps-then d _ _ (ipaddrdel-Keeps env d) λ e. wayfix-Keeps e
