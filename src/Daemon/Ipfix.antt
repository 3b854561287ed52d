-- ===== src/Daemon/Ipfix.antt =====
-- `ipfix` and what it uses (cngictrl/cngictrl.h): the daemon's part in a change of the mobile node's link.
pub mod Link
use dsmip.Common.{ℕ, pos, ◌==ℤ◌, Bool, true, false, ◌&&◌, Option, none, some, ◌==◌, if◌then◌else◌}
use dsmip.Daemon.Text.{codes, ◌>>=◌}
use dsmip.Daemon.State.{
  RmnetStatus, rmnet_fix, IpCfgWay, dhcpway, staticway, noway, ip_addr_add, ip_route_del,
  default_add, netcfg_dhcp, StaticIp, Env, Daemon, note,
}
use dsmip.Daemon.Routes.{
  run, ipaddrdel, iproutedel, rmnetcheck, wlancheck, rmnet_route_add, rmnet_route_del, run_wlan,
}

-- `staticipaddr[newid]` with `staticipgateway[newid]`; the arrays have IDNUMS = 2 entries.
unfoldable pub static_ip : Daemon → Option StaticIp
static_ip d =
    if d.newid ==ℤ pos 0 then some d.static0 else if d.newid ==ℤ pos 1 then some d.static1 else none

unfoldable pub staticwayfix : Daemon → Option Daemon
staticwayfix d = static_ip d >>= λ s. run 22 s.addr ip_addr_add d >>= λ e.
    if s.use_gateway then run 35 s.gateway default_add e else some e

-- The `switch` over `ipcfg`.
unfoldable pub by_way : IpCfgWay → Daemon → Option Daemon
unfolding note
by_way noway d = some d
by_way staticway d = staticwayfix d
by_way dhcpway d = some (note netcfg_dhcp d)

unfoldable pub wayfix : Daemon → Option Daemon
wayfix d = by_way d.ipcfg d

unfoldable pub ipfix_mnoff : Env → Daemon → Option Daemon
ipfix_mnoff env d = ipaddrdel env d >>= λ e. wayfix e

abbrev pub is_fix : RmnetStatus → Bool
is_fix rmnet_fix = true
is_fix _ = false

unfoldable pub check_rmnet : Env → Daemon → Option Daemon
check_rmnet env d = if is_fix d.rmnetstatus then rmnetcheck env d else some d

-- `ack[0]` is 0: the wlan has gone.
unfoldable pub wlan_gone : Env → ℕ → ℕ → Daemon → Option Daemon
wlan_gone env auto link d = ipaddrdel env d >>= λ e.
    if pos link ==ℤ e.linknumrmnet
    then some e
    else (iproutedel env e >>= λ f.
        if auto == 0
        then some f
        else (rmnet_route_add f >>= λ g. some (record g { currentlinknum = g.linknumrmnet })))

-- `ack[0]` is 1: the wlan is there. With automatic handoffs off, on the rmnet, its route is put back.
unfoldable pub wlan_came : Env → ℕ → ℕ → Daemon → Option Daemon
wlan_came env auto link d =
    (if pos link ==ℤ d.linknumrmnet then rmnet_route_del d else some d) >>= λ e.
    (if e.wifiswitch then wayfix e else some e) >>= λ f. wlancheck env f >>= λ g.
    (let h : Daemon = record g { currentlinknum = g.linknumwlan } in
      if auto == 0 && (pos link ==ℤ h.linknumrmnet)
      then (run_wlan (codes "ip route del ") ip_route_del h >>= λ i.
          rmnet_route_add i >>= λ j. some (record j { currentlinknum = j.linknumrmnet }))
      else some h)

-- The bytes of `ack`: the event, whether automatic handoffs are on, and the link of the mobile node.
unfoldable pub ipfix : Env → ℕ → ℕ → ℕ → Daemon → Option Daemon
ipfix env event auto link d = check_rmnet env (record d { currentlinknum = pos link }) >>= λ e.
    if event == 0
    then wlan_gone env auto link e
    else if event == 1
    then wlan_came env auto link e
    else some e
