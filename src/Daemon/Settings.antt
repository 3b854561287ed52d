-- ===== src/Daemon/Settings.antt =====
-- The commands of cngictrl/cngictrl.c that change settings, with `staticipfix`, `apssidfix` and `checkwpaconf`.
pub mod Limits
pub mod Printed
use dsmip.Common.{
  ℕ, zero, suc, ◌+◌, ℤ, pos, negsuc, ◌==ℤ◌, Bool, true, false, not, ◌&&◌, ◌||◌, List, [], ◌∷◌, ◌++◌,
  Option, none, some, ◌==◌, if◌then◌else◌,
}
use dsmip.Daemon.Text.{
  Text, codes, newline, ◌>>=◌, begins, strstr, has, strchr, skipspace, getnumfromstr, copy,
  is_digit, is_word_end, break_at, break_space, after,
}
use dsmip.Daemon.State.{
  rmnet_on, rmnet_off, rmnet_fix, dhcpway, staticway, noway, lsmod, ip_link, ps_wpa_supplicant,
  sig_term, detect_thread, insmod, start_wpa_supplicant, rmmod, kill, select_network,
  setbmissbeacons, show_rules, write_conf, chmod_conf, chown_conf, create, join, signal, StaticIp,
  Env, Daemon, note, getcmd_result,
}
use dsmip.Daemon.Node.{find_pid}
use dsmip.Daemon.Routes.{ruleclear}
use dsmip.Daemon.Ipfix.{ipfix_mnoff}

-- `lp--` back to the newline before; the characters before the place are given the nearest first.
unfoldable pub line_start : Text → Text → Option Text
line_start [] t = none
line_start (c ∷ before) t = if c == newline then some t else line_start before (c ∷ t)

-- `strstr`, with the characters before the place that is found.
unfoldable pub locate : Text → Text → Text → Option (Text × Text)
locate before [] w = none
locate before (c ∷ t) w = if begins (c ∷ t) w then some (before, c ∷ t) else locate (c ∷ before) t w

unfoldable pub load_wifi : Daemon → Daemon
unfolding note
load_wifi d = note start_wpa_supplicant (note insmod d)

-- The number at the beginning of the line in which the interface is named.
unfoldable pub note_wlan : Option (Text × Text) → Daemon → Option Daemon
note_wlan none d = some d
note_wlan (some (before, t)) d =
    line_start before t >>= λ l. getnumfromstr l >>= λ n. some (record d { linknumwlan = n })

unfoldable pub wifi_on : Env → Daemon → Option Daemon
wifi_on env d = getcmd_result env lsmod d >>= λ r.
    (let e : Daemon = if has r.0 (codes "ar6000") then r.1 else load_wifi r.1 in
      getcmd_result env ip_link (record e { wifiswitch = true }) >>= λ s.
      note_wlan (locate [] s.0 (codes "wlan0")) s.1)

unfoldable pub wifi_off : Env → Daemon → Option Daemon
unfolding note
wifi_off env d =
    getcmd_result env ps_wpa_supplicant
      (note (signal detect_thread) (record d { wifiswitch = false; detect_run = false }))
    >>= λ r.
        (if has r.0 (codes "wpa_supplicant")
          then (find_pid r.0 >>= λ pid. some (note (kill sig_term pid) r.1))
          else some r.1)
        >>= λ e. some (record (note rmmod e) { wlan_route = [] })

unfoldable pub wifi_command : Env → Text → Daemon → Option Daemon
wifi_command env lp d =
    if has lp (codes "on")
    then wifi_on env d
    else if has lp (codes "off")
    then wifi_off env d
    else some d

unfoldable pub rmnet_command : Text → Daemon → Daemon
rmnet_command lp d =
    if has lp (codes "on")
    then record d { rmnet_flag = true; rmnetstatus = rmnet_on }
    else if has lp (codes "off")
    then record d { rmnet_flag = false; rmnetstatus = rmnet_off }
    else if has lp (codes "fix")
    then record d { rmnetstatus = rmnet_fix }
    else d

unfoldable pub rule_command : Env → Text → Daemon → Option Daemon
unfolding note
rule_command env lp d =
    if has lp (codes "show")
    then some (note show_rules d)
    else if has lp (codes "clear")
    then ruleclear env d
    else some d

-- The three characters of "via"; what follows the end of the text is outside it.
unfoldable pub skip_via : Text → Option Text
skip_via (a ∷ b ∷ c ∷ t) = some t
skip_via _ = none

unfoldable pub begins_v : Text → Bool
begins_v [] = false
begins_v (c ∷ t) = c == b'v'

-- The gateway after an address, if there is one, and the rest.
unfoldable pub read_gateway : StaticIp → Text → Option (StaticIp × Text)
read_gateway s t =
    if begins_v t
    then (skip_via t >>= λ u.
        (let w = break_at is_word_end (skipspace u) in
          copy 80 w.0 >>= λ g. some (record s { gateway = g; use_gateway = true }, skipspace w.1)))
    else some (record s { use_gateway = false }, t)

unfoldable pub staticipfix : Text → Daemon → Option Daemon
staticipfix t d = break_space (skipspace t) >>= λ w. copy 80 w.0 >>= λ a.
    read_gateway (record d.static0 { addr = a }) (skipspace w.1) >>= λ r.
    (let v = break_at is_word_end r.1 in
      copy 80 v.0 >>= λ b. read_gateway (record d.static1 { addr = b }) (skipspace v.1) >>= λ s.
      some (record d { static0 = r.0; static1 = s.0 }))

unfoldable pub staticip_command : Text → Daemon → Option Daemon
staticip_command lp d =
    if has lp (codes "show")
    then some d
    else if has lp (codes "fix")
    then staticipfix (after 3 (strstr lp (codes "fix"))) d
    else some d

unfoldable pub apssidfix : Text → Daemon → Option Daemon
apssidfix t d = break_space (skipspace t) >>= λ w. copy 80 w.0 >>= λ a.
    copy 80 (break_at is_word_end (skipspace w.1)).0 >>= λ b.
    some (record d { apssid0 = a; apssid1 = b })

abbrev pub wpaconfpart1 : Text
wpaconfpart1 =
    codes
      "ctrl_interface=DIR=/data/system/wpa_supplicant GROUP=system\nap_scan=2\nupdate_config=1\n\nnetwork={\n\tssid=\""

abbrev pub wpaconfpart2 : Text
wpaconfpart2 = codes "\"\n\tkey_mgmt=NONE\n\tpriority=1\n}\n\nnetwork={\n\tssid=\""

abbrev pub wpaconfpart3 : Text
wpaconfpart3 = codes "\"\n\tkey_mgmt=NONE\n\tpriority=2\n}\n"

-- `makewpaconf`, into `char wpa_supplicant_conf[1000]`
unfoldable pub makewpaconf : Daemon → Option Text
makewpaconf d =
    copy 1000 (wpaconfpart1 ++ (d.apssid0 ++ (wpaconfpart2 ++ (d.apssid1 ++ wpaconfpart3))))

unfoldable pub checkwpaconf : Env → Daemon → Option Daemon
unfolding note
checkwpaconf env d = makewpaconf d >>= λ t.
    (let e = note (write_conf t) d in
      some (if env.is_written e.log then note chown_conf (note chmod_conf e) else e))

unfoldable pub apssid_command : Env → Text → Daemon → Option Daemon
apssid_command env lp d =
    if has lp (codes "show")
    then some d
    else if has lp (codes "fix")
    then (apssidfix (after 3 (strstr lp (codes "fix"))) d >>= λ e. checkwpaconf env e)
    else some d

unfoldable pub ipfixway_command : Text → Daemon → Daemon
ipfixway_command lp d =
    if has lp (codes "dhcp")
    then record d { ipcfg = dhcpway }
    else if has lp (codes "static")
    then record d { ipcfg = staticway }
    else if has lp (codes "no")
    then record d { ipcfg = noway }
    else d

-- The spaces and digits after `setbmisscnt`, `setbmissintvl` and `to` are read like `getnumfromstr` does.
unfoldable pub set_count : ℤ → Daemon → Daemon
unfolding note
set_count (negsuc n) d = d
set_count (pos zero) d = record (note (join detect_thread) (note (signal detect_thread) d)) {
  detect_run = false;
  bmisscnt = 1;
  bmissintvl = 100;
}
set_count (pos (suc n)) d =
    if d.detect_run
    then record d { bmisscnt = suc n }
    else record (note (create detect_thread) d) { bmisscnt = suc n; detect_run = true }

unfoldable pub set_interval : ℤ → Daemon → Daemon
set_interval (negsuc n) d = d
set_interval (pos n) d = record d { bmissintvl = n }

unfoldable pub set_beacons : ℤ → Daemon → Daemon
unfolding note
set_beacons n d =
    if n ==ℤ negsuc 0 then d else record (note (setbmissbeacons n) d) { bmissbeacons = n }

unfoldable pub select : Env → ℤ → Daemon → Option Daemon
unfolding note
select env (negsuc n) d = some d
select env (pos n) d =
    let e : Daemon = record (note (select_network false (pos n)) d) { newid = pos n } in
    if e.mnswitch then some e else ipfix_mnoff env e

-- On the rmnet with automatic handoffs off the wlan is left alone.
unfoldable pub is_pinned : Daemon → Bool
is_pinned d = (d.currentlinknum ==ℤ d.linknumrmnet) && not d.autohandoff

unfoldable pub to_command : Env → Text → Daemon → Option Daemon
unfolding is_pinned
to_command env lp d =
    if not d.wifiswitch || is_pinned d then some d else (getnumfromstr lp >>= λ n. select env n d)

abbrev pub not_digit : ℕ → Bool
not_digit c = not (is_digit c)

unfoldable pub link_command : Text → Daemon → Option Daemon
link_command lp d =
    if has lp (codes "status")
    then some d
    else if has lp (codes "fix")
    then (let t = after 3 (strstr lp (codes "fix")) in
        getnumfromstr t >>= λ n.
        getnumfromstr (if n ==ℤ negsuc 0 then t else (break_at not_digit (skipspace t)).1) >>= λ m.
        some (record d { linknumrmnet = n; linknumwlan = m }))
    else some d
