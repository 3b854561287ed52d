-- ===== src/Daemon/Main.antt =====
-- The loop of `main` of cngictrl/cngictrl.c: a line of input, or an answer of the mobile node.
use dsmip.Common.{
  ℕ, ◌+◌, ◌%◌, ◌^◌, pos, ◌==ℤ◌, Bool, true, false, not, ◌&&◌, ◌||◌, length, drop, Option, none,
  some, ◌==◌, leb, if◌then◌else◌,
}
use dsmip.Mobile.Events.Control.{CtrlCmd, auto_handoff_on, auto_handoff_off}
use dsmip.Daemon.Text.{Text, codes, ◌>>=◌, has, skipspace, getnumfromstr, break_at, same}
use dsmip.Daemon.State.{
  rmnet_fix, detect_thread, join, signal, show_conf, wpa_list, wpa_shell, logcat, catproc, ap_scan,
  wpa_cli, wmiconfig, sendto_mn, ipfix_done, show_answer, flow_handoff, clean_xfrm, Env, Daemon,
  note,
}
use dsmip.Daemon.Node.{end_mn, mn_command, is_found}
use dsmip.Daemon.Ping.{end_ping, ping_command, to_u16}
use dsmip.Daemon.Routes.{iproutedel, rmnet_route_add, wlan_route_add, run}
use dsmip.Daemon.Ipfix.{check_rmnet, ipfix}
use dsmip.Daemon.Settings.{
  wifi_command, rmnet_command, rule_command, staticip_command, apssid_command, ipfixway_command,
  set_count, set_interval, set_beacons, to_command, link_command,
}
use dsmip.Daemon.Words.{Word, words, find_word}

-- A request to the mobile node takes the number `__SEQNO__` and counts it up.
unfoldable pub request : CtrlCmd → Daemon → Daemon
unfolding note
request c d = record (note (sendto_mn c d.seqno) d) { seqno = (d.seqno + 1) % 2 ^ 16 }

-- The link that the command names, as the `uint16_t` that is sent.
unfoldable pub handoff_link : Text → Daemon → Option ℕ
unfolding to_u16
handoff_link p d =
    if has p (codes "rmnet")
    then some (to_u16 d.linknumrmnet)
    else if has p (codes "wlan")
    then some (to_u16 d.linknumwlan)
    else none

unfoldable pub go_rmnet : Daemon → Option Daemon
go_rmnet d = rmnet_route_add d >>= λ f. some (record f { currentlinknum = f.linknumrmnet })

unfoldable pub go_wlan : Daemon → Option Daemon
go_wlan d = wlan_route_add d >>= λ f. some (record f { currentlinknum = f.linknumwlan })

unfoldable pub handoff_to : Env → ℕ → Daemon → Option Daemon
handoff_to env i d = check_rmnet env d >>= λ e. iproutedel env e >>= λ f.
    (if pos i ==ℤ f.linknumrmnet then go_rmnet f else go_wlan f) >>= λ g.
    some (request (CtrlCmd.handoff i) g)

unfoldable pub handoff_by : Env → Option ℕ → Daemon → Option Daemon
handoff_by env none d = some d
handoff_by env (some i) d = if i == 0 || d.autohandoff then some d else handoff_to env i d

unfoldable pub handoff_command : Env → Text → Daemon → Option Daemon
handoff_command env p d = handoff_by env (handoff_link p d) d

abbrev pub not_lower : ℕ → Bool
not_lower c = not (leb b'a' c && leb c b'z')

unfoldable pub auto_command : Text → Daemon → Daemon
auto_command p d =
    let w = (break_at not_lower (skipspace p)).0 in
    if same w (codes "on")
    then request auto_handoff_on (record d { autohandoff = true })
    else if same w (codes "off")
    then request auto_handoff_off (record d { autohandoff = false })
    else d

unfoldable pub scan_command : Text → Daemon → Daemon
unfolding note
scan_command lp d =
    if has lp (codes "on")
    then note (ap_scan 1) d
    else if has lp (codes "off")
    then note (ap_scan 2) d
    else d

unfoldable pub quit_command : Daemon → Daemon
unfolding note
quit_command d =
    let e =
      end_ping (
        note (join detect_thread)
          (note (signal detect_thread) (record d { detect_run = false }))) in
    record (if e.mnswitch && is_found e then end_mn e else e) { is_running = false }

-- `lp` is what follows the command's word.
unfoldable pub perform : Env → Word → Text → Daemon → Option Daemon
unfolding note
perform env Word.wifi lp d = wifi_command env lp d
perform env Word.rmnet lp d = some (rmnet_command lp d)
perform env Word.mn lp d = mn_command env lp d
perform env Word.ping lp d = ping_command lp d
perform env Word.rule lp d = rule_command env lp d
perform env Word.staticip lp d = staticip_command lp d
perform env Word.apssid lp d = apssid_command env lp d
perform env Word.ipfixway lp d = some (ipfixway_command lp d)
perform env Word.setbmisscnt lp d = getnumfromstr lp >>= λ n. some (set_count n d)
perform env Word.setbmissintvl lp d = getnumfromstr lp >>= λ n. some (set_interval n d)
perform env Word.to lp d = to_command env lp d
perform env Word.list lp d = some (note wpa_list d)
perform env Word.scan lp d = some (scan_command lp d)
perform env Word.wpa_cli_shell lp d = some (note wpa_shell d)
perform env Word.wpa_cli lp d = run 48 lp wpa_cli d
perform env Word.show lp d = some (note show_conf d)
perform env Word.setbmissbeacons lp d = getnumfromstr lp >>= λ n. some (set_beacons n d)
perform env Word.wmiconfig lp d = run 19 lp wmiconfig d
perform env Word.logcat lp d = some (note logcat d)
perform env Word.catproc lp d = some (note catproc d)
perform env Word.lscoa lp d = some (request CtrlCmd.lscoa d)
perform env Word.handoff lp d = handoff_command env lp d
perform env Word.ap lp d = some d
perform env Word.automatic lp d = some (auto_command lp d)
perform env Word.quit lp d = some (quit_command d)
perform env Word.link lp d = link_command lp d
perform env Word.help lp d = some d
perform env Word.flowhf lp d = some (note flow_handoff d)
perform env Word.cleanxfrm lp d = some (note clean_xfrm d)

unfoldable pub obey : Env → Text → Option (Text × Word) → Daemon → Option Daemon
obey env line none d = some d
obey env line (some (w, c)) d = perform env c (drop (length w) line) d

unfoldable pub run_line : Env → Text → Daemon → Option Daemon
run_line env line d = obey env line (find_word line words) d

-- `struct CTRL_CMD_ACK`, with the first three bytes of `ack`
pub record Ack : Type 0 where
  pub seqno : ℕ
  pub chksum : ℕ
  pub ack0 : ℕ
  pub ack1 : ℕ
  pub ack2 : ℕ

-- What the mobile node tells on its own has the number 0. `seqno==__SEQNO__-1` is a test of `int`s.
unfoldable pub notified : Env → Ack → Daemon → Option Daemon
unfolding note
notified env a d =
    if a.chksum == 0
    then (if d.wifiswitch || d.mnswitch
        then (ipfix env a.ack0 a.ack1 a.ack2 d >>= λ e. some (note ipfix_done e))
        else some d)
    else if a.chksum == 1 && (a.ack0 == 1)
    then some (record d { rmnetstatus = rmnet_fix })
    else some d

unfoldable pub receive : Env → Ack → Daemon → Option Daemon
unfolding note
receive env a d =
    if a.seqno + 1 == d.seqno
    then some (note show_answer d)
    else if a.seqno == 0
    then notified env a d
    else some d
