-- ===== src/Daemon/Node.antt =====
-- The command `mn` of cngictrl/cngictrl.c, which starts, stops and ends the mobile node's process.
use dsmip.Common.{ℤ, negsuc, ◌==ℤ◌, Bool, true, false, not, ◌&&◌, Option, some, if◌then◌else◌}
use dsmip.Daemon.Text.{Text, codes, newline, ◌>>=◌, has, strchr, getnumfromstr, to_digit}
use dsmip.Daemon.State.{
  rmnet_fix, ps_mn, sig_int, sig_stop, sig_cont, start_mn, kill, Env, Daemon, note, getcmd_result,
}

-- The number after the first line of what `ps` says.
unfoldable pub find_pid : Text → Option ℤ
unfolding to_digit
find_pid t = strchr t newline >>= λ p. to_digit p >>= λ q. getnumfromstr q

unfoldable pub mn_on : Env → Daemon → Option Daemon
unfolding note
mn_on env d =
    if d.mnswitch
    then some d
    else (getcmd_result env ps_mn (record (note start_mn d) { mnswitch = true }) >>= λ r.
        find_pid r.0 >>= λ pid. some (record r.1 { mnpid = pid; mnstop = false }))

-- The end of the process: one that is stopped is continued first.
unfoldable pub end_mn : Daemon → Daemon
unfolding note
end_mn d =
    let c : Daemon = if d.mnstop then note (kill sig_cont d.mnpid) d else d in
    record (note (kill sig_int d.mnpid) c) {
      mnpid = negsuc 0;
      mnswitch = false;
      mnstop = true;
      rmnetstatus = rmnet_fix;
      rmnet_flag = false;
    }

abbrev pub is_found : Daemon → Bool
is_found d = not (d.mnpid ==ℤ negsuc 0)

unfoldable pub mn_off : Daemon → Daemon
mn_off d = if d.mnswitch && is_found d then end_mn d else d

unfoldable pub mn_stop : Daemon → Daemon
unfolding note
mn_stop d =
    if d.mnswitch && not d.mnstop && is_found d
    then record (note (kill sig_stop d.mnpid) d) { mnstop = true }
    else d

unfoldable pub mn_cont : Daemon → Daemon
unfolding note
mn_cont d =
    if d.mnswitch && d.mnstop && is_found d
    then record (note (kill sig_cont d.mnpid) d) { mnstop = false }
    else d

unfoldable pub mn_command : Env → Text → Daemon → Option Daemon
mn_command env lp d =
    if not (has lp (codes "cont")) && has lp (codes "on")
    then mn_on env d
    else if has lp (codes "off")
    then some (mn_off d)
    else if has lp (codes "stop")
    then some (mn_stop d)
    else if has lp (codes "cont")
    then some (mn_cont d)
    else some d
