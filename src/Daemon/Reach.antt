-- ===== src/Daemon/Reach.antt =====
-- The start of the daemon, `mnctrl_init` and `cngictrl_init` of cngictrl/cngictrl.c, and the states it comes to.
use dsmip.Common.{ℕ, pos, negsuc, ◌≡◌, true, false, [], Option, some, if◌then◌else◌}
use dsmip.Daemon.Text.{Text, codes, ◌>>=◌, has}
use dsmip.Daemon.State.{noway, rmnet_fix, ping_off, lsmod, ps_mn, Env, Daemon, getcmd_result}
use dsmip.Daemon.Node.{find_pid}
use dsmip.Daemon.Settings.{checkwpaconf}
use dsmip.Daemon.Detect.{Detector, detect_round}
use dsmip.Daemon.Main.{run_line, Ack, receive}

-- The globals as they are declared, with what `mnctrl_init` sets.
abbrev pub globals : Daemon
globals = record {
  is_running = true;
  wifiswitch = false;
  bmisscnt = 1;
  bmissintvl = 100;
  detect_run = false;
  bmissbeacons = negsuc 0;
  linknumwlan = pos 0;
  linknumrmnet = pos 3;
  wlan_route = [];
  autohandoff = true;
  currentlinknum = negsuc 0;
  seqno = 2;
  apssid0 = codes "hub";
  apssid1 = codes "hat";
  mnswitch = false;
  mnstop = false;
  mnpid = negsuc 0;
  newid = pos 0;
  static0 = record {
    addr = codes "192.168.0.2/24";
    use_gateway = true;
    gateway = codes "192.168.0.1";
  };
  static1 = record {
    addr = codes "192.168.1.2/24";
    use_gateway = true;
    gateway = codes "192.168.1.1";
  };
  ipcfg = noway;
  rmnet_route = [];
  rmnet_flag = false;
  rmnetstatus = rmnet_fix;
  pingcmd = codes "ping -q -i 0.01 10.21.5.74";
  pingstatus = ping_off;
  pingfixed = false;
  halting = false;
  exiting = false;
  missedseq = 5;
  log = [];
}

-- A mobile node that is there already is taken over.
unfoldable pub adopt_mn : Env → Text × Daemon → Option Daemon
adopt_mn env r =
    if has r.0 (codes "mn")
    then (getcmd_result env ps_mn (record r.1 { mnswitch = true }) >>= λ s.
        find_pid s.0 >>= λ pid. some (record s.1 { mnpid = pid; mnstop = false }))
    else some (record r.1 { mnswitch = false })

unfoldable pub cngictrl_init : Env → Daemon → Option Daemon
cngictrl_init env d = checkwpaconf env d >>= λ e. getcmd_result env lsmod e >>= λ r.
    getcmd_result env ps_mn (record r.1 { wifiswitch = has r.0 (codes "ar6000") }) >>= λ s.
    adopt_mn env s >>= λ f. some (record f { rmnetstatus = rmnet_fix })

-- What happens while the daemon runs: lines, answers, rounds of the thread for missed beacons, and the end of
-- that thread by an error.
pub data Step (env : Env) (d : Daemon) : Daemon → Type 0 where
  a_line : (line : Text) (e : Daemon) → run_line env line d ≡ some e → Step env d e
  an_answer : (a : Ack) (e : Daemon) → receive env a d ≡ some e → Step env d e
  a_round :
      (reading : Option ℕ) (t : Detector) (t' : Detector) (e : Daemon)
      → detect_round env reading t d ≡ some (t', e)
      → Step env d e
  a_failure : Step env d (record d { detect_run = false })

pub data Reachable (env : Env) : Daemon → Type 0 where
  started : (d : Daemon) → cngictrl_init env globals ≡ some d → Reachable env d
  stepped : {d e : Daemon} → Reachable env d → d.is_running ≡ true → Step env d e → Reachable env e
