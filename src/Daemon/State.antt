-- ===== src/Daemon/State.antt =====
-- The globals of cngictrl/cngictrl.h and what the daemon asks of the system, the mobile node and its
-- threads, as a log, the newest call first. What is printed is left out, but for the answers of the mobile node.
use dsmip.Common.{ℕ, ℤ, Bool, List, ◌∷◌, Option, none, some, length, ltb, if◌then◌else◌}
use dsmip.Mobile.Events.Control.{CtrlCmd}
use dsmip.Daemon.Text.{Text}

pub data RmnetStatus : Type 0 where
  rmnet_on rmnet_off rmnet_fix : RmnetStatus

pub data IpCfgWay : Type 0 where
  dhcpway staticway noway : IpCfgWay

pub data PingStatus : Type 0 where
  ping_running ping_off ping_stopped : PingStatus

pub data Family : Type 0 where
  ipv4 ipv6 : Family

-- The commands whose output `getcmdResult` reads.
pub data Query : Type 0 where
  lsmod ps_mn ps_wpa_supplicant ip_link ip4_addr ip4_addr_wlan ip4_route ip4_route_rmnet
        ip4_route_wlan list_network status :
      Query
  ip_rule : Family → Query

pub data Signal : Type 0 where
  sig_term sig_int sig_stop sig_cont : Signal

pub data Thread : Type 0 where
  ping_thread detect_thread : Thread

pub data Call : Type 0 where
  query : Query → Call
  insmod start_wpa_supplicant rmmod start_mn netcfg_dhcp show_rules show_conf : Call
  kill : Signal → ℤ → Call
  ip_addr_del ip_addr_add ip_route_del ip_route_add default_add : Text → Call
  ip_rule_del : Family → ℤ → Call
  xfrm_state_deleteall xfrm_policy_flush : Family → Call
  select_network : Bool → ℤ → Call
  setbmissbeacons : ℤ → Call
  wpa_list wpa_shell logcat catproc : Call
  ap_scan : ℕ → Call
  wpa_cli wmiconfig : Text → Call
  write_conf : Text → Call
  chmod_conf chown_conf : Call
  create join signal : Thread → Call
  sendto_mn : CtrlCmd → ℕ → Call
  ipfix_done show_answer flow_handoff clean_xfrm : Call

abbrev pub Calls : Type 0
Calls = List Call

-- What the outside answers after the calls so far: the output of a command, whether a file is written.
-- `fork`, `pipe` and `read` are taken to succeed, and outputs to hold no 0.
pub record Env : Type 0 where
  pub output : Calls → Query → Text
  pub is_written : Calls → Bool

-- An entry of `staticipaddr` with that of `staticipgateway`.
pub record StaticIp : Type 0 where
  pub addr : Text
  pub use_gateway : Bool
  pub gateway : Text

pub record Daemon : Type 0 where
  pub is_running : Bool
  pub wifiswitch : Bool
  pub bmisscnt : ℕ
  pub bmissintvl : ℕ
  pub detect_run : Bool
  pub bmissbeacons : ℤ
  pub linknumwlan : ℤ
  pub linknumrmnet : ℤ
  pub wlan_route : Text
  pub autohandoff : Bool
  pub currentlinknum : ℤ
  pub seqno : ℕ
  pub apssid0 : Text
  pub apssid1 : Text
  pub mnswitch : Bool
  pub mnstop : Bool
  pub mnpid : ℤ
  pub newid : ℤ
  pub static0 : StaticIp
  pub static1 : StaticIp
  pub ipcfg : IpCfgWay
  pub rmnet_route : Text
  pub rmnet_flag : Bool
  pub rmnetstatus : RmnetStatus
  pub pingcmd : Text
  pub pingstatus : PingStatus
  pub pingfixed : Bool
  pub halting : Bool
  pub exiting : Bool
  pub missedseq : ℕ
  pub log : Calls

unfoldable pub note : Call → Daemon → Daemon
note c d = record d { log = c ∷ d.log }

-- `RFROMSYSSIZE`
abbrev pub result_size : ℕ
result_size = 10240

-- `getcmdResult`: an output that fills `cmdresult` has its end written past the array.
unfoldable pub getcmd_result : Env → Query → Daemon → Option (Text × Daemon)
unfolding note
getcmd_result env q d =
    if ltb (length (env.output d.log q)) result_size
    then some (env.output d.log q, note (query q) d)
    else none
