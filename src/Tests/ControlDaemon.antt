-- ===== src/Tests/ControlDaemon.antt =====
-- The theorems on the control daemon cngictrl at sample states.
use dsmip.Common.{
  pos, negsuc, ◌≡◌, ◌↔◌, refl, true, false, not, [], ◌∷◌, ◌++◌, some, up, ◌==◌, ◌%◌, ◌+◌, ◌^◌,
}
use dsmip.Mobile.State as Mobile
use dsmip.Mobile.State.{wlan}
use dsmip.Mobile.Worker.{boot}
use dsmip.Mobile.Events.Control.{
  handoff, auto_handoff_off, disable_auto_first, no_answer, CtrlResult, ctrl_handoff, ctrl_fd_check,
}
use dsmip.Daemon.Text.{
  codes, begins, strstr, has, strchr, skipspace, scan_digits, getnumfromstr, copy, break_at,
  to_digit, same,
}
use dsmip.Daemon.State.{
  lsmod, ps_mn, ping_running, ping_thread, create, chown_conf, chmod_conf, write_conf, ip4_route,
  ip4_addr, sig_int, start_mn, kill, query, sendto_mn, Daemon, note, getcmd_result,
}
use dsmip.Daemon.Node.{find_pid, mn_on, end_mn, mn_off, mn_command}
use dsmip.Daemon.Ping.{is_off, is_stopped, start_ping, ping_command, to_u16}
use dsmip.Daemon.Routes.{ipaddrdel, run_all, default_lines, iproutedel, rmnetcheck, rmnet_route_add}
use dsmip.Daemon.Ipfix.{check_rmnet, wlan_gone, ipfix}
use dsmip.Daemon.Ipfix.Link.{link_after, ipfix-links}
use dsmip.Daemon.Settings.{wpaconfpart1, wpaconfpart2, wpaconfpart3, makewpaconf, checkwpaconf}
use dsmip.Daemon.Words.{words, find_word}
use dsmip.Daemon.Main.{
  request, handoff_link, go_rmnet, handoff_to, handoff_by, handoff_command, auto_command, perform,
  obey, run_line,
}
use dsmip.Daemon.Reach.{globals, adopt_mn, cngictrl_init, Reachable, started, stepped, a_line}
use dsmip.Daemon.Core.{core_calls}
use dsmip.Daemon.Control.{pinging, frozen, requests, Proper, Numbered}
use dsmip.Daemon.Control.Reach.{Reachable-Proper, Reachable-Numbered}
use dsmip.Daemon.Served.{
  Served, at_first, restart, carry_out, unrelated, restarted, handoff_command-refused,
}
use dsmip.Tests.DaemonData.{shell}

abbrev begun : Daemon
begun = record globals {
  wifiswitch = true;
  mnswitch = true;
  mnpid = pos 812;
  log =
      query ps_mn
      ∷ query ps_mn
      ∷ query lsmod
      ∷ chown_conf
      ∷ chmod_conf
      ∷ write_conf
          (wpaconfpart1 ++ (codes "hub" ++ (wpaconfpart2 ++ (codes "hat" ++ wpaconfpart3))))
      ∷ [];
}

begun_lem : cngictrl_init shell globals ≡ some begun
unfolding cngictrl_init checkwpaconf makewpaconf copy note getcmd_result has strstr begins adopt_mn
    find_pid strchr to_digit getnumfromstr skipspace scan_digits
begun_lem = refl

abbrev pinged : Daemon
pinged = record begun { pingstatus = ping_running; log = create ping_thread ∷ begun.log }

pinged_lem : run_line shell (codes "ping on\n") begun ≡ some pinged
unfolding run_line find_word words begins obey perform ping_command has strstr start_ping note
pinged_lem = refl

abbrev by_user : Daemon
by_user = record pinged {
  autohandoff = false;
  seqno = 3;
  log = sendto_mn auto_handoff_off 2 ∷ pinged.log;
}

by_user_lem : run_line shell (codes "auto off\n") pinged ≡ some by_user
unfolding run_line find_word words begins obey perform auto_command skipspace break_at same request
    note
by_user_lem = refl

abbrev ended : Daemon
ended = record by_user {
  mnpid = negsuc 0;
  mnswitch = false;
  mnstop = true;
  log = kill sig_int (pos 812) ∷ by_user.log;
}

ended_lem : run_line shell (codes "mn off\n") by_user ≡ some ended
unfolding run_line find_word words begins obey perform mn_command has strstr mn_off end_mn note
ended_lem = refl

abbrev again : Daemon
again = record ended {
  mnswitch = true;
  mnpid = pos 812;
  mnstop = false;
  log = query ps_mn ∷ start_mn ∷ ended.log;
}

again_lem : run_line shell (codes "mn on\n") ended ≡ some again
unfolding run_line find_word words begins obey perform mn_command has strstr mn_on find_pid strchr
    to_digit getnumfromstr skipspace scan_digits getcmd_result note
again_lem = refl

again-Reachable : Reachable shell again
again-Reachable =
    stepped
      (stepped
        (stepped
          (stepped (started begun begun_lem) refl (a_line (codes "ping on\n") pinged pinged_lem))
          refl (a_line (codes "auto off\n") by_user by_user_lem))
        refl (a_line (codes "mn off\n") ended ended_lem))
      refl (a_line (codes "mn on\n") again again_lem)

Reachable-Proper_example :
    Proper (core_calls again.log)
    × (up pinging (core_calls again.log) ≡ not (is_off again.pingstatus))
    × (again.halting ≡ is_stopped again.pingstatus)
    × (again.mnswitch ≡ true → up frozen (core_calls again.log) ≡ again.mnstop)
Reachable-Proper_example = Reachable-Proper shell again again-Reachable

Reachable-Numbered_example :
    Numbered (core_calls again.log) × (again.seqno ≡ (2 + requests (core_calls again.log)) % 2 ^ 16)
Reachable-Numbered_example = Reachable-Numbered shell again again-Reachable

abbrev handed : Daemon
handed = record again {
  currentlinknum = pos 3;
  seqno = 4;
  log = sendto_mn (handoff 3) 3 ∷ query ip4_route ∷ query ip4_route ∷ again.log;
}

handed_lem : handoff_command shell (codes " rmnet\n") again ≡ some handed
unfolding handoff_command handoff_link handoff_by handoff_to has strstr begins to_u16 check_rmnet
    rmnetcheck getcmd_result iproutedel default_lines run_all go_rmnet rmnet_route_add request note
handed_lem = refl

abbrev kernel : Mobile.Env
kernel = record {
  hoav6 = record { w0 = 0x3ffe0501; w1 = 0xffff0100; w2 = 1; w3 = 2 };
  hoav4 = 1000;
  hav6 = record { w0 = 0x20010db8; w1 = 0; w2 = 0; w3 = 9 };
  hav4 = 2000;
  uptime = 100;
  card_of = λ i. wlan;
  name_length = λ i. 5;
  answer = λ log. pos 7;
  is_sent = λ log. true;
}

abbrev silent : CtrlResult
silent = record { answer = no_answer; node = record boot { auto_handoff_enabled = 0 } }

silent_lem : ctrl_fd_check kernel auto_handoff_off boot ≡ some silent
unfolding ctrl_fd_check
silent_lem = refl

served : Served kernel (core_calls again.log) boot
served =
    restart _ silent.node boot
      (unrelated _ silent.node (kill sig_int (pos 812))
        (carry_out _ boot auto_handoff_off 2 silent
          (unrelated _ boot (create ping_thread) (at_first boot refl) refl) silent_lem)
        refl)
      refl

abbrev refusal : CtrlResult
refusal = record { answer = disable_auto_first; node = record boot { preferred_ifindex = 3 } }

refusal_lem : ctrl_fd_check kernel (handoff 3) boot ≡ some refusal
unfolding ctrl_fd_check ctrl_handoff
refusal_lem = refl

handoff_command-refused_example :
    (refusal.answer ≡ disable_auto_first)
    ↔ ((up restarted (core_calls again.log) ≡ true) × ((boot.current_ifindex == 3) ≡ false))
handoff_command-refused_example =
    handoff_command-refused shell kernel (codes " rmnet\n") 3 3 again handed boot refusal
      again-Reachable served handed_lem refl refusal_lem

-- The wlan has gone, and the mobile node, with automatic handoffs, is on link 2.
abbrev told : Daemon
told = record again {
  currentlinknum = pos 3;
  log = query ip4_route ∷ query ip4_addr ∷ query ip4_route ∷ again.log;
}

told_lem : ipfix shell 0 1 2 again ≡ some told
unfolding ipfix check_rmnet rmnetcheck wlan_gone ipaddrdel iproutedel default_lines run_all
    rmnet_route_add getcmd_result has strstr begins note
told_lem = refl

ipfix-links_example :
    (told.currentlinknum ≡ link_after 0 1 2 again)
    × (told.linknumrmnet ≡ again.linknumrmnet)
    × (told.linknumwlan ≡ again.linknumwlan)
ipfix-links_example = ipfix-links shell 0 1 2 again told told_lem
