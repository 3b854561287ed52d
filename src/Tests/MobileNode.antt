-- ===== src/Tests/MobileNode.antt =====
-- The theorems on the mobile node at sample states.
use dsmip.Common.{
  ℕ, ◌<◌, set, ◌≡◌, refl, pos, arith, true, false, List, [], ◌∷◌, Option, none, some, up,
}
use dsmip.Net.{In6Addr, v6_eq, ipv6_map_addr}
use dsmip.Mobile.State.{
  wlan, Iface, Env, Node, default_table, on_v6, state_add, policy_add, rule_add,
}
use dsmip.Mobile.Handoff.Steps.{
  to_v4, begin_detour, detour_rules, end_detour, add_routes, tell_probed, send_probed_bus, send_bu,
}
use dsmip.Mobile.Handoff.Branches.{go_v4, switch_v4, arrive_v4, swap_rule4}
use dsmip.Mobile.Handoff.{find_iface, note_coa, is_same_coa, move, do_handoff}
use dsmip.Mobile.Events.Slots.{zero_iface, find_slot, prefer}
use dsmip.Mobile.Events.Links.{is_ignored_link, new_wlan, process_link}
use dsmip.Mobile.Events.Addrs.{
  AddrMsg, inet, inet6, both_up, is_ignored_addr, new_addr4, take4, new_addr6, process_addr,
}
use dsmip.Mobile.Events.Workers.{
  mn_init, mn_cleanup, bu_worker, nat_probe_worker, probe_times, probe_calls, wants_probe,
}
use dsmip.Mobile.Trace.{encap, policy, coa_state, rule6}
use dsmip.Mobile.Sound.{IsSound}
use dsmip.Mobile.Announced.{IsAnnounced}
use dsmip.Mobile.Numbers.{IsNumbered}
use dsmip.Mobile.Invariants.{Reachable-IsSound, Reachable-IsAnnounced, Reachable-IsNumbered}
use dsmip.Mobile.Faults.{is_none, leaves_ifaces, Reachable-none}
use dsmip.Mobile.Place.{over_v4, attachment, relocate, knows, do_handoff-attachment}
use dsmip.Mobile.Attach.{attached, new_addr6-attaches}
use dsmip.Ha.State.{nif}
use dsmip.Ha.Probe.{find_mn, nif_map, map_interface, probe_mn, handle_probe}
use dsmip.Ha.Binding.V4.{find_coa}
use dsmip.Mobile.Probes.{nat_probe, handle_probe-nat_probe}
use dsmip.Tests.HaData.{agent, probed, probed-IsValid}
use dsmip.Mobile.Updates.{bu_packet, recvbu-bu_packet}
use dsmip.Mobile.Cleanup.{mn_cleanup-clean}
use dsmip.Mobility.Messages.{recvbu, bound}
use dsmip.Mobile.Worker.{
  boot, Nlmsg, link_msg, addr_msg, Round, process_nlmsg, link_event_fd_check, check_ctrl, mn_round,
  Reachable, started, next,
}

abbrev home6 : In6Addr
home6 = record { w0 = 0x3ffe0501; w1 = 0xffff0100; w2 = 1; w3 = 2 }

abbrev coa6 : In6Addr
coa6 = record { w0 = 0x20010db8; w1 = 0; w2 = 0; w3 = 9 }

abbrev env : Env
env = record {
  hoav6 = home6;
  hoav4 = 1000;
  hav6 = coa6;
  hav4 = 2000;
  uptime = 100;
  card_of = λ i. wlan;
  name_length = λ i. 5;
  answer = λ log. pos 7;
  is_sent = λ log. true;
}

-- A wlan card comes up and gets an IPv4 address.
abbrev first_round : Round
first_round = record {
  is_ready = true;
  messages =
      record {
        env = env;
        msg = link_msg (record {
          is_new = true;
          nlmsg_len = 32;
          ifi_family = 0;
          ifi_type = 1;
          ifi_index = 4;
          ifi_flags = both_up;
        });
      }
      ∷ record {
        env = env;
        msg = addr_msg (record {
          is_new = true;
          nlmsg_len = 24;
          ifa_scope = 0;
          ifa_index = 4;
          addr = inet 3000;
          has_address = true;
          has_cacheinfo = false;
        });
      }
      ∷ [];
  command = none;
  command_env = env;
  bu_env = env;
  probe_env = env;
}

abbrev or_boot : Option Node → Node
or_boot none = boot
or_boot (some n) = n

abbrev away : Node
away = or_boot (mn_round first_round (mn_init boot))

first_round_lem : mn_round first_round (mn_init boot) ≡ some away
unfolding mn_init mn_round link_event_fd_check process_nlmsg process_link is_ignored_link new_wlan
    find_slot find_iface process_addr is_ignored_addr new_addr4 take4 prefer do_handoff note_coa
    is_same_coa move go_v4 switch_v4 arrive_v4 swap_rule4 begin_detour detour_rules end_detour
    add_routes tell_probed send_probed_bus send_bu check_ctrl bu_worker nat_probe_worker probe_times
    probe_calls wants_probe ipv6_map_addr
first_round_lem = refl

reached : Reachable away
reached = next first_round started first_round_lem

Reachable-IsSound_example : IsSound away
Reachable-IsSound_example = Reachable-IsSound reached

Reachable-IsAnnounced_example : IsAnnounced away
Reachable-IsAnnounced_example = Reachable-IsAnnounced reached

Reachable-IsNumbered_example : IsNumbered away
Reachable-IsNumbered_example = Reachable-IsNumbered reached

-- Three cards are known, and another one comes up.
abbrev unknown_card : Nlmsg
unknown_card = link_msg (record {
  is_new = true;
  nlmsg_len = 32;
  ifi_family = 0;
  ifi_type = 1;
  ifi_index = 5;
  ifi_flags = both_up;
})

Reachable-none_example :
    is_none (process_nlmsg env unknown_card away) ≡ leaves_ifaces env unknown_card away.ifaces
Reachable-none_example = Reachable-none env unknown_card reached

-- At home, on a card with an IPv4 address.
abbrev card : Iface
card = record zero_iface {
  ifindex = 4;
  ifname = wlan;
  flags = both_up;
  coav4 = 3000;
  invalidv6 = 1;
}

abbrev ready : Node
ready = record boot { ifaces = card ∷ zero_iface ∷ zero_iface ∷ []; preferred_ifindex = 4 }

do_handoff-attachment_example :
    attachment (do_handoff env (to_v4 true 3000) 4 ready)
    ≡ relocate env (knows 4 ready) 4 (to_v4 true 3000) 4 (attachment ready)
do_handoff-attachment_example = do_handoff-attachment env (to_v4 true 3000) 4 ready

-- What the relation between the states comes to here.
relocated :
    relocate env (knows 4 ready) 4 (to_v4 true 3000) 4 (attachment ready)
    ≡ record { ifindex = 4; place = over_v4 true 3000 }
unfolding find_iface
relocated = refl

abbrev new_coa6 : AddrMsg
new_coa6 = record {
  is_new = true;
  nlmsg_len = 24;
  ifa_scope = 0;
  ifa_index = 4;
  addr = inet6 coa6;
  has_address = true;
  has_cacheinfo = true;
}

new_addr6-attaches_example :
    (m : Node) × (new_addr6 env coa6 new_coa6 ready ≡ some m)
    × (attachment m ≡ attached env coa6 new_coa6 ready card)
unfolding find_iface
new_addr6-attaches_example =
    new_addr6-attaches env coa6 new_coa6 ready card refl refl refl refl refl (omega arith) refl

care_of6 : List ℕ
care_of6 = 32 ∷ 1 ∷ 13 ∷ 184 ∷ 0 ∷ 0 ∷ 0 ∷ 0 ∷ 0 ∷ 0 ∷ 0 ∷ 0 ∷ 0 ∷ 0 ∷ 0 ∷ 9 ∷ []

recvbu-bu_packet_example : recvbu (bu_packet true care_of6 258) 32 4 ≡ bound 4 care_of6 258
unfolding care_of6
recvbu-bu_packet_example = recvbu-bu_packet true care_of6 258 4 refl

-- On an IPv6 care-of address.
abbrev settled : Node
settled = record ready {
  current_ifindex = 4;
  current_coa_type = on_v6;
  current_coav6 = coa6;
  tnl66_ifindex = 7;
  log = state_add coa6 ∷ policy_add ∷ rule_add default_table 870 coa6 ∷ [];
}

settled-IsSound : IsSound settled
settled-IsSound = record {
  encaps = λ a. refl;
  policies = refl;
  states = refl;
  rules = λ a. ground arith;
  detour4 = refl;
  detour6 = refl;
  temp_routes4 = λ i. refl;
  temp_routes6 = λ i. refl;
}

mn_cleanup-clean_example :
    ((a : ℕ) → up (encap a) (mn_cleanup env settled).log ≡ false)
    × (up policy (mn_cleanup env settled).log ≡ false)
    × (up coa_state (mn_cleanup env settled).log ≡ false)
    × ((a : In6Addr) → up (rule6 default_table a) (mn_cleanup env settled).log ≡ false)
mn_cleanup-clean_example = mn_cleanup-clean env settled settled-IsSound (λ e. refl)

-- A probe of a node in the agent's table.
handle_probe-nat_probe_example :
    let p = nat_probe probed.hoav6 4 3000 5000 70 in
    (handle_probe 100 p agent
      ≡ some (record agent {
        mns = set agent.mns (find_mn probed.hoav6 agent.mns) (probe_mn 100 p probed);
      }))
    × (find_coa 3000 nif (probe_mn 100 p probed).coav4 < nif)
unfolding find_mn v6_eq map_interface nif_map
handle_probe-nat_probe_example =
    handle_probe-nat_probe probed.hoav6 4 3000 5000 70 100 agent probed refl probed-IsValid
      (ground arith)
