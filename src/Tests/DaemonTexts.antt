-- ===== src/Tests/DaemonTexts.antt =====
-- The theorems on the texts and lists that the control daemon cngictrl reads, at samples.
use dsmip.Common.{ℤ, pos, ◌≡◌, ◌≢◌, refl, true, false, List, [], ◌∷◌, ◌++◌, map, some, arith}
use mathlib.Core.List.{reverse}
use dsmip.Daemon.Text.{
  Text, codes, begins, strstr, has, strchr, skipspace, scan_digits, getnumfromstr, break_at,
  read_lines,
}
use dsmip.Daemon.State.{
  ipv4, ip_rule, list_network, ip4_addr, select_network, ip_rule_del, xfrm_state_deleteall,
  xfrm_policy_flush, query, StaticIp, Daemon, note, getcmd_result,
}
use dsmip.Daemon.Routes.{ipaddrdel, clear_family}
use dsmip.Daemon.Routes.Lines.{all_some, own_rules, clear_family_lem}
use dsmip.Daemon.Ipfix.{by_way, wayfix, ipfix_mnoff}
use dsmip.Daemon.Settings.{staticipfix, is_pinned}
use dsmip.Daemon.Settings.Printed.{print_static, staticipfix-print}
use dsmip.Daemon.Detect.{
  Network, read_network, networks, marked, current_network, nextworkid, go_to, leave_network,
}
use dsmip.Daemon.Detect.Moves.{IsOne, leave_network-other}
use dsmip.Daemon.Words.{words, find_word}
use dsmip.Daemon.Words.Longest.{IsLongest, find_word-IsLongest}
use dsmip.Daemon.Reach.{globals}
use dsmip.Tests.DaemonData.{says, shell}

find_word-IsLongest_example :
    IsLongest (codes "apssid fix hub hat\n") words (find_word (codes "apssid fix hub hat\n") words)
find_word-IsLongest_example = find_word-IsLongest (codes "apssid fix hub hat\n")

abbrev rule_lines : List Text
rule_lines =
    codes "0:\tfrom all lookup local"
    ∷ codes "200:\tfrom all lookup 252"
    ∷ codes "32766:\tmain"
    ∷ []

abbrev rule_numbers : List ℤ
rule_numbers = pos 0 ∷ pos 200 ∷ pos 32766 ∷ []

rule_numbers_lem : all_some (map getnumfromstr rule_lines) ≡ some rule_numbers
unfolding getnumfromstr skipspace scan_digits
rule_numbers_lem = refl

clear_family_lem_example :
    clear_family shell ipv4 globals
    ≡ some (record globals {
      log =
          xfrm_policy_flush ipv4
          ∷ xfrm_state_deleteall ipv4
          ∷ (reverse (map (ip_rule_del ipv4) (own_rules rule_numbers))
              ++ query (ip_rule ipv4) ∷ []);
    })
clear_family_lem_example =
    clear_family_lem shell ipv4 globals rule_lines rule_numbers refl refl (omega arith)
      rule_numbers_lem

abbrev with_gateway : StaticIp
with_gateway = record { addr = codes "10.0.0.2/24"; use_gateway = true; gateway = codes "10.0.0.1" }

abbrev no_gateway : StaticIp
no_gateway = record { addr = codes "10.1.0.2/24"; use_gateway = false; gateway = codes "10.1.0.1" }

staticipfix-print_example :
    staticipfix (print_static with_gateway no_gateway) globals
    ≡ some (record globals {
      static0 = with_gateway;
      static1 = record no_gateway { gateway = codes "192.168.1.1" };
    })
staticipfix-print_example =
    staticipfix-print with_gateway no_gateway globals (refl, omega arith, refl, omega arith)
      (refl, omega arith, refl, omega arith)

abbrev listed : List Network
listed = record { id = pos 0; is_current = true } ∷ record { id = pos 1; is_current = false } ∷ []

listed_lem : networks (says list_network) ≡ some listed
unfolding networks strchr read_lines read_network getnumfromstr skipspace scan_digits has strstr
    begins break_at
listed_lem = refl

abbrev changed : Daemon
changed = record globals {
  newid = pos 1;
  log = query ip4_addr ∷ select_network true (pos 1) ∷ query list_network ∷ [];
}

changed_lem : leave_network shell globals ≡ some changed
unfolding leave_network getcmd_result networks strchr read_lines read_network getnumfromstr
    skipspace scan_digits has strstr begins break_at current_network marked nextworkid go_to
    is_pinned ipfix_mnoff ipaddrdel wayfix by_way note
changed_lem = refl

leave_network-other_example : (changed.newid ≢ pos 0) × IsOne changed.newid listed
unfolding marked
leave_network-other_example =
    leave_network-other shell globals changed listed (pos 0) listed_lem (cc) refl changed_lem
