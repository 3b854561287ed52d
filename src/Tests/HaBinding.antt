-- ===== src/Tests/HaBinding.antt =====
-- The theorems on binding updates and rounds at sample inputs.
use dsmip.Common.{
  ◌↔◌, ◌⊎◌, is_pos, is_neg, is_nonzero, ◌≤◌, ◌<◌, ◌≡◌, ◌≢◌, arith, refl, pos, true, some, none, inl,
  inr, get_elem?,
}
use dsmip.Net.{v6_eq, ipv6_unmap_addr, ipv6_map_addr}
use dsmip.Ha.State.{Ha, Mn, Host}
use dsmip.Ha.Binding.Steps.{is_encapsulated}
use dsmip.Ha.Binding.Handler.{accept_bu, rebind}
use dsmip.Ha.Binding.V4.{bu_v4, switch_v4, find_coa}
use dsmip.Ha.Valid.{IsValid}
use dsmip.Ha.Valid.Preserved.{accept_bu-IsValid}
use dsmip.Ha.Cleanup.{mn_state_cleanup, mn_state_cleanup_result}
use dsmip.Ha.Cleanup.Result.{mn_state_cleanup_result-none}
use dsmip.Ha.Probe.{find_mn}
use dsmip.Ha.Round.{round, expire}
use dsmip.Ha.Round.Expiry.{IsReset, expire_lem}
use dsmip.Ha.Trace.{tunnel44_up, tunnel64_up, tunnel66_up}
use dsmip.Ha.Trace.Detour.{NoDetour, accept_bu-NoDetour}
use dsmip.Ha.Trace.Encap.{IsShielded, accept_bu-IsShielded}
use dsmip.Ha.Trace.Leaks.{Accounted, accept_bu-Accounted, mn_state_cleanup-Accounted}
use dsmip.Ha.Trace.Main.{accept_bu-IsRouted}
use dsmip.Ha.Trace.Routed.{IsRouted, IsMove}
use dsmip.Ha.Valid.Rounds.{IsSound, round-IsSound}
use dsmip.Tests.HaData.{
  counting, counting-IsDriver, cfg, agent, probed-IsValid, blank-IsValid, at_home, behind_nat,
  bu_v4_here, bu_v6_away, probe_here, probed,
}

agent-IsSound : IsSound agent
agent-IsSound = record {
  entries = (
    probed-IsValid,
    (
      blank-IsValid,
      (
        blank-IsValid,
        (
          blank-IsValid,
          (
            blank-IsValid,
            (blank-IsValid, (blank-IsValid, (blank-IsValid, (blank-IsValid, (blank-IsValid, tt))))),
          ),
        ),
      ),
    ),
  );
  size = refl;
}

probe_known : find_mn probe_here.hoa agent.mns < 10
unfolding find_mn v6_eq
probe_known = omega arith

v4_here_nonzero : ipv6_unmap_addr bu_v4_here.coa ≢ some 0
unfolding ipv6_unmap_addr ipv6_map_addr
v4_here_nonzero e = ground arith

v4_mapped : ipv6_unmap_addr bu_v4_here.coa ≢ none
unfolding ipv6_unmap_addr ipv6_map_addr
v4_mapped e = ground arith

round-IsSound_example :
    (ha' : Ha) × (round counting cfg 70 (some probe_here) (some bu_v4_here) agent ≡ some ha')
    × IsSound ha'
round-IsSound_example =
    round-IsSound counting cfg 70 (some probe_here) (some bu_v4_here) agent probe_known
      v4_here_nonzero agent-IsSound

accept_bu-Accounted_example :
    Accounted counting (λ _. ⊥) (accept_bu counting cfg 70 bu_v4_here at_home) (pos 1)
accept_bu-Accounted_example =
    accept_bu-Accounted counting cfg (λ _. ⊥) 70 bu_v4_here at_home (pos 1) v4_here_nonzero
      probed-IsValid (ground arith)

mn_state_cleanup-Accounted_example :
    let log = (mn_state_cleanup cfg behind_nat).log in
    (tunnel44_up counting (pos 41) log ≡ true → ⊥)
    × (tunnel64_up counting (pos 41) log ≡ true → ⊥)
    × (tunnel66_up counting (pos 41) log ≡ true → ⊥)
mn_state_cleanup-Accounted_example =
    mn_state_cleanup-Accounted counting cfg (λ _. ⊥) behind_nat (pos 41) (λ e. ground arith)
      (ground arith)

mn_state_cleanup_result-none_example :
    (mn_state_cleanup_result (λ log. pos 0) cfg behind_nat ≡ none) ↔ (
      (is_pos behind_nat.mn.active ≡ true)
        × (is_nonzero behind_nat.mn.tnl44_ifindex ≡ true)
        × ((is_neg (pos 0) ≡ true)
            ⊎ ((is_nonzero behind_nat.mn.tnl64_ifindex ≡ true) × (is_neg (pos 0) ≡ true)))
      → ⊥)
mn_state_cleanup_result-none_example = mn_state_cleanup_result-none (λ log. pos 0) cfg behind_nat

-- The node goes to an IPv4 care-of address, then to an IPv6 one.
abbrev on_v4 : Host
on_v4 = accept_bu counting cfg 70 bu_v4_here at_home

on_v4-IsRouted : IsRouted counting on_v4
on_v4-IsRouted =
    accept_bu-IsRouted counting cfg 70 bu_v4_here at_home counting-IsDriver v4_here_nonzero
      probed-IsValid
      (record {
        made4 = λ a e. (ground arith, ground arith);
        made6 = λ e. ground arith;
        new4 = λ a e p. absurd (ground arith);
        new6 = λ p. absurd (ground arith);
      })
      (ground arith)

v6_away_unmapped : ipv6_unmap_addr bu_v6_away.coa ≡ none
unfolding ipv6_unmap_addr
v6_away_unmapped = refl

on_v4-IsMove : IsMove counting cfg bu_v6_away.ifindex bu_v6_away.coa on_v4
unfolding accept_bu rebind bu_v4 switch_v4 find_coa ipv6_unmap_addr ipv6_map_addr
on_v4-IsMove = record {
  made4 = λ a e. (ground arith, ground arith);
  made6 = λ e. ground arith;
  new4 = λ a e p. absurd (ground (arith, v6_away_unmapped));
  new6 = λ p. absurd (ground arith);
}

on_v4-IsValid : IsValid on_v4.mn
on_v4-IsValid = accept_bu-IsValid counting cfg 70 bu_v4_here at_home v4_here_nonzero probed-IsValid

v6_away_nonzero : ipv6_unmap_addr bu_v6_away.coa ≢ some 0
v6_away_nonzero e = ground (arith, v6_away_unmapped)

accept_bu-IsRouted_example : IsRouted counting (accept_bu counting cfg 75 bu_v6_away on_v4)
accept_bu-IsRouted_example =
    accept_bu-IsRouted counting cfg 75 bu_v6_away on_v4 counting-IsDriver v6_away_nonzero
      on_v4-IsValid on_v4-IsMove on_v4-IsRouted

accept_bu-NoDetour_example :
    NoDetour 0xac10_00c7 probed.hoav6 (accept_bu counting cfg 70 bu_v4_here behind_nat).log
accept_bu-NoDetour_example =
    accept_bu-NoDetour counting cfg 70 bu_v4_here behind_nat (inr (inl v4_mapped)) (ground arith)

accept_bu-IsShielded_example : IsShielded cfg (accept_bu counting cfg 70 bu_v4_here at_home)
unfolding is_encapsulated
accept_bu-IsShielded_example =
    accept_bu-IsShielded counting cfg 70 bu_v4_here at_home (λ e. ground arith)

expire_lem_example :
    (m' : Mn) × (get_elem? (expire cfg 90 agent).mns 0 ≡ some m')
    × (60 < 90 → IsReset m')
    × (90 ≤ 60 → m' ≡ probed)
expire_lem_example = expire_lem cfg 90 agent 0 probed agent-IsSound refl
