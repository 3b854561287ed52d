-- ===== src/Mobile/Sound/Arrive.antt =====
-- Each branch of `do_handoff`, up to the binding updates, keeps the agreement.
use dsmip.Common.{ℕ, ◌≡◌, arith, true, false, ◌&&◌}
use dsmip.Net.{In6Addr, v6_eq, v6_eq_sound, v6_eq_refl}
use dsmip.Mobile.State.{default_table, rule_add, Env, Node, note}
use dsmip.Mobile.Sound.{IsSound}
use dsmip.Mobile.Handoff.Steps.{is_on_v6, high_prio}
use dsmip.Mobile.Handoff.Branches.{arrive_home, arrive_v6, arrive_v4}

pub arrive_home-IsSound :
    (env : Env) (coa : In6Addr) (n : Node) → IsSound n → IsSound (arrive_home env coa n)
unfolding arrive_home
arrive_home-IsSound env coa n w = record {
  encaps = λ a. ground (arith, w.encaps a);
  policies = ground (arith, w.policies);
  states = ground (arith, w.states);
  rules = λ a. ground (arith, w.rules a);
  detour4 = ground (arith, w.detour4);
  detour6 = ground (arith, w.detour6);
  temp_routes4 = λ i. ground (arith, w.temp_routes4 i);
  temp_routes6 = λ i. ground (arith, w.temp_routes6 i);
}

pub arrive_v4-IsSound :
    (env : Env) (b i : ℕ) (n : Node) → IsSound n → IsSound (arrive_v4 env true b i n)
unfolding arrive_v4
arrive_v4-IsSound env b i n w = record {
  encaps = λ a. ground (arith, w.encaps a);
  policies = ground (arith, w.policies);
  states = ground (arith, w.states);
  rules = λ a. ground (arith, w.rules a);
  detour4 = ground (arith, w.detour4);
  detour6 = ground (arith, w.detour6);
  temp_routes4 = λ j. ground (arith, w.temp_routes4 j);
  temp_routes6 = λ j. ground (arith, w.temp_routes6 j);
}

-- The rule for the new address has been added; the address is another one than that in use.
pub arrive_v6-IsSound :
    (env : Env) (coa : In6Addr) (i : ℕ) (n : Node)
    → IsSound n
    → (is_on_v6 n.current_coa_type && v6_eq n.current_coav6 coa) ≡ false
    → IsSound (arrive_v6 env coa i (note (rule_add default_table high_prio coa) n))
unfolding arrive_v6
arrive_v6-IsSound env coa i n w other = record {
  encaps = λ a. ground (arith, w.encaps a);
  policies = ground (arith, w.policies);
  states = ground (arith, w.states);
  rules = λ a. ground (
    arith,
    w.rules a,
    v6_eq_sound n.current_coav6 a,
    v6_eq_sound coa a,
    v6_eq_refl coa,
    v6_eq_refl a,
    v6_eq_refl n.current_coav6,
  );
  detour4 = ground (arith, w.detour4);
  detour6 = ground (arith, w.detour6);
  temp_routes4 = λ j. ground (arith, w.temp_routes4 j);
  temp_routes6 = λ j. ground (arith, w.temp_routes6 j);
}
