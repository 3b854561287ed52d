-- ===== src/Mobile/Sound.antt =====
-- What the mobile node has asked for agrees with the care-of address that it records as in use.
pub mod Arrive
pub mod Handoffs
use dsmip.Common.{ℕ, ℤ, ◌≡◌, Bool, true, false, ◌&&◌, ◌==◌, up}
use dsmip.Net.{In6Addr, v6_eq}
use dsmip.Mobile.State.{CoaType, default_table, temp_table, any_source, Calls, Node}
use dsmip.Mobile.Trace.{encap, policy, coa_state, rule4_any, rule_any, rule6, route4, route6}
use dsmip.Mobile.Handoff.Steps.{is_nat, is_on_v6}

-- Up are, exactly: the encapsulation of a care-of address behind a NAT; on an IPv6 care-of address the
-- policy and the state for binding updates, and the rule for traffic from it; nothing that leads to
-- the temporary table.
pub record Agrees (t : CoaType) (coav6 : In6Addr) (coav4 : ℕ) (log : Calls) : Type 0 where
  pub encaps : (a : ℕ) → up (encap a) log ≡ (is_nat t && coav4 == a)
  pub policies : up policy log ≡ is_on_v6 t
  pub states : up coa_state log ≡ is_on_v6 t
  pub rules : (a : In6Addr) → up (rule6 default_table a) log ≡ (is_on_v6 t && v6_eq coav6 a)
  pub detour4 : up (rule4_any temp_table) log ≡ false
  pub detour6 : up (rule_any temp_table) log ≡ false
  pub temp_routes4 : (i : ℤ) → up (route4 i temp_table any_source) log ≡ false
  pub temp_routes6 : (i : ℤ) → up (route6 i temp_table any_source) log ≡ false

abbrev pub IsSound : Node → Type 0
IsSound n = Agrees n.current_coa_type n.current_coav6 n.current_coav4 n.log
