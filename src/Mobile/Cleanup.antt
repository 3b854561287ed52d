-- ===== src/Mobile/Cleanup.antt =====
-- What `mn_cleanup` leaves behind.
use dsmip.Common.{ℕ, ◌≡◌, arith, true, false, ◌==◌, ==_refl, up}
use dsmip.Net.{In6Addr}
use dsmip.Mobile.State.{default_table, Env, Node}
use dsmip.Mobile.Trace.{encap, policy, coa_state, rule6}
use dsmip.Mobile.Sound.{IsSound}
use dsmip.Mobile.Handoff.Steps.{is_on_v6}
use dsmip.Mobile.Events.Workers.{mn_cleanup}

-- Nothing of the encapsulation, the policies and the rules for care-of addresses is left, if on an IPv6
-- care-of address a tunnel is recorded.
module _ (env : Env) (n : Node) (w : IsSound n)
    (tunnelled : is_on_v6 n.current_coa_type ≡ true → (n.tnl66_ifindex == 0) ≡ false) where
  mn_cleanup-encap : (a : ℕ) → up (encap a) (mn_cleanup env n).log ≡ false
  unfolding mn_cleanup
  mn_cleanup-encap a = ground (arith, w.encaps a, ==_refl a, ==_refl n.current_coav4)

  mn_cleanup-policy : up policy (mn_cleanup env n).log ≡ false
  unfolding mn_cleanup
  mn_cleanup-policy = ground (arith, w.policies, tunnelled)

  mn_cleanup-state : up coa_state (mn_cleanup env n).log ≡ false
  unfolding mn_cleanup
  mn_cleanup-state = ground (arith, w.states, tunnelled)

  mn_cleanup-rule6 : (a : In6Addr) → up (rule6 default_table a) (mn_cleanup env n).log ≡ false
  unfolding mn_cleanup
  mn_cleanup-rule6 a = ground (arith, w.rules a, tunnelled)

  -- In a state where what is up agrees with the care-of address in use, with a tunnel recorded if
  -- that is IPv6, mn_cleanup leaves no UDP encapsulation, no policy and no state for binding
  -- updates, and no rule for an IPv6 care-of address.
  pub mn_cleanup-clean :
      ((a : ℕ) → up (encap a) (mn_cleanup env n).log ≡ false)
      × (up policy (mn_cleanup env n).log ≡ false)
      × (up coa_state (mn_cleanup env n).log ≡ false)
      × ((a : In6Addr) → up (rule6 default_table a) (mn_cleanup env n).log ≡ false)
  mn_cleanup-clean = (mn_cleanup-encap, mn_cleanup-policy, mn_cleanup-state, mn_cleanup-rule6)
