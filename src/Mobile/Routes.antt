-- ===== src/Mobile/Routes.antt =====
-- The rules for traffic from IPv4 care-of addresses, over handoffs.
use dsmip.Common.{ℕ, ◌≡◌, refl, ◌∙◌, arith, Bool-cases, inl, inr, up}
use dsmip.Net.{In6Addr, v6_eq}
use dsmip.Mobile.State.{default_table, rule_add, Env, Node, note}
use dsmip.Mobile.Trace.{rule4, up-bu_log, tell_lem}
use dsmip.Mobile.Handoff.Steps.{to_v6, high_prio, bu_count}
use dsmip.Mobile.Handoff.Branches.{arrive_home, arrive_v6, go_home, switch_v6, forewarn, go_v6}
use dsmip.Mobile.Handoff.Cases.{do_handoff_cases}
use dsmip.Mobile.Handoff.{find_iface, note_coa, move, do_handoff}

-- The rule for an IPv4 care-of address survives the way home and the way to an IPv6 one.
module _ (env : Env) (coa : In6Addr) (n : Node) (a : ℕ) where
  go_home-rule4 :
      up (rule4 default_table a) (go_home env coa n).log ≡ up (rule4 default_table a) n.log
  unfolding go_home arrive_home
  go_home-rule4 =
      let m = arrive_home env coa n in
      let e = rule4 default_table a in
      rw (go_home, tell_lem env coa m)
        (up-bu_log e coa (bu_count m) m.bu_seq m.log (λ s. refl) ∙ ground arith)

  switch_v6-rule4 :
      (i : ℕ)
      → up (rule4 default_table a) (switch_v6 env coa i n).log ≡ up (rule4 default_table a) n.log
  unfolding switch_v6 arrive_v6
  switch_v6-rule4 i =
      let m = arrive_v6 env coa i n in
      let e = rule4 default_table a in
      rw (switch_v6, tell_lem env coa m)
        (up-bu_log e coa (bu_count m) m.bu_seq m.log (λ s. refl) ∙ ground arith)

  forewarn-rule4 :
      up (rule4 default_table a) (forewarn env coa n).log ≡ up (rule4 default_table a) n.log
  unfolding forewarn
  forewarn-rule4 = ground arith

-- A handoff to an IPv6 address, at home or not, leaves every rule for an IPv4 care-of address in
-- the default table as it is.
do_handoff-rule4 :
    (env : Env) (coa : In6Addr) (i : ℕ) (n : Node) (a : ℕ)
    → up (rule4 default_table a) (do_handoff env (to_v6 coa) i n).log
      ≡ up (rule4 default_table a) n.log
unfolding note_coa move go_v6
do_handoff-rule4 env coa i n a =
    let e = rule4 default_table a in
    let told = forewarn env coa in
    do_handoff_cases (λ m. up e m.log ≡ up e n.log) env (to_v6 coa) i n refl refl refl
      (λ p q.
        let m : Node = record (note_coa (to_v6 coa) (find_iface i n.ifaces) n) {
          current_ifindex = i;
        } in
        elim (Bool-cases (v6_eq coa env.hoav6)) [
          | inl h ↦ rw (go_v6, h) (go_home-rule4 env coa (told m) a ∙ forewarn-rule4 env coa m a)
          | inr h ↦
              rw (go_v6, h)
                (switch_v6-rule4 env coa (note (rule_add default_table high_prio coa) (told m)) a i
                  ∙ forewarn-rule4 env coa m a)
        ])
