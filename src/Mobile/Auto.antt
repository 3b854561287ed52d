-- ===== src/Mobile/Auto.antt =====
-- The setting `auto_handoff_enabled` of mn/mn.c: no handoff changes it, only its commands do.
use dsmip.Common.{ℕ, ◌≡◌, refl, ◌∙◌, ap, Bool, true, false, arith}
use dsmip.Net.{In6Addr}
use dsmip.Mobile.State.{default_table, rule_add, Env, Node, note}
use dsmip.Mobile.Trace.{tell_lem, tell_probed_lem}
use dsmip.Mobile.Handoff.Steps.{Coa, to_v6, to_v4, high_prio, send_bu}
use dsmip.Mobile.Handoff.Branches.{
  arrive_home, arrive_v6, arrive_v4, go_home, switch_v6, switch_v4, forewarn, go_v6, go_v4,
}
use dsmip.Mobile.Handoff.Cases.{do_handoff_cases}
use dsmip.Mobile.Handoff.{find_iface, note_coa, move, do_handoff}

module _ (env : Env) where
  go_home-auto :
      (coa : In6Addr) (n : Node) → (go_home env coa n).auto_handoff_enabled ≡ n.auto_handoff_enabled
  unfolding go_home arrive_home
  go_home-auto coa n =
      ap (λ (m : Node). m.auto_handoff_enabled) (tell_lem env coa (arrive_home env coa n))
      ∙ ground arith

  switch_v6-auto :
      (coa : In6Addr) (i : ℕ) (n : Node)
      → (switch_v6 env coa i n).auto_handoff_enabled ≡ n.auto_handoff_enabled
  unfolding switch_v6 arrive_v6
  switch_v6-auto coa i n =
      ap (λ (m : Node). m.auto_handoff_enabled) (tell_lem env coa (arrive_v6 env coa i n))
      ∙ ground arith

  arrive_v4-auto :
      (b : Bool) (a i : ℕ) (n : Node)
      → (arrive_v4 env b a i n).auto_handoff_enabled ≡ n.auto_handoff_enabled
  unfolding arrive_v4
  arrive_v4-auto b a i n = ground arith

  switch_v4-auto :
      (b : Bool) (a i : ℕ) (n : Node)
      → (switch_v4 env b a i n).auto_handoff_enabled ≡ n.auto_handoff_enabled
  unfolding switch_v4
  switch_v4-auto b a i n =
      ap (λ (m : Node). m.auto_handoff_enabled) (tell_probed_lem env _ i a (arrive_v4 env b a i n))
      ∙ arrive_v4-auto b a i n

  forewarn-auto :
      (coa : In6Addr) (n : Node)
      → (forewarn env coa n).auto_handoff_enabled ≡ n.auto_handoff_enabled
  unfolding forewarn send_bu
  forewarn-auto coa n = ground arith

  move-auto :
      (coa : Coa) (i : ℕ) (n : Node)
      → (move env coa i n).auto_handoff_enabled ≡ n.auto_handoff_enabled
  unfolding move go_v6 go_v4
  move-auto (to_v6 a) i n = ground (
    arith,
    forewarn-auto a n,
    go_home-auto a (forewarn env a n),
    switch_v6-auto a i (note (rule_add default_table high_prio a) (forewarn env a n)),
  )
  move-auto (to_v4 b a) i n = ground (arith, switch_v4-auto b a i n)

note_coa-auto :
    (coa : Coa) (i : ℕ) (n : Node)
    → (note_coa coa i n).auto_handoff_enabled ≡ n.auto_handoff_enabled
unfolding note_coa
note_coa-auto (to_v6 a) i n = refl
note_coa-auto (to_v4 true a) i n = refl
note_coa-auto (to_v4 false a) i n = refl

pub do_handoff-auto :
    (env : Env) (coa : Coa) (i : ℕ) (n : Node)
    → (do_handoff env coa i n).auto_handoff_enabled ≡ n.auto_handoff_enabled
do_handoff-auto env coa i n =
    let m = note_coa coa (find_iface i n.ifaces) n in
    let noted = note_coa-auto coa (find_iface i n.ifaces) n in
    do_handoff_cases (λ x. x.auto_handoff_enabled ≡ n.auto_handoff_enabled) env coa i n refl noted
      noted (λ e f. move-auto env coa i (record m { current_ifindex = i }) ∙ noted)
