-- ===== src/Mobile/Sound/Handoffs.antt =====
-- `do_handoff` keeps the agreement.
use dsmip.Common.{ℕ, ◌≡◌, refl, ◌∙◌, arith, Bool, true, false, ◌&&◌, ◌==◌, Bool-cases, inl, inr}
use dsmip.Net.{In6Addr, v6_eq}
use dsmip.Mobile.State.{
  CoaType, default_table, temp_table, any_source, rule_add, note, Calls, Env, Node,
}
use dsmip.Mobile.Trace.{
  encap, policy, coa_state, rule4_any, rule_any, rule6, route4, route6, tell_lem, tell_probed_lem,
  up-bu_log, up-probed_log, bu_log, probed_log,
}
use dsmip.Mobile.Sound.{Agrees, IsSound}
use dsmip.Mobile.Sound.Arrive.{arrive_home-IsSound, arrive_v4-IsSound, arrive_v6-IsSound}
use dsmip.Mobile.Handoff.Steps.{
  Coa, to_v6, to_v4, is_on_v4, is_on_v6, bu_count, tell, tell_probed, high_prio,
}
use dsmip.Mobile.Handoff.Branches.{go_home, switch_v6, switch_v4, forewarn, go_v6, go_v4}
use dsmip.Mobile.Handoff.Cases.{do_handoff_cases}
use dsmip.Mobile.Handoff.{find_iface, note_coa, is_same_coa, move, do_handoff}

module _ {t : CoaType} {c : In6Addr} {d : ℕ} {log : Calls} (w : Agrees t c d log) where
  pub Agrees-bu_log : (coa : In6Addr) (k seq : ℕ) → Agrees t c d (bu_log coa k seq log)
  Agrees-bu_log coa k seq = record {
    encaps = λ a. up-bu_log (encap a) coa k seq log (λ s. refl) ∙ w.encaps a;
    policies = up-bu_log policy coa k seq log (λ s. refl) ∙ w.policies;
    states = up-bu_log coa_state coa k seq log (λ s. refl) ∙ w.states;
    rules = λ a. up-bu_log (rule6 default_table a) coa k seq log (λ s. refl) ∙ w.rules a;
    detour4 = up-bu_log (rule4_any temp_table) coa k seq log (λ s. refl) ∙ w.detour4;
    detour6 = up-bu_log (rule_any temp_table) coa k seq log (λ s. refl) ∙ w.detour6;
    temp_routes4 = λ j.
        up-bu_log (route4 j temp_table any_source) coa k seq log (λ s. refl) ∙ w.temp_routes4 j;
    temp_routes6 = λ j.
        up-bu_log (route6 j temp_table any_source) coa k seq log (λ s. refl) ∙ w.temp_routes6 j;
  }

  Agrees-probed_log : (coa : In6Addr) (i b k seq : ℕ) → Agrees t c d (probed_log coa i b k seq log)
  Agrees-probed_log coa i b k seq = record {
    encaps = λ a. up-probed_log (encap a) coa i b k seq log (λ s. refl) refl ∙ w.encaps a;
    policies = up-probed_log policy coa i b k seq log (λ s. refl) refl ∙ w.policies;
    states = up-probed_log coa_state coa i b k seq log (λ s. refl) refl ∙ w.states;
    rules =
        λ a. up-probed_log (rule6 default_table a) coa i b k seq log (λ s. refl) refl ∙ w.rules a;
    detour4 = up-probed_log (rule4_any temp_table) coa i b k seq log (λ s. refl) refl ∙ w.detour4;
    detour6 = up-probed_log (rule_any temp_table) coa i b k seq log (λ s. refl) refl ∙ w.detour6;
    temp_routes4 = λ j.
        up-probed_log (route4 j temp_table any_source) coa i b k seq log (λ s. refl) refl
        ∙ w.temp_routes4 j;
    temp_routes6 = λ j.
        up-probed_log (route6 j temp_table any_source) coa i b k seq log (λ s. refl) refl
        ∙ w.temp_routes6 j;
  }

tell-IsSound : (env : Env) (coa : In6Addr) (n : Node) → IsSound n → IsSound (tell env coa n)
tell-IsSound env coa n w = rw (tell_lem env coa n) (Agrees-bu_log w coa (bu_count n) n.bu_seq)

tell_probed-IsSound :
    (env : Env) (coa : In6Addr) (i b : ℕ) (n : Node)
    → IsSound n
    → IsSound (tell_probed env coa i b n)
tell_probed-IsSound env coa i b n w =
    rw (tell_probed_lem env coa i b n) (Agrees-probed_log w coa i b (bu_count n) n.bu_seq)

go_home-IsSound : (env : Env) (coa : In6Addr) (n : Node) → IsSound n → IsSound (go_home env coa n)
unfolding go_home
go_home-IsSound env coa n w = tell-IsSound env coa _ (arrive_home-IsSound env coa n w)

switch_v4-IsSound :
    (env : Env) (a i : ℕ) (n : Node) → IsSound n → IsSound (switch_v4 env true a i n)
unfolding switch_v4
switch_v4-IsSound env a i n w = tell_probed-IsSound env _ i a _ (arrive_v4-IsSound env a i n w)

forewarn-IsSound : (env : Env) (coa : In6Addr) (n : Node) → IsSound n → IsSound (forewarn env coa n)
unfolding forewarn
forewarn-IsSound env coa n w = elim (Bool-cases (is_on_v4 n.current_coa_type)) [
  | inl e ↦ rw (forewarn, e) (Agrees-bu_log w coa 1 n.bu_seq)
  | inr e ↦ rw (forewarn, e) w
]

-- `forewarn` keeps what decides whether the care-of address has changed.
forewarn-type :
    (env : Env) (coa : In6Addr) (n : Node)
    → ((forewarn env coa n).current_coa_type ≡ n.current_coa_type)
      × ((forewarn env coa n).current_coav6 ≡ n.current_coav6)
unfolding forewarn
forewarn-type env coa n = ground arith

switch_v6-IsSound :
    (env : Env) (coa : In6Addr) (i : ℕ) (n : Node)
    → IsSound n
    → (is_on_v6 n.current_coa_type && v6_eq n.current_coav6 coa) ≡ false
    → IsSound (switch_v6 env coa i (note (rule_add default_table high_prio coa) n))
unfolding switch_v6
switch_v6-IsSound env coa i n w other =
    tell-IsSound env coa _ (arrive_v6-IsSound env coa i n w other)

go_v6-IsSound :
    (env : Env) (coa : In6Addr) (i : ℕ) (n : Node)
    → IsSound n
    → (is_on_v6 n.current_coa_type && v6_eq n.current_coav6 coa) ≡ false
    → IsSound (go_v6 env coa i n)
unfolding go_v6
go_v6-IsSound env coa i n w other =
    let told = forewarn env coa n in
    let v = forewarn-IsSound env coa n w in
    let t = forewarn-type env coa n in
    elim (Bool-cases (v6_eq coa env.hoav6)) [
      | inl e ↦ rw (go_v6, e) (go_home-IsSound env coa told v)
      | inr e ↦ rw (go_v6, e) (switch_v6-IsSound env coa i told v (rw (t.0, t.1) other))
    ]

go_v4-IsSound : (env : Env) (a i : ℕ) (n : Node) → IsSound n → IsSound (go_v4 env true a i n)
unfolding go_v4
go_v4-IsSound env a i n w = elim (Bool-cases (a == env.hoav4)) [
  | inl e ↦ rw (go_v4, e) w
  | inr e ↦ rw (go_v4, e) (switch_v4-IsSound env a i n w)
]

note_coa-IsSound : (coa : Coa) (i : ℕ) (n : Node) → IsSound n → IsSound (note_coa coa i n)
unfolding note_coa
note_coa-IsSound (to_v6 a) i n w = w
note_coa-IsSound (to_v4 true a) i n w = w
note_coa-IsSound (to_v4 false a) i n w = w

-- The types of care-of address that the callers pass: -1 and 1.
abbrev pub is_asked : Coa → Bool
is_asked (to_v6 a) = true
is_asked (to_v4 b a) = b

move-IsSound :
    (env : Env) (coa : Coa) (i : ℕ) (n : Node)
    → is_asked coa ≡ true
    → is_same_coa coa n ≡ false
    → IsSound n
    → IsSound (move env coa i (record n { current_ifindex = i }))
unfolding move is_same_coa
move-IsSound env (to_v6 a) i n asked other w =
    go_v6-IsSound env a i (record n { current_ifindex = i }) w (ground (arith, other))
move-IsSound env (to_v4 true a) i n asked other w =
    go_v4-IsSound env a i (record n { current_ifindex = i }) w
move-IsSound env (to_v4 false a) i n asked other w = cc

pub do_handoff-IsSound :
    (env : Env) (coa : Coa) (i : ℕ) (n : Node)
    → is_asked coa ≡ true
    → IsSound n
    → IsSound (do_handoff env coa i n)
do_handoff-IsSound env coa i n asked w =
    let noted = note_coa-IsSound coa (find_iface i n.ifaces) n w in
    do_handoff_cases IsSound env coa i n w noted noted
      (λ e other. move-IsSound env coa i (note_coa coa (find_iface i n.ifaces) n) asked other noted)
