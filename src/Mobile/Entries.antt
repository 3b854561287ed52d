-- ===== src/Mobile/Entries.antt =====
-- The array `ifaces` keeps its NIF entries.
use dsmip.Common.{
  ℕ, zero, suc, ◌≡◌, refl, ap, ◌∙◌, arith, Bool, true, false, List, [], ◌∷◌, length, Bool-cases,
  inl, inr, ◌==◌,
}
use dsmip.Net.{In6Addr, v6_eq, ipv6_map_addr}
use dsmip.Mobile.State.{
  nifaces, CoaType, at_home, nat_v4, plain_v4, on_v6, default_table, rule_add, Iface, Env, Node,
  note,
}
use dsmip.Mobile.Trace.{tell_lem, tell_probed_lem}
use dsmip.Mobile.Handoff.Steps.{Coa, to_v6, to_v4, high_prio, send_bu}
use dsmip.Mobile.Handoff.Branches.{
  arrive_home, arrive_v6, arrive_v4, go_home, switch_v6, switch_v4, forewarn, go_v6, go_v4,
}
use dsmip.Mobile.Handoff.Cases.{do_handoff_cases}
use dsmip.Mobile.Handoff.{find_iface, edit, note_coa, move, do_handoff}
use dsmip.Mobile.Events.Workers.{mn_init, refresh, probe_times}
use dsmip.Mobile.Kept.{Kept}
use dsmip.Mobile.Worker.{boot, Reachable}
use dsmip.Mobile.Invariants.{Reachable-Kept}

abbrev pub IsFull : Node → Type 0
IsFull n = length n.ifaces ≡ nifaces

length-edit : (e : Iface → Iface) (i : ℕ) (fs : List Iface) → length (edit e i fs) ≡ length fs
length-edit e i [] = refl
length-edit e zero (f ∷ fs) = refl
length-edit e (suc i) (f ∷ fs) = ap (λ k. suc k) (length-edit e i fs)

length-probe_times :
    (env : Env) (p : ℕ) (fs : List Iface) → length (probe_times env p fs) ≡ length fs
unfolding probe_times
length-probe_times env p [] = refl
length-probe_times env p (f ∷ fs) = ap (λ k. suc k) (length-probe_times env p fs)

note_coa-IsFull : (coa : Coa) (i : ℕ) (n : Node) → IsFull n → IsFull (note_coa coa i n)
unfolding note_coa
note_coa-IsFull (to_v6 a) i n w = length-edit _ i n.ifaces ∙ w
note_coa-IsFull (to_v4 true a) i n w = length-edit _ i n.ifaces ∙ w
note_coa-IsFull (to_v4 false a) i n w = w

module _ (env : Env) where
  go_home-ifaces : (coa : In6Addr) (n : Node) → (go_home env coa n).ifaces ≡ n.ifaces
  unfolding go_home arrive_home
  go_home-ifaces coa n = rw (go_home, tell_lem env coa (arrive_home env coa n)) (ground arith)

  switch_v6-ifaces : (coa : In6Addr) (i : ℕ) (n : Node) → (switch_v6 env coa i n).ifaces ≡ n.ifaces
  unfolding switch_v6 arrive_v6
  switch_v6-ifaces coa i n = rw (switch_v6, tell_lem env coa (arrive_v6 env coa i n)) (ground arith)

  switch_v4-ifaces : (b : Bool) (a i : ℕ) (n : Node) → (switch_v4 env b a i n).ifaces ≡ n.ifaces
  unfolding switch_v4 arrive_v4
  switch_v4-ifaces b a i n =
      rw (switch_v4, tell_probed_lem env (ipv6_map_addr a) i a (arrive_v4 env b a i n))
        (ground arith)

  forewarn-ifaces : (coa : In6Addr) (n : Node) → (forewarn env coa n).ifaces ≡ n.ifaces
  unfolding forewarn
  forewarn-ifaces coa n = ground arith

  move-ifaces : (coa : Coa) (i : ℕ) (n : Node) → (move env coa i n).ifaces ≡ n.ifaces
  unfolding move go_v6 go_v4
  move-ifaces (to_v6 a) i n =
      let told = forewarn env a n in
      elim (Bool-cases (v6_eq a env.hoav6)) [
        | inl e ↦ rw (go_v6, e) (go_home-ifaces a told ∙ forewarn-ifaces a n)
        | inr e ↦
            rw (go_v6, e)
              (switch_v6-ifaces a i (note (rule_add default_table high_prio a) told)
                ∙ forewarn-ifaces a n)
      ]
  move-ifaces (to_v4 b a) i n = elim (Bool-cases (a == env.hoav4)) [
    | inl e ↦ rw (go_v4, e) refl
    | inr e ↦ rw (go_v4, e) (switch_v4-ifaces b a i n)
  ]

do_handoff-IsFull :
    (env : Env) (coa : Coa) (i : ℕ) (n : Node) → IsFull n → IsFull (do_handoff env coa i n)
do_handoff-IsFull env coa i n w =
    let k = find_iface i n.ifaces in
    let noted = note_coa-IsFull coa k n w in
    do_handoff_cases IsFull env coa i n w noted noted (λ e f.
      ap (λ (fs : List Iface). length fs)
        (move-ifaces env coa i (record (note_coa coa k n) { current_ifindex = i }))
      ∙ noted)

refresh-ifaces : (env : Env) (n : Node) (t : CoaType) → (refresh env n t).ifaces ≡ n.ifaces
unfolding send_bu
refresh-ifaces env n at_home = refl
refresh-ifaces env n nat_v4 = refl
refresh-ifaces env n plain_v4 = refl
refresh-ifaces env n on_v6 = refl

IsFull-Kept : Kept IsFull
IsFull-Kept = record {
  handoffs = λ env coa i n asked w. do_handoff-IsFull env coa i n w;
  notes = λ c n q w. w;
  edits = λ e i n w. length-edit e i n.ifaces ∙ w;
  settings = λ p a w c l s n v. v;
  updates =
      λ env n w. ap (λ (fs : List Iface). length fs) (refresh-ifaces env n n.current_coa_type) ∙ w;
  times = λ env n w. length-probe_times env n.preferred_ifindex n.ifaces ∙ w;
}

boot-IsFull : IsFull (mn_init boot)
unfolding mn_init
boot-IsFull = refl

pub Reachable-IsFull : {n : Node} → Reachable n → IsFull n
Reachable-IsFull r = Reachable-Kept IsFull-Kept boot-IsFull r
