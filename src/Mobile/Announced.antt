-- ===== src/Mobile/Announced.antt =====
-- The care-of address that the newest binding update names.
use dsmip.Common.{
  ℕ, zero, suc, ◌+◌, ◌≡◌, refl, Bool, true, false, [], ◌∷◌, Bool-cases, inl, inr, ◌==◌, Option,
  none, some, ◌⊎◌,
}
use dsmip.Net.{In6Addr, v6_eq, ipv6_map_addr}
use dsmip.Mobile.State.{
  CoaType, at_home, nat_v4, plain_v4, on_v6, sendbu, default_table, rule_add, Calls, Env, Node,
  note,
}
use dsmip.Mobile.Trace.{bu_log, probed_log, tell_lem, tell_probed_lem}
use dsmip.Mobile.Handoff.Steps.{Coa, to_v6, to_v4, high_prio, send_bu, bu_count}
use dsmip.Mobile.Handoff.Branches.{
  arrive_home, arrive_v6, arrive_v4, go_home, switch_v6, switch_v4, forewarn, go_v6, go_v4,
}
use dsmip.Mobile.Events.Workers.{refresh}
use dsmip.Mobile.Handoff.Cases.{do_handoff_cases}
use dsmip.Mobile.Handoff.{find_iface, note_coa, move, do_handoff}

abbrev pub last_bu : Calls → Option In6Addr
last_bu [] = none
last_bu (c ∷ log) = elim c [ sendbu a s ↦ some a | _ ↦ last_bu log ]

-- Away from home, the newest binding update names the care-of address in use; at home, it names the
-- address that the mobile node came home with, if there has been one.
abbrev pub Announced : CoaType → In6Addr → ℕ → Calls → Type 0
Announced at_home a b log = (last_bu log ≡ none) ⊎ (last_bu log ≡ some a)
Announced on_v6 a b log = last_bu log ≡ some a
Announced nat_v4 a b log = last_bu log ≡ some (ipv6_map_addr b)
Announced plain_v4 a b log = last_bu log ≡ some (ipv6_map_addr b)

abbrev pub IsAnnounced : Node → Type 0
IsAnnounced n = Announced n.current_coa_type n.current_coav6 n.current_coav4 n.log

last_bu-bu_log :
    (coa : In6Addr) (k seq : ℕ) (log : Calls)
    → last_bu log ≡ some coa
    → last_bu (bu_log coa k seq log) ≡ some coa
last_bu-bu_log coa zero seq log e = e
last_bu-bu_log coa (suc k) seq log e = last_bu-bu_log coa k (seq + 1) _ refl

last_bu-probed_log :
    (coa : In6Addr) (i a k seq : ℕ) (log : Calls)
    → last_bu log ≡ some coa
    → last_bu (probed_log coa i a k seq log) ≡ some coa
last_bu-probed_log coa i a zero seq log e = e
last_bu-probed_log coa i a (suc k) seq log e = last_bu-probed_log coa i a k (seq + 1) _ refl

-- One binding update or ten: the last one names the address.
last_bu-told :
    (coa : In6Addr) (n : Node) (seq : ℕ) (log : Calls)
    → last_bu (bu_log coa (bu_count n) seq log) ≡ some coa
last_bu-told coa n seq log = elim (Bool-cases (n.consecutive_bu == 0)) [
  | inl e ↦ rw (bu_log, e) refl
  | inr e ↦ rw (bu_log, e) refl
]

last_bu-told_probed :
    (coa : In6Addr) (i a : ℕ) (n : Node) (seq : ℕ) (log : Calls)
    → last_bu (probed_log coa i a (bu_count n) seq log) ≡ some coa
last_bu-told_probed coa i a n seq log = elim (Bool-cases (n.consecutive_bu == 0)) [
  | inl e ↦ rw (probed_log, e) refl
  | inr e ↦ rw (probed_log, e) refl
]

module _ (env : Env) where
  go_home-IsAnnounced : (coa : In6Addr) (n : Node) → IsAnnounced (go_home env coa n)
  unfolding go_home arrive_home
  go_home-IsAnnounced coa n =
      let m = arrive_home env coa n in
      rw (go_home, tell_lem env coa m) (inr (last_bu-told coa m m.bu_seq m.log))

  switch_v6-IsAnnounced : (coa : In6Addr) (i : ℕ) (n : Node) → IsAnnounced (switch_v6 env coa i n)
  unfolding switch_v6 arrive_v6
  switch_v6-IsAnnounced coa i n =
      let m = arrive_v6 env coa i n in
      rw (switch_v6, tell_lem env coa m) (last_bu-told coa m m.bu_seq m.log)

  switch_v4-IsAnnounced : (b : Bool) (a i : ℕ) (n : Node) → IsAnnounced (switch_v4 env b a i n)
  unfolding switch_v4 arrive_v4
  switch_v4-IsAnnounced true a i n =
      let m = arrive_v4 env true a i n in
      rw (switch_v4, tell_probed_lem env (ipv6_map_addr a) i a m)
        (last_bu-told_probed (ipv6_map_addr a) i a m m.bu_seq m.log)
  switch_v4-IsAnnounced false a i n =
      let m = arrive_v4 env false a i n in
      rw (switch_v4, tell_probed_lem env (ipv6_map_addr a) i a m)
        (last_bu-told_probed (ipv6_map_addr a) i a m m.bu_seq m.log)

  move-IsAnnounced : (coa : Coa) (i : ℕ) (n : Node) → IsAnnounced n → IsAnnounced (move env coa i n)
  unfolding move go_v6 go_v4
  move-IsAnnounced (to_v6 a) i n w = elim (Bool-cases (v6_eq a env.hoav6)) [
    | inl e ↦ rw (go_v6, e) (go_home-IsAnnounced a (forewarn env a n))
    | inr e ↦
        rw (go_v6, e)
          (switch_v6-IsAnnounced a i (note (rule_add default_table high_prio a) (forewarn env a n)))
  ]
  move-IsAnnounced (to_v4 b a) i n w = elim (Bool-cases (a == env.hoav4)) [
    | inl e ↦ rw (go_v4, e) w
    | inr e ↦ rw (go_v4, e) (switch_v4-IsAnnounced b a i n)
  ]

note_coa-IsAnnounced :
    (coa : Coa) (i : ℕ) (n : Node) → IsAnnounced n → IsAnnounced (note_coa coa i n)
unfolding note_coa
note_coa-IsAnnounced (to_v6 a) i n w = w
note_coa-IsAnnounced (to_v4 true a) i n w = w
note_coa-IsAnnounced (to_v4 false a) i n w = w

pub do_handoff-IsAnnounced :
    (env : Env) (coa : Coa) (i : ℕ) (n : Node)
    → IsAnnounced n
    → IsAnnounced (do_handoff env coa i n)
do_handoff-IsAnnounced env coa i n w =
    let noted = note_coa-IsAnnounced coa (find_iface i n.ifaces) n w in
    do_handoff_cases IsAnnounced env coa i n w noted noted (λ e f.
      move-IsAnnounced env coa i
        (record (note_coa coa (find_iface i n.ifaces) n) { current_ifindex = i }) noted)

refresh-same :
    (env : Env) (n : Node) (t : CoaType)
    → ((refresh env n t).current_coa_type ≡ n.current_coa_type)
      × ((refresh env n t).current_coav6 ≡ n.current_coav6)
      × ((refresh env n t).current_coav4 ≡ n.current_coav4)
unfolding send_bu
refresh-same env n at_home = (refl, refl, refl)
refresh-same env n nat_v4 = (refl, refl, refl)
refresh-same env n plain_v4 = (refl, refl, refl)
refresh-same env n on_v6 = (refl, refl, refl)

refresh-Announced :
    (env : Env) (n : Node) (t : CoaType)
    → Announced t n.current_coav6 n.current_coav4 n.log
    → Announced t n.current_coav6 n.current_coav4 (refresh env n t).log
unfolding send_bu
refresh-Announced env n at_home w = w
refresh-Announced env n nat_v4 w = refl
refresh-Announced env n plain_v4 w = refl
refresh-Announced env n on_v6 w = refl

pub refresh-IsAnnounced :
    (env : Env) (n : Node) → IsAnnounced n → IsAnnounced (refresh env n n.current_coa_type)
refresh-IsAnnounced env n w =
    let same = refresh-same env n n.current_coa_type in
    rw (same.0, same.1, same.2) (refresh-Announced env n n.current_coa_type w)
