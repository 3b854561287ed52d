-- ===== src/Mobile/Numbers.antt =====
-- The sequence numbers of the binding updates that the mobile node sends.
use dsmip.Common.{
  ℕ, zero, suc, ◌+◌, ◌%◌, ◌^◌, ◌≡◌, refl, ◌∙◌, ap₂, subst, arith, Bool, true, false, List, [], ◌∷◌,
  Bool-cases, inl, inr, ◌==◌,
}
use dsmip.Net.{In6Addr, v6_eq}
use dsmip.Mobile.State.{sendbu, nat_probe_send, default_table, rule_add, Calls, Env, Node, note}
use dsmip.Mobile.Trace.{bu_log, probed_log, tell_lem, tell_probed_lem}
use dsmip.Mobile.Handoff.Steps.{Coa, to_v6, to_v4, is_on_v4, high_prio, bu_count, tell, tell_probed}
use dsmip.Mobile.Handoff.Branches.{
  arrive_home, arrive_v6, arrive_v4, go_home, switch_v6, switch_v4, forewarn, go_v6, go_v4,
}
use dsmip.Mobile.Handoff.Cases.{do_handoff_cases}
use dsmip.Mobile.Handoff.{find_iface, note_coa, move, do_handoff}

-- The numbers of the binding updates of a log, the newest first.
abbrev pub sent : Calls → List ℕ
sent [] = []
sent (c ∷ log) = elim c [ sendbu a s ↦ s ∷ sent log | _ ↦ sent log ]

-- The numbers from k down to 1, as they are sent in 16 bits.
abbrev pub numbers : ℕ → List ℕ
numbers zero = []
numbers (suc k) = suc k % 2 ^ 16 ∷ numbers k

-- `__BU_SEQ__` binding updates but one have been sent, with the numbers from 1 on.
pub record Numbered (seq : ℕ) (log : Calls) : Type 0 where
  pub count : ℕ
  pub seq_eq : seq ≡ suc count
  pub sent_eq : sent log ≡ numbers count

abbrev pub IsNumbered : Node → Type 0
IsNumbered n = Numbered n.bu_seq n.log

-- One more binding update.
pub Numbered-next :
    {seq : ℕ} {log : Calls} (coa : In6Addr)
    → Numbered seq log
    → Numbered (seq + 1) (sendbu coa (seq % 2 ^ 16) ∷ log)
Numbered-next coa w = record {
  count = suc w.count;
  seq_eq = omega (arith, w.seq_eq);
  sent_eq = ap₂ (λ s ss. s % 2 ^ 16 ∷ ss) w.seq_eq w.sent_eq;
}

Numbered-bu_log :
    (coa : In6Addr) (k seq : ℕ) (log : Calls)
    → Numbered seq log
    → Numbered (seq + k) (bu_log coa k seq log)
Numbered-bu_log coa zero seq log w = record {
  count = w.count;
  seq_eq = omega (arith, w.seq_eq);
  sent_eq = w.sent_eq;
}
Numbered-bu_log coa (suc k) seq log w =
    let e : seq + 1 + k ≡ seq + suc k = omega arith in
    subst (λ m. Numbered m (bu_log coa (suc k) seq log)) e
      (Numbered-bu_log coa k (seq + 1) _ (Numbered-next coa w))

Numbered-probed_log :
    (coa : In6Addr) (i a k seq : ℕ) (log : Calls)
    → Numbered seq log
    → Numbered (seq + k) (probed_log coa i a k seq log)
Numbered-probed_log coa i a zero seq log w = record {
  count = w.count;
  seq_eq = omega (arith, w.seq_eq);
  sent_eq = w.sent_eq;
}
Numbered-probed_log coa i a (suc k) seq log w =
    let e : seq + 1 + k ≡ seq + suc k = omega arith in
    let q : Numbered seq (nat_probe_send i a ∷ log) = record {
      count = w.count;
      seq_eq = w.seq_eq;
      sent_eq = w.sent_eq;
    } in
    subst (λ m. Numbered m (probed_log coa i a (suc k) seq log)) e
      (Numbered-probed_log coa i a k (seq + 1) _ (Numbered-next coa q))

tell-IsNumbered :
    (env : Env) (coa : In6Addr) (n : Node) → IsNumbered n → IsNumbered (tell env coa n)
tell-IsNumbered env coa n w =
    rw (tell_lem env coa n) (Numbered-bu_log coa (bu_count n) n.bu_seq n.log w)

tell_probed-IsNumbered :
    (env : Env) (coa : In6Addr) (i a : ℕ) (n : Node)
    → IsNumbered n
    → IsNumbered (tell_probed env coa i a n)
tell_probed-IsNumbered env coa i a n w =
    rw (tell_probed_lem env coa i a n) (Numbered-probed_log coa i a (bu_count n) n.bu_seq n.log w)

-- What comes before the binding updates of a branch sends none.
arrive_home-sent :
    (env : Env) (coa : In6Addr) (n : Node)
    → (sent (arrive_home env coa n).log ≡ sent n.log) × ((arrive_home env coa n).bu_seq ≡ n.bu_seq)
unfolding arrive_home
arrive_home-sent env coa n = ground arith

arrive_v6-sent :
    (env : Env) (coa : In6Addr) (i : ℕ) (n : Node)
    → (sent (arrive_v6 env coa i n).log ≡ sent n.log) × ((arrive_v6 env coa i n).bu_seq ≡ n.bu_seq)
unfolding arrive_v6
arrive_v6-sent env coa i n = ground arith

arrive_v4-sent :
    (env : Env) (b : Bool) (a i : ℕ) (n : Node)
    → (sent (arrive_v4 env b a i n).log ≡ sent n.log) × ((arrive_v4 env b a i n).bu_seq ≡ n.bu_seq)
unfolding arrive_v4
arrive_v4-sent env b a i n = ground arith

IsNumbered-same :
    (m n : Node) → (sent m.log ≡ sent n.log) × (m.bu_seq ≡ n.bu_seq) → IsNumbered n → IsNumbered m
IsNumbered-same m n h w = record {
  count = w.count;
  seq_eq = h.1 ∙ w.seq_eq;
  sent_eq = h.0 ∙ w.sent_eq;
}

module _ (env : Env) where
  go_home-IsNumbered : (coa : In6Addr) (n : Node) → IsNumbered n → IsNumbered (go_home env coa n)
  unfolding go_home
  go_home-IsNumbered coa n w =
      tell-IsNumbered env coa (arrive_home env coa n)
        (IsNumbered-same (arrive_home env coa n) n (arrive_home-sent env coa n) w)

  switch_v6-IsNumbered :
      (coa : In6Addr) (i : ℕ) (n : Node) → IsNumbered n → IsNumbered (switch_v6 env coa i n)
  unfolding switch_v6
  switch_v6-IsNumbered coa i n w =
      tell-IsNumbered env coa (arrive_v6 env coa i n)
        (IsNumbered-same (arrive_v6 env coa i n) n (arrive_v6-sent env coa i n) w)

  switch_v4-IsNumbered :
      (b : Bool) (a i : ℕ) (n : Node) → IsNumbered n → IsNumbered (switch_v4 env b a i n)
  unfolding switch_v4
  switch_v4-IsNumbered b a i n w =
      tell_probed-IsNumbered env _ i a (arrive_v4 env b a i n)
        (IsNumbered-same (arrive_v4 env b a i n) n (arrive_v4-sent env b a i n) w)

  forewarn-IsNumbered : (coa : In6Addr) (n : Node) → IsNumbered n → IsNumbered (forewarn env coa n)
  unfolding forewarn
  forewarn-IsNumbered coa n w = elim (Bool-cases (is_on_v4 n.current_coa_type)) [
    | inl e ↦ rw (forewarn, e) (Numbered-next coa w)
    | inr e ↦ rw (forewarn, e) w
  ]

  -- A rule is no binding update.
  ruled-IsNumbered :
      (coa : In6Addr) (n : Node)
      → IsNumbered n
      → IsNumbered (note (rule_add default_table high_prio coa) n)
  ruled-IsNumbered coa n w = record { count = w.count; seq_eq = w.seq_eq; sent_eq = w.sent_eq }

  move-IsNumbered : (coa : Coa) (i : ℕ) (n : Node) → IsNumbered n → IsNumbered (move env coa i n)
  unfolding move go_v6 go_v4
  move-IsNumbered (to_v6 a) i n w =
      let told = forewarn env a n in
      let v = forewarn-IsNumbered a n w in
      elim (Bool-cases (v6_eq a env.hoav6)) [
        | inl e ↦ rw (go_v6, e) (go_home-IsNumbered a told v)
        | inr e ↦ rw (go_v6, e) (switch_v6-IsNumbered a i _ (ruled-IsNumbered a told v))
      ]
  move-IsNumbered (to_v4 b a) i n w = elim (Bool-cases (a == env.hoav4)) [
    | inl e ↦ rw (go_v4, e) w
    | inr e ↦ rw (go_v4, e) (switch_v4-IsNumbered b a i n w)
  ]

note_coa-sent :
    (coa : Coa) (i : ℕ) (n : Node)
    → (sent (note_coa coa i n).log ≡ sent n.log) × ((note_coa coa i n).bu_seq ≡ n.bu_seq)
unfolding note_coa
note_coa-sent (to_v6 a) i n = (refl, refl)
note_coa-sent (to_v4 true a) i n = (refl, refl)
note_coa-sent (to_v4 false a) i n = (refl, refl)

pub do_handoff-IsNumbered :
    (env : Env) (coa : Coa) (i : ℕ) (n : Node) → IsNumbered n → IsNumbered (do_handoff env coa i n)
do_handoff-IsNumbered env coa i n w =
    let m = note_coa coa (find_iface i n.ifaces) n in
    let noted : IsNumbered m =
      IsNumbered-same m n (note_coa-sent coa (find_iface i n.ifaces) n) w in
    do_handoff_cases IsNumbered env coa i n w noted noted
      (λ e f. move-IsNumbered env coa i (record m { current_ifindex = i }) noted)
