-- ===== src/Buffer/Table/Forward.antt =====
-- What holds of the table of databuff.c after any sequence of messages and packets.
use dsmip.Common.{
  ℕ, zero, suc, ◌+◌, ◌<◌, ◌≤◌, ◌≡◌, ◌≢◌, refl, sym, ap, subst, ◌∙◌, arith, inl, inr, Bool, false,
  none, some, Option-cases, some_inj, Bool-cases, List, [], ◌∷◌, get_elem?, set, ℤ, pos, negsuc,
  length, length-set, get_elem?-set, get_elem?-lt, ◌==◌, ltb,
}
use dsmip.Net.{In6Addr, v6_eq}
use dsmip.Buffer.Store.{Heap, MnList, Effect, Clock, Answers}
use dsmip.Buffer.Queue.{Run, buffer_data, send_buffered_data, append_copy}
use dsmip.Buffer.Table.{
  Module, Message, Verdict, accept, search, in_mnlistv6, in_mnlistv4, add_mnlist, kernel_receive,
  hook_func, hook_funcv6, hook_funcv4, max_mn_count,
}

-- The array has its length, the count is in bounds, and the flag is set in every entry.
pub record IsSound (s : Module) : Type 0 where
  pub size : length s.mn_list ≡ max_mn_count
  pub count : s.mncount ≤ max_mn_count
  pub forward :
      (i : ℕ) (e : MnList) → i < s.mncount → get_elem? s.mn_list i ≡ some e → e.forward_instant ≡ 1

search-lt :
    (test : MnList → Bool) (i n j : ℕ) (es : List MnList) → search test i n es ≡ pos j → j < i + n
search-lt test i zero j es e = ground arith
search-lt test i (suc n) j [] e = ground arith
search-lt test i (suc n) j (x ∷ es) e = ground (arith, search-lt test (i + 1) n j es)

buffer_data-forward :
    (clock : Clock) (ans : Answers) (f now fuel : ℕ) (e e' : MnList) (h : Heap) (r : Run)
    → buffer_data clock ans f now fuel e h ≡ some (e', r)
    → e'.forward_instant ≡ e.forward_instant
unfolding buffer_data append_copy
buffer_data-forward clock ans f now fuel e e' h r q = ground arith

send_buffered_data-forward :
    (clock : Clock) (now fuel : ℕ) (e e' : MnList) (h : Heap) (r : Run)
    → send_buffered_data clock now fuel e h ≡ some (e', r)
    → e'.forward_instant ≡ 1
unfolding send_buffered_data
send_buffered_data-forward clock now fuel e e' h r q = ground arith

-- A write of an entry that has the flag, if it is within the count.
set-IsSound :
    (s : Module) (i : ℕ) (e' : MnList) (h : Heap)
    → IsSound s
    → e'.forward_instant ≡ 1
    → IsSound (record s { mn_list = set s.mn_list i e'; heap = h })
set-IsSound s i e' h w q = record {
  size = length-set s.mn_list i e' ∙ w.size;
  count = w.count;
  forward = λ j e lt g. elim (get_elem?-set s.mn_list i j e' e g) [
    | inl p ↦ ap (λ v. v.forward_instant) p ∙ q
    | inr p ↦ w.forward j e lt p.0
  ];
}

none-ne {ℓ} : {A : Type ℓ} {a : A} → none ≢ some a
none-ne e = ground arith

below : {i j : ℕ} → i ≢ j → j < i + 1 → j < i
below ne lt = ground arith

add_mnlist-IsSound :
    (hoa : In6Addr) (hoav4 : ℕ) (coa : In6Addr) (s s' : Module) (ret : ℤ)
    → IsSound s
    → add_mnlist hoa hoav4 coa s ≡ some (s', ret)
    → IsSound s'
unfolding add_mnlist
add_mnlist-IsSound hoa hoav4 coa s s' ret w q =
    let b : ltb max_mn_count s.mncount ≡ false = ground (arith, w.count) in
    elim (Option-cases (get_elem? s.mn_list s.mncount)) [
      | inl k ↦ absurd (none-ne (rw (add_mnlist, b, k) at q))
      | inr (e, k) ↦
          subst IsSound (ap (λ r. r.0) (some_inj.0 (rw (add_mnlist, b, k) at q))) (record {
            size = length-set s.mn_list s.mncount _ ∙ w.size;
            count = omega (arith, w.size, get_elem?-lt s.mn_list s.mncount e k);
            forward = λ j d lt g. elim (get_elem?-set s.mn_list s.mncount j _ d g) [
              | inl p ↦ ap (λ v. v.forward_instant) p
              | inr p ↦ w.forward j d (below p.1 lt) p.0
            ];
          })
    ]

hook_func-IsSound :
    (clock : Clock) (ans : Answers) (f now fuel : ℕ) (i : ℤ) (s s' : Module) (v : Verdict)
    (log : List Effect)
    → IsSound s
    → ((n : ℕ) → i ≡ pos n → n < s.mncount)
    → hook_func clock ans f now fuel i s ≡ some (s', v, log)
    → IsSound s' × (v ≡ accept)
unfolding hook_func
hook_func-IsSound clock ans f now fuel (negsuc n) s s' v log w lt q =
    let p = some_inj.0 q in (subst IsSound (ap (λ r. r.0) p) w, sym (ap (λ r. r.1) p))
hook_func-IsSound clock ans f now fuel (pos i) s s' v log w lt q =
    elim (Option-cases (get_elem? s.mn_list i)) [
      | inl k ↦ absurd (none-ne (rw (hook_func, k) at q))
      | inr (e, k) ↦ elim (Option-cases (buffer_data clock ans f now fuel e s.heap)) [
        | inl m ↦ absurd (none-ne (rw (hook_func, k, m) at q))
        | inr (er, m) ↦
            (let p = some_inj.0 (rw (hook_func, k, m) at q) in
              let flag : er.0.forward_instant ≡ 1 =
                buffer_data-forward clock ans f now fuel e er.0 s.heap er.1 m
                ∙ w.forward i e (lt i refl) k in
              (
                subst IsSound (ap (λ r. r.0) p) (set-IsSound s i er.0 er.1.heap w flag),
                sym (ap (λ r. r.1) p) ∙ rw flag refl,
              ))
      ]
    ]

pub kernel_receive-IsSound :
    (clock : Clock) (header now fuel : ℕ) (msg : Message) (s s' : Module) (log : List Effect)
    → IsSound s
    → kernel_receive clock header now fuel msg s ≡ some (s', log)
    → IsSound s'
unfolding kernel_receive
kernel_receive-IsSound clock header now fuel msg s s' log w q =
    elim (Bool-cases (ltb msg.len header)) [
      | inl b ↦ subst IsSound (ap (λ r. r.0) (some_inj.0 (rw (kernel_receive, b) at q))) w
      | inr b ↦ found (in_mnlistv6 msg.hoa s) refl b
    ]
  where
    found : (i : ℤ) → in_mnlistv6 msg.hoa s ≡ i → ltb msg.len header ≡ false → IsSound s'
    found (negsuc n) k b = elim (Option-cases (add_mnlist msg.hoa msg.hoav4 msg.coa s)) [
      | inl a ↦ absurd (none-ne (rw (kernel_receive, b, k, a) at q))
      | inr (r, a) ↦
          subst IsSound (ap (λ p. p.0) (some_inj.0 (rw (kernel_receive, b, k, a) at q)))
            (add_mnlist-IsSound msg.hoa msg.hoav4 msg.coa s r.0 r.1 w a)
    ]
    found (pos i) k b = elim (Option-cases (get_elem? s.mn_list i)) [
      | inl g ↦ absurd (none-ne (rw (kernel_receive, b, k, g) at q))
      | inr (e, g) ↦ elim (Bool-cases (v6_eq e.coa msg.coa)) [
        | inl v ↦
            subst IsSound (ap (λ p. p.0) (some_inj.0 (rw (kernel_receive, b, k, g, v) at q))) w
        | inr v ↦
            elim (Option-cases
              (send_buffered_data clock now fuel (record e { coa = msg.coa }) s.heap)) [
                | inl d ↦ absurd (none-ne (rw (kernel_receive, b, k, g, v, d) at q))
                | inr (r, d) ↦
                    subst IsSound
                      (ap (λ p. p.0) (some_inj.0 (rw (kernel_receive, b, k, g, v, d) at q)))
                      (set-IsSound s i r.0 r.1.heap w
                        (send_buffered_data-forward clock now fuel _ r.0 s.heap r.1 d))
              ]
      ]
    ]

-- An index that a search gives is within the count, and the hook's other case reads no entry.
in_bounds :
    (test : MnList → Bool) (s : Module) (i : ℤ)
    → search test 0 s.mncount s.mn_list ≡ i
    → (n : ℕ) → i ≡ pos n
    → n < s.mncount
in_bounds test s i q n e = omega (arith, search-lt test 0 s.mncount n s.mn_list (q ∙ e))

pub hook_funcv6-IsSound :
    (clock : Clock) (ans : Answers) (f now fuel : ℕ) (daddr : In6Addr) (s s' : Module) (v : Verdict)
    (log : List Effect)
    → IsSound s
    → hook_funcv6 clock ans f now fuel daddr s ≡ some (s', v, log)
    → IsSound s' × (v ≡ accept)
unfolding hook_funcv6 in_mnlistv6
hook_funcv6-IsSound clock ans f now fuel daddr s s' v log w q =
    hook_func-IsSound clock ans f now fuel (in_mnlistv6 daddr s) s s' v log w
      (in_bounds (λ e. v6_eq daddr e.hoa) s _ refl) q

pub hook_funcv4-IsSound :
    (clock : Clock) (ans : Answers) (f now fuel : ℕ) (daddr : ℕ) (s s' : Module) (v : Verdict)
    (log : List Effect)
    → IsSound s
    → hook_funcv4 clock ans f now fuel daddr s ≡ some (s', v, log)
    → IsSound s' × (v ≡ accept)
unfolding hook_funcv4 in_mnlistv4
hook_funcv4-IsSound clock ans f now fuel daddr s s' v log w q =
    hook_func-IsSound clock ans f now fuel (in_mnlistv4 daddr s) s s' v log w
      (in_bounds (λ e. daddr == e.hoav4) s _ refl) q
