-- ===== src/Buffer/Table/Reach.antt =====
-- The module databuff.ko from its load on, as a sequence of whole handlers.
use dsmip.Common.{
  ℕ, suc, ◌≡◌, ◌↔◌, refl, ap, ◌∙◌, arith, none, some, List, [], ◌∷◌, length, get_elem?-none,
}
use dsmip.Net.{In6Addr}
use dsmip.Buffer.Store.{Heap, MnList, Effect, Clock, Answers}
use dsmip.Buffer.Table.{
  Module, Message, Verdict, accept, databuff_init, add_mnlist, kernel_receive, hook_funcv6,
  hook_funcv4, max_mn_count,
}
use dsmip.Buffer.Table.Forward.{
  IsSound, kernel_receive-IsSound, hook_funcv6-IsSound, hook_funcv4-IsSound,
}

-- `header` is `NLMSG_SPACE(0)`; `loaded` is the state after `databuff_init`.
pub data Reachable (clock : Clock) (header : ℕ) : Module → Type 0 where
  loaded :
      (es : List MnList) (h : Heap)
      → length es ≡ max_mn_count
      → Reachable clock header (record { mn_list = databuff_init es; mncount = 0; heap = h })
  received :
      {s s' : Module} (now fuel : ℕ) (msg : Message) (log : List Effect)
      → Reachable clock header s
      → kernel_receive clock header now fuel msg s ≡ some (s', log)
      → Reachable clock header s'
  passed_v6 :
      {s s' : Module} (ans : Answers) (f now fuel : ℕ) (daddr : In6Addr) (v : Verdict)
      (log : List Effect)
      → Reachable clock header s
      → hook_funcv6 clock ans f now fuel daddr s ≡ some (s', v, log)
      → Reachable clock header s'
  passed_v4 :
      {s s' : Module} (ans : Answers) (f now fuel : ℕ) (daddr : ℕ) (v : Verdict) (log : List Effect)
      → Reachable clock header s
      → hook_funcv4 clock ans f now fuel daddr s ≡ some (s', v, log)
      → Reachable clock header s'

length-databuff_init : (es : List MnList) → length (databuff_init es) ≡ length es
unfolding databuff_init
length-databuff_init [] = refl
length-databuff_init (e ∷ es) = ap suc (length-databuff_init es)

pub Reachable-IsSound :
    {clock : Clock} {header : ℕ} {s : Module} → Reachable clock header s → IsSound s
Reachable-IsSound (loaded es h n) = record {
  size = length-databuff_init es ∙ n;
  count = omega arith;
  forward = λ i e lt g. absurd (omega arith);
}
Reachable-IsSound (received now fuel msg log r q) =
    kernel_receive-IsSound _ _ now fuel msg _ _ log (Reachable-IsSound r) q
Reachable-IsSound (passed_v6 ans f now fuel daddr v log r q) =
    (hook_funcv6-IsSound _ ans f now fuel daddr _ _ v log (Reachable-IsSound r) q).0
Reachable-IsSound (passed_v4 ans f now fuel daddr v log r q) =
    (hook_funcv4-IsSound _ ans f now fuel daddr _ _ v log (Reachable-IsSound r) q).0

-- After any sequence of messages and packets, the hook for IPv6 lets every packet go on.
hook_funcv6-accept :
    (clock : Clock) (header : ℕ) (s : Module)
    → Reachable clock header s
    → (ans : Answers) (f now fuel : ℕ) (daddr : In6Addr) (s' : Module) (v : Verdict)
      (log : List Effect)
    → hook_funcv6 clock ans f now fuel daddr s ≡ some (s', v, log)
    → v ≡ accept
hook_funcv6-accept clock header s r ans f now fuel daddr s' v log q =
    (hook_funcv6-IsSound clock ans f now fuel daddr s s' v log (Reachable-IsSound r) q).1

-- After any sequence of messages and packets, add_mnlist writes past the end of MN_LIST exactly if the
-- table is full, and it never refuses.
add_mnlist-full :
    (clock : Clock) (header : ℕ) (s : Module)
    → Reachable clock header s
    → (hoa : In6Addr) (hoav4 : ℕ) (coa : In6Addr)
    → ((add_mnlist hoa hoav4 coa s ≡ none) ↔ (s.mncount ≡ max_mn_count))
unfolding add_mnlist
add_mnlist-full clock header s r hoa hoav4 coa =
    let w = Reachable-IsSound r in
    ground (arith, w.size, w.count, get_elem?-none s.mn_list s.mncount)
