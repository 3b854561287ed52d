-- ===== src/Buffer/Table.antt =====
-- The table of databuff.c, its netlink handler and its netfilter hooks. Each handler runs to its end
-- before the next: the module takes no lock, and its handlers' interleavings are not modelled.
pub mod Forward
pub mod Reach
use dsmip.Common.{
  ℕ, zero, suc, ◌+◌, Bool, true, false, not, Option, none, some, List, [], ◌∷◌, get_elem?, set, ℤ,
  pos, negsuc, ltb, leb, ◌==◌, if◌then◌else◌,
}
use dsmip.Net.{In6Addr, v6_eq}
use dsmip.Buffer.Store.{Heap, MnList, Effect, Clock, Answers}
use dsmip.Buffer.Queue.{Run, buffer_data, send_buffered_data}

abbrev pub max_mn_count : ℕ
max_mn_count = 1000

-- `MN_LIST`, `mncount`, and kernel memory.
pub record Module : Type 0 where
  pub mn_list : List MnList
  pub mncount : ℕ
  pub heap : Heap

-- `struct msg_to_kernel`, with the length of the datagram around it.
pub record Message : Type 0 where
  pub len : ℕ
  pub hoa : In6Addr
  pub hoav4 : ℕ
  pub coa : In6Addr

pub data Verdict : Type 0 where
  accept : Verdict
  drop : Verdict

-- The loop of `databuff_init`.
unfoldable pub databuff_init : List MnList → List MnList
databuff_init [] = []
databuff_init (e ∷ es) = record e { packets_head = none; packets_tail = none } ∷ databuff_init es

-- `for (i = 0; i < mncount; i++)` of both searches, from `i` on.
abbrev pub search : (MnList → Bool) → ℕ → ℕ → List MnList → ℤ
search test i zero es = negsuc 0
search test i (suc n) [] = negsuc 0
search test i (suc n) (e ∷ es) = if test e then pos i else search test (i + 1) n es

unfoldable pub in_mnlistv6 : In6Addr → Module → ℤ
in_mnlistv6 hoa s = search (λ e. v6_eq hoa e.hoa) 0 s.mncount s.mn_list

unfoldable pub in_mnlistv4 : ℕ → Module → ℤ
in_mnlistv4 hoa s = search (λ e. hoa == e.hoav4) 0 s.mncount s.mn_list

-- `none`: a write past the end of `MN_LIST`.
unfoldable pub add_mnlist : In6Addr → ℕ → In6Addr → Module → Option (Module × ℤ)
add_mnlist hoa hoav4 coa s =
    if ltb max_mn_count s.mncount
    then some (s, negsuc 0)
    else elim (get_elem? s.mn_list s.mncount) [
      | none ↦ none
      | some e ↦ some (
        record s {
          mn_list =
              set s.mn_list s.mncount
                (record e { hoa = hoa; hoav4 = hoav4; coa = coa; forward_instant = 1 });
          mncount = s.mncount + 1;
        },
        pos 1,
      )
    ]

-- `kernel_receive`, where `header` is `NLMSG_SPACE(0)`.
unfoldable pub kernel_receive : Clock → ℕ → ℕ → ℕ → Message → Module → Option (Module × List Effect)
unfolding in_mnlistv6 add_mnlist
kernel_receive clock header now fuel msg s =
    if ltb msg.len header then some (s, []) else elim (in_mnlistv6 msg.hoa s) [
      | pos i ↦ elim (get_elem? s.mn_list i) [
        | none ↦ none
        | some e ↦
            (if v6_eq e.coa msg.coa
              then some (s, [])
              else elim (send_buffered_data clock now fuel (record e { coa = msg.coa }) s.heap) [
                | none ↦ none
                | some (e', r) ↦
                    some (record s { mn_list = set s.mn_list i e'; heap = r.heap }, r.log)
              ])
      ]
      | negsuc n ↦ elim (add_mnlist msg.hoa msg.hoav4 msg.coa s) [
        | none ↦ none
        | some (s', ret) ↦ some (s', [])
      ]
    ]

-- The common part of the two hooks, after their search.
unfoldable pub hook_func :
    Clock → Answers → ℕ → ℕ → ℕ → ℤ → Module → Option (Module × Verdict × List Effect)
hook_func clock ans f now fuel (negsuc n) s = some (s, accept, [])
hook_func clock ans f now fuel (pos i) s = elim (get_elem? s.mn_list i) [
  | none ↦ none
  | some e ↦ elim (buffer_data clock ans f now fuel e s.heap) [
    | none ↦ none
    | some (e', r) ↦ some (
      record s { mn_list = set s.mn_list i e'; heap = r.heap },
      if e'.forward_instant == 1 then accept else drop,
      r.log,
    )
  ]
]

unfoldable pub hook_funcv6 :
    Clock → Answers → ℕ → ℕ → ℕ → In6Addr → Module → Option (Module × Verdict × List Effect)
unfolding hook_func in_mnlistv6
hook_funcv6 clock ans f now fuel daddr s = hook_func clock ans f now fuel (in_mnlistv6 daddr s) s

unfoldable pub hook_funcv4 :
    Clock → Answers → ℕ → ℕ → ℕ → ℕ → Module → Option (Module × Verdict × List Effect)
unfolding hook_func in_mnlistv4
hook_funcv4 clock ans f now fuel daddr s = hook_func clock ans f now fuel (in_mnlistv4 daddr s) s
