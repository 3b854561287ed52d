-- ===== src/Buffer/Store.antt =====
-- The state of databuff.c: kernel memory with the `struct packet_list` cells, and the entries of
-- `MN_LIST`. A pointer is a number; `none` is NULL.
use dsmip.Common.{ℕ, Bool, Option, none, some, ◌==◌, if◌then◌else◌}
use dsmip.Net.{In6Addr}

-- `struct packet_list`. `skb` and `okfn` are only passed on; a failed `skb_copy` leaves NULL.
pub record PacketList : Type 0 where
  pub skb : Option ℕ
  pub okfn : ℕ
  pub ariv_jiffies : ℕ
  pub next : Option ℕ

-- `none` where no cell is allocated.
abbrev pub Heap : Type 0
Heap = ℕ → Option PacketList

abbrev pub store : Heap → ℕ → PacketList → Heap
store h a v = λ b. if a == b then some v else h b

-- `kfree`
abbrev pub free : Heap → ℕ → Heap
free h a = λ b. if a == b then none else h b

-- `struct mn_list`
pub record MnList : Type 0 where
  pub hoa : In6Addr
  pub hoav4 : ℕ
  pub coa : In6Addr
  pub forward_instant : ℕ
  pub packets_head : Option ℕ
  pub packets_tail : Option ℕ

-- What leaves the module.
pub data Effect : Type 0 where
  kfree_skb : Option ℕ → Effect
  okfn : ℕ → Option ℕ → Effect

-- What the kernel provides: `HZ`, `time_before`, and the answers of `kmalloc` and `skb_copy`, which
-- differ from call to call.
pub record Clock : Type 0 where
  pub hz : ℕ
  pub time_before : ℕ → ℕ → Bool

pub record Answers : Type 0 where
  pub kmalloc : Option ℕ
  pub skb_copy : Option ℕ
