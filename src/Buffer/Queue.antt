-- ===== src/Buffer/Queue.antt =====
-- `buffer_data` and `send_buffered_data` of databuff.c on the queue of one entry.
-- `none` is a fault, a cell read that is not allocated, or a loop that ran out of fuel.
pub mod Cells
pub mod Push
pub mod Refines
use dsmip.Common.{
  ℕ, zero, suc, ◌+◌, ◌-◌, ◌%◌, ◌^◌, Bool, true, false, Option, none, some, List, [], ◌∷◌, ◌++◌,
  if◌then◌else◌,
}
use dsmip.Buffer.Store.{
  PacketList, Heap, store, free, MnList, Effect, kfree_skb, okfn, Clock, Answers,
}

-- A loop's variables: memory, `packets_head`, and what has left the module.
pub record Run : Type 0 where
  pub heap : Heap
  pub head : Option ℕ
  pub log : List Effect

-- `time_before(v->ariv_jiffies, jiffies - HZ)`, with the wrap-around of `unsigned long`.
unfoldable pub is_late : Clock → ℕ → PacketList → Bool
is_late clock jiffies v = clock.time_before v.ariv_jiffies ((jiffies + 2 ^ 64 - clock.hz) % 2 ^ 64)

-- The first loop of both functions, which drops late packets from the front.
unfoldable pub drop_late : Clock → ℕ → ℕ → Run → Option Run
drop_late clock jiffies zero r = none
drop_late clock jiffies (suc fuel) r = elim r.head [
  | none ↦ some r
  | some a ↦ elim (r.heap a) [
    | none ↦ none
    | some v ↦ elim (is_late clock jiffies v) [
      | true ↦
          drop_late clock jiffies fuel
            (record { heap = free r.heap a; head = v.next; log = r.log ++ kfree_skb v.skb ∷ [] })
      | false ↦ some r
    ]
  ]
]

-- The second loop of `send_buffered_data`.
unfoldable pub send_all : ℕ → Run → Option Run
send_all zero r = none
send_all (suc fuel) r = elim r.head [
  | none ↦ some r
  | some a ↦ elim (r.heap a) [
    | none ↦ none
    | some v ↦
        send_all fuel
          (record { heap = free r.heap a; head = v.next; log = r.log ++ okfn v.okfn v.skb ∷ [] })
  ]
]

-- `send_buffered_data(mnindex)`: `packets_tail` stays. The flag is 0 while packets are sent, and 1
-- at the end.
unfoldable pub send_buffered_data : Clock → ℕ → ℕ → MnList → Heap → Option (MnList × Run)
unfolding drop_late send_all
send_buffered_data clock jiffies fuel e h =
    elim (drop_late clock jiffies fuel (record { heap = h; head = e.packets_head; log = [] })) [
      | none ↦ none
      | some r ↦ elim (send_all fuel r) [
        | none ↦ none
        | some r' ↦ some (record e { packets_head = r'.head; forward_instant = 1 }, r')
      ]
    ]

-- The four assignments to the new cell.
abbrev pub fill_cell : Answers → ℕ → ℕ → PacketList
fill_cell ans f jiffies = record {
  skb = ans.skb_copy;
  okfn = f;
  ariv_jiffies = jiffies;
  next = none;
}

-- The part of `buffer_data` under `//缓存数据包`, after its test of `packets_head`.
unfoldable pub append_copy : Answers → ℕ → ℕ → MnList → Heap → Option (MnList × Heap)
append_copy ans f jiffies e h = elim e.packets_tail [
  | none ↦ elim ans.kmalloc [
    | none ↦ some (record e { packets_tail = none; packets_head = none }, h)
    | some a ↦ some (
      record e { packets_tail = some a; packets_head = some a },
      store h a (fill_cell ans f jiffies),
    )
  ]
  | some t ↦ elim (h t) [
    | none ↦ none
    | some v ↦
        (let linked = store h t (record v { next = ans.kmalloc }) in
          elim ans.kmalloc [
            | none ↦ some (e, linked)
            | some a ↦
                some (record e { packets_tail = some a }, store linked a (fill_cell ans f jiffies))
          ])
  ]
]

-- `buffer_data(mnindex, skb, okfn)`
unfoldable pub buffer_data : Clock → Answers → ℕ → ℕ → ℕ → MnList → Heap → Option (MnList × Run)
unfolding drop_late append_copy
buffer_data clock ans f jiffies fuel e h =
    elim (drop_late clock jiffies fuel (record { heap = h; head = e.packets_head; log = [] })) [
      | none ↦ none
      | some r ↦
          (let tail : Option ℕ = elim r.head [ none ↦ none | some a ↦ e.packets_tail ] in
            elim (append_copy ans f jiffies
              (record e { packets_head = r.head; packets_tail = tail }) r.heap) [
                | none ↦ none
                | some (e', h') ↦ some (e', record r { heap = h'; head = e'.packets_head })
              ])
    ]
