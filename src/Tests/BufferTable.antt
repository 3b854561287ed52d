-- ===== src/Tests/BufferTable.antt =====
-- The theorems on the packet buffer at sample inputs.
use dsmip.Common.{
  ◌≡◌, refl, arith, some, none, List, [], ◌∷◌, ◌++◌, ltb, replicate, length-replicate,
  if◌then◌else◌, ◌==◌,
}
use dsmip.Net.{In6Addr}
use dsmip.Buffer.Store.{PacketList, Heap, MnList, Clock, Answers, kfree_skb, okfn, store}
use dsmip.Buffer.Queue.{Run, fill_cell, is_late, buffer_data, send_buffered_data}
use dsmip.Buffer.Queue.Cells.{Cell, late, kept, freed, sent}
use dsmip.Buffer.Queue.Push.{IsQueue, packets, recent}
use dsmip.Buffer.Queue.Refines.{appended, buffer_data-IsQueue, send_buffered_data-IsQueue}
use dsmip.Buffer.Table.{Module, databuff_init}
use dsmip.Buffer.Table.Reach.{Reachable, loaded}

-- `HZ` is 100, and `time_before` is `<` far from the wrap-around.
abbrev clock : Clock
clock = record { hz = 100; time_before = ltb }

abbrev memory : Answers
memory = record { kmalloc = some 9; skb_copy = some 77 }

abbrev hoa : In6Addr
hoa = record { w0 = 1; w1 = 0; w2 = 0; w3 = 5 }

abbrev old_packet : PacketList
old_packet = record { skb = some 71; okfn = 1; ariv_jiffies = 700; next = some 8 }

abbrev new_packet : PacketList
new_packet = record { skb = some 72; okfn = 1; ariv_jiffies = 950; next = none }

abbrev heap : Heap
heap = λ a. if a == 7 then some old_packet else if a == 8 then some new_packet else none

abbrev entry : MnList
entry = record {
  hoa = hoa;
  hoav4 = 10;
  coa = hoa;
  forward_instant = 1;
  packets_head = some 7;
  packets_tail = some 8;
}

abbrev cells : List Cell
cells = (7, old_packet) ∷ (8, new_packet) ∷ []

entry-IsQueue : IsQueue heap entry cells
entry-IsQueue = record {
  head_first = refl;
  linked = (refl, refl, (λ e. omega arith, tt), (refl, refl, tt, tt));
  tail_last = refl;
}

buffer_data-IsQueue_example :
    (r : MnList × Run) × (buffer_data clock memory 3 1000 3 entry heap ≡ some r)
    × (ds : List Cell) × IsQueue r.1.heap r.0 ds
    × (packets ds ≡ recent clock 1000 (packets cells) ++ appended memory 3 1000)
    × (r.1.log ≡ freed (late clock 1000 cells))
buffer_data-IsQueue_example =
    buffer_data-IsQueue clock memory 3 1000 3 entry heap cells entry-IsQueue (omega arith)
      (λ a e. ground (arith, e))

send_buffered_data-IsQueue_example :
    (r : MnList × Run) × (send_buffered_data clock 1000 3 entry heap ≡ some r)
    × IsQueue r.1.heap r.0 []
    × (r.0.forward_instant ≡ 1)
    × (r.1.log ≡ freed (late clock 1000 cells) ++ sent (kept clock 1000 cells))
send_buffered_data-IsQueue_example =
    send_buffered_data-IsQueue clock 1000 3 entry heap cells entry-IsQueue (omega arith)

-- The packet of jiffy 700 is late, that of 950 is sent.
sends_recent :
    freed (late clock 1000 cells) ++ sent (kept clock 1000 cells)
    ≡ kfree_skb (some 71) ∷ okfn 1 (some 72) ∷ []
unfolding is_late
sends_recent = refl

abbrev fresh_module : Module
fresh_module = record {
  mn_list = databuff_init (replicate 1000 entry);
  mncount = 0;
  heap = λ _. none;
}

fresh-Reachable : Reachable clock 16 fresh_module
fresh-Reachable = loaded (replicate 1000 entry) (λ _. none) (length-replicate 1000 entry)

abbrev registered : MnList
registered = record entry { packets_head = none; packets_tail = none }

-- The table after a message for a new home address, then after a packet for that address.
abbrev one_node : Module
one_node = record {
  mn_list = registered ∷ databuff_init (replicate 999 entry);
  mncount = 1;
  heap = λ _. none;
}

abbrev one_packet : Module
one_packet = record one_node {
  mn_list =
      record registered { packets_head = some 9; packets_tail = some 9 }
      ∷ databuff_init (replicate 999 entry);
  heap = store (λ _. none) 9 (fill_cell memory 3 1000);
}
