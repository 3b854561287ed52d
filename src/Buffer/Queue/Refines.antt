-- ===== src/Buffer/Queue/Refines.antt =====
-- The linked list of an entry of databuff.c as a queue of packets.
use dsmip.Common.{
  ℕ, ◌<◌, ◌≤◌, Option-cases, append-nil, ◌≡◌, refl, sym, ap, ◌∙◌, arith, inl, inr, Option, none,
  some, List, [], ◌∷◌, ◌++◌, length, ==_refl,
}
use dsmip.Buffer.Store.{PacketList, Heap, MnList, Clock, Answers}
use dsmip.Buffer.Queue.{Run, append_copy, buffer_data, send_buffered_data, fill_cell}
use dsmip.Buffer.Queue.Cells.{
  Cell, first, Linked, release, late, kept, freed, sent, at_cells, drop_late_lem, send_all_lem,
}
use dsmip.Buffer.Queue.Push.{
  IsQueue, IsTail, IsTail-kept, IsTail-push, Linked-kept, Linked-last, Linked-push,
  Linked-store_same, first-push, last, last_addr, packets, packets-kept, packets-push, push, recent,
  release-none,
}

-- Without memory for a copy the queue stays as it is, else the copy is at its end.
abbrev pub appended : Answers → ℕ → ℕ → List PacketList
appended ans f now = elim ans.kmalloc [ none ↦ [] | some a ↦ fill_cell ans f now ∷ [] ]

append_copy-IsQueue :
    (ans : Answers) (f now : ℕ) (e : MnList) (h : Heap) (cs : List Cell)
    → e.packets_head ≡ first cs
    → Linked h cs
    → e.packets_tail ≡ last_addr cs
    → ((a : ℕ) → ans.kmalloc ≡ some a → h a ≡ none)
    → (r : MnList × Heap) × (append_copy ans f now e h ≡ some r)
      × ((ds : List Cell) × IsQueue r.1 r.0 ds × (packets ds ≡ packets cs ++ appended ans f now))
unfolding append_copy
append_copy-IsQueue ans f now e h [] hd l tl new = elim (Option-cases ans.kmalloc) [
  | inl k ↦
      rw (append_copy, appended, tl, k)
        (_, refl, ([], record { head_first = refl; linked = tt; tail_last = tt }, refl))
  | inr (a, k) ↦
      rw (append_copy, appended, tl, k)
        (
          _,
          refl,
          (
            (a, fill_cell ans f now) ∷ [],
            record {
              head_first = refl;
              linked = (ground (arith, ==_refl a), refl, tt, tt);
              tail_last = refl;
            },
            refl,
          ),
        )
]
append_copy-IsQueue ans f now e h (c ∷ cs) hd l tl new =
    let t = Linked-last h c cs l in
    elim (Option-cases ans.kmalloc) [
      | inl k ↦
          rw (append_copy, appended, tl, t.0, k)
            (
              _,
              refl,
              (
                c ∷ cs,
                record {
                  head_first = hd;
                  linked =
                      Linked-store_same h (last c cs).0 (last c cs).1 _ (c ∷ cs) t.0
                        (ground (arith, t.1, k)) l;
                  tail_last = tl;
                },
                sym (ap (λ r. record c.1 { next = none } ∷ r) (append-nil (packets cs))),
              ),
            )
      | inr (a, k) ↦
          rw (append_copy, appended, tl, t.0, k)
            (
              _,
              refl,
              (
                push (a, fill_cell ans f now) (c ∷ cs),
                record {
                  head_first = hd ∙ sym (first-push _ c cs);
                  linked = rw k (Linked-push h (a, fill_cell ans f now) c cs l (new a k) refl);
                  tail_last = IsTail-push (a, fill_cell ans f now) (c ∷ cs);
                },
                packets-push (a, fill_cell ans f now) (c ∷ cs),
              ),
            )
    ]

reset_tail :
    (t : Option ℕ) (cs : List Cell)
    → IsTail t cs
    → elim (first cs) [ none ↦ none | some a ↦ t ] ≡ last_addr cs
reset_tail t [] i = refl
reset_tail t (c ∷ cs) i = i

length-kept : (clock : Clock) (now : ℕ) (cs : List Cell) → length (kept clock now cs) ≤ length cs
length-kept clock now [] = omega arith
length-kept clock now (c ∷ cs) = ground (arith, length-kept clock now cs)

-- With fuel for each cell of a queue and one more test, and memory that was not in use, buffer_data
-- ends without a fault and leaves a queue: of the old packets from the first one on that is not
-- late, in their order, then the copy if there was memory for it. What leaves is the others' memory.
pub buffer_data-IsQueue :
    (clock : Clock) (ans : Answers) (f now fuel : ℕ) (e : MnList) (h : Heap) (cs : List Cell)
    → IsQueue h e cs
    → length cs < fuel
    → ((a : ℕ) → ans.kmalloc ≡ some a → h a ≡ none)
    → (r : MnList × Run) × (buffer_data clock ans f now fuel e h ≡ some r)
      × (ds : List Cell) × IsQueue r.1.heap r.0 ds
      × (packets ds ≡ recent clock now (packets cs) ++ appended ans f now)
      × (r.1.log ≡ freed (late clock now cs))
unfolding buffer_data
buffer_data-IsQueue clock ans f now fuel e h cs q lt new =
    let ks = kept clock now cs in
    let old = late clock now cs in
    let t : Option ℕ = elim (first ks) [ none ↦ none | some a ↦ e.packets_tail ] in
    let s =
      append_copy-IsQueue ans f now (record e { packets_head = first ks; packets_tail = t })
        (release h old) ks refl (Linked-kept clock now h cs q.linked)
        (reset_tail e.packets_tail ks (IsTail-kept clock now e.packets_tail cs q.tail_last))
        (λ a k. release-none h a old (new a k)) in
    (
      (s.0.0, record { heap = s.0.1; head = s.0.0.packets_head; log = freed old }),
      rw (buffer_data, q.head_first, drop_late_lem clock now fuel h cs [] q.linked lt, s.1) refl,
      s.2.0,
      s.2.1,
      s.2.2 ∙ rw (packets-kept clock now cs) refl,
      refl,
    )

-- With fuel for each cell of a queue and one more test, send_buffered_data ends without a fault,
-- with an empty queue and the flag set. It frees the late packets at the front, then passes all
-- others on, in their order.
pub send_buffered_data-IsQueue :
    (clock : Clock) (now fuel : ℕ) (e : MnList) (h : Heap) (cs : List Cell)
    → IsQueue h e cs
    → length cs < fuel
    → (r : MnList × Run) × (send_buffered_data clock now fuel e h ≡ some r)
      × IsQueue r.1.heap r.0 []
      × (r.0.forward_instant ≡ 1)
      × (r.1.log ≡ freed (late clock now cs) ++ sent (kept clock now cs))
unfolding send_buffered_data
send_buffered_data-IsQueue clock now fuel e h cs q lt =
    let old = late clock now cs in
    let sends =
      send_all_lem fuel (release h old) (kept clock now cs) (freed old)
        (Linked-kept clock now h cs q.linked) (omega (arith, length-kept clock now cs)) in
    (
      (
        record e { packets_head = none; forward_instant = 1 },
        at_cells (release (release h old) (kept clock now cs)) []
            (freed old ++ sent (kept clock now cs)),
      ),
      rw (send_buffered_data, q.head_first, drop_late_lem clock now fuel h cs [] q.linked lt, sends)
          refl,
      record { head_first = refl; linked = tt; tail_last = tt },
      refl,
      refl,
    )
