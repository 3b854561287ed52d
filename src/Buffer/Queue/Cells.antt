-- ===== src/Buffer/Queue/Cells.antt =====
-- The linked list of databuff.c seen as a sequence of cells, and what its two loops do to it.
use dsmip.Common.{
  ℕ, zero, suc, ◌<◌, true, false, Bool-cases, ◌≡◌, ◌≢◌, refl, ap, ◌∙◌, arith, inl, inr, Option,
  none, some, List, [], ◌∷◌, ◌++◌, length, ==_iff,
}
use mathlib.Core.List.{append_assoc, append-nil}
use dsmip.Buffer.Store.{PacketList, Heap, free, Effect, kfree_skb, okfn, Clock}
use dsmip.Buffer.Queue.{Run, is_late, drop_late, send_all}

abbrev pub Cell : Type 0
Cell = ℕ × PacketList

abbrev pub first : List Cell → Option ℕ
first [] = none
first (c ∷ cs) = some c.0

abbrev pub Fresh : ℕ → List Cell → Type 0
Fresh a [] = Unit {0}
Fresh a (c ∷ cs) = (a ≢ c.0) × Fresh a cs

-- Memory holds the cells, each linked to the next, at different addresses.
abbrev pub Linked : Heap → List Cell → Type 0
Linked h [] = Unit {0}
Linked h (c ∷ cs) = (h c.0 ≡ some c.1) × (c.1.next ≡ first cs) × Fresh c.0 cs × Linked h cs

abbrev pub release : Heap → List Cell → Heap
release h [] = h
release h (c ∷ cs) = release (free h c.0) cs

-- The late cells at the front, and the others.
abbrev pub late : Clock → ℕ → List Cell → List Cell
late clock now [] = []
late clock now (c ∷ cs) = elim (is_late clock now c.1) [ true ↦ c ∷ late clock now cs | false ↦ [] ]

abbrev pub kept : Clock → ℕ → List Cell → List Cell
kept clock now [] = []
kept clock now (c ∷ cs) = elim (is_late clock now c.1) [ true ↦ kept clock now cs | false ↦ c ∷ cs ]

abbrev pub freed : List Cell → List Effect
freed [] = []
freed (c ∷ cs) = kfree_skb c.1.skb ∷ freed cs

abbrev pub sent : List Cell → List Effect
sent [] = []
sent (c ∷ cs) = okfn c.1.okfn c.1.skb ∷ sent cs

pub Linked-free :
    (h : Heap) (a : ℕ) (cs : List Cell) → Fresh a cs → Linked h cs → Linked (free h a) cs
Linked-free h a [] f l = tt
Linked-free h a (c ∷ cs) f l = (ground (arith, ==_iff a c.0), l.1, l.2, Linked-free h a cs f.1 l.3)

-- A loop's variables at the cells.
abbrev pub at_cells : Heap → List Cell → List Effect → Run
at_cells h cs log = record { heap = h; head = first cs; log = log }

-- With fuel for each cell and one more test, the first loop frees the late cells at the front.
pub drop_late_lem :
    (clock : Clock) (now fuel : ℕ) (h : Heap) (cs : List Cell) (log : List Effect)
    → Linked h cs
    → length cs < fuel
    → drop_late clock now fuel (at_cells h cs log)
      ≡ some (
          at_cells
            (release h (late clock now cs))
            (kept clock now cs)
            (log ++ freed (late clock now cs)))
unfolding drop_late
drop_late_lem clock now zero h cs log l lt = absurd (omega arith)
drop_late_lem clock now (suc fuel) h [] log l lt = rw (append-nil log) refl
drop_late_lem clock now (suc fuel) h (c ∷ cs) log l lt = elim (Bool-cases (is_late clock now c.1)) [
  | inl e ↦
      (let log' = log ++ kfree_skb c.1.skb ∷ [] in
        rw (l.0, e)
          (ap (λ p. drop_late clock now fuel (record { heap = free h c.0; head = p; log = log' }))
              l.1
            ∙ drop_late_lem clock now fuel (free h c.0) cs log' (Linked-free h c.0 cs l.2 l.3)
                (omega arith)
            ∙ rw
                (
                  append_assoc log (kfree_skb c.1.skb ∷ []) (freed (late clock now cs)),
                  late,
                  kept,
                  e,
                )
                refl))
  | inr e ↦ rw (late, kept, drop_late, l.0, e, freed, append-nil log) refl
]

-- The second loop passes every cell on to its `okfn`, in order, and frees it.
pub send_all_lem :
    (fuel : ℕ) (h : Heap) (cs : List Cell) (log : List Effect)
    → Linked h cs
    → length cs < fuel
    → send_all fuel (at_cells h cs log) ≡ some (at_cells (release h cs) [] (log ++ sent cs))
unfolding send_all
send_all_lem zero h cs log l lt = absurd (omega arith)
send_all_lem (suc fuel) h [] log l lt = rw (append-nil log) refl
send_all_lem (suc fuel) h (c ∷ cs) log l lt =
    rw
      (
        l.0,
        l.1,
        send_all_lem fuel (free h c.0) cs (log ++ okfn c.1.okfn c.1.skb ∷ [])
            (Linked-free h c.0 cs l.2 l.3) (omega arith),
        append_assoc log (okfn c.1.okfn c.1.skb ∷ []) (sent cs),
      )
      refl
