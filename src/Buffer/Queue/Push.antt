-- ===== src/Buffer/Queue/Push.antt =====
-- What the linked list of databuff.c is as a queue, and a new cell linked to its end.
use dsmip.Common.{
  ℕ, true, false, ◌≡◌, ◌≢◌, refl, sym, ap, ◌∙◌, arith, Option, none, some, List, [], ◌∷◌, ◌++◌,
  ==_iff, ==_refl,
}
use dsmip.Buffer.Store.{PacketList, Heap, store, free, MnList, Clock}
use dsmip.Buffer.Queue.{is_late}
use dsmip.Buffer.Queue.Cells.{Cell, first, Fresh, Linked, release, late, kept, Linked-free}

abbrev pub last : Cell → List Cell → Cell
last c [] = c
last c (d ∷ cs) = last d cs

abbrev pub last_addr : List Cell → Option ℕ
last_addr [] = none
last_addr (c ∷ cs) = some (last c cs).0

-- Any tail will do for an empty list.
abbrev pub IsTail : Option ℕ → List Cell → Type 0
IsTail t [] = Unit {0}
IsTail t (c ∷ cs) = t ≡ some (last c cs).0

pub record IsQueue (h : Heap) (e : MnList) (cs : List Cell) : Type 0 where
  pub head_first : e.packets_head ≡ first cs
  pub linked : Linked h cs
  pub tail_last : IsTail e.packets_tail cs

-- The packets without their links, and those among them that are kept.
abbrev pub packets : List Cell → List PacketList
packets [] = []
packets (c ∷ cs) = record c.1 { next = none } ∷ packets cs

abbrev pub recent : Clock → ℕ → List PacketList → List PacketList
recent clock now [] = []
recent clock now (p ∷ ps) = elim (is_late clock now p) [
  | true ↦ recent clock now ps
  | false ↦ p ∷ ps
]

pub packets-kept :
    (clock : Clock) (now : ℕ) (cs : List Cell)
    → packets (kept clock now cs) ≡ recent clock now (packets cs)
unfolding is_late
packets-kept clock now [] = refl
packets-kept clock now (c ∷ cs) = ground (arith, packets-kept clock now cs)

pub Linked-kept :
    (clock : Clock) (now : ℕ) (h : Heap) (cs : List Cell)
    → Linked h cs
    → Linked (release h (late clock now cs)) (kept clock now cs)
Linked-kept clock now h [] l = tt
Linked-kept clock now h (c ∷ cs) l =
    ground (arith, Linked-kept clock now (free h c.0) cs (Linked-free h c.0 cs l.2 l.3))

pub IsTail-kept :
    (clock : Clock) (now : ℕ) (t : Option ℕ) (cs : List Cell)
    → IsTail t cs
    → IsTail t (kept clock now cs)
IsTail-kept clock now t [] l = tt
IsTail-kept clock now t (c ∷ []) l = ground arith
IsTail-kept clock now t (c ∷ d ∷ cs) l = ground (arith, IsTail-kept clock now t (d ∷ cs) l)

pub release-none : (h : Heap) (a : ℕ) (cs : List Cell) → h a ≡ none → release h cs a ≡ none
release-none h a [] e = e
release-none h a (c ∷ cs) e = release-none (free h c.0) a cs (ground arith)

-- What links a new cell to the end.
abbrev pub push : Cell → List Cell → List Cell
push n [] = n ∷ []
push n (c ∷ []) = (c.0, record c.1 { next = some n.0 }) ∷ n ∷ []
push n (c ∷ d ∷ cs) = c ∷ push n (d ∷ cs)

pub packets-push :
    (n : Cell) (cs : List Cell) → packets (push n cs) ≡ packets cs ++ packets (n ∷ [])
packets-push n [] = refl
packets-push n (c ∷ []) = refl
packets-push n (c ∷ d ∷ cs) = ap (λ r. record c.1 { next = none } ∷ r) (packets-push n (d ∷ cs))

last-push : (n b c : Cell) (cs : List Cell) → (last b (push n (c ∷ cs))).0 ≡ n.0
last-push n b c [] = refl
last-push n b c (d ∷ cs) = last-push n c d cs

pub IsTail-push : (n : Cell) (cs : List Cell) → IsTail (some n.0) (push n cs)
IsTail-push n [] = refl
IsTail-push n (c ∷ []) = refl
IsTail-push n (c ∷ d ∷ cs) = ap some (sym (last-push n c d cs))

pub first-push : (n c : Cell) (cs : List Cell) → first (push n (c ∷ cs)) ≡ some c.0
first-push n c [] = refl
first-push n c (d ∷ cs) = refl

Fresh-push : (n : Cell) (a : ℕ) (cs : List Cell) → a ≢ n.0 → Fresh a cs → Fresh a (push n cs)
Fresh-push n a [] ne f = (ne, tt)
Fresh-push n a (c ∷ []) ne f = (f.0, (ne, tt))
Fresh-push n a (c ∷ d ∷ cs) ne f = (f.0, Fresh-push n a (d ∷ cs) ne f.1)

Fresh-last : (a : ℕ) (c : Cell) (cs : List Cell) → Fresh a (c ∷ cs) → a ≢ (last c cs).0
Fresh-last a c [] f = f.0
Fresh-last a c (d ∷ cs) f = Fresh-last a d cs f.1

pub Linked-last :
    (h : Heap) (c : Cell) (cs : List Cell)
    → Linked h (c ∷ cs)
    → (h (last c cs).0 ≡ some (last c cs).1) × ((last c cs).1.next ≡ none)
Linked-last h c [] l = (l.0, l.1)
Linked-last h c (d ∷ cs) l = Linked-last h d cs l.3

-- The cell's link written, then a new cell where memory was not allocated.
abbrev pub linked_to : Heap → Cell → Cell → Heap
linked_to h t n = store (store h t.0 (record t.1 { next = some n.0 })) n.0 n.1

pub Linked-push :
    (h : Heap) (n c : Cell) (cs : List Cell)
    → Linked h (c ∷ cs)
    → h n.0 ≡ none
    → n.1.next ≡ none
    → Linked (linked_to h (last c cs) n) (push n (c ∷ cs))
Linked-push h n c [] l e x =
    let ne : c.0 ≢ n.0 = λ q. ground (arith, l.0) in
    (
      ground (arith, ==_iff n.0 c.0, ==_refl c.0),
      refl,
      (ne, tt),
      (ground (arith, ==_refl n.0), x, tt, tt),
    )
Linked-push h n c (d ∷ cs) l e x =
    let ne : c.0 ≢ n.0 = λ q. ground (arith, l.0) in
    (
      ground (arith, ==_iff n.0 c.0, ==_iff (last d cs).0 c.0, Fresh-last c.0 d cs l.2, l.0),
      l.1 ∙ sym (first-push n d cs),
      Fresh-push n c.0 (d ∷ cs) ne l.2,
      Linked-push h n d cs l.3 e x,
    )

pub Linked-store_same :
    (h : Heap) (a : ℕ) (v w : PacketList) (cs : List Cell)
    → h a ≡ some v
    → v ≡ w
    → Linked h cs
    → Linked (store h a w) cs
Linked-store_same h a v w [] e q l = tt
Linked-store_same h a v w (c ∷ cs) e q l =
    (ground (arith, ==_iff a c.0, l.0), l.1, l.2, Linked-store_same h a v w cs e q l.3)
