-- ===== src/Daemon/Words/Longest.antt =====
-- The order of the tests in cngictrl/cngictrl.c, of which the first one that fits is taken.
use dsmip.Common.{
  ℕ, zero, suc, ◌≤◌, ◌≡◌, refl, Bool, true, false, not, ◌&&◌, List, [], ◌∷◌, length, get_elem?,
  Option, none, some, Bool-cases, inl, inr, &&-eq-true, arith,
}
use dsmip.Daemon.Text.{Text, begins}
use dsmip.Daemon.Words.{Word, words, find_word}

-- No word before is the beginning of one after it.
none_begins : Text → List (Text × Word) → Bool
none_begins w [] = true
none_begins w (v ∷ vs) = not (begins v.0 w) && none_begins w vs

apart : List (Text × Word) → Bool
apart [] = true
apart (w ∷ ws) = none_begins w.0 ws && apart ws

words-apart : apart words ≡ true
unfolding apart none_begins begins words
words-apart = refl

-- Of two beginnings of a line the shorter one is a beginning of the other.
begins-begins :
    (line a b : Text)
    → begins line a ≡ true
    → begins line b ≡ true
    → length a ≤ length b
    → begins b a ≡ true
unfolding begins
begins-begins line [] b h k l = ground arith
begins-begins [] (c ∷ a) b h k l = ground arith
begins-begins (d ∷ line) (c ∷ a) [] h k l = absurd (omega arith)
begins-begins (d ∷ line) (c ∷ a) (e ∷ b) h k l = ground (arith, begins-begins line a b)

none_begins-elem :
    (w : Text) (vs : List (Text × Word)) (i : ℕ) (v : Text × Word)
    → none_begins w vs ≡ true
    → get_elem? vs i ≡ some v
    → begins v.0 w ≡ false
unfolding none_begins
none_begins-elem w [] i v h e = ground arith
none_begins-elem w (x ∷ vs) zero v h e = ground arith
none_begins-elem w (x ∷ vs) (suc i) v h e = ground (arith, none_begins-elem w vs i v)

-- What is found is a word of the table that the line begins with, and no such word is longer; nothing is found
-- only if the line begins with none.
abbrev pub IsLongest : Text → List (Text × Word) → Option (Text × Word) → Type 0
IsLongest line ws none =
    (i : ℕ) (v : Text × Word) → get_elem? ws i ≡ some v → begins line v.0 ≡ false
IsLongest line ws (some w) =
    ((i : ℕ) × (get_elem? ws i ≡ some w))
    × (begins line w.0 ≡ true)
    × ((i : ℕ) (v : Text × Word)
        → get_elem? ws i ≡ some v
        → begins line v.0 ≡ true
        → length v.0 ≤ length w.0)

not_longer :
    (line : Text) (w v : Text × Word)
    → begins line w.0 ≡ true
    → begins line v.0 ≡ true
    → begins v.0 w.0 ≡ false
    → length v.0 ≤ length w.0
not_longer line w v h k l = ground (arith, begins-begins line w.0 v.0 h k)

first-IsLongest :
    (line : Text) (w : Text × Word) (ws : List (Text × Word))
    → begins line w.0 ≡ true
    → none_begins w.0 ws ≡ true
    → IsLongest line (w ∷ ws) (some w)
first-IsLongest line w ws h k = ((zero, refl), h, λ i v e l. case_of i v e l)
  where
    case_of :
        (i : ℕ) (v : Text × Word)
        → get_elem? (w ∷ ws) i ≡ some v
        → begins line v.0 ≡ true
        → length v.0 ≤ length w.0
    case_of zero v e l = ground arith
    case_of (suc i) v e l = not_longer line w v h l (none_begins-elem w.0 ws i v k e)

later-IsLongest :
    (line : Text) (x : Text × Word) (ws : List (Text × Word)) (o : Option (Text × Word))
    → begins line x.0 ≡ false
    → IsLongest line ws o
    → IsLongest line (x ∷ ws) o
later-IsLongest line x ws none h k = λ i v e. case_of i v e
  where
    case_of : (i : ℕ) (v : Text × Word) → get_elem? (x ∷ ws) i ≡ some v → begins line v.0 ≡ false
    case_of zero v e = ground arith
    case_of (suc i) v e = k i v e
later-IsLongest line x ws (some w) h k = ((suc (k.0).0, (k.0).1), k.1, λ i v e l. case_of i v e l)
  where
    case_of :
        (i : ℕ) (v : Text × Word)
        → get_elem? (x ∷ ws) i ≡ some v
        → begins line v.0 ≡ true
        → length v.0 ≤ length w.0
    case_of zero v e l = ground arith
    case_of (suc i) v e l = k.2 i v e l

find-IsLongest :
    (line : Text) (ws : List (Text × Word))
    → apart ws ≡ true
    → IsLongest line ws (find_word line ws)
unfolding find_word apart
find-IsLongest line [] h = λ i v e. ground arith
find-IsLongest line (w ∷ ws) h = elim (Bool-cases (begins line w.0)) [
  | inl e ↦ rw e (first-IsLongest line w ws e (&&-eq-true (none_begins w.0 ws) (apart ws) h).0)
  | inr e ↦ rw e (
      later-IsLongest line w ws (find_word line ws) e
        (find-IsLongest line ws (&&-eq-true (none_begins w.0 ws) (apart ws) h).1))
]

-- The tests of main find the longest command word of the table that a line begins with, and none
-- exactly if the line begins with none.
pub find_word-IsLongest : (line : Text) → IsLongest line words (find_word line words)
find_word-IsLongest line = find-IsLongest line words words-apart
