-- ===== src/Mobile/Pool/Found.antt =====
-- What `find_tunnel` finds.
use dsmip.Common.{
  ℕ, zero, suc, ◌+◌, ◌<◌, ◌≡◌, refl, sym, ap, ltb→lt, ◌∙◌, arith, Bool, true, false, not, ◌&&◌,
  List, [], ◌∷◌, get_elem?, Option, some, leb, ◌⊎◌, ltb, Bool-cases, inl, inr, if◌then◌else◌,
}
use dsmip.Net.{In6Addr}
use dsmip.Mobile.Pool.{Tunnel, at, instead_of, matches, find_from, put}

-- The entry is the place for the end points: theirs, or free, with entries of others before it.
abbrev pub is_place : In6Addr → In6Addr → ℕ → Tunnel → Bool
is_place src dst link t = if t.is_used then matches src dst link t else true

-- The first entry that is a place.
abbrev pub first_place : In6Addr → In6Addr → ℕ → List Tunnel → ℕ → Bool
first_place src dst link [] i = false
first_place src dst link (t ∷ ts) zero = is_place src dst link t
first_place src dst link (t ∷ ts) (suc i) =
    not (is_place src dst link t) && first_place src dst link ts i

-- No entry before the index is a place, and the index is in the array.
abbrev pub clear_before : In6Addr → In6Addr → ℕ → List Tunnel → ℕ → Bool
clear_before src dst link [] i = false
clear_before src dst link (t ∷ ts) zero = true
clear_before src dst link (t ∷ ts) (suc i) =
    not (is_place src dst link t) && clear_before src dst link ts i

abbrev pub no_place : In6Addr → In6Addr → ℕ → List Tunnel → Bool
no_place src dst link [] = true
no_place src dst link (t ∷ ts) = not (is_place src dst link t) && no_place src dst link ts

-- Every entry has been used at the time or since.
abbrev pub used_since : ℕ → List Tunnel → Bool
used_since time [] = true
used_since time (t ∷ ts) = leb time t.last_access && used_since time ts

module _ (src dst : In6Addr) (link : ℕ) where
  pub find_from-place :
      (i min : ℕ) (r : Option ℕ) (ts : List Tunnel) (k : ℕ)
      → first_place src dst link ts k ≡ true
      → find_from src dst link i min r ts ≡ at (i + k)
  unfolding find_from
  find_from-place i min r [] k h = absurd cc
  find_from-place i min r (t ∷ ts) zero h = ground (arith, h)
  find_from-place i min r (t ∷ ts) (suc k) h = ground (
    arith,
    h,
    find_from-place (i + 1) t.last_access (some i) ts k,
    find_from-place (i + 1) min r ts k,
  )

  pub first_place-put :
      (u : Tunnel) (ts : List Tunnel) (k : ℕ)
      → is_place src dst link u ≡ true
      → clear_before src dst link ts k ≡ true
      → first_place src dst link (put k u ts) k ≡ true
  first_place-put u [] k p h = absurd cc
  first_place-put u (t ∷ ts) zero p h = p
  first_place-put u (t ∷ ts) (suc k) p h = ground (arith, h, first_place-put u ts k p)

  abbrev pub Oldest : ℕ → ℕ → Option ℕ → List Tunnel → Option ℕ → Type 0
  Oldest i min r ts o =
      ((o ≡ r) × (used_since min ts ≡ true))
      ⊎ ((k : ℕ) × (t : Tunnel) × (o ≡ some (i + k))
          × (get_elem? ts k ≡ some t)
          × (t.last_access < min)
          × (used_since t.last_access ts ≡ true))

  find_from-first :
      (i min : ℕ) (r : Option ℕ) (t : Tunnel) (ts : List Tunnel)
      → is_place src dst link t ≡ true
      → find_from src dst link i min r (t ∷ ts) ≡ at i
  unfolding find_from
  find_from-first i min r t ts h = ground (arith, h)

  find_from-older :
      (i min : ℕ) (r : Option ℕ) (t : Tunnel) (ts : List Tunnel)
      → is_place src dst link t ≡ false
      → ltb t.last_access min ≡ true
      → find_from src dst link i min r (t ∷ ts)
        ≡ find_from src dst link (i + 1) t.last_access (some i) ts
  unfolding find_from
  find_from-older i min r t ts h o = ground (arith, h, o)

  find_from-newer :
      (i min : ℕ) (r : Option ℕ) (t : Tunnel) (ts : List Tunnel)
      → is_place src dst link t ≡ false
      → ltb t.last_access min ≡ false
      → find_from src dst link i min r (t ∷ ts) ≡ find_from src dst link (i + 1) min r ts
  unfolding find_from
  find_from-newer i min r t ts h o = ground (arith, h, o)

  -- What `at` says.
  abbrev pub Placed : ℕ → List Tunnel → ℕ → Type 0
  Placed i ts j =
      (k : ℕ) × (t : Tunnel) × (j ≡ i + k)
      × (get_elem? ts k ≡ some t)
      × (is_place src dst link t ≡ true)
      × (clear_before src dst link ts k ≡ true)

  Placed-next :
      (i j : ℕ) (t : Tunnel) (ts : List Tunnel)
      → is_place src dst link t ≡ false
      → Placed (i + 1) ts j
      → Placed i (t ∷ ts) j
  Placed-next i j t ts h p = (suc p.0, p.1, omega (arith, p.2), p.3, p.4, ground (arith, h, p.5))

  pub find_from-at :
      (i min : ℕ) (r : Option ℕ) (ts : List Tunnel) (j : ℕ)
      → find_from src dst link i min r ts ≡ at j
      → Placed i ts j
  unfolding find_from
  find_from-at i min r [] j e = absurd cc
  find_from-at i min r (t ∷ ts) j e = elim (Bool-cases (is_place src dst link t)) [
    | inl h ↦
        let q : at i ≡ at j = sym (find_from-first i min r t ts h) ∙ e in
        let same : j ≡ i = cc in (0, t, omega (arith, same), refl, h, refl)
    | inr h ↦ elim (Bool-cases (ltb t.last_access min)) [
      | inl o ↦ Placed-next i j t ts h (
          find_from-at (i + 1) t.last_access (some i) ts j
            (sym (find_from-older i min r t ts h o) ∙ e))
      | inr o ↦
          Placed-next i j t ts h
            (find_from-at (i + 1) min r ts j (sym (find_from-newer i min r t ts h o) ∙ e))
    ]
  ]

  Oldest-older :
      (i min : ℕ) (r : Option ℕ) (t : Tunnel) (ts : List Tunnel) (o : Option ℕ)
      → ltb t.last_access min ≡ true
      → Oldest (i + 1) t.last_access (some i) ts o
      → Oldest i min r (t ∷ ts) o
  Oldest-older i min r t ts o older (inl w) =
      let same : i + 0 ≡ i = omega arith in
      inr (0, t, rw same (w.0), refl, ltb→lt t.last_access min older, ground (arith, w.1))
  Oldest-older i min r t ts o older (inr w) =
      let same : i + 1 + w.0 ≡ i + suc w.0 = omega arith in
      inr (
        suc w.0,
        w.1,
        w.2 ∙ ap (λ x. some x) same,
        w.3,
        omega (arith, w.4, ltb→lt t.last_access min older),
        ground (arith, w.4, w.5),
      )

  Oldest-newer :
      (i min : ℕ) (r : Option ℕ) (t : Tunnel) (ts : List Tunnel) (o : Option ℕ)
      → ltb t.last_access min ≡ false
      → Oldest (i + 1) min r ts o
      → Oldest i min r (t ∷ ts) o
  Oldest-newer i min r t ts o newer (inl w) = inl (w.0, ground (arith, newer, w.1))
  Oldest-newer i min r t ts o newer (inr w) =
      let same : i + 1 + w.0 ≡ i + suc w.0 = omega arith in
      inr (suc w.0, w.1, w.2 ∙ ap (λ x. some x) same, w.3, w.4, ground (arith, newer, w.4, w.5))

  pub find_from-instead :
      (i min : ℕ) (r : Option ℕ) (ts : List Tunnel) (o : Option ℕ)
      → find_from src dst link i min r ts ≡ instead_of o
      → (no_place src dst link ts ≡ true) × Oldest i min r ts o
  unfolding find_from
  find_from-instead i min r [] o e = (refl, inl (cc, refl))
  find_from-instead i min r (t ∷ ts) o e = elim (Bool-cases (is_place src dst link t)) [
    | inl h ↦ absurd (let q : at i ≡ instead_of o = sym (find_from-first i min r t ts h) ∙ e in cc)
    | inr h ↦ elim (Bool-cases (ltb t.last_access min)) [
      | inl older ↦
          let w =
            find_from-instead (i + 1) t.last_access (some i) ts o
              (sym (find_from-older i min r t ts h older) ∙ e) in
          (ground (arith, h, w.0), Oldest-older i min r t ts o older w.1)
      | inr newer ↦
          let w =
            find_from-instead (i + 1) min r ts o (sym (find_from-newer i min r t ts h newer) ∙ e) in
          (ground (arith, h, w.0), Oldest-newer i min r t ts o newer w.1)
    ]
  ]
