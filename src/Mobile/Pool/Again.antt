-- ===== src/Mobile/Pool/Again.antt =====
-- Tunnels that are asked for again, and tunnels that are replaced.
use dsmip.Common.{
  ℕ, zero, suc, ◌+◌, ◌<◌, ◌≡◌, ◌≢◌, refl, ap, ◌∙◌, arith, true, ◌&&◌, List, [], ◌∷◌, get_elem?,
  none, some, some_inj, ◌==◌, ==_refl, Bool-cases, inl, inr, subst, Option-cases,
}
use dsmip.Net.{In6Addr, v6_eq, v6_eq_refl}
use dsmip.Mobile.Pool.{
  Tunnel, Ioctl, create, destroy, Driver, Pool, Slot, at, instead_of, matches, find_tunnel, put,
  Added, fresh, hand_out, make_room, add_at, tunnel_add,
}
use dsmip.Mobile.Pool.Found.{
  is_place, first_place, clear_before, no_place, used_since, find_from-place, first_place-put,
  find_from-at, find_from-instead, Oldest,
}

-- The entry of the tunnel that has been handed out.
record Entered (src dst : In6Addr) (link : ℕ) (a : Added) : Type 0 where
  index : ℕ
  entry : Tunnel
  before : List Tunnel
  tunnels_eq : a.pool.tunnels ≡ put index entry before
  used : entry.is_used ≡ true
  matched : matches src dst link entry ≡ true
  ifindex_eq : entry.ifindex ≡ a.ifindex
  clear : clear_before src dst link before index ≡ true

get_elem?-put :
    (src dst : In6Addr) (link : ℕ) (ts : List Tunnel) (k : ℕ) (u : Tunnel)
    → clear_before src dst link ts k ≡ true
    → get_elem? (put k u ts) k ≡ some u
get_elem?-put src dst link [] k u h = absurd cc
get_elem?-put src dst link (t ∷ ts) zero u h = refl
get_elem?-put src dst link (t ∷ ts) (suc k) u h =
    get_elem?-put src dst link ts k u (ground (arith, h))

module _ (src dst : In6Addr) (link : ℕ) where
  matches-own : (v6_eq src src && (v6_eq dst dst && link == link)) ≡ true
  matches-own = rw (v6_eq_refl src, v6_eq_refl dst, ==_refl link) refl

  module _ (driver : Driver) (now : ℕ) where
    fresh-Entered :
        (i : ℕ) (calls : List Ioctl) (ts : List Tunnel)
        → clear_before src dst link ts i ≡ true
        → Entered src dst link (fresh driver src dst link now i calls ts)
    fresh-Entered i calls ts h = record {
      index = i;
      entry = record {
        is_used = true;
        src = src;
        dst = dst;
        link = link;
        ifindex = driver (create src dst link ∷ calls);
        last_access = now;
      };
      before = ts;
      tunnels_eq = refl;
      used = refl;
      matched = matches-own;
      ifindex_eq = refl;
      clear = h;
    }

    hand_out-Entered :
        (p : Pool) (i : ℕ) (t : Tunnel) (a : Added)
        → is_place src dst link t ≡ true
        → clear_before src dst link p.tunnels i ≡ true
        → hand_out driver src dst link now i p (some t) ≡ some a
        → Entered src dst link a
    hand_out-Entered p i t a place h e = elim (Bool-cases t.is_used) [
      | inr f ↦
          subst (Entered src dst link) (some_inj.0 (rw (hand_out, f) at e))
            (fresh-Entered i p.calls p.tunnels h)
      | inl f ↦ subst (Entered src dst link) (some_inj.0 (rw (hand_out, f) at e)) (record {
        index = i;
        entry = record t { is_used = true; last_access = now };
        before = p.tunnels;
        tunnels_eq = refl;
        used = refl;
        matched = rw (is_place, f) at place;
        ifindex_eq = refl;
        clear = h;
      })
    ]

    make_room-Entered :
        (p : Pool) (i : ℕ) (t : Tunnel) (a : Added)
        → clear_before src dst link p.tunnels i ≡ true
        → make_room driver src dst link now i p (some t) ≡ some a
        → Entered src dst link a
    make_room-Entered p i t a h e =
        subst (Entered src dst link) (some_inj.0 e)
          (fresh-Entered i (destroy t.ifindex ∷ p.calls) p.tunnels h)

    no_place-clear :
        (ts : List Tunnel) (i : ℕ) (t : Tunnel)
        → no_place src dst link ts ≡ true
        → get_elem? ts i ≡ some t
        → clear_before src dst link ts i ≡ true
    no_place-clear [] i t h e = absurd cc
    no_place-clear (u ∷ ts) zero t h e = refl
    no_place-clear (u ∷ ts) (suc i) t h e =
        ground (arith, h, no_place-clear ts i t (ground (arith, h)) e)

    -- What `find_tunnel` finds is where the tunnel is entered.
    added-Entered :
        (p : Pool) (s : Slot) (a : Added)
        → find_tunnel src dst link p.tunnels ≡ s
        → add_at driver src dst link now p s ≡ some a
        → Entered src dst link a
    unfolding find_tunnel
    added-Entered p (at j) a f e =
        let w = find_from-at src dst link 0 0x7fffffff none p.tunnels j f in
        let same : j ≡ w.0 = omega (arith, w.2) in
        let get : get_elem? p.tunnels j ≡ some w.1 = rw same (w.3) in
        hand_out-Entered p j w.1 a w.4 (rw same (w.5)) (rw get at e)
    added-Entered p (instead_of none) a f e = absurd cc
    added-Entered p (instead_of (some j)) a f e =
        let w = find_from-instead src dst link 0 0x7fffffff none p.tunnels (some j) f in
        elim (Option-cases (get_elem? p.tunnels j)) [
          | inl g ↦ absurd (let q = rw g at e in cc)
          | inr g ↦
              make_room-Entered p j g.0 a (no_place-clear p.tunnels j g.0 w.0 g.1) (rw (g.1) at e)
        ]

  -- After tunnel_add has given a result for two end points and a link, the next tunnel_add for
  -- them, at any time and whatever the kernel would answer, gives the same index without a call to
  -- the kernel.
  pub tunnel_add-again :
      (driver driver' : Driver) (now later : ℕ) (p : Pool) (a : Added)
      → tunnel_add driver src dst link now p ≡ some a
      → (b : Added) × (tunnel_add driver' src dst link later a.pool ≡ some b)
        × (b.ifindex ≡ a.ifindex)
        × (b.pool.calls ≡ a.pool.calls)
  unfolding tunnel_add find_tunnel
  tunnel_add-again driver driver' now later p a e =
      let w = added-Entered driver now p (find_tunnel src dst link p.tunnels) a refl e in
      let place : is_place src dst link w.entry ≡ true = rw (is_place, w.used) w.matched in
      let from_zero : 0 + w.index ≡ w.index = omega arith in
      let first : first_place src dst link a.pool.tunnels w.index ≡ true =
        rw (w.tunnels_eq) (first_place-put src dst link w.entry w.before w.index place w.clear) in
      let found : find_tunnel src dst link a.pool.tunnels ≡ at w.index =
        find_from-place src dst link 0 0x7fffffff none a.pool.tunnels w.index first
        ∙ ap (λ x. at x) from_zero in
      let get : get_elem? a.pool.tunnels w.index ≡ some w.entry =
        rw (w.tunnels_eq) (get_elem?-put src dst link w.before w.index w.entry w.clear) in
      (
        record {
          ifindex = w.entry.ifindex;
          pool = record a.pool {
            tunnels = put w.index (record w.entry { last_access = later }) a.pool.tunnels;
          };
        },
        rw (found, add_at, get, hand_out, w.used) refl,
        w.ifindex_eq,
        refl,
      )

  -- A tunnel that makes room is the least recently used one, and every entry is in use for other ends.
  find_tunnel-oldest :
      (ts : List Tunnel) (i : ℕ)
      → find_tunnel src dst link ts ≡ instead_of (some i)
      → (no_place src dst link ts ≡ true)
        × ((t : Tunnel) × (get_elem? ts i ≡ some t) × (used_since t.last_access ts ≡ true))
  unfolding find_tunnel
  find_tunnel-oldest ts i e =
      let w = find_from-instead src dst link 0 0x7fffffff none ts (some i) e in (w.0, oldest w.1)
    where
      oldest :
          Oldest src dst link 0 0x7fffffff none ts (some i)
          → (t : Tunnel) × (get_elem? ts i ≡ some t) × (used_since t.last_access ts ≡ true)
      oldest (inl v) = absurd (let q = v.0 in cc)
      oldest (inr v) =
          let same : i ≡ v.0 = omega (arith, some_inj.0 v.2) in (v.1, rw same (v.3), v.5)

  -- If the first entry of a part of the pool has been used before 2 to the 31 less 1, tunnel_add
  -- stays inside the part and gives a result.
  pub tunnel_add-some :
      (driver : Driver) (now : ℕ) (t : Tunnel) (ts : List Tunnel) (calls : List Ioctl)
      → t.last_access < 0x7fffffff
      → tunnel_add driver src dst link now (record { tunnels = t ∷ ts; calls = calls }) ≢ none
  unfolding tunnel_add find_tunnel
  tunnel_add-some driver now t ts calls recent e =
      by_slot (find_tunnel src dst link (t ∷ ts)) refl e
    where
      by_slot :
          (s : Slot)
          → find_tunnel src dst link (t ∷ ts) ≡ s
          → add_at driver src dst link now (record { tunnels = t ∷ ts; calls = calls }) s ≢ none
      by_slot (at j) f e =
          let w = find_from-at src dst link 0 0x7fffffff none (t ∷ ts) j f in
          let same : j ≡ w.0 = omega (arith, w.2) in
          let get : get_elem? (t ∷ ts) j ≡ some w.1 = rw same (w.3) in (let q = rw get at e in cc)
      by_slot (instead_of none) f e =
          let w = find_from-instead src dst link 0 0x7fffffff none (t ∷ ts) none f in never w.1
        where
          never : Oldest src dst link 0 0x7fffffff none (t ∷ ts) none → ⊥
          never (inl v) = ground (arith, recent, v.1)
          never (inr v) = (let q = v.2 in cc)
      by_slot (instead_of (some j)) f e =
          let w = find_tunnel-oldest (t ∷ ts) j f in (let q = rw (w.1.1) at e in cc)
