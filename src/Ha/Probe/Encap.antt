-- ===== src/Ha/Probe/Encap.antt =====
-- What a NAT probe in ha.c does to the UDP encapsulation of the slot in use.
use dsmip.Common.{
  refl, ◌∙◌, ℕ, ◌<◌, ◌≡◌, ◌≢◌, ◌⊎◌, arith, pos, ◌==ℤ◌, ==ℤ_iff, leb, ◌&&◌, if◌then◌else◌,
  Bool-cases, inl, inr, pos_part, is_pos, false, true, false, get_or, get_or-set_self,
  get_or-set_ne,
}
use dsmip.Ha.State.{Mn, Config}
use dsmip.Ha.Probe.{Probe, map_interface, shelve, record_nat, is_moved, probe_mn}
use dsmip.Ha.Cleanup.{stop_encap_of, encap_source}
use dsmip.Ha.Binding.Steps.{is_encapsulated}
use dsmip.Ha.Valid.{IsValid}
use dsmip.Ha.Valid.Preserved.{map_interface-IsValid}

-- What the encapsulation of a slot is made from.
abbrev Slot : Type 0
Slot = ℕ × ℕ × ℕ

abbrev slot : Mn → ℕ → Slot
slot m i = (get_or m.in_nat i 0, get_or m.natv4 i 0, get_or m.nat_port i 0)

-- The spare slot takes over what the slot held.
slot-shelve : (m : Mn) (i : ℕ) → IsValid m → (slot (shelve m i) 30 ≡ slot m i)
unfolding shelve
slot-shelve m i v = ground (
  arith,
  get_or-set_self m.in_nat 30 (get_or m.in_nat i 0) 0,
  get_or-set_self m.natv4 30 (get_or m.natv4 i 0) 0,
  get_or-set_self m.nat_port 30 (get_or m.nat_port i 0) 0,
)

-- A record in another slot leaves a slot alone.
slot-record_nat_ne :
    (m : Mn) (now i j : ℕ) (p : Probe) → i ≢ j → slot (record_nat m now i p) j ≡ slot m j
unfolding record_nat
slot-record_nat_ne m now i j p ne = ground (
  arith,
  get_or-set_ne m.in_nat {i = i} {j = j} 1 0 ne,
  get_or-set_ne m.in_nat {i = i} {j = j} 0 0 ne,
  get_or-set_ne m.natv4 {i = i} {j = j} p.nat_ip 0 ne,
  get_or-set_ne m.nat_port {i = i} {j = j} p.nat_port 0 ne,
)

-- A record of a NAT that the slot already has leaves the slot alone, but marks it as behind a NAT.
slot-record_nat_same :
    (m : Mn) (now i : ℕ) (p : Probe)
    → IsValid m
    → i < 30
    → get_or m.natv4 i 0 ≡ p.nat_ip
    → get_or m.nat_port i 0 ≡ p.nat_port
    → (p.coa ≢ p.nat_ip) ⊎ (p.port ≢ p.nat_port)
    → slot (record_nat m now i p) i ≡ (1, get_or m.natv4 i 0, get_or m.nat_port i 0)
unfolding record_nat
slot-record_nat_same m now i p v h a b c = ground (
  arith,
  get_or-set_self m.in_nat i 1 0,
  get_or-set_self m.natv4 i p.nat_ip 0,
  get_or-set_self m.nat_port i p.nat_port 0,
)

-- The encapsulation of an entry, by its parts.
record Shielded (cfg : Config) (m m' : Mn) : Type 0 where
  on : is_encapsulated m' ≡ true
  same : stop_encap_of cfg m' (pos_part m'.active) ≡ stop_encap_of cfg m (pos_part m.active)

Shielded-of_slot :
    (cfg : Config) (m m' : Mn)
    → m'.hoav6 ≡ m.hoav6
    → m'.hoav4 ≡ m.hoav4
    → is_pos m'.active ≡ true
    → get_or m'.in_nat (pos_part m'.active) 0 ≢ 0
    → get_or m'.natv4 (pos_part m'.active) 0 ≡ get_or m.natv4 (pos_part m.active) 0
    → get_or m'.nat_port (pos_part m'.active) 0 ≡ get_or m.nat_port (pos_part m.active) 0
    → Shielded cfg m m'
unfolding is_encapsulated stop_encap_of encap_source
Shielded-of_slot cfg m m' e6 e4 p n a b = record { on = ground arith; same = ground arith }

-- The fields that no probe changes, apart from the slot in use.
record_nat-kept :
    (m : Mn) (now i : ℕ) (p : Probe)
    → ((record_nat m now i p).hoav6 ≡ m.hoav6)
      × ((record_nat m now i p).hoav4 ≡ m.hoav4)
      × ((record_nat m now i p).active ≡ m.active)
unfolding record_nat
record_nat-kept m now i p = ground arith

-- A probe for the slot in use, or for another one, once the interface is mapped.
module _ (cfg : Config) (now i : ℕ) (p : Probe) (m : Mn) (v : IsValid m) (lt : i < 30) where
  Shielded-record_ne :
      is_encapsulated m ≡ true → i ≢ pos_part m.active → Shielded cfg m (record_nat m now i p)
  unfolding is_encapsulated
  Shielded-record_ne e ne =
      let k = record_nat-kept m now i p in
      let s = slot-record_nat_ne m now i (pos_part m.active) p ne in
      Shielded-of_slot cfg m (record_nat m now i p) k.0 k.1 (ground (arith, k.2))
        (ground (arith, k.2, s)) (ground (arith, k.2, s)) (ground (arith, k.2, s))

  Shielded-record_same :
      is_encapsulated m ≡ true
      → i ≡ pos_part m.active
      → is_moved m i p ≡ false
      → (p.coa ≢ p.nat_ip) ⊎ (p.port ≢ p.nat_port)
      → Shielded cfg m (record_nat m now i p)
  unfolding is_encapsulated is_moved
  Shielded-record_same e at still nat =
      let k = record_nat-kept m now i p in
      let same : (get_or m.natv4 i 0 ≡ p.nat_ip) × (get_or m.nat_port i 0 ≡ p.nat_port) =
        (ground arith, ground arith) in
      let s = slot-record_nat_same m now i p v lt same.0 same.1 nat in
      Shielded-of_slot cfg m (record_nat m now i p) k.0 k.1 (ground (arith, k.2))
        (ground (arith, k.2, s)) (ground (arith, k.2, s)) (ground (arith, k.2, s))

  Shielded-shelve :
      is_encapsulated m ≡ true
      → i ≡ pos_part m.active
      → Shielded cfg m (record_nat (shelve m i) now i p)
  unfolding is_encapsulated shelve
  Shielded-shelve e at =
      let k = record_nat-kept (shelve m i) now i p in
      let r = slot-record_nat_ne (shelve m i) now i 30 p (λ z. omega arith) in
      let s = slot-shelve m i v in
      Shielded-of_slot cfg m (record_nat (shelve m i) now i p) k.0 k.1 (ground (arith, k.2))
        (ground (arith, k.2, r, s)) (ground (arith, k.2, r, s)) (ground (arith, k.2, r, s))

is_encapsulated-pos : (m : Mn) → is_encapsulated m ≡ true → is_pos m.active ≡ true
unfolding is_encapsulated
is_encapsulated-pos m e = ground arith

-- Mapping an interface touches no slot.
map_interface-kept :
    (cfg : Config) (m : Mn) (j : ℕ)
    → let k = (map_interface m j).0 in
      (is_encapsulated k ≡ is_encapsulated m)
      × (stop_encap_of cfg k (pos_part k.active) ≡ stop_encap_of cfg m (pos_part m.active))
unfolding map_interface is_encapsulated stop_encap_of encap_source
map_interface-kept cfg m j = ground arith

-- A probe, once its interface has the slot `i`.
module _ (cfg : Config) (now i : ℕ) (p : Probe) (m : Mn) (v : IsValid m) where
  Shielded-seen :
      is_encapsulated m ≡ true
      → (p.coa ≢ p.nat_ip) ⊎ (p.port ≢ p.nat_port)
      → Shielded cfg m (
          if leb 30 i
          then m
          else record_nat
              (if (m.active ==ℤ pos i) && is_moved m i p then shelve m i else m)
              now
              i
              p)
  Shielded-seen e nat = elim (Bool-cases (leb 30 i)) [
    | inl over ↦ rw over (record { on = e; same = refl })
    | inr room ↦ elim (Bool-cases (m.active ==ℤ pos i)) [
      | inl here ↦ elim (Bool-cases (is_moved m i p)) [
        | inl moved ↦ rw (room, here, moved) (Shielded-shelve cfg now i p m v (lt room) e (at here))
        | inr still ↦
            rw (room, here, still)
              (Shielded-record_same cfg now i p m v (lt room) e (at here) still nat)
      ]
      | inr other ↦ rw (room, other) (Shielded-record_ne cfg now i p m v (lt room) e (apart other))
    ]
  ]
    where
      lt : leb 30 i ≡ false → i < 30
      lt h = ground arith

      at : (m.active ==ℤ pos i) ≡ true → i ≡ pos_part m.active
      at h = ground (arith, (==ℤ_iff m.active (pos i)).0 h)

      apart : (m.active ==ℤ pos i) ≡ false → i ≢ pos_part m.active
      apart h z = ground (arith, is_encapsulated-pos m e)

-- A probe that shows a NAT leaves the encapsulation in use as it is.
pub probe_mn-stop_encap_of :
    (cfg : Config) (now : ℕ) (p : Probe) (m : Mn)
    → IsValid m
    → is_encapsulated m ≡ true
    → (p.coa ≢ p.nat_ip) ⊎ (p.port ≢ p.nat_port)
    → let m' = probe_mn now p m in
      (is_encapsulated m' ≡ true)
      × (stop_encap_of cfg m' (pos_part m'.active) ≡ stop_encap_of cfg m (pos_part m.active))
unfolding probe_mn
probe_mn-stop_encap_of cfg now p m v e nat =
    let (k, i) = map_interface m p.ifindex in
    let kept = map_interface-kept cfg m p.ifindex in
    let seen = Shielded-seen cfg now i p k (map_interface-IsValid m p.ifindex v) (kept.0 ∙ e) nat in
    (seen.on, seen.same ∙ kept.1)
