-- ===== src/Mobile/Probes.antt =====
-- The packet of `nat_probe_send` of mn/mn.c, and what the Home Agent makes of it.
use Prim.Native.Nat.{bit_xor}
use dsmip.Common.{
  ℕ, zero, suc, ◌%◌, ◌^◌, ◌<◌, pos, ◌==ℤ◌, ◌≡◌, refl, ◌∙◌, arith, false, ◌&&◌, List, [], ◌∷◌,
  length, get_elem?, set, length-set, get_or, some, leb, ==_refl, Bool-cases, inl, inr,
}
use dsmip.Common.Bits.{bit_xor_comm}
use dsmip.Net.{In6Addr}
use dsmip.Ha.State.{Mn, Ha, nif}
use dsmip.Ha.Probe.{
  Probe, find_mn, map_interface, is_moved, shelve, record_nat, probe_mn, handle_probe,
}
use dsmip.Ha.Valid.{IsValid}
use dsmip.Ha.Valid.Preserved.{map_interface-IsValid}
use dsmip.Ha.Binding.V4.{find_coa}

-- `struct NATINFO data`; the last two are what the agent will see of the packet's source.
unfoldable pub nat_probe : In6Addr → ℕ → ℕ → ℕ → ℕ → Probe
nat_probe hoav6 ifindex addrv4 nat_ip nat_port =
    let i = ifindex % 2 ^ 16 in
    record {
      hoa = hoav6;
      coa = addrv4;
      ifindex = i;
      checksum = bit_xor (bit_xor 12345 i) 666;
      port = 666;
      seqno = 12345;
      nat_ip = nat_ip;
      nat_port = nat_port;
    }

find_coa-set :
    (coa n i : ℕ) (xs : List ℕ) → i < n → i < length xs → find_coa coa n (set xs i coa) < n
unfolding find_coa
find_coa-set coa zero i xs h l = absurd (omega (arith, h))
find_coa-set coa (suc n) i [] h l = absurd (omega (arith, l))
find_coa-set coa (suc n) zero (x ∷ xs) h l = ground (arith, ==_refl coa)
find_coa-set coa (suc n) (suc i) (x ∷ xs) h l =
    ground (arith, find_coa-set coa n i xs (omega (arith, h)) (omega (arith, l)))

record_nat-coav4 :
    (m : Mn) (now icoa : ℕ) (p : Probe) → (record_nat m now icoa p).coav4 ≡ set m.coav4 icoa p.coa
unfolding record_nat
record_nat-coav4 m now icoa p = ground arith

record_nat-found :
    (m : Mn) (now icoa : ℕ) (p : Probe)
    → icoa < nif
    → length m.coav4 ≡ 31
    → find_coa p.coa nif (record_nat m now icoa p).coav4 < nif
record_nat-found m now icoa p h size =
    rw (record_nat-coav4 m now icoa p)
      (find_coa-set p.coa nif icoa m.coav4 h (omega (arith, h, size)))

shelve-size : (m : Mn) (icoa : ℕ) → length m.coav4 ≡ 31 → length (shelve m icoa).coav4 ≡ 31
unfolding shelve
shelve-size m icoa size = length-set m.coav4 nif (get_or m.coav4 icoa 0) ∙ size

probe_mn-found :
    (now : ℕ) (p : Probe) (m : Mn)
    → IsValid m
    → (map_interface m p.ifindex).1 < nif
    → find_coa p.coa nif (probe_mn now p m).coav4 < nif
unfolding probe_mn
probe_mn-found now p m v room =
    let m' = (map_interface m p.ifindex).0 in
    let icoa = (map_interface m p.ifindex).1 in
    let size : length m'.coav4 ≡ 31 = (map_interface-IsValid m p.ifindex v).coav4_size in
    let fits : leb nif icoa ≡ false = ground (arith, room) in
    elim (Bool-cases ((m'.active ==ℤ pos icoa) && is_moved m' icoa p)) [
      | inl e ↦
          rw (probe_mn, fits, e)
            (record_nat-found (shelve m' icoa) now icoa p room (shelve-size m' icoa size))
      | inr e ↦ rw (probe_mn, fits, e) (record_nat-found m' now icoa p room size)
    ]

-- The Home Agent accepts every probe that the mobile node sends for a node in its table, with a
-- valid entry and a slot for the interface, does to the entry what probe_mn does, and then finds
-- the probe's care-of address among the first NIF slots.
pub handle_probe-nat_probe :
    (hoav6 : In6Addr) (ifindex addrv4 nat_ip nat_port now : ℕ) (ha : Ha) (m : Mn)
    → get_elem? ha.mns (find_mn hoav6 ha.mns) ≡ some m
    → IsValid m
    → (map_interface m (ifindex % 2 ^ 16)).1 < nif
    → let p = nat_probe hoav6 ifindex addrv4 nat_ip nat_port in
      (handle_probe now p ha
        ≡ some (record ha { mns = set ha.mns (find_mn hoav6 ha.mns) (probe_mn now p m) }))
      × (find_coa addrv4 nif (probe_mn now p m).coav4 < nif)
unfolding nat_probe handle_probe
handle_probe-nat_probe hoav6 ifindex addrv4 nat_ip nat_port now ha m known v room =
    let p = nat_probe hoav6 ifindex addrv4 nat_ip nat_port in
    let i = ifindex % 2 ^ 16 in
    (
      rw (handle_probe, bit_xor_comm 12345 i, ==_refl (bit_xor (bit_xor i 12345) 666), known) refl,
      probe_mn-found now p m v room,
    )
