-- ===== src/Ha/Probe/Errors.antt =====
-- Where the NAT probe branch of ha.c goes wrong.
use Prim.Native.Nat.{bit_xor}
use dsmip.Common.{
  ℕ, ◌<◌, ◌≡◌, ◌≢◌, ◌↔◌, ◌⊎◌, refl, arith, pos, pos_part, true, false, none, List, [], ◌∷◌,
  get_elem?, get_or, get_or-set_self, ==_iff,
}
use dsmip.Net.{In6Addr, v6_eq}
use dsmip.Ha.State.{Mn, Ha}
use dsmip.Ha.Probe.{Probe, find_mn, map_interface, probe_mn, handle_probe}
use dsmip.Ha.Binding.Steps.{is_encapsulated}
use dsmip.Ha.Valid.{IsValid}

-- No entry of the table has this home address.
abbrev pub IsUnknown : In6Addr → List Mn → Type 0
IsUnknown hoa [] = Unit {0}
IsUnknown hoa (m ∷ ms) = (v6_eq m.hoav6 hoa ≡ false) × IsUnknown hoa ms

find_mn-IsUnknown :
    (hoa : In6Addr) (ms : List Mn) → (get_elem? ms (find_mn hoa ms) ≡ none) ↔ IsUnknown hoa ms
unfolding find_mn
find_mn-IsUnknown hoa [] = (λ _. tt, λ _. refl)
find_mn-IsUnknown hoa (m ∷ ms) =
    let ih = find_mn-IsUnknown hoa ms in (λ h. ground (arith, ih.0), λ h. ground (arith, ih.1))

-- A probe makes the agent read past the end of `mns` exactly if its checksum is right and no entry
-- has its home address.
pub handle_probe-none :
    (now : ℕ) (p : Probe) (ha : Ha)
    → (handle_probe now p ha ≡ none)
      ↔ ((p.checksum ≡ bit_xor (bit_xor p.ifindex p.seqno) p.port) × IsUnknown p.hoa ha.mns)
unfolding handle_probe
handle_probe-none now p ha = (
  λ h. ground (
    arith,
    ==_iff p.checksum (bit_xor (bit_xor p.ifindex p.seqno) p.port),
    find_mn-IsUnknown p.hoa ha.mns,
    h,
  ),
  λ h. ground (
    arith,
    ==_iff p.checksum (bit_xor (bit_xor p.ifindex p.seqno) p.port),
    find_mn-IsUnknown p.hoa ha.mns,
  ),
)

-- A NAT that appears in front of the care-of address in use goes unnoticed: the slot in use stays the
-- same, so that the next binding update finds nothing to do, but it is now marked as behind a NAT, for
-- which no encapsulation was started.
probe_mn-unnoticed :
    (now : ℕ) (p : Probe) (m : Mn)
    → IsValid m
    → pos (map_interface m p.ifindex).1 ≡ m.active
    → (map_interface m p.ifindex).1 < 30
    → is_encapsulated m ≡ false
    → get_or m.coav4 (pos_part m.active) 0 ≡ p.coa
    → (p.coa ≢ p.nat_ip) ⊎ (p.port ≢ p.nat_port)
    → let m' = probe_mn now p m in (m'.active ≡ m.active) × (is_encapsulated m' ≡ true)
unfolding probe_mn is_encapsulated map_interface
probe_mn-unnoticed now p m v at lt e coa nat =
    ground (arith, get_or-set_self m.in_nat (pos_part m.active) 1 0)
