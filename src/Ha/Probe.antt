-- ===== src/Ha/Probe.antt =====
-- The NAT probe branch of `ha_working` in ha.c, with `nif_map`.
-- `getnatsrc`, which sniffs the outer source of the probe, gives `nat_ip` and `nat_port` here; a probe
-- for which it gives up (`nat_skip`) has no effect and is no event. The answer to the probe is built
-- but not sent by the source.
pub mod Slots
pub mod Encap
pub mod Errors
use Prim.Native.Nat.{bit_xor}
use dsmip.Common.{
  ℕ, zero, suc, ◌+◌, pos, ◌==ℤ◌, Bool, not, ◌&&◌, ◌||◌, Option, none, some, List, [], ◌∷◌, ◌==◌,
  ltb, leb, get_or, get_elem?, set, if◌then◌else◌,
}
use dsmip.Net.{In6Addr, v6_eq}
use dsmip.Ha.State.{Mn, Ha, nif}

-- `struct NATINFO`, in host order, with what `getnatsrc` found.
pub record Probe : Type 0 where
  pub hoa : In6Addr
  pub coa : ℕ
  pub ifindex : ℕ
  pub checksum : ℕ
  pub port : ℕ
  pub seqno : ℕ
  pub nat_ip : ℕ
  pub nat_port : ℕ

-- `nif_map`: the position of the interface among the first `nnif` entries, else `nnif`.
unfoldable pub nif_map : ℕ → ℕ → List ℕ → ℕ
nif_map ifindex zero xs = 0
nif_map ifindex (suc n) [] = suc n
nif_map ifindex (suc n) (x ∷ xs) = if x == ifindex then 0 else suc (nif_map ifindex n xs)

-- The search loops over `mns`: the index of the entry, or the length (`MAX_MN_NUM`).
unfoldable pub find_mn : In6Addr → List Mn → ℕ
find_mn hoa [] = 0
find_mn hoa (m ∷ ms) = if v6_eq m.hoav6 hoa then 0 else suc (find_mn hoa ms)

-- A new interface gets the next slot, while there is room.
unfoldable pub map_interface : Mn → ℕ → Mn × ℕ
map_interface m ifindex =
    let i = nif_map ifindex m.nnif m.nif_map in
    if ltb i nif && i == m.nnif
    then (record m { nif_map = set m.nif_map m.nnif ifindex; nnif = m.nnif + 1 }, i + 1)
    else (m, i + 1)

-- Has the care-of address in use, or the NAT in front of it, changed?
unfoldable pub is_moved : Mn → ℕ → Probe → Bool
is_moved m icoa p =
    not (get_or m.coav4 icoa 0 == p.coa)
    || not (get_or m.in_nat icoa 0 == 0)
      && (not (get_or m.natv4 icoa 0 == p.nat_ip) || not (get_or m.nat_port icoa 0 == p.nat_port))

-- The binding in use is kept in the spare slot `nif`, so that it can still be torn down.
unfoldable pub shelve : Mn → ℕ → Mn
shelve m icoa = record m {
  coav4 = set m.coav4 nif (get_or m.coav4 icoa 0);
  in_nat = set m.in_nat nif (get_or m.in_nat icoa 0);
  natv4 = set m.natv4 nif (get_or m.natv4 icoa 0);
  nat_port = set m.nat_port nif (get_or m.nat_port icoa 0);
  active = pos nif;
}

unfoldable pub record_nat : Mn → ℕ → ℕ → Probe → Mn
record_nat m now icoa p =
    let seen = record m {
      coav4 = set m.coav4 icoa p.coa;
      last_natv4_t = set m.last_natv4_t icoa now;
    } in
    if not (p.coa == p.nat_ip) || not (p.port == p.nat_port)
    then record seen {
      in_nat = set m.in_nat icoa 1;
      natv4 = set m.natv4 icoa p.nat_ip;
      nat_port = set m.nat_port icoa p.nat_port;
    }
    else record seen { in_nat = set m.in_nat icoa 0 }

-- What a probe does to the entry of its mobile node.
unfoldable pub probe_mn : ℕ → Probe → Mn → Mn
unfolding map_interface is_moved shelve record_nat
probe_mn now p m =
    let (m', icoa) = map_interface m p.ifindex in
    if leb nif icoa
    then m'
    else (let m'' = if (m'.active ==ℤ pos icoa) && is_moved m' icoa p then shelve m' icoa else m' in
        record_nat m'' now icoa p)

-- `none` is undefined behaviour: for an unknown home address the source reads `mns[MAX_MN_NUM]`
-- before it tests the index.
unfoldable pub handle_probe : ℕ → Probe → Ha → Option Ha
unfolding find_mn probe_mn
handle_probe now p ha =
    if not (p.checksum == bit_xor (bit_xor p.ifindex p.seqno) p.port)
    then some ha
    else elim (get_elem? ha.mns (find_mn p.hoa ha.mns)) [
      | none ↦ none
      | some m ↦ some (record ha { mns = set ha.mns (find_mn p.hoa ha.mns) (probe_mn now p m) })
    ]
