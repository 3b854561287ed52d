-- ===== src/Mobile/Handoff.antt =====
-- `do_handoff` of mn/mn.c: the tests in front. Its return value, which no caller reads, is left out.
pub mod Steps
pub mod Branches
pub mod Cases
use dsmip.Common.{
  ℕ, zero, suc, Bool, true, false, not, ◌&&◌, ◌||◌, List, [], ◌∷◌, get_elem?, set, Option, none,
  some, ◌==◌, if◌then◌else◌,
}
use dsmip.Net.{In6Addr, v6_eq}
use dsmip.Mobile.State.{nifaces, CoaType, at_home, nat_v4, plain_v4, on_v6, Iface, Env, Node}
use dsmip.Mobile.Handoff.Steps.{Coa, to_v6, to_v4, is_on_v4, is_on_v6, is_at_home}
use dsmip.Mobile.Handoff.Branches.{go_v6, go_v4}

-- `for(;i<NIF&&ifaces[i].ifindex!=ifindex;++i);` over an array of NIF entries.
unfoldable pub find_iface : ℕ → List Iface → ℕ
find_iface ifindex [] = 0
find_iface ifindex (f ∷ fs) = if f.ifindex == ifindex then 0 else suc (find_iface ifindex fs)

abbrev pub edit : (Iface → Iface) → ℕ → List Iface → List Iface
edit e i [] = []
edit e zero (f ∷ fs) = e f ∷ fs
edit e (suc i) (f ∷ fs) = f ∷ edit e i fs

-- The care-of address is noted for the interface, but not that of type 2.
unfoldable pub note_coa : Coa → ℕ → Node → Node
note_coa (to_v6 a) i n = record n { ifaces = edit (λ f. record f { coav6 = a }) i n.ifaces }
note_coa (to_v4 true a) i n = record n { ifaces = edit (λ f. record f { coav4 = a }) i n.ifaces }
note_coa (to_v4 false a) i n = n

-- `check if coa has changed`
unfoldable pub is_same_coa : Coa → Node → Bool
is_same_coa (to_v6 a) n =
    (is_on_v6 n.current_coa_type || is_at_home n.current_coa_type) && v6_eq n.current_coav6 a
is_same_coa (to_v4 b a) n = is_on_v4 n.current_coa_type && n.current_coav4 == a

unfoldable pub move : Env → Coa → ℕ → Node → Node
move env (to_v6 a) ifindex n = go_v6 env a ifindex n
move env (to_v4 b a) ifindex n = go_v4 env b a ifindex n

unfoldable pub do_handoff : Env → Coa → ℕ → Node → Node
unfolding note_coa
do_handoff env coa ifindex n =
    let i = find_iface ifindex n.ifaces in
    let noted = note_coa coa i n in
    if i == nifaces
    then n
    else if not (ifindex == noted.preferred_ifindex)
    then noted
    else if is_same_coa coa noted
    then record noted { consecutive_bu = 0 }
    else move env coa ifindex (record noted { current_ifindex = ifindex })
