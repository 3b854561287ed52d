-- ===== src/Mobile/Handoff/Cases.antt =====
-- The cases of `do_handoff`, for proofs about all of them.
use dsmip.Common.{ℕ, ◌≡◌, true, false, Bool-cases, inl, inr, ◌==◌}
use dsmip.Mobile.State.{nifaces, Env, Node}
use dsmip.Mobile.Handoff.Steps.{Coa}
use dsmip.Mobile.Handoff.{find_iface, note_coa, is_same_coa, move, do_handoff}

pub do_handoff_cases :
    (P : Node → Type 0) (env : Env) (coa : Coa) (i : ℕ) (n : Node)
    → P n
    → P (note_coa coa (find_iface i n.ifaces) n)
    → P (record (note_coa coa (find_iface i n.ifaces) n) { consecutive_bu = 0 })
    → ((i == (note_coa coa (find_iface i n.ifaces) n).preferred_ifindex) ≡ true
        → is_same_coa coa (note_coa coa (find_iface i n.ifaces) n) ≡ false
        → P (
            move env coa i
              (record (note_coa coa (find_iface i n.ifaces) n) { current_ifindex = i })))
    → P (do_handoff env coa i n)
unfolding do_handoff
do_handoff_cases P env coa i n lost noted same moved =
    let k = find_iface i n.ifaces in
    let m = note_coa coa k n in
    elim (Bool-cases (k == nifaces)) [
      | inl e ↦ rw (do_handoff, e) lost
      | inr e ↦ elim (Bool-cases (i == m.preferred_ifindex)) [
        | inr f ↦ rw (do_handoff, e, f) noted
        | inl f ↦ elim (Bool-cases (is_same_coa coa m)) [
          | inl g ↦ rw (do_handoff, e, f, g) same
          | inr g ↦ rw (do_handoff, e, f, g) (moved f g)
        ]
      ]
    ]
