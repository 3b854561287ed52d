-- ===== src/Mobile/Place.antt =====
-- What `do_handoff` promises: where the mobile node is attached, without tunnels, routes and messages.
use dsmip.Common.{
  ℕ, ◌≡◌, refl, sym, ap, ◌∙◌, arith, ◌||◌, Bool, true, false, not, ◌&&◌, Bool-cases, inl, inr, ◌==◌,
  if◌then◌else◌,
}
use dsmip.Net.{In6Addr, v6_eq, ipv6_map_addr}
use dsmip.Mobile.State.{
  CoaType, at_home, nat_v4, plain_v4, on_v6, default_table, rule_add, nifaces, Env, Node, note,
}
use dsmip.Mobile.Trace.{tell_lem, tell_probed_lem}
use dsmip.Mobile.Handoff.Steps.{Coa, to_v6, to_v4, is_on_v6, is_on_v4, is_at_home, high_prio}
use dsmip.Mobile.Handoff.Branches.{
  arrive_home, arrive_v6, arrive_v4, go_home, switch_v6, switch_v4, forewarn, go_v6, go_v4,
}
use dsmip.Mobile.Handoff.{find_iface, note_coa, is_same_coa, move, do_handoff}

-- At home with an address (zero before the first), on an IPv6 or an IPv4 care-of address, the latter
-- behind a NAT or not.
pub data Place : Type 0 where
  home : In6Addr → Place
  over_v6 : In6Addr → Place
  over_v4 : Bool → ℕ → Place

pub record Attachment : Type 0 where
  pub ifindex : ℕ
  pub place : Place

abbrev pub to_place : CoaType → In6Addr → ℕ → Place
to_place at_home a b = home a
to_place on_v6 a b = over_v6 a
to_place nat_v4 a b = over_v4 true b
to_place plain_v4 a b = over_v4 false b

abbrev pub attachment : Node → Attachment
attachment n = record {
  ifindex = n.current_ifindex;
  place = to_place n.current_coa_type n.current_coav6 n.current_coav4;
}

-- Is the place already at the address?
abbrev pub is_there : Coa → Place → Bool
is_there (to_v6 a) (home b) = v6_eq b a
is_there (to_v6 a) (over_v6 b) = v6_eq b a
is_there (to_v6 a) (over_v4 c b) = false
is_there (to_v4 c a) (home b) = false
is_there (to_v4 c a) (over_v6 b) = false
is_there (to_v4 c a) (over_v4 d b) = b == a

-- The home address brings the node home as IPv6 address, and leaves it where it is as IPv4 address.
abbrev pub goal : In6Addr → ℕ → Coa → Place → Place
goal hoav6 hoav4 (to_v6 a) p = if v6_eq a hoav6 then home a else over_v6 a
goal hoav6 hoav4 (to_v4 b a) p = if a == hoav4 then p else over_v4 b a

-- A handoff takes place on a known interface, which is the preferred one, to another address.
abbrev pub relocate : Env → Bool → ℕ → Coa → ℕ → Attachment → Attachment
relocate env is_known preferred coa ifindex s =
    if is_known && (ifindex == preferred && not (is_there coa s.place))
    then record { ifindex = ifindex; place = goal env.hoav6 env.hoav4 coa s.place }
    else s

abbrev pub knows : ℕ → Node → Bool
knows ifindex n = not (find_iface ifindex n.ifaces == nifaces)

-- The parts of the node that the attachment shows, after each branch.
module _ (env : Env) where
  go_home-attachment :
      (coa : In6Addr) (n : Node)
      → attachment (go_home env coa n) ≡ record { ifindex = n.current_ifindex; place = home coa }
  unfolding go_home arrive_home
  go_home-attachment coa n = rw (go_home, tell_lem env coa (arrive_home env coa n)) (ground arith)

  switch_v6-attachment :
      (coa : In6Addr) (i : ℕ) (n : Node)
      → attachment (switch_v6 env coa i n)
        ≡ record { ifindex = n.current_ifindex; place = over_v6 coa }
  unfolding switch_v6 arrive_v6
  switch_v6-attachment coa i n =
      rw (switch_v6, tell_lem env coa (arrive_v6 env coa i n)) (ground arith)

  switch_v4-attachment :
      (b : Bool) (a i : ℕ) (n : Node)
      → attachment (switch_v4 env b a i n)
        ≡ record { ifindex = n.current_ifindex; place = over_v4 b a }
  unfolding switch_v4 arrive_v4
  switch_v4-attachment true a i n =
      rw (switch_v4, tell_probed_lem env (ipv6_map_addr a) i a (arrive_v4 env true a i n))
        (ground arith)
  switch_v4-attachment false a i n =
      rw (switch_v4, tell_probed_lem env (ipv6_map_addr a) i a (arrive_v4 env false a i n))
        (ground arith)

  forewarn-ifindex :
      (coa : In6Addr) (n : Node) → (forewarn env coa n).current_ifindex ≡ n.current_ifindex
  unfolding forewarn
  forewarn-ifindex coa n = ground arith

  move-attachment :
      (coa : Coa) (i : ℕ) (n : Node)
      → attachment (move env coa i n) ≡ record {
        ifindex = n.current_ifindex;
        place = goal env.hoav6 env.hoav4 coa (attachment n).place;
      }
  unfolding move go_v6 go_v4
  move-attachment (to_v6 a) i n =
      let told = forewarn env a n in
      let same = forewarn-ifindex a n in
      elim (Bool-cases (v6_eq a env.hoav6)) [
        | inl e ↦ rw (go_v6, e) (go_home-attachment a told ∙ rw (same) refl)
        | inr e ↦
            rw (go_v6, e)
              (switch_v6-attachment a i (note (rule_add default_table high_prio a) told)
                ∙ rw (same) refl)
      ]
  move-attachment (to_v4 b a) i n = elim (Bool-cases (a == env.hoav4)) [
    | inl e ↦ rw (go_v4, e) refl
    | inr e ↦ rw (go_v4, e) (switch_v4-attachment b a i n)
  ]

note_coa-same :
    (coa : Coa) (i : ℕ) (n : Node)
    → (attachment (note_coa coa i n) ≡ attachment n)
      × ((note_coa coa i n).preferred_ifindex ≡ n.preferred_ifindex)
      × (is_same_coa coa (note_coa coa i n) ≡ is_same_coa coa n)
unfolding note_coa is_same_coa
note_coa-same (to_v6 a) i n = (refl, refl, refl)
note_coa-same (to_v4 true a) i n = (refl, refl, refl)
note_coa-same (to_v4 false a) i n = (refl, refl, refl)

is_same_coa_lem : (coa : Coa) (n : Node) → is_same_coa coa n ≡ is_there coa (attachment n).place
unfolding is_same_coa
is_same_coa_lem (to_v6 a) n = by_type n.current_coa_type
  where
    by_type :
        (t : CoaType)
        → ((is_on_v6 t || is_at_home t) && v6_eq n.current_coav6 a)
          ≡ is_there (to_v6 a) (to_place t n.current_coav6 n.current_coav4)
    by_type at_home = refl
    by_type on_v6 = refl
    by_type nat_v4 = refl
    by_type plain_v4 = refl
is_same_coa_lem (to_v4 b a) n = by_type n.current_coa_type
  where
    by_type :
        (t : CoaType)
        → (is_on_v4 t && n.current_coav4 == a)
          ≡ is_there (to_v4 b a) (to_place t n.current_coav6 n.current_coav4)
    by_type at_home = refl
    by_type on_v6 = refl
    by_type nat_v4 = refl
    by_type plain_v4 = refl

-- do_handoff refines a handoff of the attachment alone, the interface with the place, which is
-- home, an IPv6 or an IPv4 address: a known and preferred interface with another address than that
-- in use becomes the interface, and the place becomes home for the IPv6 home address, stays for the
-- IPv4 home address, and else becomes the address; otherwise the attachment stays.
pub do_handoff-attachment :
    (env : Env) (coa : Coa) (i : ℕ) (n : Node)
    → attachment (do_handoff env coa i n)
      ≡ relocate env (knows i n) n.preferred_ifindex coa i (attachment n)
unfolding do_handoff
do_handoff-attachment env coa i n =
    let k = find_iface i n.ifaces in
    let m = note_coa coa k n in
    let same = note_coa-same coa k n in
    let there = is_same_coa_lem coa n in
    elim (Bool-cases (k == nifaces)) [
      | inl e ↦ rw (do_handoff, relocate, e) refl
      | inr e ↦ elim (Bool-cases (i == n.preferred_ifindex)) [
        | inr f ↦
            let f' : (i == m.preferred_ifindex) ≡ false = rw (same.1) f in
            rw (do_handoff, relocate, e, f', f) (same.0)
        | inl f ↦
            let f' : (i == m.preferred_ifindex) ≡ true = rw (same.1) f in
            elim (Bool-cases (is_same_coa coa n)) [
              | inl g ↦ rw (do_handoff, relocate, e, f', f, same.2 ∙ g, sym there ∙ g) (same.0)
              | inr g ↦
                  rw (do_handoff, relocate, e, f', f, same.2 ∙ g, sym there ∙ g)
                    (move-attachment env coa i (record m { current_ifindex = i })
                      ∙ ap
                          (λ s. record {
                            ifindex = i;
                            place = goal env.hoav6 env.hoav4 coa s.place;
                          })
                          same.0)
            ]
      ]
    ]
