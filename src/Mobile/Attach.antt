-- ===== src/Mobile/Attach.antt =====
-- From a netlink message to the place where the mobile node is attached.
use dsmip.Common.{
  ℕ, zero, suc, ◌^◌, ◌<◌, ◌≡◌, refl, ap, subst, some_inj, ◌∙◌, arith, true, false, not, List, [],
  ◌∷◌, get_elem?, some, Bool-cases, inl, inr, ◌==◌, ==_refl, if◌then◌else◌,
}
use dsmip.Net.{In6Addr}
use dsmip.Mobile.State.{nifaces, Iface, Env, Node}
use dsmip.Mobile.Handoff.Steps.{to_v6}
use dsmip.Mobile.Handoff.{find_iface, edit, do_handoff}
use dsmip.Mobile.Events.Slots.{edit_iface, find_slot, is_up, uint16, prefer}
use dsmip.Mobile.Events.Addrs.{AddrMsg, take6, new_addr6}
use dsmip.Mobile.Place.{Attachment, attachment, is_there, goal, knows, do_handoff-attachment}

find_iface-edit :
    (e : Iface → Iface)
    → ((f : Iface) → (e f).ifindex ≡ f.ifindex)
    → (i k : ℕ) (fs : List Iface) → find_iface i (edit e k fs) ≡ find_iface i fs
unfolding find_iface
find_iface-edit e keeps i k [] = refl
find_iface-edit e keeps i zero (f ∷ fs) = rw (keeps f) refl
find_iface-edit e keeps i (suc k) (f ∷ fs) = rw (find_iface-edit e keeps i k fs) refl

find_iface-get :
    (i : ℕ) (fs : List Iface) (f : Iface)
    → get_elem? fs (find_iface i fs) ≡ some f
    → (f.ifindex == i) ≡ true
unfolding find_iface
find_iface-get i [] f e = absurd cc
find_iface-get i (g ∷ fs) f e = elim (Bool-cases (g.ifindex == i)) [
  | inl h ↦ subst (λ (x : Iface). (x.ifindex == i) ≡ true) (some_inj.0 (rw (find_iface, h) at e)) h
  | inr h ↦ find_iface-get i fs f (rw (find_iface, h) at e)
]

-- A new IPv6 address of global scope on a known interface that is up, with automatic handoffs.
module _ (env : Env) (a : In6Addr) (msg : AddrMsg) (n : Node) (f : Iface) where
  kept : Node → Node
  kept m =
      record (edit_iface (λ g. record g { invalidv6 = 0; coav6 = a })
        (find_iface msg.ifa_index n.ifaces) m) { preferred_ifindex = msg.ifa_index }

  taken :
      (m : Node)
      → (m.auto_handoff_enabled == 0) ≡ false
      → msg.ifa_index < 2 ^ 16
      → (msg.ifa_index == 0) ≡ false
      → take6 env a msg.ifa_index (find_iface msg.ifa_index n.ifaces) m
        ≡ do_handoff env (to_v6 a) msg.ifa_index (kept m)
  unfolding take6 prefer kept
  taken m auto small used =
      let e : uint16 msg.ifa_index ≡ msg.ifa_index = omega (arith, small) in
      rw (take6, auto, e, used, ==_refl msg.ifa_index) refl

  kept-knows :
      (m : Node) → m.ifaces ≡ n.ifaces → knows msg.ifa_index (kept m) ≡ knows msg.ifa_index n
  unfolding kept
  kept-knows m same =
      rw
        (
          same,
          find_iface-edit (λ g. record g { invalidv6 = 0; coav6 = a }) (λ g. refl) msg.ifa_index
              (find_iface msg.ifa_index n.ifaces) n.ifaces,
        )
        refl

  abbrev pub attached : Attachment
  attached = if is_there (to_v6 a) (attachment n).place then attachment n else record {
    ifindex = msg.ifa_index;
    place = goal env.hoav6 env.hoav4 (to_v6 a) (attachment n).place;
  }

  -- The handoff that the address brings about.
  taken-attachment :
      (m : Node)
      → m.ifaces ≡ n.ifaces
      → attachment m ≡ attachment n
      → knows msg.ifa_index n ≡ true
      → attachment (do_handoff env (to_v6 a) msg.ifa_index (kept m)) ≡ attached
  unfolding kept
  taken-attachment m same there known =
      do_handoff-attachment env (to_v6 a) msg.ifa_index (kept m)
      ∙ rw (kept-knows m same, known, ==_refl msg.ifa_index, there) (ground arith)

  -- With automatic handoffs, a new IPv6 address of global scope on a known interface that is up,
  -- with an index other than 0 that 16 bits hold, leads to the attachment to that interface and
  -- address, home if it is the home address, unless the node is on that address already.
  pub new_addr6-attaches :
      (msg.ifa_scope == 0) ≡ true
      → (find_iface msg.ifa_index n.ifaces == nifaces) ≡ false
      → get_elem? n.ifaces (find_iface msg.ifa_index n.ifaces) ≡ some f
      → is_up f.flags ≡ true
      → (n.auto_handoff_enabled == 0) ≡ false
      → msg.ifa_index < 2 ^ 16
      → (msg.ifa_index == 0) ≡ false
      → (m : Node) × (new_addr6 env a msg n ≡ some m) × (attachment m ≡ attached)
  unfolding new_addr6 find_slot
  new_addr6-attaches universe known get is_running auto small used =
      let m : Node = if n.consecutive_bu == 0 then n else record n { last_bu_t = 0 } in
      let same : m.ifaces ≡ n.ifaces = ground arith in
      let there : attachment m ≡ attachment n = ground arith in
      let auto' : (m.auto_handoff_enabled == 0) ≡ false = ground (arith, auto) in
      let first : (f.ifindex == 0) ≡ false =
        ground (arith, find_iface-get msg.ifa_index n.ifaces f get, used) in
      (
        do_handoff env (to_v6 a) msg.ifa_index (kept m),
        rw (new_addr6, universe, same, find_slot, known, get, first, is_running)
            (ap (λ (x : Node). some x) (taken m auto' small used)),
        taken-attachment m same there (ap (λ b. not b) known),
      )
