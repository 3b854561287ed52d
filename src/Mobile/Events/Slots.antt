-- ===== src/Mobile/Events/Slots.antt =====
-- The array `ifaces` as the handlers of mn/mn.c use it, and the handoff to one of its interfaces.
use dsmip.Common.{ℕ, ◌%◌, ◌^◌, Bool, true, false, not, ◌&&◌, List, ◌==◌, if◌then◌else◌}
use dsmip.Mobile.State.{nifaces, Card, other_card, Flags, Iface, Env, Node}
use dsmip.Mobile.Handoff.Steps.{Coa, to_v6, to_v4}
use dsmip.Mobile.Handoff.{find_iface, edit, do_handoff}

-- An entry after `memset(&ifaces[i],0,sizeof(struct _iface))`.
abbrev pub zero_iface : Iface
zero_iface = record {
  ifindex = 0;
  ifname = other_card;
  flags = record { up = false; running = false };
  coav6 = record { w0 = 0; w1 = 0; w2 = 0; w3 = 0 };
  coav4 = 0;
  invalidv4 = 0;
  invalidv6 = 0;
  last_nat_probe_t = 0;
}

abbrev pub edit_iface : (Iface → Iface) → ℕ → Node → Node
edit_iface e i n = record n { ifaces = edit e i n.ifaces }

-- The interface's entry, or else the first that is free; NIF when there is neither.
unfoldable pub find_slot : ℕ → List Iface → ℕ
unfolding find_iface
find_slot ifindex fs = let i = find_iface ifindex fs in if i == nifaces then find_iface 0 fs else i

abbrev pub is_up : Flags → Bool
is_up f = f.up && f.running

abbrev pub same_bit : Bool → Bool → Bool
same_bit true b = b
same_bit false b = not b

abbrev pub same_flags : Flags → Flags → Bool
same_flags f g = same_bit f.up g.up && same_bit f.running g.running

-- The conversion of an `int` from the kernel.
abbrev pub uint16 : ℕ → ℕ
uint16 n = n % 2 ^ 16

-- An entry of ifindex, with both addresses invalid.
abbrev pub new_iface : ℕ → Card → Flags → Iface
new_iface ifindex card flags = record zero_iface {
  ifindex = uint16 ifindex;
  ifname = card;
  flags = flags;
  invalidv4 = 1;
  invalidv6 = 1;
}

-- `preferred_ifindex=...; do_handoff(...)`
unfoldable pub prefer : Env → Coa → ℕ → Node → Node
unfolding do_handoff
prefer env coa ifindex n = do_handoff env coa ifindex (record n { preferred_ifindex = ifindex })

-- To the interface's IPv6 address if it is valid, else to its IPv4 address, else the third argument.
unfoldable pub use_iface : Env → Iface → Node → Node → Node
unfolding prefer
use_iface env f otherwise n =
    if f.invalidv6 == 0
    then prefer env (to_v6 f.coav6) f.ifindex n
    else if f.invalidv4 == 0
    then prefer env (to_v4 true f.coav4) f.ifindex n
    else otherwise
