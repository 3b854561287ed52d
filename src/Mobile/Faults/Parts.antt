-- ===== src/Mobile/Faults/Parts.antt =====
-- The searches and the small steps of the handlers: when they leave the array `ifaces`.
use dsmip.Common.{
  ℕ, zero, suc, ◌+◌, ◌≤◌, ◌≡◌, refl, ◌∙◌, arith, Bool, true, false, not, ◌&&◌, ◌||◌, List, [], ◌∷◌,
  length, get_elem?, Option, none, some, ◌==◌, leb,
}
use dsmip.Net.{In6Addr}
use dsmip.Mobile.State.{nifaces, Card, wlan, gprs, other_card, Iface, Env, Node}
use dsmip.Mobile.Handoff.{find_iface}
use dsmip.Mobile.Events.Slots.{find_slot}
use dsmip.Mobile.Events.Links.{LinkMsg, wlan_slot, gprs_slot, scan, wipe}
use dsmip.Mobile.Events.Addrs.{slot6, known4, first4, from_first, and_then}

abbrev pub is_none : Option Node → Bool
is_none none = true
is_none (some n) = false

abbrev pub is_absent : Option Iface → Bool
is_absent none = true
is_absent (some f) = false

pub find_iface-le : (i : ℕ) (fs : List Iface) → find_iface i fs ≤ length fs
unfolding find_iface
find_iface-le i [] = ground arith
find_iface-le i (f ∷ fs) = ground (arith, find_iface-le i fs)

pub get_elem?-absent : (fs : List Iface) (i : ℕ) → is_absent (get_elem? fs i) ≡ leb (length fs) i
get_elem?-absent [] i = ground arith
get_elem?-absent (f ∷ fs) zero = ground arith
get_elem?-absent (f ∷ fs) (suc i) = ground (arith, get_elem?-absent fs i)

-- The interface has an entry, or one is free.
abbrev pub has_slot : ℕ → List Iface → Bool
has_slot ifindex fs = not (find_iface ifindex fs == nifaces) || not (find_iface 0 fs == nifaces)

pub find_slot-absent :
    (ifindex : ℕ) (fs : List Iface)
    → length fs ≡ nifaces
    → is_absent (get_elem? fs (find_slot ifindex fs)) ≡ not (has_slot ifindex fs)
unfolding find_slot
find_slot-absent ifindex fs len =
    get_elem?-absent fs (find_slot ifindex fs)
    ∙ ground (arith, len, find_iface-le ifindex fs, find_iface-le 0 fs)

pub wlan_slot-none :
    (env : Env) (msg : LinkMsg) (i : ℕ) (n : Node) (o : Option Iface)
    → is_none (wlan_slot env msg i n o) ≡ is_absent o
wlan_slot-none env msg i n none = refl
wlan_slot-none env msg i n (some f) = refl

pub gprs_slot-none :
    (msg : LinkMsg) (i : ℕ) (n : Node) (o : Option Iface)
    → is_none (gprs_slot msg i n o) ≡ is_absent o
gprs_slot-none msg i n none = refl
gprs_slot-none msg i n (some f) = refl

pub slot6-none :
    (env : Env) (a : In6Addr) (ifindex i : ℕ) (n : Node) (o : Option Iface)
    → is_none (slot6 env a ifindex i n o) ≡ is_absent o
slot6-none env a ifindex i n none = refl
slot6-none env a ifindex i n (some f) = refl

-- The cards that the mobile node knows.
abbrev pub is_card : Card → Bool
is_card wlan = true
is_card gprs = true
is_card other_card = false

-- The interface has an entry with only unused ones before it.
abbrev pub comes_first : ℕ → List Iface → Bool
comes_first ifindex [] = false
comes_first ifindex (f ∷ fs) = f.ifindex == ifindex || (f.ifindex == 0 && comes_first ifindex fs)

abbrev pub has_id : Option ℕ → Bool
has_id none = false
has_id (some i) = true

pub scan-id :
    (ifindex imn : ℕ) (id : Option ℕ) (fs : List Iface)
    → has_id (scan ifindex imn id fs).id ≡ (has_id id || comes_first ifindex fs)
unfolding scan
scan-id ifindex imn id [] = ground arith
scan-id ifindex imn id (f ∷ fs) =
    ground (arith, scan-id ifindex (imn + 1) (some imn) fs, scan-id ifindex (imn + 1) id fs)

pub wipe-none : (o : Option ℕ) (n : Node) → is_none (wipe o n) ≡ not (has_id o)
wipe-none none n = refl
wipe-none (some i) n = refl

pub and_then-none : (o : Option Node) (g : Node → Node) → is_none (and_then o g) ≡ is_none o
and_then-none none g = refl
and_then-none (some n) g = refl

pub first4-none :
    (env : Env) (a ifindex i : ℕ) (n : Node) (o : Option Iface)
    → is_none (first4 env a ifindex i n o) ≡ false
first4-none env a ifindex i n none = refl
first4-none env a ifindex i n (some f) = refl

pub known4-none :
    (env : Env) (a ifindex i : ℕ) (n : Node) (o : Option Iface)
    → is_none (known4 env a ifindex i n o) ≡ is_absent o
known4-none env a ifindex i n none = refl
known4-none env a ifindex i n (some f) = refl

pub from_first-none :
    (env : Env) (ifindex : ℕ) (n : Node) (fs : List Iface)
    → length fs ≡ nifaces
    → is_none (from_first env ifindex n fs) ≡ false
from_first-none env ifindex n [] len = absurd (omega (arith, len))
from_first-none env ifindex n (f ∷ fs) len = refl
