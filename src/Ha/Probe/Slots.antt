-- ===== src/Ha/Probe/Slots.antt =====
-- The slots that `nif_map` of ha.c gives to a node's interfaces.
use dsmip.Common.{ℕ, ◌+◌, ◌≤◌, ◌≡◌, ◌≢◌, arith, set, get_or-set_self}
use dsmip.Ha.State.{Mn}
use dsmip.Ha.Probe.{map_interface}
use dsmip.Ha.Valid.{IsValid}
use dsmip.Ha.Valid.Arrays.{nif_map-le, nif_map-get, nif_map-set}

-- Asking for an interface again gives the same slot, and changes nothing.
pub map_interface_again :
    (m : Mn) (i : ℕ) → IsValid m → map_interface (map_interface m i).0 i ≡ map_interface m i
unfolding map_interface
map_interface_again m i v =
    ground (arith, nif_map-le i m.nnif m.nif_map, nif_map-set i m.nnif m.nif_map)

-- Two interfaces have two slots, as long as there is room for both.
map_interface-ne :
    (m : Mn) (i j : ℕ)
    → IsValid m
    → i ≢ j
    → (map_interface (map_interface m i).0 j).1 ≤ 30
    → (map_interface (map_interface m i).0 j).1 ≢ (map_interface m i).1
unfolding map_interface
map_interface-ne m i j v ne room = ground (
  arith,
  nif_map-le i m.nnif m.nif_map,
  nif_map-get i m.nnif m.nif_map,
  nif_map-le j m.nnif m.nif_map,
  nif_map-get j m.nnif m.nif_map,
  nif_map-le j (m.nnif + 1) (set m.nif_map m.nnif i),
  nif_map-get j (m.nnif + 1) (set m.nif_map m.nnif i),
  get_or-set_self m.nif_map m.nnif i 0,
)
