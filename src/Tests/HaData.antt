-- ===== src/Tests/HaData.antt =====
-- A small Home Agent with one roaming node, for the tests.
use dsmip.Common.{ℕ, ◌+◌, ◌<◌, ◌≡◌, arith, pos, none, [], ◌∷◌, length, replicate, refl}
use dsmip.Net.{In6Addr, ipv6_map_addr}
use dsmip.Ha.State.{
  Mn, Host, Ha, Config, Kernel, Log, Request, tunnel44_add, tunnel44_del, tunnel64_add,
  tunnel64_del, tunnel66_add, tunnel66_del,
}
use dsmip.Ha.Trace.Routing.{tunnel_of, IsDriver}
use dsmip.Ha.Binding.Handler.{Bu}
use dsmip.Ha.Probe.{Probe}
use dsmip.Ha.Valid.{IsValid}

-- Each request gets the number of requests so far.
abbrev pub counting : Kernel
counting log = pos (length log)

-- An index above all those given out has no tunnel.
counting_step :
    (q : Request) (log : Log) (n : ℕ)
    → length log + 1 < n
    → tunnel_of counting (pos n) log ≡ none
    → tunnel_of counting (pos n) (q ∷ log) ≡ none
counting_step (tunnel44_add l r k) log n h below = ground (arith, below)
counting_step (tunnel64_add l r k) log n h below = ground (arith, below)
counting_step (tunnel66_add l r k) log n h below = ground (arith, below)
counting_step (tunnel44_del j) log n h below = ground (arith, below)
counting_step (tunnel64_del j) log n h below = ground (arith, below)
counting_step (tunnel66_del j) log n h below = ground (arith, below)
counting_step _ log n h below = below

counting_above : (log : Log) (n : ℕ) → length log < n → tunnel_of counting (pos n) log ≡ none
counting_above [] n h = refl
counting_above (r ∷ log) n h =
    counting_step r log n (omega arith) (counting_above log n (omega arith))

pub counting-IsDriver : IsDriver counting
counting-IsDriver = record {
  same = λ q e e' log h p t.
      absurd (ground (arith, counting_above log (length log + 1) (omega arith)));
}

abbrev pub hav6 : In6Addr
hav6 = record { w0 = 0x2001_0cc0; w1 = 0x2026_0003; w2 = 0; w3 = 1 }

abbrev pub hoav6 : In6Addr
hoav6 = record { w0 = 0x3ffe_0501; w1 = 0xffff_0100; w2 = 0; w3 = 2 }

abbrev pub coav6 : In6Addr
coav6 = record { w0 = 0x2001_0da8; w1 = 7; w2 = 0; w3 = 3 }

abbrev pub cfg : Config
cfg = record { hav4 = 0x0a15_054a; hav4_2 = 0x9fe2_27d4; special_ip = 0x0a15_0536; hav6 = hav6 }

abbrev pub nowhere : In6Addr
nowhere = record { w0 = 0; w1 = 0; w2 = 0; w3 = 0 }

-- At home; interface 3 has slot 1 and the private address 0xc0a80005 behind the NAT 0x01020304.
abbrev pub probed : Mn
probed = record {
  hoav6 = hoav6;
  hoav4 = 0xac10_00c7;
  active = pos 0;
  in_nat = 0 ∷ 1 ∷ replicate 29 0;
  nif_map = 3 ∷ replicate 30 0;
  nnif = 1;
  coav6 = nowhere;
  coav4 = 0 ∷ 0xc0a8_0005 ∷ replicate 29 0;
  natv4 = 0 ∷ 0x0102_0304 ∷ replicate 29 0;
  last_natv4_t = replicate 31 0;
  nat_port = 0 ∷ 4000 ∷ replicate 29 0;
  last_bu_t = 0;
  tnl44_ifindex = pos 0;
  tnl66_ifindex = pos 0;
  tnl64_ifindex = pos 0;
  last_bu_seq = 20;
}

pub probed-IsValid : IsValid probed
probed-IsValid = ground arith

-- An unused entry of the table.
abbrev pub blank : Mn
blank = record probed {
  hoav6 = nowhere;
  hoav4 = 0;
  in_nat = replicate 31 0;
  nif_map = replicate 31 0;
  nnif = 0;
  coav4 = replicate 31 0;
  natv4 = replicate 31 0;
  nat_port = replicate 31 0;
  last_bu_seq = 0;
}

pub blank-IsValid : IsValid blank
blank-IsValid = ground arith

abbrev pub agent : Ha
agent = record { mns = probed ∷ replicate 9 blank; log = [] }

abbrev pub at_home : Host
at_home = record { mn = probed; log = [] }

-- Encapsulated in slot 1, with the tunnels 41 and 42.
abbrev pub behind_nat : Host
behind_nat = record {
  mn = record probed { active = pos 1; tnl44_ifindex = pos 41; tnl64_ifindex = pos 42 };
  log = [];
}

pub behind_nat-IsValid : IsValid behind_nat.mn
behind_nat-IsValid = ground arith

abbrev pub bu_v4_here : Bu
bu_v4_here = record { ifindex = 2; seqno = 21; hoa = hoav6; coa = ipv6_map_addr 0xc0a8_0005 }

abbrev pub bu_v6_away : Bu
bu_v6_away = record { ifindex = 2; seqno = 22; hoa = hoav6; coa = coav6 }

abbrev pub probe_here : Probe
probe_here = record {
  hoa = hoav6;
  coa = 0xc0a8_0005;
  ifindex = 3;
  checksum = 667;
  port = 666;
  seqno = 2;
  nat_ip = 0x0102_0304;
  nat_port = 4001;
}
