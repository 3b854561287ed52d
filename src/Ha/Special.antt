-- ===== src/Ha/Special.antt =====
-- `ip_special` of ha.c: the NAT address differs from the special one in at most three bits.
pub mod Hamming
use Prim.Native.Nat.{bit_and, bit_xor}
use dsmip.Common.{ℕ, zero, suc, ◌+◌, ◌/◌, Bool, false, Option, none, some, ◌==◌, leb, if◌then◌else◌}

-- `while(k){ if(k&1)++c; k>>=1; }`, with fuel; `none` means that the fuel ran out.
unfoldable pub count_bits : ℕ → ℕ → ℕ → Option ℕ
count_bits zero k c = none
count_bits (suc f) k c =
    let rest = count_bits f (k / 2) (if bit_and k 1 == 0 then c else c + 1) in
    if k == 0 then some c else rest

-- `unsigned int` has 32 bits, so 33 tests of `k` are enough (`Hamming.count_bits-ends`).
unfoldable pub ip_special : ℕ → ℕ → Bool
ip_special special ip = elim (count_bits 33 (bit_xor ip special) 0) [
  | none ↦ false
  | some c ↦ leb c 3
]
