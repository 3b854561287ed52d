-- ===== src/Ha/Special/Hamming.antt =====
-- The bit loop of `ip_special` ends, and counts the bits in which the two addresses differ.
use Prim.Native.Nat.{bit_xor, differ}
use dsmip.Common.{
  ℕ, zero, suc, ◌+◌, ◌*◌, ◌/◌, ◌%◌, ◌^◌, ◌<◌, ◌≡◌, refl, arith, ◌==◌, leb, some, ap, if◌then◌else◌,
}
use native.Mathlib.Nat.{pow-suc}
use dsmip.Common.Bits.{bit_and-one, zero-bit_xor, suc-bit_xor}
use dsmip.Ha.Special.{count_bits, ip_special}

-- The number of ones among the lowest `w` bits.
abbrev ones : ℕ → ℕ → ℕ
ones zero k = 0
ones (suc w) k = k % 2 + ones w (k / 2)

-- The number of places among the lowest `w` at which two words have different bits.
pub hamming : ℕ → ℕ → ℕ → ℕ
hamming zero a b = 0
hamming (suc w) a b = (if a % 2 == b % 2 then 0 else 1) + hamming w (a / 2) (b / 2)

ones-zero : (w : ℕ) → ones w 0 ≡ 0
ones-zero zero = refl
ones-zero (suc w) = omega (arith, ones-zero w)

count_bits-eq-ones : (w k c : ℕ) → k < 2 ^ w → count_bits (suc w) k c ≡ some (c + ones w k)
unfolding count_bits
count_bits-eq-ones zero k c h = ground arith
count_bits-eq-ones (suc w) k c h = ground (
  arith,
  pow-suc 2 w,
  bit_and-one k,
  ones-zero w,
  count_bits-eq-ones w (k / 2) c,
  count_bits-eq-ones w (k / 2) (c + 1),
)

differ-bit : (x y : ℕ) → x < 2 → y < 2 → differ x y ≡ (if x == y then 0 else 1)
differ-bit zero zero p q = refl
differ-bit zero (suc y) p q = ground arith
differ-bit (suc x) zero p q = ground arith
differ-bit (suc zero) (suc zero) p q = refl
differ-bit (suc zero) (suc (suc y)) p q = absurd (omega arith)
differ-bit (suc (suc x)) (suc y) p q = absurd (omega arith)

bit_xor_step :
    (a b : ℕ) → bit_xor a b ≡ bit_xor (a / 2) (b / 2) * 2 + (if a % 2 == b % 2 then 0 else 1)
bit_xor_step zero b = ground (arith, zero-bit_xor b, zero-bit_xor (b / 2))
bit_xor_step (suc a) b =
    ground (arith, suc-bit_xor a b, differ-bit (suc a % 2) (b % 2) (omega arith) (omega arith))

bit_xor-lt : (w a b : ℕ) → a < 2 ^ w → b < 2 ^ w → bit_xor a b < 2 ^ w
bit_xor-lt zero a b p q =
    let a0 : a ≡ 0 = omega arith in let b0 : b ≡ 0 = omega arith in rw (a0, b0) (omega arith)
bit_xor-lt (suc w) a b p q = ground (
  arith,
  pow-suc 2 w,
  bit_xor_step a b,
  bit_xor-lt w (a / 2) (b / 2) (omega (arith, pow-suc 2 w)) (omega (arith, pow-suc 2 w)),
)

bit_xor-mod : (a b : ℕ) → bit_xor a b % 2 ≡ (if a % 2 == b % 2 then 0 else 1)
bit_xor-mod a b = ground (arith, bit_xor_step a b)

bit_xor-div : (a b : ℕ) → bit_xor a b / 2 ≡ bit_xor (a / 2) (b / 2)
bit_xor-div a b = ground (arith, bit_xor_step a b)

ones-bit_xor : (w a b : ℕ) → ones w (bit_xor a b) ≡ hamming w a b
unfolding hamming
ones-bit_xor zero a b = refl
ones-bit_xor (suc w) a b = rw (bit_xor-div a b, bit_xor-mod a b, ones-bit_xor w (a / 2) (b / 2))

-- For every 32-bit word the loop ends within its 33 tests, with the number of ones.
count_bits-ends : (k : ℕ) → k < 2 ^ 32 → count_bits 33 k 0 ≡ some (ones 32 k)
count_bits-ends k h = rw (count_bits-eq-ones 32 k 0 h) (ap some (omega arith))

-- For all 32-bit addresses the loop of ip_special ends within 33 tests of its condition, and the
-- function answers whether the two addresses differ in at most three of their 32 bits.
pub ip_special-eq-hamming :
    (special ip : ℕ)
    → special < 2 ^ 32
    → ip < 2 ^ 32
    → (count_bits 33 (bit_xor ip special) 0 ≡ some (hamming 32 ip special))
      × (ip_special special ip ≡ leb (hamming 32 ip special) 3)
unfolding ip_special
ip_special-eq-hamming special ip hs hi = (loop, rw (loop, ip_special))
  where
    loop : count_bits 33 (bit_xor ip special) 0 ≡ some (hamming 32 ip special)
    loop =
        rw (count_bits-ends (bit_xor ip special) (bit_xor-lt 32 ip special hi hs))
          (ap some (ones-bit_xor 32 ip special))
