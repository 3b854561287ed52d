-- ===== src/Common/Bits.antt =====
-- The native operations on bits one digit at a time, and masks of low bits as remainders.
use Prim.Native.Nat.{
  ℕ, zero, suc, ◌+◌, ◌-◌, ◌*◌, ◌/◌, ◌%◌, ◌≤◌, min, differ, digits, bitwise, bit_and, bit_xor,
  bit_and-bitwise, bit_xor-bitwise,
}
use mathlib.Core.Path.{◌≡◌, refl, ap, sym, ◌∙◌}
use native.Mathlib.Omega.{arith}

module _ (last : ℕ → ℕ) (op : ℕ → ℕ → ℕ) where
  -- One more unit of fuel than the number needs makes no difference.
  one_more : (n a b : ℕ) → a ≤ n → digits last op (suc n) a b ≡ digits last op n a b
  one_more n zero b le = at_zero n
    where
      at_zero : (n : ℕ) → last b ≡ digits last op n 0 b
      at_zero zero = refl
      at_zero (suc n) = refl
  one_more zero (suc a) b le = absurd (omega arith)
  one_more (suc n) (suc a) b le =
      ap (λ q. q * 2 + op (suc a % 2) (b % 2)) (one_more n (suc a / 2) (b / 2) (omega arith))

  spare : (k a b : ℕ) → digits last op (k + a) a b ≡ bitwise last op a b
  spare zero a b = ap (λ n. digits last op n a b) (omega arith)
  spare (suc k) a b =
      let shift : suc k + a ≡ suc (k + a) = omega arith in
      rw shift (one_more (k + a) a b (omega arith) ∙ spare k a b)

  low_digit :
      (a b : ℕ)
      → bitwise last op (suc a) b ≡ bitwise last op (suc a / 2) (b / 2) * 2 + op (suc a % 2) (b % 2)
  low_digit a b =
      let half = suc a / 2 in
      let split : a - half + half ≡ a = omega arith in
      ap (λ q. q * 2 + op (suc a % 2) (b % 2))
        (ap (λ n. digits last op n half (b / 2)) (sym split) ∙ spare (a - half) half (b / 2))

pub zero-bit_xor : (b : ℕ) → bit_xor 0 b ≡ b
zero-bit_xor b = bit_xor-bitwise 0 b

pub suc-bit_xor :
    (a b : ℕ) → bit_xor (suc a) b ≡ bit_xor (suc a / 2) (b / 2) * 2 + differ (suc a % 2) (b % 2)
suc-bit_xor a b = simp bit_xor-bitwise (low_digit (λ b. b) differ a b)

differ-zero : (a : ℕ) → differ a 0 ≡ a
differ-zero zero = refl
differ-zero (suc a) = refl

differ_comm : (a b : ℕ) → differ a b ≡ differ b a
differ_comm zero zero = refl
differ_comm zero (suc b) = refl
differ_comm (suc a) zero = refl
differ_comm (suc a) (suc b) = differ_comm a b

half_le : (a n : ℕ) → suc a ≤ suc n → suc a / 2 ≤ n
half_le a n le = omega (arith, le)

bit_xor-zero_to : (n a : ℕ) → a ≤ n → bit_xor a 0 ≡ a
bit_xor-zero_to n zero le = zero-bit_xor 0
bit_xor-zero_to zero (suc a) le = absurd (omega (arith, le))
bit_xor-zero_to (suc n) (suc a) le =
    suc-bit_xor a 0
    ∙ ap (λ q. q * 2 + differ (suc a % 2) 0) (bit_xor-zero_to n (suc a / 2) (half_le a n le))
    ∙ omega (arith, differ-zero (suc a % 2))

bit_xor-comm_to : (n a b : ℕ) → a ≤ n → bit_xor a b ≡ bit_xor b a
bit_xor-comm_to n zero b le = zero-bit_xor b ∙ sym (bit_xor-zero_to b b (omega arith))
bit_xor-comm_to zero (suc a) b le = absurd (omega (arith, le))
bit_xor-comm_to (suc n) (suc a) zero le =
    bit_xor-zero_to (suc a) (suc a) (omega arith) ∙ sym (zero-bit_xor (suc a))
bit_xor-comm_to (suc n) (suc a) (suc b) le =
    suc-bit_xor a (suc b)
    ∙ ap (λ q. q * 2 + differ (suc a % 2) (suc b % 2))
        (bit_xor-comm_to n (suc a / 2) (suc b / 2) (half_le a n le))
    ∙ ap (λ q. bit_xor (suc b / 2) (suc a / 2) * 2 + q) (differ_comm (suc a % 2) (suc b % 2))
    ∙ sym (suc-bit_xor b (suc a))

pub bit_xor_comm : (a b : ℕ) → bit_xor a b ≡ bit_xor b a
bit_xor_comm a b = bit_xor-comm_to a a b (omega arith)

zero-bit_and : (b : ℕ) → bit_and 0 b ≡ 0
zero-bit_and b = bit_and-bitwise 0 b

suc-bit_and :
    (a b : ℕ) → bit_and (suc a) b ≡ bit_and (suc a / 2) (b / 2) * 2 + min (suc a % 2) (b % 2)
suc-bit_and a b = simp bit_and-bitwise (low_digit (λ b. 0) min a b)

no_digits : (n a : ℕ) → digits (λ b. 0) min n a 0 ≡ 0
no_digits zero a = refl
no_digits (suc n) zero = refl
no_digits (suc n) (suc a) = omega (arith, no_digits n (suc a / 2))

bit_and-zero : (a : ℕ) → bit_and a 0 ≡ 0
bit_and-zero a = bit_and-bitwise a 0 ∙ no_digits a a

-- A mask with an odd end: the lowest digit stays, the others go on under half of the mask.
mask_step : (a m : ℕ) → bit_and a (2 * m + 1) ≡ bit_and (a / 2) m * 2 + a % 2
mask_step zero m = omega (arith, zero-bit_and (2 * m + 1), zero-bit_and m)
mask_step (suc a) m =
    let half : (2 * m + 1) / 2 ≡ m = omega arith in
    let odd : (2 * m + 1) % 2 ≡ 1 = omega arith in
    suc-bit_and a (2 * m + 1) ∙ rw (half, odd) (omega arith)

pub bit_and-one : (a : ℕ) → bit_and a 1 ≡ a % 2
bit_and-one a = omega (arith, mask_step a 0, bit_and-zero (a / 2))

pub bit_and_three : (a : ℕ) → bit_and a 3 ≡ a % 4
bit_and_three a = omega (arith, mask_step a 1, bit_and-one (a / 2))

pub bit_and_seven : (a : ℕ) → bit_and a 7 ≡ a % 8
bit_and_seven a = omega (arith, mask_step a 3, bit_and_three (a / 2))
