-- ===== src/Ha/Valid/Arrays.antt =====
-- Which entry the searches of ha.c find.
use dsmip.Common.{
  ◌+◌, ℕ, zero, suc, ◌≤◌, ◌<◌, ◌≡◌, ◌≢◌, refl, arith, List, [], ◌∷◌, length, get_or, set,
}
use dsmip.Ha.Binding.V4.{find_coa}
use dsmip.Ha.Probe.{nif_map}
use dsmip.Ha.Cleanup.{clear_first}

pub find_coa-le : (coa n : ℕ) (xs : List ℕ) → find_coa coa n xs ≤ n
unfolding find_coa
find_coa-le coa zero xs = omega arith
find_coa-le coa (suc n) [] = omega arith
find_coa-le coa (suc n) (x ∷ xs) = ground (arith, find_coa-le coa n xs)

find_coa-get :
    (coa n : ℕ) (xs : List ℕ) → find_coa coa n xs < n → get_or xs (find_coa coa n xs) 0 ≡ coa
unfolding find_coa
find_coa-get coa zero xs h = absurd (omega arith)
find_coa-get coa (suc n) [] h = absurd (omega arith)
find_coa-get coa (suc n) (x ∷ xs) h = ground (arith, find_coa-get coa n xs)

-- An address other than 0.0.0.0 is not found in slot 0.
pub find_coa-pos :
    (coa n : ℕ) (xs : List ℕ) → coa ≢ 0 → get_or xs 0 0 ≡ 0 → find_coa coa (suc n) xs ≢ 0
unfolding find_coa
find_coa-pos coa n [] h z e = omega arith
find_coa-pos coa n (x ∷ xs) h z e = ground arith

pub length-clear_first : (n : ℕ) (xs : List ℕ) → length (clear_first n xs) ≡ length xs
length-clear_first zero xs = refl
length-clear_first (suc n) [] = refl
length-clear_first (suc n) (x ∷ xs) = omega (arith, length-clear_first n xs)

pub nif_map-le : (i n : ℕ) (xs : List ℕ) → nif_map i n xs ≤ n
unfolding nif_map
nif_map-le i zero xs = omega arith
nif_map-le i (suc n) [] = omega arith
nif_map-le i (suc n) (x ∷ xs) = ground (arith, nif_map-le i n xs)

pub nif_map-get : (i n : ℕ) (xs : List ℕ) → nif_map i n xs < n → get_or xs (nif_map i n xs) 0 ≡ i
unfolding nif_map
nif_map-get i zero xs h = absurd (omega arith)
nif_map-get i (suc n) [] h = absurd (omega arith)
nif_map-get i (suc n) (x ∷ xs) h = ground (arith, nif_map-get i n xs)

-- An interface that was not among the first `n` is found at `n` once it is written there.
pub nif_map-set :
    (i n : ℕ) (xs : List ℕ)
    → nif_map i n xs ≡ n
    → n < length xs
    → nif_map i (n + 1) (set xs n i) ≡ n
unfolding nif_map
nif_map-set i zero [] e h = absurd (omega arith)
nif_map-set i zero (x ∷ xs) e h = ground arith
nif_map-set i (suc n) [] e h = absurd (omega arith)
nif_map-set i (suc n) (x ∷ xs) e h =
    let step : suc n + 1 ≡ suc (n + 1) = omega arith in rw step (ground (arith, nif_map-set i n xs))
