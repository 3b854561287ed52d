-- ===== src/Daemon/Text/Numbers.antt =====
-- What `getnumfromstr` of cngictrl/cngictrl.h reads.
use dsmip.Common.{
  ℕ, zero, suc, ◌+◌, ◌-◌, ◌*◌, ◌^◌, ◌≤◌, ◌<◌, pos, negsuc, ◌≡◌, refl, Bool, true, false, ◌&&◌, [],
  ◌∷◌, ◌++◌, replicate, none, some, ◌==◌, ltb, arith, if◌then◌else◌,
}
use dsmip.Daemon.Text.{Text, newline, space, is_digit, skipspace, scan_digits, getnumfromstr}

abbrev pub all_digits : Text → Bool
all_digits [] = true
all_digits (c ∷ t) = is_digit c && all_digits t

-- The number that digits spell behind another one.
abbrev pub value : ℕ → Text → ℕ
value n [] = n
value n (c ∷ t) = value (n * 10 + (c - b'0')) t

abbrev pub starts_number : Text → Bool
starts_number [] = false
starts_number (c ∷ t) = is_digit c

abbrev pub starts_space : Text → Bool
starts_space [] = false
starts_space (c ∷ t) = c == space

le-value : (t : Text) (n : ℕ) → n ≤ value n t
le-value [] n = omega arith
le-value (c ∷ t) n = omega (arith, le-value t (n * 10 + (c - b'0')))

scan_rest :
    (rest : Text) (n : ℕ) → starts_number rest ≡ false → scan_digits rest n true ≡ some (pos n)
unfolding scan_digits
scan_rest [] n h = refl
scan_rest (c ∷ rest) n h = ground arith

scan_digits_lem :
    (ds rest : Text) (n : ℕ)
    → all_digits ds ≡ true
    → starts_number rest ≡ false
    → n < 2 ^ 31
    → scan_digits (ds ++ rest) n true
      ≡ (if ltb (value n ds) (2 ^ 31) then some (pos (value n ds)) else none)
unfolding scan_digits
scan_digits_lem [] rest n h s l = ground (arith, scan_rest rest n)
scan_digits_lem (c ∷ ds) rest n h s l =
    let m = n * 10 + (c - b'0') in ground (arith, scan_digits_lem ds rest m, le-value ds m)

skipspace-spaces : (k : ℕ) (t : Text) → skipspace (replicate k space ++ t) ≡ skipspace t
unfolding skipspace
skipspace-spaces zero t = refl
skipspace-spaces (suc k) t = skipspace-spaces k t

number_start :
    (d : ℕ) (ds rest : Text)
    → all_digits (d ∷ ds) ≡ true
    → starts_number rest ≡ false
    → scan_digits (skipspace (d ∷ (ds ++ rest))) 0 false
      ≡ (if ltb (value 0 (d ∷ ds)) (2 ^ 31) then some (pos (value 0 (d ∷ ds))) else none)
unfolding skipspace scan_digits
number_start d ds rest h s = ground (arith, scan_digits_lem ds rest (0 * 10 + (d - b'0')))

no_digit :
    (rest : Text)
    → starts_number rest ≡ false
    → starts_space rest ≡ false
    → scan_digits (skipspace rest) 0 false ≡ some (negsuc 0)
unfolding skipspace scan_digits
no_digit [] h s = refl
no_digit (c ∷ rest) h s = ground arith

-- After spaces, one digit or more are read up to the first other character: if their number is below 2 to the 31
-- it is the result, else the result is undefined.
getnumfromstr_lem :
    (k d : ℕ) (ds rest : Text)
    → all_digits (d ∷ ds) ≡ true
    → starts_number rest ≡ false
    → getnumfromstr (replicate k space ++ ((d ∷ ds) ++ rest))
      ≡ (if ltb (value 0 (d ∷ ds)) (2 ^ 31) then some (pos (value 0 (d ∷ ds))) else none)
unfolding getnumfromstr
getnumfromstr_lem k d ds rest h s =
    rw (skipspace-spaces k ((d ∷ ds) ++ rest)) (number_start d ds rest h s)

-- Without a digit after the spaces the result is -1.
getnumfromstr-no_digit :
    (k : ℕ) (rest : Text)
    → starts_number rest ≡ false
    → starts_space rest ≡ false
    → getnumfromstr (replicate k space ++ rest) ≡ some (negsuc 0)
unfolding getnumfromstr
getnumfromstr-no_digit k rest h s = rw (skipspace-spaces k rest) (no_digit rest h s)

scan_line :
    (l rest : Text) (n : ℕ) (found : Bool)
    → scan_digits (l ++ newline ∷ rest) n found ≡ scan_digits l n found
unfolding scan_digits
scan_line [] rest n found = refl
scan_line (c ∷ l) rest n found = ground (arith, scan_line l rest (n * 10 + (c - b'0')) true)

skip_line :
    (l rest : Text)
    → scan_digits (skipspace (l ++ newline ∷ rest)) 0 false ≡ scan_digits (skipspace l) 0 false
unfolding skipspace
skip_line [] rest = scan_line [] rest 0 false
skip_line (c ∷ l) rest = ground (arith, skip_line l rest, scan_line (c ∷ l) rest 0 false)

-- What stands after the line makes no difference.
pub getnumfromstr-line : (l rest : Text) → getnumfromstr (l ++ newline ∷ rest) ≡ getnumfromstr l
unfolding getnumfromstr
getnumfromstr-line l rest = skip_line l rest
