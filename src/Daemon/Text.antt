-- ===== src/Daemon/Text.antt =====
-- The text helpers of cngictrl/cngictrl.h and what it uses of string.h. A text is the bytes of a C string
-- before its end; `none` stands for undefined behaviour.
pub mod Numbers
use Prim.Native.Char.{code}
use Prim.Native.String.{String}
use dsmip.Common.{
  ℕ, ◌+◌, ◌-◌, ◌*◌, ◌^◌, ℤ, pos, negsuc, Bool, true, false, not, ◌&&◌, ◌||◌, List, [], ◌∷◌, ◌++◌,
  length, drop, Option, none, some, ◌==◌, ltb, leb, if◌then◌else◌,
}

abbrev pub Text : Type 0
Text = List ℕ

abbrev pub codes : String → Text
codes String.[] = []
codes (String.◌∷◌ c s) = code c ∷ codes s

abbrev pub newline : ℕ
newline = 10

abbrev pub space : ℕ
space = 32

-- `m >>= f` for what may be undefined
infixl 5 ◌>>=◌
abbrev pub ◌>>=◌ {ℓ κ} : {A : Type ℓ} {B : Type κ} → Option A → (A → Option B) → Option B
none >>= f = none
some a >>= f = f a

-- `strncmp(line, w, strlen(w)) == 0`
unfoldable pub begins : Text → Text → Bool
begins t [] = true
begins [] (c ∷ w) = false
begins (d ∷ t) (c ∷ w) = c == d && begins t w

unfoldable pub strstr : Text → Text → Option Text
unfolding begins
strstr [] w = if begins [] w then some [] else none
strstr (c ∷ t) w = if begins (c ∷ t) w then some (c ∷ t) else strstr t w

abbrev pub is_some {ℓ} : {A : Type ℓ} → Option A → Bool
is_some none = false
is_some (some a) = true

unfoldable pub has : Text → Text → Bool
unfolding strstr
has t w = is_some (strstr t w)

unfoldable pub strchr : Text → ℕ → Option Text
strchr [] c = none
strchr (d ∷ t) c = if d == c then some (d ∷ t) else strchr t c

unfoldable pub skipspace : Text → Text
skipspace [] = []
skipspace (c ∷ t) = if c == space then skipspace t else c ∷ t

abbrev pub is_digit : ℕ → Bool
is_digit c = leb b'0' c && leb c b'9'

-- The digits at the front of a text, with the number so far and whether there was one yet.
unfoldable pub scan_digits : Text → ℕ → Bool → Option ℤ
scan_digits [] n found = some (if found then pos n else negsuc 0)
scan_digits (c ∷ t) n found =
    if is_digit c
    then (if ltb (n * 10 + (c - b'0')) (2 ^ 31)
        then scan_digits t (n * 10 + (c - b'0')) true
        else none)
    else some (if found then pos n else negsuc 0)

unfoldable pub getnumfromstr : Text → Option ℤ
unfolding skipspace scan_digits
getnumfromstr t = scan_digits (skipspace t) 0 false

-- `strcpy` of a text to an array of the size
unfoldable pub copy : ℕ → Text → Option Text
copy size t = if ltb (length t) size then some t else none

-- What stands before the first character of the kind, and the rest from it on.
unfoldable pub break_at : (ℕ → Bool) → Text → Text × Text
break_at stop [] = ([], [])
break_at stop (c ∷ t) =
    if stop c then ([], c ∷ t) else (let (word, rest) = break_at stop t in (c ∷ word, rest))

abbrev pub is_newline : ℕ → Bool
is_newline c = c == newline

abbrev pub is_word_end : ℕ → Bool
is_word_end c = c == space || c == newline

-- The loop `while(*p!=' ') p++`, which does not stop at the end of the text.
unfoldable pub break_space : Text → Option (Text × Text)
break_space [] = none
break_space (c ∷ t) =
    if c == space then some ([], c ∷ t) else (break_space t >>= λ r. some (c ∷ r.0, r.1))

-- The first newline becomes a space.
unfoldable pub blank_newline : Text → Text
blank_newline [] = []
blank_newline (c ∷ t) = if c == newline then space ∷ t else c ∷ blank_newline t

-- `while(!(*p>='0'&&*p<='9')) p++`, which does not stop at the end of the text either
unfoldable pub to_digit : Text → Option Text
to_digit [] = none
to_digit (c ∷ t) = if is_digit c then some (c ∷ t) else to_digit t

-- What follows the first so many characters of a text that was found.
abbrev pub after : ℕ → Option Text → Text
after n none = []
after n (some t) = drop n t

-- `strcmp(s, t) == 0`
unfoldable pub same : Text → Text → Bool
same [] [] = true
same (c ∷ s) (d ∷ t) = c == d && same s t
same _ _ = false

-- What a loop over the lines of a text reads at the beginning of each. Every line has to end with a newline:
-- where `strchr` finds none, the pointer after it is outside the text.
module _ {ℓ} {A : Type ℓ} (read : Text → Option A) where
  unfoldable pub read_lines : Bool → Text → Option (List A)
  read_lines at_line [] = if at_line then some [] else none
  read_lines at_line (c ∷ t) =
      let rest = read_lines (c == newline) t in
      if at_line then (read (c ∷ t) >>= λ a. rest >>= λ r. some (a ∷ r)) else rest
