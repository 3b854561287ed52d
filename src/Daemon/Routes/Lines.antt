-- ===== src/Daemon/Routes/Lines.antt =====
-- What the loops of cngictrl/cngictrl.h over the lines of a text do.
use dsmip.Common.{
  ◌<◌, ℤ, pos, negsuc, ◌≡◌, refl, ◌∙◌, Bool, true, false, not, ◌&&◌, List, [], ◌∷◌, ◌++◌, map,
  length, Option, some, ◌==◌, ltb, Bool-cases, inl, inr, append_assoc, arith, if◌then◌else◌,
}
use mathlib.Core.List.{reverse, reverse-cons}
use dsmip.Daemon.Text.{Text, newline, ◌>>=◌, read_lines, getnumfromstr}
use dsmip.Daemon.Text.Numbers.{getnumfromstr-line}
use dsmip.Daemon.State.{
  Family, query, ip_rule, ip_rule_del, xfrm_state_deleteall, xfrm_policy_flush, Calls, Env, Daemon,
  result_size, note, getcmd_result,
}
use dsmip.Daemon.Routes.{prefs, del_rules, clear_family}

-- Lines, each with its newline.
abbrev pub unlines : List Text → Text
unlines [] = []
unlines (l ∷ ls) = l ++ newline ∷ unlines ls

abbrev pub is_line : Text → Bool
is_line [] = true
is_line (c ∷ t) = not (c == newline) && is_line t

abbrev pub are_lines : List Text → Bool
are_lines [] = true
are_lines (l ∷ ls) = is_line l && are_lines ls

abbrev pub all_some {ℓ} : {A : Type ℓ} → List (Option A) → Option (List A)
all_some [] = some []
all_some (o ∷ os) = o >>= λ a. all_some os >>= λ as'. some (a ∷ as')

module _ {A : Type 0} (read : Text → Option A) where
  -- Inside a line nothing is read.
  read_lines-inside :
      (l rest : Text)
      → is_line l ≡ true
      → read_lines read false (l ++ newline ∷ rest) ≡ read_lines read true rest
  unfolding read_lines
  read_lines-inside [] rest h = refl
  read_lines-inside (c ∷ l) rest h = ground (arith, read_lines-inside l rest)

  read_lines-line :
      (l rest : Text)
      → is_line l ≡ true
      → read_lines read true (l ++ newline ∷ rest)
        ≡ (read (l ++ newline ∷ rest) >>= λ a. read_lines read true rest >>= λ r. some (a ∷ r))
  unfolding read_lines
  read_lines-line [] rest h = refl
  read_lines-line (c ∷ l) rest h = ground (arith, read_lines-inside l rest)

prefs-unlines :
    (ls : List Text) → are_lines ls ≡ true → prefs (unlines ls) ≡ all_some (map getnumfromstr ls)
unfolding prefs
prefs-unlines [] h = unfold read_lines in refl
prefs-unlines (l ∷ ls) h = ground (
  arith,
  read_lines-line getnumfromstr l (unlines ls),
  getnumfromstr-line l (unlines ls),
  prefs-unlines ls,
)

-- The rules with a preference strictly between 100 and 30000.
abbrev pub own_rules : List ℤ → List ℤ
own_rules [] = []
own_rules (pos n ∷ ns) = if ltb 100 n && ltb n 30000 then pos n ∷ own_rules ns else own_rules ns
own_rules (negsuc n ∷ ns) = own_rules ns

del_rules_lem :
    (f : Family) (ns : List ℤ) (log : Calls)
    → del_rules f ns log ≡ reverse (map (ip_rule_del f) (own_rules ns)) ++ log
unfolding del_rules
del_rules_lem f [] log = refl
del_rules_lem f (negsuc n ∷ ns) log = del_rules_lem f ns log
del_rules_lem f (pos n ∷ ns) log = elim (Bool-cases (ltb 100 n && ltb n 30000)) [
  | inl h ↦
      rw h (del_rules_lem f ns (ip_rule_del f (pos n) ∷ log) ∙ simp (reverse-cons, append_assoc))
  | inr h ↦ rw h (del_rules_lem f ns log)
]

-- If the output of `ip rule` for a family fits in cmdresult and consists of lines in each of which
-- getnumfromstr reads a number, ruleclear deletes the rules with a number above 100 and below
-- 30000, once for each of their lines and in the order of the lines, then all states and policies
-- of the family, and changes nothing else.
pub clear_family_lem :
    (env : Env) (f : Family) (d : Daemon) (ls : List Text) (ns : List ℤ)
    → env.output d.log (ip_rule f) ≡ unlines ls
    → are_lines ls ≡ true
    → length (unlines ls) < result_size
    → all_some (map getnumfromstr ls) ≡ some ns
    → clear_family env f d
      ≡ some (record d {
        log =
            xfrm_policy_flush f
            ∷ xfrm_state_deleteall f
            ∷ (reverse (map (ip_rule_del f) (own_rules ns)) ++ query (ip_rule f) ∷ d.log);
      })
unfolding clear_family getcmd_result note
clear_family_lem env f d ls ns out lines fits nums =
    ground (arith, prefs-unlines ls, del_rules_lem f ns (query (ip_rule f) ∷ d.log))
