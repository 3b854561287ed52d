-- ===== src/Mobility/Parse.antt =====
-- `mh_opt_parse` of ha.c.
pub mod Pass
pub mod Recorded
use dsmip.Common.{
  ℕ, zero, suc, ◌+◌, ◌-◌, Bool, true, false, not, ◌||◌, Option, none, some, List, [], ◌∷◌,
  get_elem?, get_or, set, replicate, ltb, leb, ◌==◌, if◌then◌else◌,
}
use dsmip.Mobility.Options.{pad1, padn, bauth, mhopt_max, mh_opt_len_ok}

-- `struct mh_options`
pub record MhOptions : Type 0 where
  pub opts : List ℕ
  pub opts_end : List ℕ

-- `bad_read`: a read past the end of the packet's buffer; `bad_table_read`: one past `mh_opts_dup_ok`.
pub data Parsed : Type 0 where
  options : ℕ → MhOptions → Parsed
  einval : Parsed
  bad_read : Parsed
  bad_table_read : Parsed
  out_of_fuel : Parsed

-- The loop's variables. `left` stops at 0 where the program's goes below, which ends the loop too.
pub record Cursor : Type 0 where
  pub left : ℕ
  pub at : ℕ
  pub ret : ℕ
  pub bauth : Bool
  pub found : MhOptions

pub data Step : Type 0 where
  done : Parsed → Step
  next : Cursor → Step

-- `mh_opts_dup_ok`, which has no entries for types from 11 on.
abbrev pub mh_opts_dup_ok : List ℕ
mh_opts_dup_ok = 1 ∷ 1 ∷ 0 ∷ 0 ∷ 0 ∷ 0 ∷ 1 ∷ 0 ∷ 0 ∷ 0 ∷ 0 ∷ []

abbrev pub skip : ℕ → Cursor → Cursor
skip n c = record c { left = c.left - n; at = c.at + n }

-- The part under `<= IP6_MHOPT_MAX`, and the move to the next option.
unfoldable pub record_option : ℕ → ℕ → Cursor → Step
record_option type len c =
    let c' = record c { bauth = c.bauth || type == bauth; ret = c.ret + 1 } in
    if get_or c.found.opts type 0 == 0
    then next (
        skip (len + 2) (record c' { found = record c.found { opts = set c.found.opts type c.at } }))
    else elim (get_elem? mh_opts_dup_ok type) [
      | none ↦ done bad_table_read
      | some ok ↦
          if ok == 0
          then done einval
          else next (
              skip (len + 2) (record c' {
                found = record c.found { opts_end = set c.found.opts_end type c.at };
              }))
    ]

-- One pass of the loop with `left > 0`, on an option that is not PAD1.
unfoldable pub parse_option : List ℕ → ℕ → Cursor → Step
unfolding record_option mh_opt_len_ok
parse_option bytes type c =
    if ltb c.left 2 then done einval else elim (get_elem? bytes (c.at + 1)) [
      | none ↦ done bad_read
      | some len ↦
          if not (mh_opt_len_ok type (len + 2))
          then done einval
          else if type == padn
          then next (skip (len + 2) c)
          else if leb type mhopt_max
          then record_option type len c
          else next (skip (len + 2) c)
    ]

unfoldable pub parse_step : List ℕ → Cursor → Step
unfolding parse_option
parse_step bytes c =
    if c.left == 0
    then done (options c.ret c.found)
    else if c.bauth
    then done einval
    else elim (get_elem? bytes c.at) [
      | none ↦ done bad_read
      | some type ↦ if type == pad1 then next (skip 1 c) else parse_option bytes type c
    ]

unfoldable pub parse_loop : ℕ → List ℕ → Cursor → Parsed
unfolding parse_step
parse_loop zero bytes c = out_of_fuel
parse_loop (suc fuel) bytes c = elim (parse_step bytes c) [
  | done r ↦ r
  | next c' ↦ parse_loop fuel bytes c'
]

abbrev pub start : ℕ → ℕ → Cursor
start len offset = record {
  left = len - offset;
  at = offset;
  ret = 0;
  bauth = false;
  found = record { opts = replicate 25 0; opts_end = replicate 25 0 };
}

-- A pass takes at least one byte of the options, so `len + 1` passes are enough.
unfoldable pub mh_opt_parse : List ℕ → ℕ → ℕ → Parsed
unfolding parse_loop
mh_opt_parse bytes len offset = parse_loop (len + 1) bytes (start len offset)

-- `mh_opt`: the offset of the option in the packet, `none` for NULL.
unfoldable pub mh_opt : MhOptions → ℕ → Option ℕ
mh_opt o type = let at = get_or o.opts type 0 in if at == 0 then none else some at
