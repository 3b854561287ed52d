-- ===== src/Mobility/Parse/Recorded.antt =====
-- What `mh_opt_parse` records, and that it ends.
use dsmip.Common.{
  ℕ, zero, suc, ◌+◌, ◌<◌, ◌≤◌, ◌≡◌, ◌≢◌, inl, inr, refl, sym, subst, ◌∙◌, arith, some, List, get_or,
  length, replicate,
}
use dsmip.Mobility.Parse.{
  MhOptions, Parsed, options, bad_read, bad_table_read, out_of_fuel, Cursor, Step, done, next,
  parse_step, parse_loop, start, mh_opt_parse, mh_opt,
}
use dsmip.Mobility.Parse.Pass.{
  first, IsRecorded, IsDoubled, IsResult, IsCursor, Goes, parse_step-Goes,
}

get_or-replicate : (n i : ℕ) → get_or {A = ℕ} (replicate n 0) i 0 ≡ 0
get_or-replicate zero i = refl
get_or-replicate (suc n) zero = refl
get_or-replicate (suc n) (suc i) = get_or-replicate n i

abbrev after_step : ℕ → List ℕ → Step → Parsed
after_step fuel bytes (done r) = r
after_step fuel bytes (next c) = parse_loop fuel bytes c

module _ (bytes : List ℕ) (offset len : ℕ) (fits : len ≤ length bytes) where
  step-IsResult :
      (fuel : ℕ) (c : Cursor) (s : Step)
      → c.left < suc fuel
      → ((d : Cursor)
          → IsCursor bytes offset len fits d
          → d.left < fuel
          → IsResult bytes offset len (parse_loop fuel bytes d))
      → Goes bytes offset len fits c s
      → IsResult bytes offset len (after_step fuel bytes s)
  step-IsResult fuel c (done r) lt ih g = g
  step-IsResult fuel c (next d) lt ih g = ih d g.0 (omega (arith, g.1))

  parse_loop-IsResult :
      (fuel : ℕ) (c : Cursor)
      → IsCursor bytes offset len fits c
      → c.left < fuel
      → IsResult bytes offset len (parse_loop fuel bytes c)
  unfolding parse_loop
  parse_loop-IsResult zero c w lt = absurd (omega arith)
  parse_loop-IsResult (suc fuel) c w lt =
      step-IsResult fuel c (parse_step bytes c) lt (parse_loop-IsResult fuel)
        (parse_step-Goes bytes offset len fits c w)

  start-IsCursor : IsCursor bytes offset len fits (start len offset)
  start-IsCursor = record {
    size = refl;
    from = omega arith;
    place = ground arith;
    recorded = λ type at e. inl (sym e ∙ get_or-replicate 25 type);
    here = first;
    started = λ type at e. inl (sym e ∙ get_or-replicate 25 type);
  }

  mh_opt_parse-IsResult : IsResult bytes offset len (mh_opt_parse bytes len offset)
  unfolding mh_opt_parse
  mh_opt_parse-IsResult =
      parse_loop-IsResult (len + 1) (start len offset) start-IsCursor (omega arith)

-- mh_opt_parse ends within a pass for each byte and one more.
mh_opt_parse-ends :
    (bytes : List ℕ) (len offset : ℕ)
    → len ≤ length bytes
    → mh_opt_parse bytes len offset ≢ out_of_fuel
mh_opt_parse-ends bytes len offset fits q =
    subst (IsResult bytes offset len) q (mh_opt_parse-IsResult bytes offset len fits)

-- If mh_opt_parse accepts the options of a packet in its buffer, each option that mh_opt finds then has
-- the type asked for, begins at or after the first option, and has its two header bytes in the packet.
pub mh_opt-IsRecorded :
    (bytes : List ℕ) (len offset n type at : ℕ) (o : MhOptions)
    → len ≤ length bytes
    → mh_opt_parse bytes len offset ≡ options n o
    → mh_opt o type ≡ some at
    → IsRecorded bytes offset len type at
unfolding mh_opt
mh_opt-IsRecorded bytes len offset n type at o fits q e =
    elim (subst (IsResult bytes offset len) q (mh_opt_parse-IsResult bytes offset len fits) type at
      (ground arith)) [ inl z ↦ absurd (ground arith) | inr r ↦ r ]

-- mh_opt_parse on a packet in its buffer reads nothing outside the buffer; and it reads past the table
-- of types that may occur twice only if two options of one type from 11 to 0x18 are in the packet,
-- their headers inside it.
pub mh_opt_parse-IsDoubled :
    (bytes : List ℕ) (len offset : ℕ)
    → len ≤ length bytes
    → (mh_opt_parse bytes len offset ≢ bad_read)
      × (mh_opt_parse bytes len offset ≡ bad_table_read → IsDoubled bytes offset len)
mh_opt_parse-IsDoubled bytes len offset fits =
    let r = mh_opt_parse-IsResult bytes offset len fits in
    (λ q. subst (IsResult bytes offset len) q r, λ q. subst (IsResult bytes offset len) q r)
