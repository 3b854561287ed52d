-- ===== src/Mobility/Pad/Aligned.antt =====
-- The options that `mh_try_pad` writes stand where RFC 3775 wants them.
use dsmip.Common.{
  ℕ, zero, suc, ◌+◌, ◌-◌, ◌%◌, ◌^◌, ◌≡◌, refl, subst, arith, Bool, true, List, [], ◌∷◌, ltb, leb,
  ◌==◌, if◌then◌else◌,
}
use dsmip.Common.Bits.{bit_and-one, bit_and_three, bit_and_seven}
use dsmip.Mobility.Options.{
  brefresh, altcoa, nonceid, bauth, mob_net_prfx, ipv4hoa, ipv4coa, ipv4ack, nat,
}
use dsmip.Mobility.Pad.{
  Iovec, optpad, create_opt_pad, opt_type, pad_before, put_pad, pad_options, mh_try_pad, mh_length,
}

-- Whether an option of a type may begin at an offset.
abbrev pub may_start : ℕ → ℕ → Bool
may_start type at =
    if type == brefresh
    then at % 2 == 0
    else if type == altcoa
    then at % 8 == 6
    else if type == nonceid
    then at % 2 == 0
    else if type == bauth
    then at % 8 == 2
    else if type == mob_net_prfx
    then at % 8 == 4
    else if type == ipv4hoa
    then at % 4 == 0
    else if type == ipv4coa
    then at % 4 == 0
    else if type == ipv4ack
    then at % 4 == 0
    else if type == nat
    then at % 4 == 0
    else true

abbrev pub AllStart : ℕ → List Iovec → Type 0
AllStart at [] = Unit {0}
AllStart at (o ∷ os) = (may_start (opt_type o) at ≡ true) × AllStart (at + o.iov_len) os

optpad-two : (y len : ℕ) → (len + optpad 2 y len) % 2 ≡ y % 2
unfolding optpad
optpad-two y len = omega (arith, bit_and-one ((y + 2 ^ 32 - len % 2 ^ 32) % 2 ^ 32))

optpad-four : (y len : ℕ) → (len + optpad 4 y len) % 4 ≡ y % 4
unfolding optpad
optpad-four y len = omega (arith, bit_and_three ((y + 2 ^ 32 - len % 2 ^ 32) % 2 ^ 32))

optpad-eight : (y len : ℕ) → (len + optpad 8 y len) % 8 ≡ y % 8
unfolding optpad
optpad-eight y len = omega (arith, bit_and_seven ((y + 2 ^ 32 - len % 2 ^ 32) % 2 ^ 32))

pad_before-starts : (type len pad : ℕ) → may_start type (len + pad_before type len pad) ≡ true
unfolding pad_before
pad_before-starts type len pad = ground (
  arith,
  optpad-two 0 len,
  optpad-four 0 len,
  optpad-eight 6 len,
  optpad-eight 2 len,
  optpad-eight 4 len,
)

pad_starts : (pad at : ℕ) → may_start (opt_type (create_opt_pad pad)) at ≡ true
unfolding create_opt_pad
pad_starts pad at = ground arith

put_pad-AllStart :
    (at pad : ℕ) (os : List Iovec) → AllStart (at + pad) os → AllStart at (put_pad pad os)
unfolding put_pad create_opt_pad
put_pad-AllStart at zero os h = let e : at + 0 ≡ at = omega arith in subst (λ x. AllStart x os) e h
put_pad-AllStart at (suc pad) os h =
    let some_pad : ltb 0 (suc pad) ≡ true = ground arith in
    rw (put_pad, some_pad) (pad_starts (suc pad) at, h)

pad_options-AllStart : (len pad : ℕ) (os : List Iovec) → AllStart len (pad_options len pad os)
unfolding pad_options
pad_options-AllStart len pad [] = put_pad-AllStart len (optpad 8 0 len) [] tt
pad_options-AllStart len pad (o ∷ os) =
    let p = pad_before (opt_type o) len pad in
    put_pad-AllStart len p _
      (pad_before-starts (opt_type o) len pad, pad_options-AllStart (len + p + o.iov_len) p os)

mh_length-put_pad : (pad : ℕ) (os : List Iovec) → mh_length (put_pad pad os) ≡ pad + mh_length os
unfolding mh_length put_pad create_opt_pad
mh_length-put_pad pad os = ground arith

pad_options-length :
    (len pad : ℕ) (os : List Iovec) → (len + mh_length (pad_options len pad os)) % 8 ≡ 0
unfolding pad_options mh_length
pad_options-length len pad [] =
    omega (arith, mh_length-put_pad (optpad 8 0 len) [], optpad-eight 0 len)
pad_options-length len pad (o ∷ os) =
    let p = pad_before (opt_type o) len pad in
    omega (
      arith,
      mh_length-put_pad p (o ∷ pad_options (len + p + o.iov_len) p os),
      pad_options-length (len + p + o.iov_len) p os,
    )

-- Without the pads, the vector is what was given.
abbrev pub without_pads : List Iovec → List Iovec
without_pads [] = []
without_pads (o ∷ os) = if leb (opt_type o) 1 then without_pads os else o ∷ without_pads os

pad_options-without_pads :
    (len pad : ℕ) (os : List Iovec) → without_pads (pad_options len pad os) ≡ without_pads os
unfolding pad_options put_pad create_opt_pad
pad_options-without_pads len pad [] = ground arith
pad_options-without_pads len pad (o ∷ os) =
    let p = pad_before (opt_type o) len pad in
    ground (arith, pad_options-without_pads (len + p + o.iov_len) p os)

-- For a header of any length and any options, the vector that mh_try_pad makes begins with the header,
-- has a length that is a multiple of 8, has each option of a known type at an offset that RFC 3775
-- allows for it, and has, pads left out, the given options in their order.
pub mh_try_pad_lem :
    (header : Iovec) (opts : List Iovec)
    → (out : List Iovec) × (mh_try_pad header opts ≡ header ∷ out)
      × (mh_length (mh_try_pad header opts) % 8 ≡ 0)
      × AllStart header.iov_len out
      × (without_pads out ≡ without_pads opts)
unfolding mh_try_pad mh_length
mh_try_pad_lem header opts = (
  pad_options header.iov_len 0 opts,
  refl,
  pad_options-length header.iov_len 0 opts,
  pad_options-AllStart header.iov_len 0 opts,
  pad_options-without_pads header.iov_len 0 opts,
)
