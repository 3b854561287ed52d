-- ===== src/Mobility/Pad.antt =====
-- The padding of options in ha.c: `mh_try_pad` and its helpers.
pub mod Aligned
use Prim.Native.Nat.{bit_and}
use dsmip.Common.{ℕ, zero, suc, ◌+◌, ◌-◌, ◌%◌, ◌^◌, List, [], ◌∷◌, get_or, ltb, ◌==◌, if◌then◌else◌}
use dsmip.Mobility.Options.{
  brefresh, altcoa, nonceid, bauth, mob_net_prfx, ipv4hoa, ipv4coa, ipv4ack, nat,
}

-- `struct iovec`, with the bytes that its base points to.
pub record Iovec : Type 0 where
  pub iov_base : List ℕ
  pub iov_len : ℕ

-- `(y - offset) & (xn - 1)`, with the wrap-around of `int`.
unfoldable pub optpad : ℕ → ℕ → ℕ → ℕ
optpad xn y offset = bit_and ((y + 2 ^ 32 - offset % 2 ^ 32) % 2 ^ 32) (xn - 1)

-- The tables `_pad1` to `_pad7`, in the order of the tests. For another length the base is not set.
abbrev pub pad_bytes : ℕ → List ℕ
pad_bytes pad =
    if pad == 2
    then 0x01 ∷ 0x00 ∷ []
    else if pad == 4
    then 0x01 ∷ 0x02 ∷ 0x00 ∷ 0x00 ∷ []
    else if pad == 6
    then 0x01 ∷ 0x04 ∷ 0x00 ∷ 0x00 ∷ 0x00 ∷ 0x00 ∷ []
    else if pad == 1
    then 0x00 ∷ []
    else if pad == 3
    then 0x01 ∷ 0x01 ∷ 0x00 ∷ []
    else if pad == 5
    then 0x01 ∷ 0x03 ∷ 0x00 ∷ 0x00 ∷ 0x00 ∷ []
    else if pad == 7
    then 0x01 ∷ 0x05 ∷ 0x00 ∷ 0x00 ∷ 0x00 ∷ 0x00 ∷ 0x00 ∷ []
    else []

unfoldable pub create_opt_pad : ℕ → Iovec
create_opt_pad pad = record { iov_base = pad_bytes pad; iov_len = pad }

-- `opt->ip6mhopt_type`
abbrev pub opt_type : Iovec → ℕ
opt_type o = get_or o.iov_base 0 0

-- The switch of `mh_try_pad`; for other types `pad` keeps its last value.
unfoldable pub pad_before : ℕ → ℕ → ℕ → ℕ
unfolding optpad
pad_before type len pad =
    if type == brefresh
    then optpad 2 0 len
    else if type == altcoa
    then optpad 8 6 len
    else if type == nonceid
    then optpad 2 0 len
    else if type == bauth
    then optpad 8 2 len
    else if type == mob_net_prfx
    then optpad 8 4 len
    else if type == ipv4hoa
    then optpad 4 0 len
    else if type == ipv4coa
    then optpad 4 0 len
    else if type == ipv4ack
    then optpad 4 0 len
    else if type == nat
    then optpad 4 0 len
    else pad

-- `if (pad > 0) create_opt_pad(&out[n++], pad);`
unfoldable pub put_pad : ℕ → List Iovec → List Iovec
unfolding create_opt_pad
put_pad pad out = if ltb 0 pad then create_opt_pad pad ∷ out else out

-- The loop of `mh_try_pad` from an option on, and the padding at the end.
unfoldable pub pad_options : ℕ → ℕ → List Iovec → List Iovec
unfolding put_pad pad_before optpad
pad_options len pad [] = put_pad (optpad 8 0 len) []
pad_options len pad (o ∷ os) =
    let p = pad_before (opt_type o) len pad in
    put_pad p (o ∷ pad_options (len + p + o.iov_len) p os)

unfoldable pub mh_try_pad : Iovec → List Iovec → List Iovec
unfolding pad_options
mh_try_pad header opts = header ∷ pad_options header.iov_len 0 opts

unfoldable pub mh_length : List Iovec → ℕ
mh_length [] = 0
mh_length (v ∷ vs) = v.iov_len + mh_length vs
