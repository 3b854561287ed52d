-- ===== src/Mobility/Messages.antt =====
-- `mh_create`, the header length that `sendba` sets, and `recvbu` after `recvmsg`, of ha.c.
pub mod CareOf
use dsmip.Common.{
  ℕ, zero, suc, ◌+◌, ◌-◌, ◌*◌, ◌/◌, ◌%◌, Bool, Option, none, some, List, [], ◌∷◌, ◌++◌, get_elem?,
  get_or, drop, replicate, length, ltb, leb, ◌==◌, if◌then◌else◌,
}
use dsmip.Mobility.Options.{altcoa}
use dsmip.Mobility.Pad.{Iovec, mh_length}
use dsmip.Mobility.Parse.{
  MhOptions, Parsed, options, einval, bad_read, bad_table_read, out_of_fuel, mh_opt_parse, mh_opt,
}

-- `_mh_len`, the sizes of the packed structs.
abbrev pub mh_len : List ℕ
mh_len = 8 ∷ 16 ∷ 16 ∷ 24 ∷ 24 ∷ 12 ∷ 12 ∷ 24 ∷ []

-- `none` for a type above `IP6_MH_TYPE_MAX`; `malloc` succeeds. 59 is `IPPROTO_NONE`.
unfoldable pub mh_create : ℕ → Option Iovec
mh_create type = elim (get_elem? mh_len type) [
  | none ↦ none
  | some n ↦
      some (record { iov_base = 59 ∷ 0 ∷ type ∷ 0 ∷ 0 ∷ 0 ∷ replicate (n - 6) 0; iov_len = n })
]

-- `(mh_length(iov, iov_count) >> 3) - 1`, as a byte.
unfoldable pub mh_hdrlen : List Iovec → ℕ
mh_hdrlen iov = (mh_length iov / 8 + 255) % 256

abbrev pub take : ℕ → List ℕ → List ℕ
take zero xs = []
take (suc n) [] = []
take (suc n) (x ∷ xs) = x ∷ take n xs

-- What `recvbu` hands back: -1, or the interface with the care-of address' bytes and the sequence
-- number. `undefined`: it reads by NULL or out of bounds.
pub data Received : Type 0 where
  failed : Received
  bound : ℕ → List ℕ → ℕ → Received
  undefined : Received

-- `memcpy(coa, &(_coa->ip6moa_addr), sizeof(struct in6_addr))` from the buffer `bytes`.
abbrev pub copy_coa : List ℕ → ℕ → ℕ → Option ℕ → Received
copy_coa bytes ifindex seqno none = undefined
copy_coa bytes ifindex seqno (some at) =
    if leb (at + 18) (length bytes)
    then bound ifindex (take 16 (drop (at + 2) bytes)) seqno
    else undefined

-- From `mh=(struct ip6_mh*)msg` on, for a message of `len` bytes in the buffer `bytes`.
unfoldable pub recvbu : List ℕ → ℕ → ℕ → Received
unfolding mh_opt_parse mh_opt
recvbu bytes len ifindex =
    let seqno = get_or bytes 6 0 * 256 + get_or bytes 7 0 in
    if get_or bytes 2 0 == 5
    then elim (mh_opt_parse bytes len 12) [
      | options n o ↦ copy_coa bytes ifindex seqno (mh_opt o altcoa)
      | einval ↦ failed
      | bad_read ↦ undefined
      | bad_table_read ↦ undefined
      | out_of_fuel ↦ undefined
    ]
    else failed
