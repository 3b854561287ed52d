-- ===== src/Mobility/Messages/CareOf.antt =====
-- What `recvbu` takes for the care-of address, and the header length of what `sendba` sends.
use dsmip.Common.{
  ℕ, ◌+◌, ◌*◌, ◌≤◌, ◌≡◌, ◌≢◌, refl, ap, arith, true, Bool-cases, inl, inr, Option-cases, some, List,
  get_or, length, drop, ◌==◌,
}
use dsmip.Mobility.Options.{altcoa}
use dsmip.Mobility.Pad.{Iovec, mh_try_pad, mh_length}
use dsmip.Mobility.Pad.Aligned.{mh_try_pad_lem}
use dsmip.Mobility.Parse.{
  Parsed, options, einval, bad_read, bad_table_read, out_of_fuel, mh_opt_parse, mh_opt, parse_loop,
  parse_step,
}
use dsmip.Mobility.Parse.Pass.{IsRecorded}
use dsmip.Mobility.Parse.Recorded.{mh_opt-IsRecorded}
use dsmip.Mobility.Messages.{mh_hdrlen, take, failed, bound, undefined, copy_coa, recvbu}

-- For a header of at least 8 bytes and a padded message of at most 2048, the header length that is
-- sent counts the message exactly, in units of 8 bytes after the first.
mh_hdrlen-mh_try_pad :
    (header : Iovec) (opts : List Iovec)
    → 8 ≤ header.iov_len
    → mh_length (mh_try_pad header opts) ≤ 2048
    → (mh_hdrlen (mh_try_pad header opts) + 1) * 8 ≡ mh_length (mh_try_pad header opts)
unfolding mh_hdrlen mh_length
mh_hdrlen-mh_try_pad header opts le lt =
    let p = mh_try_pad_lem header opts in
    let whole : mh_length (mh_try_pad header opts) ≡ header.iov_len + mh_length p.0 =
      ap mh_length p.1 in
    omega (arith, p.2, whole)

failed-ne : {index : ℕ} {coa : List ℕ} {seqno : ℕ} → failed ≢ bound index coa seqno
failed-ne e = ground arith

undefined-ne : {index : ℕ} {coa : List ℕ} {seqno : ℕ} → undefined ≢ bound index coa seqno
undefined-ne e = ground arith

copied :
    (bytes : List ℕ) (ifindex n at index : ℕ) (coa : List ℕ) (seqno : ℕ)
    → copy_coa bytes ifindex n (some at) ≡ bound index coa seqno
    → (at + 18 ≤ length bytes) × (coa ≡ take 16 (drop (at + 2) bytes))
copied bytes ifindex n at index coa seqno q = ground arith

-- The care-of address that recvbu hands back is the 16 bytes of the buffer behind the header of an
-- option of the alternate care-of address' type. The two bytes of the header are in the packet; the
-- address may reach beyond its end.
pub recvbu-IsRecorded :
    (bytes : List ℕ) (len ifindex : ℕ) (coa : List ℕ) (index seqno : ℕ)
    → len ≤ length bytes
    → recvbu bytes len ifindex ≡ bound index coa seqno
    → (at : ℕ) × IsRecorded bytes 12 len altcoa at
      × (at + 18 ≤ length bytes)
      × (coa ≡ take 16 (drop (at + 2) bytes))
unfolding recvbu
recvbu-IsRecorded bytes len ifindex coa index seqno fits q =
    elim (Bool-cases (get_or bytes 2 0 == 5)) [
      | inl b ↦ parsed b (mh_opt_parse bytes len 12) refl
      | inr b ↦ absurd (failed-ne (rw (recvbu, b) at q))
    ]
  where
    parsed :
        (get_or bytes 2 0 == 5) ≡ true
        → (p : Parsed) → mh_opt_parse bytes len 12 ≡ p
        → (at : ℕ) × IsRecorded bytes 12 len altcoa at
          × (at + 18 ≤ length bytes)
          × (coa ≡ take 16 (drop (at + 2) bytes))
    parsed b einval e = absurd (failed-ne (rw (recvbu, b, e) at q))
    parsed b bad_read e = absurd (undefined-ne (rw (recvbu, b, e) at q))
    parsed b bad_table_read e = absurd (undefined-ne (rw (recvbu, b, e) at q))
    parsed b out_of_fuel e = absurd (undefined-ne (rw (recvbu, b, e) at q))
    parsed b (options n o) e = elim (Option-cases (mh_opt o altcoa)) [
      | inl k ↦ absurd (undefined-ne (rw (recvbu, b, e, k) at q))
      | inr (at, k) ↦ (
        at,
        mh_opt-IsRecorded bytes len 12 n altcoa at o fits e k,
        (copied bytes ifindex _ at index coa seqno (rw (recvbu, b, e, k) at q)).0,
        (copied bytes ifindex _ at index coa seqno (rw (recvbu, b, e, k) at q)).1,
      )
    ]

-- A binding update without options makes recvbu read through NULL.
recvbu-undefined :
    (bytes : List ℕ) (len ifindex : ℕ)
    → get_or bytes 2 0 ≡ 5
    → len ≤ 12
    → recvbu bytes len ifindex ≡ undefined
unfolding recvbu mh_opt_parse parse_loop parse_step mh_opt
recvbu-undefined bytes len ifindex e le = ground arith
