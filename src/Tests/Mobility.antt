-- ===== src/Tests/Mobility.antt =====
-- The theorems on mobility headers at sample inputs.
use dsmip.Common.{◌≤◌, length, ℕ, ◌≢◌, ◌+◌, ◌%◌, ◌≡◌, refl, arith, List, [], ◌∷◌, drop, replicate}
use dsmip.Mobility.Options.{altcoa, mh_opt_len_ok}
use dsmip.Mobility.Pad.{
  Iovec, optpad, create_opt_pad, pad_before, put_pad, pad_options, mh_try_pad, mh_length,
}
use dsmip.Mobility.Pad.Aligned.{AllStart, without_pads, mh_try_pad_lem}
use dsmip.Mobility.Parse.{
  bad_read, bad_table_read, MhOptions, parse_option, parse_step, parse_loop, record_option,
  mh_opt_parse, mh_opt,
}
use dsmip.Mobility.Parse.Pass.{IsRecorded, IsDoubled}
use dsmip.Mobility.Parse.Recorded.{mh_opt-IsRecorded, mh_opt_parse-IsDoubled}
use dsmip.Mobility.Messages.{take, bound, recvbu}
use dsmip.Mobility.Messages.CareOf.{recvbu-IsRecorded}

abbrev header : Iovec
header = record { iov_base = 59 ∷ 0 ∷ 5 ∷ 0 ∷ 0 ∷ 0 ∷ []; iov_len = 12 }

abbrev care_of : List ℕ
care_of = 32 ∷ 1 ∷ 13 ∷ 184 ∷ 0 ∷ 0 ∷ 0 ∷ 0 ∷ 0 ∷ 0 ∷ 0 ∷ 0 ∷ 0 ∷ 0 ∷ 0 ∷ 7 ∷ []

abbrev altcoa_option : Iovec
altcoa_option = record { iov_base = 3 ∷ 16 ∷ care_of; iov_len = 18 }

-- An alternate care-of address after a header of 12 bytes wants a pad of two bytes.
padded : mh_try_pad header (altcoa_option ∷ []) ≡ header ∷ create_opt_pad 2 ∷ altcoa_option ∷ []
unfolding mh_try_pad pad_options pad_before put_pad optpad
padded = refl

mh_try_pad_lem_example :
    (out : List Iovec) × (mh_try_pad header (altcoa_option ∷ []) ≡ header ∷ out)
    × (mh_length (mh_try_pad header (altcoa_option ∷ [])) % 8 ≡ 0)
    × AllStart 12 out
    × (without_pads out ≡ altcoa_option ∷ [])
mh_try_pad_lem_example = mh_try_pad_lem header (altcoa_option ∷ [])

-- A binding update with its sequence number 258, a pad and the alternate care-of address.
abbrev update : List ℕ
update = 59 ∷ 3 ∷ 5 ∷ 0 ∷ 0 ∷ 0 ∷ 1 ∷ 2 ∷ 0 ∷ 0 ∷ 0 ∷ 0 ∷ 1 ∷ 0 ∷ 3 ∷ 16 ∷ care_of

received : recvbu update 32 4 ≡ bound 4 care_of 258
unfolding recvbu mh_opt_parse parse_loop parse_step parse_option record_option mh_opt_len_ok mh_opt
received = refl

recvbu-IsRecorded_example :
    (at : ℕ) × IsRecorded update 12 32 altcoa at
    × (at + 18 ≤ length update)
    × (care_of ≡ take 16 (drop (at + 2) update))
recvbu-IsRecorded_example = recvbu-IsRecorded update 32 4 care_of 4 258 (omega arith) received

abbrev zeros : List ℕ
zeros = replicate 21 0

abbrev recorded : MhOptions
recorded = record { opts = 0 ∷ 0 ∷ 0 ∷ 14 ∷ zeros; opts_end = 0 ∷ 0 ∷ 0 ∷ 0 ∷ zeros }

mh_opt-IsRecorded_example : IsRecorded update 12 32 altcoa 14
unfolding mh_opt_parse parse_loop parse_step parse_option record_option mh_opt_len_ok mh_opt
mh_opt-IsRecorded_example =
    mh_opt-IsRecorded update 32 12 1 altcoa 14 recorded (omega arith) refl refl

-- Two options of type 11, which the parser does not know.
abbrev doubled : List ℕ
doubled = 59 ∷ 0 ∷ 5 ∷ 0 ∷ 0 ∷ 0 ∷ 0 ∷ 0 ∷ 0 ∷ 0 ∷ 0 ∷ 0 ∷ 11 ∷ 0 ∷ 11 ∷ 0 ∷ []

mh_opt_parse-IsDoubled_example :
    (mh_opt_parse doubled 16 12 ≢ bad_read)
    × (mh_opt_parse doubled 16 12 ≡ bad_table_read → IsDoubled doubled 12 16)
mh_opt_parse-IsDoubled_example = mh_opt_parse-IsDoubled doubled 16 12 (omega arith)

past_table : mh_opt_parse doubled 16 12 ≡ bad_table_read
unfolding mh_opt_parse parse_loop parse_step parse_option record_option mh_opt_len_ok
past_table = refl
