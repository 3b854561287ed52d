-- ===== src/Mobile/Updates.antt =====
-- The packet that `sendbu` of mn/mn.c sends.
use dsmip.Common.{
  ℕ, ◌+◌, ◌*◌, ◌/◌, ◌%◌, ◌^◌, ◌≡◌, refl, ap, ap₂, subst, get_or, arith, Bool, true, false, List, [],
  ◌∷◌, ◌++◌, length,
}
use dsmip.Mobility.Parse.{mh_opt_parse, parse_loop, parse_step, parse_option, record_option, mh_opt}
use dsmip.Mobility.Options.{mh_opt_len_ok}
use dsmip.Mobility.Messages.{take, bound, recvbu}

-- A 16-bit number as it lies in the memory of a machine, which may have the low byte first.
abbrev pub stored : Bool → ℕ → List ℕ
stored true n = n % 2 ^ 8 ∷ n / 2 ^ 8 % 2 ^ 8 ∷ []
stored false n = n / 2 ^ 8 % 2 ^ 8 ∷ n % 2 ^ 8 ∷ []

abbrev pub htons : Bool → ℕ → ℕ
htons true n = n % 2 ^ 8 * 2 ^ 8 + n / 2 ^ 8 % 2 ^ 8
htons false n = n % 2 ^ 16

-- `IP6_MH_BU_ACK|IP6_MH_BU_HOME`, whose values depend on the machine too.
abbrev pub ack_home : Bool → ℕ
ack_home true = 0x00c0
ack_home false = 0xc000

-- The header of 12 bytes, the pad, and the alternate care-of address.
unfoldable pub bu_packet : Bool → List ℕ → ℕ → List ℕ
bu_packet is_little coa seqno =
    59 ∷ 3 ∷ 5 ∷ 0 ∷ 0 ∷ 0 ∷ stored is_little (htons is_little seqno)
    ++ stored is_little (htons is_little (ack_home is_little))
    ++ stored is_little (htons is_little 2500)
    ++ (1 ∷ 0 ∷ 3 ∷ 16 ∷ coa)

take-length : (xs : List ℕ) → take (length xs) xs ≡ xs
take-length [] = refl
take-length (x ∷ xs) = ap (λ ys. x ∷ ys) (take-length xs)

-- What `htons` swaps and the low byte first swaps again.
swapped_lem : (n : ℕ) → let m = htons true n in m % 2 ^ 8 * 2 ^ 8 + m / 2 ^ 8 % 2 ^ 8 ≡ n % 2 ^ 16
swapped_lem n = omega arith

-- On either order of bytes, the Home Agent's recvbu gets from the packet that sendbu builds the 16
-- bytes of the care-of address and the sequence number modulo 2 to the 16.
pub recvbu-bu_packet :
    (is_little : Bool) (coa : List ℕ) (seqno ifindex : ℕ)
    → length coa ≡ 16
    → recvbu (bu_packet is_little coa seqno) 32 ifindex ≡ bound ifindex coa (seqno % 2 ^ 16)
unfolding bu_packet recvbu mh_opt_parse parse_loop parse_step parse_option record_option
    mh_opt_len_ok mh_opt
recvbu-bu_packet true coa seqno ifindex len =
    rw (len) (
      ap₂ (bound ifindex) (subst (λ k. take k coa ≡ coa) len (take-length coa)) (swapped_lem seqno))
recvbu-bu_packet false coa seqno ifindex len =
    rw (len)
      (ap₂ (bound ifindex) (subst (λ k. take k coa ≡ coa) len (take-length coa)) (omega arith))

-- The flags as they are on the wire.
abbrev pub flags_of : List ℕ → ℕ
flags_of bytes = get_or bytes 8 0 * 2 ^ 8 + get_or bytes 9 0

bu_packet-flags :
    (coa : List ℕ) (seqno : ℕ)
    → (flags_of (bu_packet false coa seqno) ≡ 0xc000)
      × (flags_of (bu_packet true coa seqno) ≡ 0x00c0)
unfolding bu_packet
bu_packet-flags coa seqno = (refl, refl)
