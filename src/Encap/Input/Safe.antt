-- ===== src/Encap/Input/Safe.antt =====
-- The reads of the input side of udpencap.c, and what it takes, and from whom.
use dsmip.Common.{
  ℕ, ◌<◌, ◌≡◌, ◌≢◌, arith, Bool, true, Bool-cases, inl, inr, some, List, ◌∷◌, get_elem?, length,
  pos, ◌==◌, ◌||◌, ◌⊎◌,
}
use dsmip.Encap.Skb.{Skb, Iphdr, Kernel, version, udp_encap_tlv, udp_encap_ip_vanilla}
use dsmip.Encap.Output.{get_tlv_type_from_packet}
use dsmip.Encap.Input.{
  Payload, next_header, too_short, bad_payload_read, no_fuel, find_inside_proto, resubmit_as_ip,
  resubmit_as_ipv6, pulled_size, udp_encap_proto_input,
}

-- The answers of a walk over extension headers that are wanted.
abbrev IsAnswer : Kernel → List ℕ → Payload → Type 0
IsAnswer k bytes (next_header n) = Unit {0}
IsAnswer k bytes too_short = Unit {0}
IsAnswer k bytes bad_payload_read = (n : ℕ) × (k.may_pull bytes n ≡ true) × (k.moves bytes n ≡ true)
IsAnswer k bytes no_fuel = ⊥

-- The diagnostic of `find_inside_proto` reads past the end: fewer than four bytes, of neither version.
abbrev pub IsCut : Kernel → Skb → Type 0
IsCut k inside =
    (inside.cb ≡ udp_encap_ip_vanilla)
    × (k.may_pull inside.bytes 1 ≡ true)
    × (length inside.bytes < 4)
    × ((b : ℕ) × (get_elem? inside.bytes 0 ≡ some b) × (version b ≢ 4) × (version b ≢ 6))

-- The outer header is read after a pull has moved the data.
abbrev pub IsStale : Kernel → Skb → Type 0
IsStale k inside =
    (p : ℕ) × (inside' : Skb) × (find_inside_proto k inside ≡ some (pos p, inside'))
    × (((p ≡ 0)
          × (k.may_pull inside'.bytes 20 ≡ true)
          × (((k.moves inside.bytes (pulled_size inside.cb)) || k.moves inside'.bytes 20) ≡ true))
        ⊎ ((p ≡ 41)
            × (k.may_pull inside'.bytes 40 ≡ true)
            × (((k.moves inside.bytes (pulled_size inside.cb)) || k.moves inside'.bytes 40)
                ≡ true)))

-- Whether the sender has a state makes no difference: a packet of an unknown sender is treated as
-- one of a known sender.
udp_encap_proto_input-any_sender :
    (fuel : ℕ) (k : Kernel) (known : ℕ → ℕ → Bool) (skb : Skb) (top : Iphdr)
    → udp_encap_proto_input fuel k skb top
      ≡ udp_encap_proto_input fuel (record k { has_state = known }) skb top
unfolding udp_encap_proto_input find_inside_proto resubmit_as_ip resubmit_as_ipv6
udp_encap_proto_input-any_sender fuel k known skb top = ground arith

-- If the output side gives a packet a TLV type, then the input side, where both headers can be pulled,
-- finds in the packet with its TLV header the protocol that it finds in the packet without one, and
-- leaves the packet itself.
pub find_inside_proto-get_tlv_type :
    (k : Kernel) (skb : Skb) (b t length r₁ r₂ : ℕ) (rest : List ℕ)
    → get_tlv_type_from_packet b ≡ some t
    → k.may_pull (t ∷ length ∷ r₁ ∷ r₂ ∷ b ∷ rest) 4 ≡ true
    → k.may_pull (b ∷ rest) 1 ≡ true
    → (p : ℕ) × (find_inside_proto k
          (record skb { cb = udp_encap_tlv; bytes = t ∷ length ∷ r₁ ∷ r₂ ∷ b ∷ rest })
        ≡ some (pos p, record skb { cb = udp_encap_tlv; bytes = b ∷ rest }))
      × (find_inside_proto k (record skb { cb = udp_encap_ip_vanilla; bytes = b ∷ rest })
          ≡ some (pos p, record skb { cb = udp_encap_ip_vanilla; bytes = b ∷ rest }))
unfolding find_inside_proto get_tlv_type_from_packet
find_inside_proto-get_tlv_type k skb b t length r₁ r₂ rest e m n =
    elim (Bool-cases (version b == 4)) [
      | inl v ↦ (0, ground arith, ground arith)
      | inr v ↦ (41, ground arith, ground arith)
    ]
