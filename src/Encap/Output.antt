-- ===== src/Encap/Output.antt =====
-- `get_tlv_type_from_packet`, `udp_encap_output` and `udp_encap_init_state` of udpencap.c.
use dsmip.Common.{
  ℕ, ◌-◌, ◌*◌, ◌%◌, ◌^◌, ◌≡◌, ◌↔◌, arith, Bool, true, false, not, Option, none, some, ◌==◌,
  if◌then◌else◌,
}
use dsmip.Encap.Skb.{
  udp_encap_ip_vanilla, udp_encap_tlv, udp_encap_tlv_ipv4, udp_encap_tlv_ipv6, version,
}

-- `none` for -EINVAL.
unfoldable pub get_tlv_type_from_packet : ℕ → Option ℕ
get_tlv_type_from_packet b =
    if version b == 4
    then some udp_encap_tlv_ipv4
    else if version b == 6
    then some udp_encap_tlv_ipv6
    else none

-- `struct xfrm_encap_tmpl`
pub record Tmpl : Type 0 where
  pub encap_type : ℕ
  pub encap_sport : ℕ
  pub encap_dport : ℕ
  pub encap_oa : ℕ

-- `struct udphdr` and `struct tlvhdr`, in host order.
pub record Udphdr : Type 0 where
  pub source : ℕ
  pub dest : ℕ
  pub len : ℕ
  pub check : ℕ

pub record Tlvhdr : Type 0 where
  pub type : ℕ
  pub length : ℕ
  pub reserved : ℕ

-- The headers in front of a packet, with the fields of the outer one that the code writes.
pub record Headers : Type 0 where
  pub tot_len : ℕ
  pub protocol : ℕ
  pub daddr : ℕ
  pub udp : Option Udphdr
  pub tlv : Option Tlvhdr

-- `udp_encap_output` on a packet of `len` bytes with its outer header, whose first byte after all
-- headers is `inner`, and where the outer header has `ihl` words. `none` for -EINVAL.
unfoldable pub udp_encap_output : Option Tmpl → ℕ → ℕ → ℕ → ℕ → Headers → Option Headers
unfolding get_tlv_type_from_packet
udp_encap_output none header_len len ihl inner h = some (record h { tot_len = len % 2 ^ 16 })
udp_encap_output (some encap) header_len len ihl inner h =
    let uh : Udphdr = record {
      source = encap.encap_sport;
      dest = encap.encap_dport;
      len = (len - ihl * 4) % 2 ^ 16;
      check = 0;
    } in
    let h' : Headers = record h {
      tot_len = len % 2 ^ 16;
      protocol = 17;
      daddr = if encap.encap_oa == 0 then h.daddr else encap.encap_oa;
      udp = some uh;
    } in
    if encap.encap_type == udp_encap_tlv
    then elim (get_tlv_type_from_packet inner) [
      | none ↦ none
      | some t ↦ some (record h' {
        tlv = some (record { type = t; length = (len - header_len) % 2 ^ 8; reserved = 0 });
      })
    ]
    else some h'

-- `udp_encap_init_state`: the return value is 0 where `accepted`; `header_len` is set in any case that
-- reaches its assignment. The TLV case falls through to the default.
pub record InitState : Type 0 where
  pub accepted : Bool
  pub header_len : ℕ

unfoldable pub udp_encap_init_state : Bool → Option ℕ → ℕ → InitState
udp_encap_init_state is_tunnel encap header_len =
    if not is_tunnel then record { accepted = false; header_len = header_len } else elim encap [
      | none ↦ record { accepted = false; header_len = header_len }
      | some type ↦
          if type == udp_encap_ip_vanilla
          then record { accepted = true; header_len = 28 }
          else if type == udp_encap_tlv
          then record { accepted = false; header_len = 32 }
          else record { accepted = false; header_len = header_len }
    ]

-- Only a tunnel with the vanilla encapsulation is accepted, so no state with a TLV header can exist.
udp_encap_init_state-accepted :
    (is_tunnel : Bool) (encap : Option ℕ) (header_len : ℕ)
    → ((udp_encap_init_state is_tunnel encap header_len).accepted ≡ true)
      ↔ ((is_tunnel ≡ true) × (encap ≡ some udp_encap_ip_vanilla))
unfolding udp_encap_init_state
udp_encap_init_state-accepted is_tunnel encap header_len = ground arith
