-- ===== src/Tests/Encap.antt =====
-- The theorems on UDP encapsulation at sample inputs.
use dsmip.Common.{
  [], ℕ, ◌+◌, ◌*◌, ◌%◌, ◌≡◌, refl, true, false, some, List, ◌∷◌, ◌++◌, leb, pos, replicate, length,
  ◌==◌,
}
use dsmip.Encap.Skb.{Skb, Iphdr, Kernel, udp_encap_tlv, udp_encap_ip_vanilla}
use dsmip.Encap.Output.{get_tlv_type_from_packet}
use dsmip.Encap.Input.{
  netif_rx, find_inside_proto, find_ipv6_payload_type, next_header, next_hdr, udp_encap_proto_input,
  resubmit_as_ip,
}
use dsmip.Encap.Input.Safe.{find_inside_proto-get_tlv_type}

-- Each packet lies in one piece, no sender has a state, and nothing is marked.
abbrev kernel : Kernel
kernel = record {
  may_pull = λ bytes n. leb n (length bytes);
  moves = λ bytes n. false;
  optlen = λ b. (b + 1) * 8;
  has_state = λ d s. false;
  is_ce = λ tos. tos % 4 == 3;
  set_ce4 = λ bytes. bytes;
  set_ce6 = λ bytes. bytes;
}

-- UDP header, then an IPv4 header.
abbrev packet : Skb
packet = record {
  bytes = replicate 8 0 ++ 0x45 ∷ replicate 19 0;
  cb = udp_encap_ip_vanilla;
  protocol = 0;
  pkt_host = false;
  has_dst = true;
}

abbrev outer : Iphdr
outer = record { protocol = 17; saddr = 1; daddr = 2; tos = 0 }

taken :
    udp_encap_proto_input 0 kernel packet outer
    ≡ netif_rx (record packet {
      bytes = 0x45 ∷ replicate 19 0;
      protocol = 0x0800;
      pkt_host = true;
      has_dst = false;
    })
unfolding udp_encap_proto_input find_inside_proto resubmit_as_ip
taken = refl

-- Two bytes behind the UDP header, of version 1.
abbrev cut : Skb
cut = record packet { bytes = replicate 8 0 ++ 0x10 ∷ 0 ∷ [] }

-- An IPv6 header with destination options before a mobility header.
abbrev with_options : List ℕ
with_options = replicate 6 0 ++ 60 ∷ replicate 33 0 ++ 135 ∷ 0 ∷ replicate 14 0

walked : find_ipv6_payload_type (length with_options) kernel with_options ≡ next_header 135
unfolding find_ipv6_payload_type next_hdr
walked = refl

find_inside_proto-get_tlv_type_example :
    (p : ℕ) × (find_inside_proto kernel
        (record packet { cb = udp_encap_tlv; bytes = 2 ∷ 40 ∷ 0 ∷ 0 ∷ 0x60 ∷ replicate 39 0 })
      ≡ some (pos p, record packet { cb = udp_encap_tlv; bytes = 0x60 ∷ replicate 39 0 }))
    × (find_inside_proto kernel (record packet { bytes = 0x60 ∷ replicate 39 0 })
        ≡ some (pos p, record packet { bytes = 0x60 ∷ replicate 39 0 }))
unfolding get_tlv_type_from_packet
find_inside_proto-get_tlv_type_example =
    find_inside_proto-get_tlv_type kernel packet 0x60 2 40 0 0 (replicate 39 0) refl refl refl
