-- ===== src/Encap/Input.antt =====
-- The input side of udpencap.c. `none`, or `bad_read`: a read past the end of the packet or, through
-- a pointer taken before, of data that a pull has moved.
pub mod Safe
use dsmip.Common.{
  ℕ, zero, suc, ◌+◌, ◌-◌, Bool, true, false, not, ◌||◌, Option, none, some, List, [], ◌∷◌,
  get_elem?, drop, length, leb, ℤ, pos, negsuc, ◌==◌, if◌then◌else◌,
}
use dsmip.Encap.Skb.{
  udp_encap_ip_vanilla, udp_encap_tlv, udp_encap_tlv_ipv4, udp_encap_tlv_ipv6, udp_encap_tlv_ipsec,
  udp_encap_tlv_gre, Skb, Iphdr, Kernel, version,
}

pub data Outcome : Type 0 where
  netif_rx : Skb → Outcome
  dropped : Outcome
  bad_read : Outcome
  out_of_fuel : Outcome

-- `resubmit_as_ip`. `top_iph` was taken before any pull; `moved`: one has moved the data since.
unfoldable pub resubmit_as_ip : Kernel → Bool → Skb → Iphdr → Outcome
resubmit_as_ip k moved skb top =
    if not (k.may_pull skb.bytes 20)
    then dropped
    else if moved || k.moves skb.bytes 20
    then bad_read
    else netif_rx (record skb {
      bytes = if k.is_ce top.tos then k.set_ce4 skb.bytes else skb.bytes;
      protocol = 0x0800;
      pkt_host = true;
      has_dst = false;
    })

unfoldable pub resubmit_as_ipv6 : Kernel → Bool → Skb → Iphdr → Outcome
resubmit_as_ipv6 k moved skb top =
    if not (k.may_pull skb.bytes 40)
    then dropped
    else if moved || k.moves skb.bytes 40
    then bad_read
    else netif_rx (record skb {
      bytes = if k.is_ce top.tos then k.set_ce6 skb.bytes else skb.bytes;
      protocol = 0x86dd;
      pkt_host = true;
      has_dst = false;
    })

-- `IPPROTO_IP`, `IPPROTO_IPV6`, `IPPROTO_ESP` and `IPPROTO_GRE` are 0, 41, 50 and 47.
abbrev pub proto_of_version : ℕ → ℤ
proto_of_version v = if v == 4 then pos 0 else if v == 6 then pos 41 else negsuc 0

abbrev pub proto_of_tlv : ℕ → ℤ
proto_of_tlv t =
    if t == udp_encap_tlv_ipv4
    then pos 0
    else if t == udp_encap_tlv_ipv6
    then pos 41
    else if t == udp_encap_tlv_ipsec
    then pos 50
    else if t == udp_encap_tlv_gre
    then pos 47
    else negsuc 0

-- The diagnostic for another version reads four bytes from the first one on.
unfoldable pub find_inside_proto : Kernel → Skb → Option (ℤ × Skb)
find_inside_proto k skb =
    if skb.cb == udp_encap_ip_vanilla
    then (if not (k.may_pull skb.bytes 1)
        then some (negsuc 0, skb)
        else elim (get_elem? skb.bytes 0) [
          | none ↦ none
          | some b ↦
              if (version b == 4 || version b == 6) || leb 4 (length skb.bytes)
              then some (proto_of_version (version b), skb)
              else none
        ])
    else if skb.cb == udp_encap_tlv
    then (if not (k.may_pull skb.bytes 4)
        then some (negsuc 0, skb)
        else elim (get_elem? skb.bytes 0) [
          | none ↦ none
          | some t ↦ some (proto_of_tlv t, record skb { bytes = drop 4 skb.bytes })
        ])
    else some (negsuc 0, skb)

-- `find_ipv6_payload_type`, its jump back on fuel.
pub data Payload : Type 0 where
  next_header : ℕ → Payload
  too_short : Payload
  bad_payload_read : Payload
  no_fuel : Payload

-- `IPPROTO_HOPOPTS`, `IPPROTO_ROUTING`, `IPPROTO_DSTOPTS`
abbrev pub is_skipped : ℕ → Bool
is_skipped next = next == 0 || (next == 43 || next == 60)

-- The byte at `i`, read after a pull of `n` bytes through a pointer from before it.
unfoldable pub unmoved_byte : Kernel → List ℕ → ℕ → ℕ → Option ℕ
unmoved_byte k bytes n i = if k.moves bytes n then none else get_elem? bytes i

-- At the label `next_hdr`: `p` stands `hdrlen` bytes into the packet.
unfoldable pub next_hdr : ℕ → Kernel → List ℕ → ℕ → ℕ → Payload
unfolding unmoved_byte
next_hdr zero k bytes hdrlen next = no_fuel
next_hdr (suc fuel) k bytes hdrlen next = elim (is_skipped next) [
  | false ↦ next_header next
  | true ↦ elim (k.may_pull bytes (hdrlen + 2)) [
    | false ↦ too_short
    | true ↦ elim (unmoved_byte k bytes (hdrlen + 2) (hdrlen + 1)) [
      | none ↦ bad_payload_read
      | some b ↦ elim (k.may_pull bytes (hdrlen + k.optlen b)) [
        | false ↦ too_short
        | true ↦ elim (unmoved_byte k bytes (hdrlen + k.optlen b) hdrlen) [
          | none ↦ bad_payload_read
          | some n ↦ next_hdr fuel k bytes (hdrlen + k.optlen b) n
        ]
      ]
    ]
  ]
]

unfoldable pub find_ipv6_payload_type : ℕ → Kernel → List ℕ → Payload
unfolding next_hdr unmoved_byte
find_ipv6_payload_type fuel k bytes =
    if not (k.may_pull bytes 40) then too_short else elim (unmoved_byte k bytes 40 6) [
      | none ↦ bad_payload_read
      | some n ↦ next_hdr fuel k bytes 40 n
    ]

-- The label `look_inside`. `IPPROTO_MH`, `IPPROTO_ESP` and `IPPROTO_AH` are 135, 50 and 51. What moves the
-- data in `find_ipv6_payload_type` makes that function read through a stale pointer itself.
unfoldable pub look_inside : ℕ → Kernel → Bool → Skb → Iphdr → Outcome
unfolding find_ipv6_payload_type resubmit_as_ipv6
look_inside fuel k moved skb top = elim (find_ipv6_payload_type fuel k skb.bytes) [
  | next_header n ↦
      if n == 135 || (n == 50 || n == 51) then resubmit_as_ipv6 k moved skb top else dropped
  | too_short ↦ dropped
  | bad_payload_read ↦ bad_read
  | no_fuel ↦ out_of_fuel
]

-- What `find_inside_proto` pulls: a byte, or `struct tlvhdr`.
abbrev pub pulled_size : ℕ → ℕ
pulled_size cb = if cb == udp_encap_ip_vanilla then 1 else 4

-- `accept` is 1 from its declaration on, and is only set to 1 again.
unfoldable pub udp_encap_proto_input : ℕ → Kernel → Skb → Iphdr → Outcome
unfolding find_inside_proto resubmit_as_ip resubmit_as_ipv6 look_inside
udp_encap_proto_input fuel k skb top =
    let accept = if k.has_state top.daddr top.saddr then 1 else 1 in
    let inside = record skb { bytes = drop 8 skb.bytes } in
    let moved = k.moves inside.bytes (pulled_size skb.cb) in
    if not (top.protocol == 17) then dropped else elim (find_inside_proto k inside) [
      | none ↦ bad_read
      | some (proto, skb') ↦ elim proto [
        | negsuc n ↦ dropped
        | pos p ↦
            if p == 0
            then (if accept == 0 then dropped else resubmit_as_ip k moved skb' top)
            else if p == 41
            then (if accept == 0
                then look_inside fuel k moved skb' top
                else resubmit_as_ipv6 k moved skb' top)
            else dropped
      ]
    ]
