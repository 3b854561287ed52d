-- ===== src/Encap/Skb.antt =====
-- The packets of udpencap.c, its constants, and what it uses of the kernel.
use dsmip.Common.{ℕ, ◌≤◌, ◌≡◌, ◌/◌, Bool, true, List, length}

abbrev pub udp_encap_ip_vanilla : ℕ
udp_encap_ip_vanilla = 4

abbrev pub udp_encap_tlv : ℕ
udp_encap_tlv = 5

abbrev pub udp_encap_tlv_ipv4 : ℕ
udp_encap_tlv_ipv4 = 1

abbrev pub udp_encap_tlv_ipv6 : ℕ
udp_encap_tlv_ipv6 = 2

abbrev pub udp_encap_tlv_ipsec : ℕ
udp_encap_tlv_ipsec = 3

abbrev pub udp_encap_tlv_gre : ℕ
udp_encap_tlv_gre = 4

-- `struct sk_buff`: its bytes from the network header on, the encapsulation type in `cb`, and the
-- fields that a resubmission sets.
pub record Skb : Type 0 where
  pub bytes : List ℕ
  pub cb : ℕ
  pub protocol : ℕ
  pub pkt_host : Bool
  pub has_dst : Bool

-- The fields of the outer header that are read on input.
pub record Iphdr : Type 0 where
  pub protocol : ℕ
  pub saddr : ℕ
  pub daddr : ℕ
  pub tos : ℕ

-- The kernel: `pskb_may_pull`, whether it moves the data that it pulls, so that pointers into it are
-- stale, `ipv6_optlen` of an option's length byte, whether
-- `xfrm_state_lookup_byaddr` finds a state, `INET_ECN_is_ce`, and the marks set by `IP_ECN_set_ce` and
-- `IP6_ECN_set_ce`.
pub record Kernel : Type 0 where
  pub may_pull : List ℕ → ℕ → Bool
  pub moves : List ℕ → ℕ → Bool
  pub optlen : ℕ → ℕ
  pub has_state : ℕ → ℕ → Bool
  pub is_ce : ℕ → Bool
  pub set_ce4 : List ℕ → List ℕ
  pub set_ce6 : List ℕ → List ℕ

-- What pskb_may_pull and ipv6_optlen are documented to do: the bytes are there, and an extension
-- header has at least 8 bytes.
pub record IsKernel (k : Kernel) : Type 0 where
  pub pulled : (bytes : List ℕ) (n : ℕ) → k.may_pull bytes n ≡ true → n ≤ length bytes
  pub optlen_pos : (b : ℕ) → 8 ≤ k.optlen b

-- `version` of a first byte.
abbrev pub version : ℕ → ℕ
version b = b / 16
