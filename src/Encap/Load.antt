-- ===== src/Encap/Load.antt =====
-- `udp_encap_init` and `udp_encap_fini` of udpencap.c, on what is registered with the kernel.
use dsmip.Common.{ℤ, pos, negsuc, Bool, true, false, ◌≡◌, ◌↔◌, ◌&&◌, arith, if◌then◌else◌}

pub record Registry : Type 0 where
  pub has_type : Bool
  pub has_protocol : Bool

-- The arguments are whether `xfrm_register_type` and `inet_add_protocol` succeed; a failure registers
-- nothing. -EAGAIN is -11.
unfoldable pub udp_encap_init : Bool → Bool → Registry → ℤ × Registry
udp_encap_init type_ok protocol_ok r =
    if type_ok
    then (if protocol_ok
        then (pos 0, record { has_type = true; has_protocol = true })
        else (negsuc 10, record r { has_type = false }))
    else (negsuc 10, r)

-- The arguments are whether `inet_del_protocol` and `xfrm_unregister_type` succeed.
unfoldable pub udp_encap_fini : Bool → Bool → Registry → Registry
udp_encap_fini protocol_ok type_ok r =
    let r' : Registry = if protocol_ok then record r { has_protocol = false } else r in
    if type_ok then record r' { has_type = false } else r'

abbrev pub unloaded : Registry
unloaded = record { has_type = false; has_protocol = false }

-- Loading returns 0 exactly if both calls succeed, and then unloading, if its calls succeed, takes
-- both entries back; a load that fails leaves nothing registered.
udp_encap_init-fini :
    (type_ok protocol_ok : Bool)
    → let r = udp_encap_init type_ok protocol_ok unloaded in
      ((r.0 ≡ pos 0) ↔ ((type_ok && protocol_ok) ≡ true))
      × (udp_encap_fini true true r.1 ≡ unloaded)
      × ((r.0 ≡ negsuc 10) ↔ (r.1 ≡ unloaded))
unfolding udp_encap_init udp_encap_fini
udp_encap_init-fini type_ok protocol_ok = (ground arith, ground arith, ground arith)
