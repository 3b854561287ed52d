-- ===== src/Ha/Cleanup/Result.antt =====
-- What `mn_state_cleanup` of ha.c returns.
use dsmip.Common.{◌≡◌, ◌↔◌, ◌⊎◌, arith, true, none, ◌∷◌, is_pos, is_neg, is_nonzero}
use dsmip.Ha.State.{Config, Host, Log, mobile, route4_del, route_del, tunnel44_del, tunnel64_del}
use dsmip.Ha.Cleanup.{DelResult, cleanup_encap, cleanup_tunnel44, mn_state_cleanup_result}

-- The calls up to the deletion of the first tunnel, and up to that of the second.
abbrev pub deleted44 : Config → Host → Log
deleted44 cfg h =
    tunnel44_del h.mn.tnl44_ifindex
    ∷ route4_del h.mn.tnl44_ifindex mobile h.mn.hoav4
    ∷ cleanup_encap cfg h.mn h.log

abbrev pub deleted64 : Config → Host → Log
deleted64 cfg h =
    tunnel64_del h.mn.tnl64_ifindex
    ∷ route_del h.mn.tnl64_ifindex mobile h.mn.hoav6
    ∷ deleted44 cfg h

-- mn_state_cleanup reads a variable that is not set for its result, unless it is on an IPv4 care-of
-- address and the deletion of its IPv4 tunnel fails, or succeeds and that of its IPv6 tunnel fails.
pub mn_state_cleanup_result-none :
    (result : DelResult) (cfg : Config) (h : Host)
    → (mn_state_cleanup_result result cfg h ≡ none) ↔ (
        (is_pos h.mn.active ≡ true)
          × (is_nonzero h.mn.tnl44_ifindex ≡ true)
          × ((is_neg (result (deleted44 cfg h)) ≡ true)
              ⊎ ((is_nonzero h.mn.tnl64_ifindex ≡ true)
                  × (is_neg (result (deleted64 cfg h)) ≡ true)))
        → ⊥)
unfolding mn_state_cleanup_result cleanup_tunnel44
mn_state_cleanup_result-none result cfg h = (λ e x. ground arith, λ n. ground arith)
