-- ===== src/Ha/Trace/Tunnels.antt =====
-- The tunnels that an entry records, where the kernel hands out those that it has.
use dsmip.Common.{◌<◌, ℕ, ◌≡◌, ◌≢◌, arith, pos, ==ℤ_refl, ==ℤ_iff, is_pos, true, false, ◌∷◌}
use dsmip.Net.{In6Addr, ipv6_map_addr}
use dsmip.Ha.State.{Host, Config, Kernel, Log, tunnel44_add, tunnel64_add}
use dsmip.Ha.Trace.{tunnel44_up, tunnel64_up}
use dsmip.Ha.Binding.V4.{bu_v4, find_coa, switch_v4}
use dsmip.Ha.Binding.V6.{}

-- The log up to the requests for the two new tunnels.
abbrev with64 : Config → ℕ → ℕ → Log → Log
with64 cfg ifindex coav4 log =
    tunnel64_add (ipv6_map_addr cfg.hav4) (ipv6_map_addr coav4) ifindex ∷ log

abbrev with44 : Config → ℕ → ℕ → Log → Log
with44 cfg ifindex coav4 log =
    tunnel44_add (ipv6_map_addr cfg.hav4) (ipv6_map_addr coav4) ifindex
    ∷ with64 cfg ifindex coav4 log

-- The kernel answers with the tunnels in use, as it does when the end points are the same
-- (`ipip_tunnel_locate` in tnls/ipip/ipip.c). The hand-over to an IPv4 care-of address then deletes
-- the tunnels that it has just asked for: both that it records are down.
bu_v4-reused_down :
    (kernel : Kernel) (cfg : Config) (ifindex seqno : ℕ) (hoa : In6Addr) (coav4 : ℕ) (h : Host)
    → is_pos h.mn.active ≡ true
    → kernel (with64 cfg ifindex coav4 h.log) ≡ h.mn.tnl64_ifindex
    → kernel (with44 cfg ifindex coav4 h.log) ≡ h.mn.tnl44_ifindex
    → find_coa coav4 30 h.mn.coav4 < 30
    → h.mn.active ≢ pos (find_coa coav4 30 h.mn.coav4)
    → let h' = bu_v4 kernel cfg ifindex seqno hoa coav4 h in
      (tunnel44_up kernel h'.mn.tnl44_ifindex h'.log ≡ false)
      × (tunnel64_up kernel h'.mn.tnl64_ifindex h'.log ≡ false)
unfolding bu_v4 switch_v4
bu_v4-reused_down kernel cfg ifindex seqno hoa coav4 h p e64 e44 found ne = ground (
  arith,
  ==ℤ_iff h.mn.active (pos (find_coa coav4 30 h.mn.coav4)),
  ==ℤ_refl h.mn.tnl44_ifindex,
  ==ℤ_refl h.mn.tnl64_ifindex,
)
