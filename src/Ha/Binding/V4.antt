-- ===== src/Ha/Binding/V4.antt =====
-- A binding update whose care-of address is IPv4-mapped.
use dsmip.Common.{
  ℕ, zero, suc, pos, ◌==ℤ◌, is_nonzero, not, List, [], ◌∷◌, ◌==◌, get_or, if◌then◌else◌,
}
use dsmip.Net.{In6Addr, ipv6_map_addr}
use dsmip.Ha.State.{
  Config, Host, Log, Kernel, no_coa, mobile, nif, tunnel44_add, tunnel64_add, sendba,
}
use dsmip.Ha.Cleanup.{start_encap_of}
use dsmip.Ha.Binding.Steps.{add_routes, begin_detour, end_detour, drop_old_tunnels, stop_old_encap}

-- `for(;memcmp(coav4+icoa,&coav4,…)&&icoa<NIF;++icoa);`: the first slot below the bound that holds the
-- address, else the bound.
unfoldable pub find_coa : ℕ → ℕ → List ℕ → ℕ
find_coa coa zero xs = 0
find_coa coa (suc n) [] = suc n
find_coa coa (suc n) (x ∷ xs) = if x == coa then 0 else suc (find_coa coa n xs)

module _ (kernel : Kernel) (cfg : Config) where
  -- From `next_v4_process` to `mns[imn].active=icoa`: new tunnels, the detour, the old tunnels, the
  -- main routes, the old encapsulation, the end of the detour, the new encapsulation.
  unfoldable pub switch_v4 : ℕ → ℕ → ℕ → Host → Host
  unfolding add_routes begin_detour end_detour drop_old_tunnels stop_old_encap start_encap_of
  switch_v4 ifindex coav4 icoa h =
      let local = ipv6_map_addr cfg.hav4 in
      let remote = ipv6_map_addr coav4 in
      let log64 : Log = tunnel64_add local remote ifindex ∷ h.log in
      let tnl64 = kernel log64 in
      let log44 : Log = tunnel44_add local remote ifindex ∷ log64 in
      let tnl44 = kernel log44 in
      let detour = is_nonzero h.mn.active in
      let opened = record h {
        log = if detour then begin_detour tnl44 tnl64 h.mn log44 else log44;
      } in
      let dropped = drop_old_tunnels opened in
      let routed = add_routes mobile tnl44 tnl64 h.mn dropped.log in
      let stopped = stop_old_encap cfg h.mn routed in
      let closed : Log = if detour then end_detour tnl44 tnl64 h.mn stopped else stopped in
      record {
        mn = record dropped.mn { active = pos icoa; tnl64_ifindex = tnl64; tnl44_ifindex = tnl44 };
        log =
            if not (get_or h.mn.in_nat icoa 0 == 0)
            then start_encap_of cfg h.mn icoa ∷ closed
            else closed;
      }

  -- A care-of address that no probe has announced gets no answer.
  unfoldable pub bu_v4 : ℕ → ℕ → In6Addr → ℕ → Host → Host
  bu_v4 ifindex seqno hoa coav4 h =
      let icoa = find_coa coav4 nif h.mn.coav4 in
      let ack = λ (k : Host). record k { log = sendba ifindex seqno hoa no_coa ∷ k.log } in
      if icoa == nif
      then h
      else if h.mn.active ==ℤ pos icoa
      then ack h
      else ack (switch_v4 ifindex coav4 icoa h)
