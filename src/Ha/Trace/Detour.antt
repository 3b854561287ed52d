-- ===== src/Ha/Trace/Detour.antt =====
-- The temporary routes of a hand-over: set up before the old tunnels go, and taken down after.
use dsmip.Common.{ℕ, ◌≡◌, arith, ==_refl, true, false, none, ◌≢◌, ◌⊎◌}
use dsmip.Net.{In6Addr, v6_eq, v6_eq_refl, ipv6_unmap_addr}
use dsmip.Ha.State.{Host, Config, Kernel, Log, mobile_tmp}
use dsmip.Ha.Trace.{up, rule4, rule6}
use dsmip.Ha.Binding.Steps.{is_encapsulated}
use dsmip.Ha.Binding.V4.{switch_v4, bu_v4}
use dsmip.Ha.Binding.V6.{bu_v6}
use dsmip.Ha.Binding.Home.{go_home}
use dsmip.Ha.Binding.Handler.{Bu, rebind, rebind_cases, accept_bu}

-- No rule leads traffic for these home addresses to the temporary table.
pub record NoDetour (hoav4 : ℕ) (hoav6 : In6Addr) (log : Log) : Type 0 where
  pub no_rule4 : up (rule4 mobile_tmp hoav4) log ≡ false
  pub no_rule6 : up (rule6 mobile_tmp hoav6) log ≡ false

go_home-NoDetour :
    (cfg : Config) (h : Host)
    → NoDetour h.mn.hoav4 h.mn.hoav6 h.log
    → NoDetour h.mn.hoav4 h.mn.hoav6 (go_home cfg h).log
unfolding go_home
go_home-NoDetour cfg h v = ground arith

bu_v6-NoDetour :
    (kernel : Kernel) (cfg : Config) (ifindex seqno : ℕ) (hoa coa : In6Addr) (h : Host)
    → is_encapsulated h.mn ≡ false
    → NoDetour h.mn.hoav4 h.mn.hoav6 h.log
    → NoDetour h.mn.hoav4 h.mn.hoav6 (bu_v6 kernel cfg ifindex seqno hoa coa h).log
unfolding bu_v6
bu_v6-NoDetour kernel cfg ifindex seqno hoa coa h e v =
    ground (arith, ==_refl h.mn.hoav4, v6_eq_refl h.mn.hoav6)

bu_v4-NoDetour :
    (kernel : Kernel) (cfg : Config) (ifindex seqno : ℕ) (hoa : In6Addr) (coav4 : ℕ) (h : Host)
    → NoDetour h.mn.hoav4 h.mn.hoav6 h.log
    → NoDetour h.mn.hoav4 h.mn.hoav6 (bu_v4 kernel cfg ifindex seqno hoa coav4 h).log
unfolding bu_v4 switch_v4
bu_v4-NoDetour kernel cfg ifindex seqno hoa coav4 h v =
    ground (arith, ==_refl h.mn.hoav4, v6_eq_refl h.mn.hoav6)

-- After an accepted binding update no rule leads traffic for the node to the temporary table, if none
-- did before, and if the old care-of address was not behind a NAT, or the new one is IPv4, or the node
-- is back home.
pub accept_bu-NoDetour :
    (kernel : Kernel) (cfg : Config) (now : ℕ) (bu : Bu) (h : Host)
    → (is_encapsulated h.mn ≡ false)
      ⊎ ((ipv6_unmap_addr bu.coa ≢ none) ⊎ (v6_eq h.mn.hoav6 bu.coa ≡ true))
    → NoDetour h.mn.hoav4 h.mn.hoav6 h.log
    → NoDetour h.mn.hoav4 h.mn.hoav6 (accept_bu kernel cfg now bu h).log
unfolding accept_bu is_encapsulated
accept_bu-NoDetour kernel cfg now bu h c v =
    rebind_cases (λ k. NoDetour h.mn.hoav4 h.mn.hoav6 k.log) kernel cfg bu (noted h)
      (λ a e. bu_v4-NoDetour kernel cfg bu.ifindex bu.seqno bu.hoa a (noted h) v)
      (λ e. go_home-NoDetour cfg (noted h) v)
      (λ e f. bu_v6-NoDetour kernel cfg bu.ifindex bu.seqno bu.hoa bu.coa (noted h) (old e f c) v)
  where
    noted : Host → Host
    noted k = record k { mn = record (k.mn) { last_bu_seq = bu.seqno; last_bu_t = now } }

    old :
        ipv6_unmap_addr bu.coa ≡ none
        → v6_eq h.mn.hoav6 bu.coa ≡ false
        → (is_encapsulated h.mn ≡ false)
          ⊎ ((ipv6_unmap_addr bu.coa ≢ none) ⊎ (v6_eq h.mn.hoav6 bu.coa ≡ true))
        → is_encapsulated h.mn ≡ false
    old e f c = ground arith

-- Moving from an IPv4 care-of address behind a NAT to an IPv6 one leaves both rules to the temporary
-- table up.
accept_bu-leaves_detour :
    (kernel : Kernel) (cfg : Config) (now : ℕ) (bu : Bu) (h : Host)
    → is_encapsulated h.mn ≡ true
    → ipv6_unmap_addr bu.coa ≡ none
    → v6_eq h.mn.hoav6 bu.coa ≡ false
    → let h' = accept_bu kernel cfg now bu h in
      (up (rule4 mobile_tmp h.mn.hoav4) h'.log ≡ true)
      × (up (rule6 mobile_tmp h.mn.hoav6) h'.log ≡ true)
unfolding accept_bu rebind bu_v6
accept_bu-leaves_detour kernel cfg now bu h e u away =
    ground (arith, ==_refl h.mn.hoav4, v6_eq_refl h.mn.hoav6)
