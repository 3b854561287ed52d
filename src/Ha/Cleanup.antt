-- ===== src/Ha/Cleanup.antt =====
-- `mn_state_cleanup` of ha.c, and the UDP encapsulation arguments that all callers build alike.
-- No caller looks at its result, which is a function of its own here.
pub mod Result
use dsmip.Common.{
  ℕ, ℤ, Bool, true, false, Option, none, some, zero, suc, ◌%◌, ◌^◌, pos, pos_part, is_pos, is_neg,
  is_nonzero, not, ◌&&◌, List, [], ◌∷◌, ◌==◌, get_or, if◌then◌else◌,
}
use dsmip.Ha.State.{
  Config, Mn, Host, Log, Request, mobile, nif, route4_del, route_del, tunnel44_del, tunnel64_del,
  tunnel66_del, start_udp_encap, stop_udp_encap,
}
use dsmip.Ha.Special.{ip_special}

module _ (cfg : Config) where
  -- `ip_special(mns[imn].natv4+id)?&hav4_2:&hav4`
  unfoldable pub encap_source : Mn → ℕ → ℕ
  encap_source m id =
      if ip_special cfg.special_ip (get_or m.natv4 id 0) then cfg.hav4_2 else cfg.hav4

  unfoldable pub stop_encap_of : Mn → ℕ → Request
  stop_encap_of m id =
      stop_udp_encap m.hoav6 m.hoav4 (encap_source m id) (get_or m.natv4 id 0)
        (get_or m.nat_port id 0)

  unfoldable pub start_encap_of : Mn → ℕ → Request
  start_encap_of m id =
      start_udp_encap m.hoav6 m.hoav4 (encap_source m id) (get_or m.natv4 id 0)
        (get_or m.nat_port id 0)

  -- The first `if`: a UDP encapsulation in use is stopped. `id` is a `uint16_t`.
  unfoldable pub cleanup_encap : Mn → Log → Log
  unfolding stop_encap_of
  cleanup_encap m log =
      let id = pos_part m.active % 2 ^ 16 in
      if is_pos m.active && not (get_or m.in_nat id 0 == 0) then stop_encap_of m id ∷ log else log

-- `memset(mns[imn].coav4,0,sizeof(struct in_addr)*NIF)`: entry `NIF` stays.
abbrev pub clear_first : ℕ → List ℕ → List ℕ
clear_first zero xs = xs
clear_first (suc n) [] = []
clear_first (suc n) (x ∷ xs) = 0 ∷ clear_first n xs

-- The three deletions, each under its own test.
unfoldable pub cleanup_tunnel44 : Host → Host
cleanup_tunnel44 h =
    let m = h.mn in
    if is_pos m.active && is_nonzero m.tnl44_ifindex
    then record {
      mn = record m { tnl44_ifindex = pos 0 };
      log = tunnel44_del m.tnl44_ifindex ∷ route4_del m.tnl44_ifindex mobile m.hoav4 ∷ h.log;
    }
    else h

unfoldable pub cleanup_tunnel64 : Host → Host
cleanup_tunnel64 h =
    let m = h.mn in
    if is_pos m.active && is_nonzero m.tnl64_ifindex
    then record {
      mn = record m { tnl64_ifindex = pos 0 };
      log = tunnel64_del m.tnl64_ifindex ∷ route_del m.tnl64_ifindex mobile m.hoav6 ∷ h.log;
    }
    else h

-- The source deletes this tunnel twice, by its index; for the second time tunlctl.h has no name for it.
unfoldable pub cleanup_tunnel66 : Host → Host
cleanup_tunnel66 h =
    let m = h.mn in
    if is_neg m.active && is_nonzero m.tnl66_ifindex
    then record {
      mn = record m { tnl66_ifindex = pos 0 };
      log =
          tunnel66_del m.tnl66_ifindex
          ∷ tunnel66_del m.tnl66_ifindex
          ∷ route_del m.tnl66_ifindex mobile m.hoav6
          ∷ route4_del m.tnl66_ifindex mobile m.hoav4
          ∷ h.log;
    }
    else h

unfoldable pub forget : Mn → Mn
forget m = record m { nnif = 0; active = pos 0; last_bu_seq = 0; coav4 = clear_first nif m.coav4 }

unfoldable pub mn_state_cleanup : Config → Host → Host
unfolding cleanup_encap cleanup_tunnel44 cleanup_tunnel64 cleanup_tunnel66 forget
mn_state_cleanup cfg h =
    let h' =
      cleanup_tunnel66
        (cleanup_tunnel64 (cleanup_tunnel44 (record h { log = cleanup_encap cfg h.mn h.log }))) in
    record h' { mn = forget h'.mn }

-- What a call of `tunnel44_del` or its like returns, as the newest one of a log.
abbrev pub DelResult : Type 0
DelResult = Log → ℤ

-- `ret<0`; `none` where `ret` has not been set.
unfoldable pub has_failed : Option ℤ → Option Bool
has_failed none = none
has_failed (some r) = some (is_neg r)

-- `a||b`, where reading `a` or `b` may be reading a variable that is not set.
unfoldable pub either : Option Bool → Option Bool → Option Bool
either none b = none
either (some true) b = some true
either (some false) b = b

-- `return ret1<0||ret2<0||ret3<0;`. `none`: a variable that is not set is read.
unfoldable pub mn_state_cleanup_result : DelResult → Config → Host → Option Bool
unfolding cleanup_encap cleanup_tunnel44 cleanup_tunnel64 cleanup_tunnel66 has_failed either
mn_state_cleanup_result result cfg h =
    let m = h.mn in
    let h1 = cleanup_tunnel44 (record h { log = cleanup_encap cfg m h.log }) in
    let h2 = cleanup_tunnel64 h1 in
    let h3 = cleanup_tunnel66 h2 in
    let ret1 =
      if is_pos m.active && is_nonzero m.tnl44_ifindex then some (result h1.log) else none in
    let ret2 =
      if is_pos m.active && is_nonzero m.tnl64_ifindex then some (result h2.log) else none in
    let ret3 =
      if is_neg m.active && is_nonzero m.tnl66_ifindex then some (result h3.log) else none in
    either (has_failed ret1) (either (has_failed ret2) (has_failed ret3))
