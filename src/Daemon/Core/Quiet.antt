-- ===== src/Daemon/Core/Quiet.antt =====
-- The handlers of the daemon cngictrl that deal with addresses, routes and rules, by what they keep.
use dsmip.Common.{ℕ, ℤ, pos, ◌≡◌, refl, true, List, [], ◌∷◌, arith, inl, inr, Option-cases}
use dsmip.Daemon.Text.{Text, codes, strstr}
use dsmip.Daemon.State.{
  rmnet_on, Family, ipv4, ipv6, ip4_route, ip4_route_rmnet, ip4_route_wlan, ip_rule, ip_route_del,
  ip_rule_del, Calls, Env, Daemon, note,
}
use dsmip.Daemon.Core.{
  core_calls, core, core-Blind, Blind, Keeps, Keeps-some, Keeps-self, Keeps-if, Keeps-then,
  Keeps-read, Keeps-ask,
}
use dsmip.Daemon.Core.Shell.{
  ipaddrdel-Keeps, iproutedel-Keeps, rmnet_route_add-Keeps, rmnet_route_del-Keeps, run_wlan-Keeps,
  wayfix-Keeps,
}
use dsmip.Daemon.Routes.{del_rules, clear_family, ruleclear, rmnetcheck, wlancheck}
use dsmip.Daemon.Ipfix.{check_rmnet, wlan_gone, wlan_came, ipfix}

del_rules-core :
    (f : Family) (ns : List ℤ) (log : Calls) → core_calls (del_rules f ns log) ≡ core_calls log
unfolding del_rules
del_rules-core f [] log = refl
del_rules-core f (n ∷ ns) log =
    ground (arith, del_rules-core f ns log, del_rules-core f ns (ip_rule_del f n ∷ log))

clear_family-Keeps : (env : Env) (f : Family) (d : Daemon) → Keeps core d (clear_family env f d)
unfolding clear_family note
clear_family-Keeps env f d =
    Keeps-ask core-Blind env (ip_rule f) d _
      λ r. Keeps-read r.1 _ _ λ ns. Keeps-some r.1 _ (ground (arith, del_rules-core f ns r.1.log))

pub ruleclear-Keeps : (env : Env) (d : Daemon) → Keeps core d (ruleclear env d)
unfolding ruleclear
ruleclear-Keeps env d =
    Keeps-then d _ _ (clear_family-Keeps env ipv4 d) λ e. clear_family-Keeps env ipv6 e

-- A view that shows no route is the same after a route has been looked up.
module _ {V : Type 0} {view : Daemon → V} (v : Blind view) where
  module _
      (shows_no : (d : Daemon) (t : Text)
        → view (record d { rmnet_route = t; rmnet_flag = true; rmnetstatus = rmnet_on })
          ≡ view d) where
    rmnetcheck-Keeps : (env : Env) (d : Daemon) → Keeps view d (rmnetcheck env d)
    unfolding rmnetcheck
    rmnetcheck-Keeps env d = Keeps-ask v env ip4_route d _ λ r. Keeps-if r.1 _ (Keeps-self r.1) (
        Keeps-ask v env ip4_route_rmnet r.1 _ λ s.
          elim (Option-cases (strstr s.0 (codes "default"))) [
            | inl e ↦ rw e (Keeps-self s.1)
            | inr p ↦ rw (p.1) (Keeps-read s.1 _ _ λ t. Keeps-some s.1 _ (shows_no s.1 t))
          ])

    pub check_rmnet-Keeps : (env : Env) (d : Daemon) → Keeps view d (check_rmnet env d)
    unfolding check_rmnet
    check_rmnet-Keeps env d = Keeps-if d _ (rmnetcheck-Keeps env d) (Keeps-self d)

  pub wlancheck-Keeps :
      ((d : Daemon) (t : Text) → view (record d { wlan_route = t }) ≡ view d)
      → (env : Env) (d : Daemon) → Keeps view d (wlancheck env d)
  unfolding wlancheck
  wlancheck-Keeps shows_no env d = Keeps-ask v env ip4_route d _ λ r.
      Keeps-if r.1 _ (Keeps-self r.1) (
        Keeps-ask v env ip4_route_wlan r.1 _ λ s.
          elim (Option-cases (strstr s.0 (codes "default"))) [
            | inl e ↦ rw e (Keeps-self s.1)
            | inr p ↦ rw (p.1) (Keeps-read s.1 _ _ λ t. Keeps-some s.1 _ (shows_no s.1 t))
          ])

wlan_gone-Keeps :
    (env : Env) (auto link : ℕ) (d : Daemon) → Keeps core d (wlan_gone env auto link d)
unfolding wlan_gone
wlan_gone-Keeps env auto link d = Keeps-then d _ _ (ipaddrdel-Keeps core-Blind env d) λ e.
    Keeps-if e _ (Keeps-self e) (
      Keeps-then e _ _ (iproutedel-Keeps core-Blind env e) λ f.
        Keeps-if f _ (Keeps-self f)
          (Keeps-then f _ _ (rmnet_route_add-Keeps core-Blind f) λ g. Keeps-some g _ refl))

wlan_came-Keeps :
    (env : Env) (auto link : ℕ) (d : Daemon) → Keeps core d (wlan_came env auto link d)
unfolding wlan_came
wlan_came-Keeps env auto link d =
    Keeps-then d _ _ (Keeps-if d _ (rmnet_route_del-Keeps core-Blind d) (Keeps-self d)) λ e.
      Keeps-then e _ _ (Keeps-if e _ (wayfix-Keeps core-Blind e) (Keeps-self e)) λ f.
        Keeps-then f _ _ (wlancheck-Keeps core-Blind (λ d t. refl) env f) λ g.
          let h : Daemon = record g { currentlinknum = g.linknumwlan } in
          Keeps-if g _
            (Keeps-then g _ _
              (record {
                at =
                    (run_wlan-Keeps core-Blind (codes "ip route del ") ip_route_del h
                      (λ t. refl)).at;
              })
              λ i. Keeps-then i _ _ (rmnet_route_add-Keeps core-Blind i) λ j. Keeps-some j _ refl)
            (Keeps-some g h refl)

pub ipfix-Keeps :
    (env : Env) (event auto link : ℕ) (d : Daemon) → Keeps core d (ipfix env event auto link d)
unfolding ipfix
ipfix-Keeps env event auto link d =
    let c : Daemon = record d { currentlinknum = pos link } in
    record {
      at =
          (Keeps-then c _ _ (check_rmnet-Keeps core-Blind (λ d t. refl) env c) λ e.
            Keeps-if e _ (wlan_gone-Keeps env auto link e)
              (Keeps-if e _ (wlan_came-Keeps env auto link e) (Keeps-self e))).at;
    }
