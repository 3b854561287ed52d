-- ===== src/Daemon/Ipfix/Link.antt =====
-- The link that `ipfix` (cngictrl/cngictrl.h) takes for the current one.
use dsmip.Common.{
  ℕ, ℤ, pos, ◌==ℤ◌, ◌==◌, ==ℤ_iff, ◌≡◌, refl, sym, ap, ◌∙◌, Bool, true, false, not, ◌&&◌, Option,
  none, some, some_inj, arith, if◌then◌else◌,
}
use dsmip.Daemon.Text.{codes, ◌>>=◌}
use dsmip.Daemon.State.{ip_route_del, Env, Daemon, note}
use dsmip.Daemon.Core.{Keeps, Blind, Keeps-self, Keeps-if}
use dsmip.Daemon.Core.Shell.{
  ipaddrdel-Keeps, iproutedel-Keeps, rmnet_route_add-Keeps, rmnet_route_del-Keeps, run_wlan-Keeps,
  wayfix-Keeps,
}
use dsmip.Daemon.Core.Quiet.{check_rmnet-Keeps, wlancheck-Keeps}
use dsmip.Daemon.Ipfix.{wlan_gone, wlan_came, ipfix}

record Links : Type 0 where
  rmnet : ℤ
  wlan : ℤ
  current : ℤ

abbrev links : Daemon → Links
links d = record { rmnet = d.linknumrmnet; wlan = d.linknumwlan; current = d.currentlinknum }

links-Blind : Blind links
unfolding note
links-Blind = record { blind = λ c d h. refl }

-- The links of the daemon that comes back, if one does.
record Shows (l : Links) (o : Option Daemon) : Type 0 where
  at : (e : Daemon) → o ≡ some e → links e ≡ l

Keeps-Shows : (d : Daemon) (o : Option Daemon) → Keeps links d o → Shows (links d) o
Keeps-Shows d o k = record { at = k.at }

some-Shows : (e : Daemon) (l : Links) → links e ≡ l → Shows l (some e)
some-Shows e l h = record { at = λ a k. ap links (sym (some_inj.0 k)) ∙ h }

if-Shows :
    {l : Links} (b : Bool) {x y : Option Daemon}
    → (b ≡ true → Shows l x)
    → (b ≡ false → Shows l y)
    → Shows l (if b then x else y)
if-Shows true x y = x refl
if-Shows false x y = y refl

-- What follows a step that keeps the links.
then-Shows :
    {l : Links} (d : Daemon) (m : Option Daemon) (f : Daemon → Option Daemon)
    → Keeps links d m
    → ((e : Daemon) → links e ≡ links d → Shows l (f e))
    → Shows l (m >>= f)
then-Shows d none f k l = record { at = λ b h. cc }
then-Shows d (some e) f k l = l e (k.at e refl)

-- With the event that the wlan has gone (0) or come (1), whether handoffs are automatic, and the link of the mobile
-- node.
abbrev pub link_after : ℕ → ℕ → ℕ → Daemon → ℤ
link_after event auto link d =
    if event == 0 && not (auto == 0)
    then d.linknumrmnet
    else if (event == 1) && not (auto == 0 && (pos link ==ℤ d.linknumrmnet))
    then d.linknumwlan
    else pos link

abbrev goal : ℕ → ℕ → ℕ → Daemon → Links
goal event auto link d = record {
  rmnet = d.linknumrmnet;
  wlan = d.linknumwlan;
  current = link_after event auto link d;
}

gone-Shows :
    (env : Env) (auto link : ℕ) (d : Daemon)
    → d.currentlinknum ≡ pos link
    → Shows (goal 0 auto link d) (wlan_gone env auto link d)
unfolding wlan_gone
gone-Shows env auto link d h = then-Shows d _ _ (ipaddrdel-Keeps links-Blind env d) λ e p.
    if-Shows (pos link ==ℤ e.linknumrmnet)
      (λ q. some-Shows e _ (ground (arith, ==ℤ_iff (pos link) e.linknumrmnet)))
      (λ q. then-Shows e _ _ (iproutedel-Keeps links-Blind env e) λ f r.
        if-Shows (auto == 0)
          (λ s. some-Shows f _ (ground (arith, ==ℤ_iff (pos link) e.linknumrmnet)))
          (λ s.
            then-Shows f _ _ (rmnet_route_add-Keeps links-Blind f)
              λ g t. some-Shows _ _ (ground (arith, ==ℤ_iff (pos link) e.linknumrmnet))))

came-Shows :
    (env : Env) (auto link : ℕ) (d : Daemon)
    → d.currentlinknum ≡ pos link
    → Shows (goal 1 auto link d) (wlan_came env auto link d)
unfolding wlan_came
came-Shows env auto link d c =
    then-Shows d _ _
      (Keeps-if d (pos link ==ℤ d.linknumrmnet) (rmnet_route_del-Keeps links-Blind d)
        (Keeps-self d))
      λ e p.
        then-Shows e _ _ (Keeps-if e e.wifiswitch (wayfix-Keeps links-Blind e) (Keeps-self e))
          λ f q. then-Shows f _ _ (wlancheck-Keeps links-Blind (λ d t. refl) env f) λ g r.
            let h : Daemon = record g { currentlinknum = g.linknumwlan } in
            if-Shows (auto == 0 && (pos link ==ℤ h.linknumrmnet))
              (λ s.
                then-Shows h _ _
                  (run_wlan-Keeps links-Blind (codes "ip route del ") ip_route_del h (λ t. refl))
                  λ i t. then-Shows i _ _ (rmnet_route_add-Keeps links-Blind i) λ j u.
                    some-Shows (record j { currentlinknum = j.linknumrmnet }) _
                      (ground (arith, ==ℤ_iff (pos link) h.linknumrmnet)))
              (λ s. some-Shows h _ (ground arith))

ipfix-Shows :
    (env : Env) (event auto link : ℕ) (d : Daemon)
    → Shows (goal event auto link d) (ipfix env event auto link d)
unfolding ipfix
ipfix-Shows env event auto link d =
    let c : Daemon = record d { currentlinknum = pos link } in
    then-Shows c _ _ (check_rmnet-Keeps links-Blind (λ d t. refl) env c) λ e p.
      if-Shows (event == 0)
        (λ q. record {
          at = λ f r. ground (arith, (gone-Shows env auto link e (ground arith)).at f r);
        })
        (λ q.
          if-Shows (event == 1)
            (λ r. record {
              at = λ f t. ground (arith, (came-Shows env auto link e (ground arith)).at f t);
            })
            (λ r. some-Shows e _ (ground arith)))

-- What the mobile node tells of its links, where nothing that the daemon then executes is
-- undefined, makes the daemon's current link: the rmnet if the wlan has gone and handoffs are
-- automatic; the wlan if it has come, unless handoffs are not automatic and the node is on the
-- rmnet; and else the link of the node. The numbers of the two links stay.
pub ipfix-links :
    (env : Env) (event auto link : ℕ) (d e : Daemon)
    → ipfix env event auto link d ≡ some e
    → (e.currentlinknum ≡ link_after event auto link d)
      × (e.linknumrmnet ≡ d.linknumrmnet)
      × (e.linknumwlan ≡ d.linknumwlan)
ipfix-links env event auto link d e h = ground (arith, (ipfix-Shows env event auto link d).at e h)
