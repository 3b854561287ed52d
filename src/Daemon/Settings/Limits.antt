-- ===== src/Daemon/Settings/Limits.antt =====
-- Where commands of the daemon cngictrl are undefined, and where they are not.
use dsmip.Common.{
  ℕ, suc, ◌≤◌, ◌<◌, pos, ◌≡◌, ◌≢◌, refl, ap, ◌∙◌, Bool, true, false, [], ◌∷◌, ◌++◌, length,
  length-append, Option, none, some, up, Option-cases, inl, inr, arith,
}
use dsmip.Daemon.Text.{Text, copy}
use dsmip.Daemon.State.{
  detect_thread, IpCfgWay, staticway, select_network, Call, create, join, Env, Daemon, note,
  getcmd_result,
}
use dsmip.Daemon.Core.{Blind}
use dsmip.Daemon.Core.Shell.{ipaddrdel-Keeps}
use dsmip.Daemon.Routes.{ipaddrdel}
use dsmip.Daemon.Ipfix.{static_ip, staticwayfix, by_way, wayfix, ipfix_mnoff}
use dsmip.Daemon.Settings.{
  select, wifi_off, set_count, apssidfix, makewpaconf, wpaconfpart1, wpaconfpart2, wpaconfpart3,
}

abbrev unlogged : Daemon → Daemon
unlogged d = record d { log = [] }

unlogged-Blind : Blind unlogged
unfolding note
unlogged-Blind = record { blind = λ c d h. refl }

no_entry : (d : Daemon) (n : ℕ) → 2 ≤ n → d.newid ≡ pos n → static_ip d ≡ none
unfolding static_ip
no_entry d n h i = ground arith

beyond : (d : Daemon) (n : ℕ) → 2 ≤ n → d.newid ≡ pos n → d.ipcfg ≡ staticway → wayfix d ≡ none
unfolding wayfix by_way staticwayfix
beyond d n h i w = ap (λ (x : IpCfgWay). by_way x d) w ∙ rw (staticwayfix, no_entry d n h i) refl

-- Addresses are deleted first, which changes neither the number nor the way.
fix_beyond :
    (env : Env) (n : ℕ) (d : Daemon)
    → 2 ≤ n
    → d.newid ≡ pos n
    → d.ipcfg ≡ staticway
    → ipfix_mnoff env d ≡ none
unfolding ipfix_mnoff
fix_beyond env n d h i w = elim (Option-cases (ipaddrdel env d)) [
  | inl q ↦ rw q refl
  | inr q ↦
      let k = (ipaddrdel-Keeps unlogged-Blind env d).at (q.0) (q.1) in
      rw (q.1)
        (beyond (q.0) n h (ap (λ (x : Daemon). x.newid) k ∙ i) (ap (λ (x : Daemon). x.ipcfg) k ∙ w))
]

-- With static addresses and no mobile node, the command to go to a network with a number from 2 on
-- reads behind the two static addresses.
select-beyond :
    (env : Env) (n : ℕ) (d : Daemon)
    → 2 ≤ n
    → d.mnswitch ≡ false
    → d.ipcfg ≡ staticway
    → select env (pos n) d ≡ none
unfolding select
select-beyond env n d h off way = ground (
  arith,
  fix_beyond env n (record (note (select_network false (pos n)) d) { newid = pos n }) h refl way,
)

copied :
    (t : Text) (d e : Daemon)
    → apssidfix t d ≡ some e
    → (length e.apssid0 < 80) × (length e.apssid1 < 80)
unfolding apssidfix copy
copied t d e h = ground arith

conf-length :
    (a b : Text)
    → length a < 80
    → length b < 80
    → length (wpaconfpart1 ++ (a ++ (wpaconfpart2 ++ (b ++ wpaconfpart3)))) < 1000
conf-length a b h k = omega (
  arith,
  length-append wpaconfpart1 (a ++ (wpaconfpart2 ++ (b ++ wpaconfpart3))),
  length-append a (wpaconfpart2 ++ (b ++ wpaconfpart3)),
  length-append wpaconfpart2 (b ++ wpaconfpart3),
  length-append b wpaconfpart3,
)

fits-copy : (t : Text) → length t < 1000 → copy 1000 t ≢ none
unfolding copy
fits-copy t h = ground arith

-- What `apssid fix` has copied fits in the buffer for the configuration file.
apssidfix-makewpaconf : (t : Text) (d e : Daemon) → apssidfix t d ≡ some e → makewpaconf e ≢ none
unfolding makewpaconf
apssidfix-makewpaconf t d e h =
    let c = copied t d e h in fits-copy _ (conf-length e.apssid0 e.apssid1 (c.0) (c.1))

-- Is a thread for missed beacons there?
abbrev pub detecting : Call → Option Bool
detecting (create detect_thread) = some true
detecting (join detect_thread) = some false
detecting _ = none

-- `wifi off` does not wait for the thread for missed beacons, and a count set after it makes another one.
wifi_off-second_thread :
    (env : Env) (n : ℕ) (d e : Daemon)
    → up detecting d.log ≡ true
    → wifi_off env d ≡ some e
    → (up detecting e.log ≡ true) × ((set_count (pos (suc n)) e).log ≡ create detect_thread ∷ e.log)
unfolding wifi_off set_count note getcmd_result
wifi_off-second_thread env n d e there h = ground arith
