-- ===== src/Daemon/Core/Commands.antt =====
-- The settings of the daemon cngictrl, by what they keep.
use dsmip.Common.{
  zero, suc, ℤ, pos, negsuc, ◌≡◌, refl, ◌∙◌, true, Option, none, some, arith, if◌then◌else◌, inl,
  inr, Option-cases,
}
use dsmip.Daemon.Text.{Text, codes, ◌>>=◌, has, getnumfromstr}
use dsmip.Daemon.State.{
  lsmod, ip_link, ps_wpa_supplicant, list_network, Env, Daemon, note, getcmd_result,
}
use dsmip.Daemon.Core.{
  core-Blind, core, Keeps, Keeps-some, Keeps-self, Keeps-if, Keeps-then, Keeps-read, Keeps-ask,
}
use dsmip.Daemon.Core.Quiet.{ruleclear-Keeps}
use dsmip.Daemon.Core.Shell.{ipfix_mnoff-Keeps}
use dsmip.Daemon.Ping.{fix_ping, miss_ping}
use dsmip.Daemon.Settings.{
  line_start, load_wifi, note_wlan, wifi_on, wifi_off, wifi_command, rmnet_command, rule_command,
  staticipfix, staticip_command, apssidfix, checkwpaconf, apssid_command, ipfixway_command,
  set_count, set_interval, set_beacons, select, to_command, link_command,
}
use dsmip.Daemon.Detect.{marked, status_network, current_network, go_to, leave_network}

note_wlan-Keeps : (w : Option (Text × Text)) (d : Daemon) → Keeps core d (note_wlan w d)
unfolding note_wlan
note_wlan-Keeps none d = Keeps-self d
note_wlan-Keeps (some w) d =
    Keeps-read d (line_start w.0 w.1) _
      λ l. Keeps-read d (getnumfromstr l) _ λ n. Keeps-some d (record d { linknumwlan = n }) refl

wifi_on-Keeps : (env : Env) (d : Daemon) → Keeps core d (wifi_on env d)
unfolding wifi_on load_wifi note
wifi_on-Keeps env d = Keeps-ask core-Blind env lsmod d _ λ r.
    let e : Daemon = if has r.0 (codes "ar6000") then r.1 else load_wifi r.1 in
    let kept : core (record e { wifiswitch = true }) ≡ core r.1 = ground arith in
    record {
      at = λ x h.
          (Keeps-ask core-Blind env ip_link (record e { wifiswitch = true }) _
              λ s. note_wlan-Keeps _ s.1).at
            x h
          ∙ kept;
    }

wifi_off-Keeps : (env : Env) (d : Daemon) → Keeps core d (wifi_off env d)
unfolding wifi_off note
wifi_off-Keeps env d = record {
  at =
      (Keeps-ask core-Blind env ps_wpa_supplicant _ _ λ r.
        Keeps-then r.1 _ _
          (Keeps-if r.1 _ (Keeps-read r.1 _ _ λ pid. Keeps-some r.1 _ refl) (Keeps-self r.1))
          λ e. Keeps-some e _ refl).at;
}

pub wifi_command-Keeps : (env : Env) (t : Text) (d : Daemon) → Keeps core d (wifi_command env t d)
unfolding wifi_command
wifi_command-Keeps env t d =
    Keeps-if d _ (wifi_on-Keeps env d) (Keeps-if d _ (wifi_off-Keeps env d) (Keeps-self d))

pub rmnet_command-core : (t : Text) (d : Daemon) → core (rmnet_command t d) ≡ core d
unfolding rmnet_command
rmnet_command-core t d = ground arith

pub rule_command-Keeps : (env : Env) (t : Text) (d : Daemon) → Keeps core d (rule_command env t d)
unfolding rule_command note
rule_command-Keeps env t d =
    Keeps-if d _ (Keeps-some d _ refl) (Keeps-if d _ (ruleclear-Keeps env d) (Keeps-self d))

staticipfix-Keeps : (t : Text) (d : Daemon) → Keeps core d (staticipfix t d)
unfolding staticipfix
staticipfix-Keeps t d = record { at = λ e h. ground arith }

pub staticip_command-Keeps : (t : Text) (d : Daemon) → Keeps core d (staticip_command t d)
unfolding staticip_command
staticip_command-Keeps t d =
    Keeps-if d _ (Keeps-self d) (Keeps-if d _ (staticipfix-Keeps _ d) (Keeps-self d))

pub checkwpaconf-Keeps : (env : Env) (d : Daemon) → Keeps core d (checkwpaconf env d)
unfolding checkwpaconf note
checkwpaconf-Keeps env d = Keeps-read d _ _ λ t. Keeps-some d _ (ground arith)

apssidfix-Keeps : (t : Text) (d : Daemon) → Keeps core d (apssidfix t d)
unfolding apssidfix
apssidfix-Keeps t d = record { at = λ e h. ground arith }

pub apssid_command-Keeps :
    (env : Env) (t : Text) (d : Daemon) → Keeps core d (apssid_command env t d)
unfolding apssid_command
apssid_command-Keeps env t d = Keeps-if d _ (Keeps-self d) (
    Keeps-if d _ (Keeps-then d _ _ (apssidfix-Keeps _ d) λ e. checkwpaconf-Keeps env e)
      (Keeps-self d))

pub ipfixway_command-core : (t : Text) (d : Daemon) → core (ipfixway_command t d) ≡ core d
unfolding ipfixway_command
ipfixway_command-core t d = ground arith

pub set_count-core : (n : ℤ) (d : Daemon) → core (set_count n d) ≡ core d
unfolding set_count note
set_count-core (negsuc n) d = refl
set_count-core (pos zero) d = refl
set_count-core (pos (suc n)) d = ground arith

pub set_interval-core : (n : ℤ) (d : Daemon) → core (set_interval n d) ≡ core d
unfolding set_interval
set_interval-core (negsuc n) d = refl
set_interval-core (pos n) d = refl

pub set_beacons-core : (n : ℤ) (d : Daemon) → core (set_beacons n d) ≡ core d
unfolding set_beacons note
set_beacons-core n d = ground arith

select-Keeps : (env : Env) (n : ℤ) (d : Daemon) → Keeps core d (select env n d)
unfolding select note
select-Keeps env (negsuc n) d = Keeps-self d
select-Keeps env (pos n) d =
    Keeps-if d d.mnswitch (Keeps-some d _ refl)
      (record { at = (ipfix_mnoff-Keeps core-Blind env _).at })

pub to_command-Keeps : (env : Env) (t : Text) (d : Daemon) → Keeps core d (to_command env t d)
unfolding to_command
to_command-Keeps env t d = Keeps-if d _ (Keeps-self d) (Keeps-read d _ _ λ n. select-Keeps env n d)

pub link_command-Keeps : (t : Text) (d : Daemon) → Keeps core d (link_command t d)
unfolding link_command
link_command-Keeps t d = record { at = λ e h. ground arith }

pub fix_ping-Keeps : (t : Text) (d : Daemon) → Keeps core d (fix_ping t d)
unfolding fix_ping
fix_ping-Keeps t d = record { at = λ e h. ground arith }

pub miss_ping-Keeps : (t : Text) (d : Daemon) → Keeps core d (miss_ping t d)
unfolding miss_ping
miss_ping-Keeps t d = record { at = λ e h. ground arith }

go_to-Keeps : (env : Env) (id : ℤ) (d : Daemon) → Keeps core d (go_to env id d)
unfolding go_to note
go_to-Keeps env id d = Keeps-if d _ (Keeps-some d _ refl) (
    Keeps-if d d.mnswitch (Keeps-some d _ refl)
      (record { at = (ipfix_mnoff-Keeps core-Blind env _).at }))

status_network-core :
    (env : Env) (d : Daemon) (c : ℤ × Daemon) → status_network env d ≡ some c → core c.1 ≡ core d
unfolding status_network getcmd_result note
status_network-core env d c h = ground arith

leave_from-Keeps :
    (env : Env) (id : Option ℤ) (d : Daemon) (f : ℤ × Daemon → Option Daemon)
    → ((c : ℤ × Daemon) → Keeps core c.1 (f c))
    → Keeps core d (current_network env id d >>= f)
unfolding current_network
leave_from-Keeps env (some id) d f l = l (id, d)
leave_from-Keeps env none d f l = elim (Option-cases (status_network env d)) [
  | inl e ↦ rw e record { at = λ b h. cc }
  | inr s ↦ rw (s.1) record { at = λ b h. (l s.0).at b h ∙ status_network-core env d s.0 s.1 }
]

pub leave_network-Keeps : (env : Env) (d : Daemon) → Keeps core d (leave_network env d)
unfolding leave_network
leave_network-Keeps env d = Keeps-ask core-Blind env list_network d _ λ r. Keeps-read r.1 _ _ λ ns.
    leave_from-Keeps env (marked ns) r.1 _ λ c. Keeps-read c.1 _ _ λ id. go_to-Keeps env id c.1
