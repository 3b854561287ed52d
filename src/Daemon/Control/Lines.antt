-- ===== src/Daemon/Control/Lines.antt =====
-- The lines of input of cngictrl/cngictrl.c, and the daemon's threads, process and requests.
use dsmip.Common.{
  ℕ, ◌≡◌, refl, false, ◌&&◌, Option, none, some, inl, inr, Bool-cases, &&-eq-true, arith,
  if◌then◌else◌,
}
use dsmip.Mobile.Events.Control.{CtrlCmd}
use dsmip.Daemon.Text.{Text, getnumfromstr}
use dsmip.Daemon.State.{
  wpa_cli, wmiconfig, wpa_list, wpa_shell, show_conf, logcat, catproc, join, signal, detect_thread,
  flow_handoff, clean_xfrm, Env, Daemon, note,
}
use dsmip.Daemon.Node.{mn_off, end_mn, mn_stop, mn_cont, mn_command, is_found}
use dsmip.Daemon.Ping.{start_ping, end_ping, stop_ping, cont_ping, restart_ping, ping_command}
use dsmip.Daemon.Settings.{rmnet_command, ipfixway_command, set_count, set_interval, set_beacons}
use dsmip.Daemon.Words.{Word, words, find_word}
use dsmip.Daemon.Main.{
  request, handoff_link, go_rmnet, go_wlan, handoff_to, handoff_by, handoff_command, auto_command,
  scan_command, quit_command, perform, obey, run_line,
}
use dsmip.Daemon.Core.{core-Blind, core, Keeps, Keeps-some, Keeps-then}
use dsmip.Daemon.Core.Quiet.{check_rmnet-Keeps}
use dsmip.Daemon.Core.Shell.{
  run-Keeps, iproutedel-Keeps, rmnet_route_add-Keeps, wlan_route_add-Keeps,
}
use dsmip.Daemon.Core.Commands.{
  wifi_command-Keeps, rmnet_command-core, rule_command-Keeps, staticip_command-Keeps,
  apssid_command-Keeps, ipfixway_command-core, set_count-core, set_interval-core, set_beacons-core,
  to_command-Keeps, link_command-Keeps, fix_ping-Keeps, miss_ping-Keeps,
}
use dsmip.Daemon.Control.{
  IsControlled, start_ping-IsControlled, end_ping-IsControlled, stop_ping-IsControlled,
  cont_ping-IsControlled, end_mn-IsControlled, mn_stop-IsControlled, mn_cont-IsControlled,
  mn_on-IsControlled,
}
use dsmip.Daemon.Control.Results.{
  Controlled, some-Controlled, if-Controlled, kept-Controlled, same-Controlled, then-Controlled,
  read-Controlled,
}

mn_off-IsControlled : (d : Daemon) → IsControlled (core d) → IsControlled (core (mn_off d))
unfolding mn_off
mn_off-IsControlled d v = elim (Bool-cases (d.mnswitch && is_found d)) [
  | inl h ↦ rw h (end_mn-IsControlled d v (&&-eq-true _ _ h).0)
  | inr h ↦ rw h v
]

mn_command-Controlled :
    (env : Env) (t : Text) (d : Daemon) → IsControlled (core d) → Controlled (mn_command env t d)
unfolding mn_command
mn_command-Controlled env t d v =
    if-Controlled _ (record { result = λ e h. mn_on-IsControlled d v env h })
      (if-Controlled _ (some-Controlled (mn_off d) (mn_off-IsControlled d v)) (
        if-Controlled _ (some-Controlled (mn_stop d) (mn_stop-IsControlled d v)) (
          if-Controlled _ (some-Controlled (mn_cont d) (mn_cont-IsControlled d v))
            (some-Controlled d v))))

restart_ping-IsControlled :
    (d : Daemon) → IsControlled (core d) → IsControlled (core (restart_ping d))
unfolding restart_ping
restart_ping-IsControlled d v =
    start_ping-IsControlled (record (end_ping d) { pingfixed = false }) (end_ping-IsControlled d v)

ping_command-Controlled :
    (t : Text) (d : Daemon) → IsControlled (core d) → Controlled (ping_command t d)
unfolding ping_command
ping_command-Controlled t d v =
    if-Controlled _ (some-Controlled (start_ping d) (start_ping-IsControlled d v)) (
      if-Controlled _ (some-Controlled (end_ping d) (end_ping-IsControlled d v)) (
        if-Controlled _ (some-Controlled (stop_ping d) (stop_ping-IsControlled d v)) (
          if-Controlled _ (some-Controlled (cont_ping d) (cont_ping-IsControlled d v)) (
            if-Controlled _ (kept-Controlled d (fix_ping-Keeps _ d) v) (
              if-Controlled _ (some-Controlled (restart_ping d) (restart_ping-IsControlled d v)) (
                if-Controlled _ (kept-Controlled d (miss_ping-Keeps _ d) v)
                  (some-Controlled d v)))))))

handoff-IsControlled :
    (i : ℕ) (d : Daemon)
    → IsControlled (core d)
    → IsControlled (core (request (CtrlCmd.handoff i) d))
unfolding request note
handoff-IsControlled i d v = ground arith

lscoa-IsControlled :
    (d : Daemon) → IsControlled (core d) → IsControlled (core (request CtrlCmd.lscoa d))
unfolding request note
lscoa-IsControlled d v = ground arith

auto_command-IsControlled :
    (t : Text) (d : Daemon) → IsControlled (core d) → IsControlled (core (auto_command t d))
unfolding auto_command request note
auto_command-IsControlled t d v = ground arith

handoff_to-Controlled :
    (env : Env) (i : ℕ) (d : Daemon) → IsControlled (core d) → Controlled (handoff_to env i d)
unfolding handoff_to
handoff_to-Controlled env i d v =
    then-Controlled _ _ (kept-Controlled d (check_rmnet-Keeps core-Blind (λ e t. refl) env d) v)
      λ e x. then-Controlled _ _ (kept-Controlled e (iproutedel-Keeps core-Blind env e) x) λ f y.
        then-Controlled _ _
          (if-Controlled _ (kept-Controlled f (go_rmnet-Keeps f) y)
            (kept-Controlled f (go_wlan-Keeps f) y))
          λ g z. some-Controlled (request (CtrlCmd.handoff i) g) (handoff-IsControlled i g z)
  where
    go_rmnet-Keeps : (f : Daemon) → Keeps core f (go_rmnet f)
    go_rmnet-Keeps f =
        unfold go_rmnet in
        Keeps-then f _ _ (rmnet_route_add-Keeps core-Blind f)
          λ g. Keeps-some g (record g { currentlinknum = g.linknumrmnet }) refl

    go_wlan-Keeps : (f : Daemon) → Keeps core f (go_wlan f)
    go_wlan-Keeps f =
        unfold go_wlan in
        Keeps-then f _ _ (wlan_route_add-Keeps core-Blind f)
          λ g. Keeps-some g (record g { currentlinknum = g.linknumwlan }) refl

handoff_by-Controlled :
    (env : Env) (i : Option ℕ) (d : Daemon)
    → IsControlled (core d)
    → Controlled (handoff_by env i d)
unfolding handoff_by
handoff_by-Controlled env none d v = some-Controlled d v
handoff_by-Controlled env (some i) d v =
    if-Controlled _ (some-Controlled d v) (handoff_to-Controlled env i d v)

handoff_command-Controlled :
    (env : Env) (t : Text) (d : Daemon)
    → IsControlled (core d)
    → Controlled (handoff_command env t d)
unfolding handoff_command
handoff_command-Controlled env t d v = handoff_by-Controlled env (handoff_link t d) d v

scan_command-core : (t : Text) (d : Daemon) → core (scan_command t d) ≡ core d
unfolding scan_command note
scan_command-core t d = ground arith

end_found-IsControlled :
    (e : Daemon)
    → IsControlled (core e)
    → IsControlled (core (if e.mnswitch && is_found e then end_mn e else e))
end_found-IsControlled e v = elim (Bool-cases (e.mnswitch && is_found e)) [
  | inl h ↦ rw h (end_mn-IsControlled e v (&&-eq-true _ _ h).0)
  | inr h ↦ rw h v
]

quit_command-IsControlled :
    (d : Daemon) → IsControlled (core d) → IsControlled (core (quit_command d))
unfolding quit_command note
quit_command-IsControlled d v =
    let c : Daemon =
      note (join detect_thread) (note (signal detect_thread) (record d { detect_run = false })) in
    end_found-IsControlled (end_ping c) (end_ping-IsControlled c v)

-- The operations of the lines.
perform-Controlled :
    (env : Env) (w : Word) (t : Text) (d : Daemon)
    → IsControlled (core d)
    → Controlled (perform env w t d)
unfolding perform note
perform-Controlled env Word.wifi t d v = kept-Controlled d (wifi_command-Keeps env t d) v
perform-Controlled env Word.rmnet t d v =
    same-Controlled d (rmnet_command t d) (rmnet_command-core t d) v
perform-Controlled env Word.mn t d v = mn_command-Controlled env t d v
perform-Controlled env Word.ping t d v = ping_command-Controlled t d v
perform-Controlled env Word.rule t d v = kept-Controlled d (rule_command-Keeps env t d) v
perform-Controlled env Word.staticip t d v = kept-Controlled d (staticip_command-Keeps t d) v
perform-Controlled env Word.apssid t d v = kept-Controlled d (apssid_command-Keeps env t d) v
perform-Controlled env Word.ipfixway t d v =
    same-Controlled d (ipfixway_command t d) (ipfixway_command-core t d) v
perform-Controlled env Word.setbmisscnt t d v =
    read-Controlled (getnumfromstr t) _
      λ n. same-Controlled d (set_count n d) (set_count-core n d) v
perform-Controlled env Word.setbmissintvl t d v =
    read-Controlled (getnumfromstr t) _
      λ n. same-Controlled d (set_interval n d) (set_interval-core n d) v
perform-Controlled env Word.to t d v = kept-Controlled d (to_command-Keeps env t d) v
perform-Controlled env Word.list t d v = same-Controlled d (note wpa_list d) refl v
perform-Controlled env Word.scan t d v =
    same-Controlled d (scan_command t d) (scan_command-core t d) v
perform-Controlled env Word.wpa_cli_shell t d v = same-Controlled d (note wpa_shell d) refl v
perform-Controlled env Word.wpa_cli t d v =
    kept-Controlled d (run-Keeps core-Blind 48 t wpa_cli d refl) v
perform-Controlled env Word.show t d v = same-Controlled d (note show_conf d) refl v
perform-Controlled env Word.setbmissbeacons t d v =
    read-Controlled (getnumfromstr t) _
      λ n. same-Controlled d (set_beacons n d) (set_beacons-core n d) v
perform-Controlled env Word.wmiconfig t d v =
    kept-Controlled d (run-Keeps core-Blind 19 t wmiconfig d refl) v
perform-Controlled env Word.logcat t d v = same-Controlled d (note logcat d) refl v
perform-Controlled env Word.catproc t d v = same-Controlled d (note catproc d) refl v
perform-Controlled env Word.lscoa t d v =
    some-Controlled (request CtrlCmd.lscoa d) (lscoa-IsControlled d v)
perform-Controlled env Word.handoff t d v = handoff_command-Controlled env t d v
perform-Controlled env Word.ap t d v = some-Controlled d v
perform-Controlled env Word.automatic t d v =
    some-Controlled (auto_command t d) (auto_command-IsControlled t d v)
perform-Controlled env Word.quit t d v =
    some-Controlled (quit_command d) (quit_command-IsControlled d v)
perform-Controlled env Word.link t d v = kept-Controlled d (link_command-Keeps t d) v
perform-Controlled env Word.help t d v = some-Controlled d v
perform-Controlled env Word.flowhf t d v = same-Controlled d (note flow_handoff d) refl v
perform-Controlled env Word.cleanxfrm t d v = same-Controlled d (note clean_xfrm d) refl v

obey-Controlled :
    (env : Env) (line : Text) (w : Option (Text × Word)) (d : Daemon)
    → IsControlled (core d)
    → Controlled (obey env line w d)
unfolding obey
obey-Controlled env line none d v = some-Controlled d v
obey-Controlled env line (some w) d v = perform-Controlled env w.1 _ d v

pub run_line-Controlled :
    (env : Env) (line : Text) (d : Daemon)
    → IsControlled (core d)
    → Controlled (run_line env line d)
unfolding run_line
run_line-Controlled env line d v = obey-Controlled env line (find_word line words) d v
