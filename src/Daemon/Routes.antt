-- ===== src/Daemon/Routes.antt =====
-- The routes and addresses that cngictrl/cngictrl.h changes by the command `ip`, and the loops over what it
-- prints. A command is built in an array of 80 characters; `none` is a write beyond it, or a null pointer.
pub mod Lines
use dsmip.Common.{
  ℕ, ◌+◌, ℤ, pos, Bool, true, false, not, ◌&&◌, ◌||◌, List, [], ◌∷◌, ◌++◌, length, drop, Option,
  none, some, ◌==◌, ltb, is_pos, if◌then◌else◌,
}
use dsmip.Daemon.Text.{
  Text, codes, newline, space, ◌>>=◌, begins, strstr, has, strchr, skipspace, scan_digits,
  getnumfromstr, copy, read_lines, break_at, is_newline, break_space, blank_newline,
}
use dsmip.Daemon.State.{
  Family, ipv4, ipv6, Query, ip4_addr, ip4_addr_wlan, ip4_route, ip4_route_rmnet, ip4_route_wlan,
  ip_rule, Call, Calls, ip_addr_del, ip_route_del, ip_route_add, ip_rule_del, xfrm_state_deleteall,
  xfrm_policy_flush, rmnet_on, Env, Daemon, note, getcmd_result,
}

-- `sprintf`, `strcat` and `system` of a command with the number of fixed characters.
unfoldable pub run : ℕ → Text → (Text → Call) → Daemon → Option Daemon
unfolding note
run fixed t c d = if ltb (fixed + length t) 80 then some (note (c t) d) else none

unfoldable pub run_all : ℕ → (Text → Call) → List Text → Daemon → Option Daemon
run_all fixed c [] d = some d
run_all fixed c (t ∷ ts) d = run fixed t c d >>= λ e. run_all fixed c ts e

-- The words after "inet". The search goes on from such a word; what it skips, "inet" and spaces, has no
-- beginning of another one.
unfoldable pub inet_words : Text → Option (List Text)
unfolding begins
inet_words [] = some []
inet_words (c ∷ t) =
    let rest = inet_words t in
    if begins (c ∷ t) (codes "inet")
    then (break_space (skipspace (drop 4 (c ∷ t))) >>= λ w.
        copy 80 w.0 >>= λ a. rest >>= λ r. some (a ∷ r))
    else rest

unfoldable pub ipaddrdel : Env → Daemon → Option Daemon
ipaddrdel env d = getcmd_result env ip4_addr d >>= λ r.
    if not (has r.0 (codes "wlan0"))
    then some r.1
    else (getcmd_result env ip4_addr_wlan r.1 >>= λ s.
        inet_words s.0 >>= λ ws. run_all 22 ip_addr_del ws s.1)

-- From each "default" to the end of its line.
unfoldable pub default_lines : Bool → Text → List Text
unfolding begins
default_lines seen [] = []
default_lines seen (c ∷ t) =
    let starts : Bool = not seen && begins (c ∷ t) (codes "default") in
    let rest = default_lines (not (c == newline) && (seen || starts)) t in
    if starts then (break_at is_newline (c ∷ t)).0 ∷ rest else rest

unfoldable pub iproutedel : Env → Daemon → Option Daemon
iproutedel env d =
    getcmd_result env ip4_route d >>= λ r. run_all 13 ip_route_del (default_lines false r.0) r.1

-- The loop of `ruleclear` over the lines.
unfoldable pub prefs : Text → Option (List ℤ)
prefs t = read_lines getnumfromstr true t

abbrev pub is_own : ℤ → Bool
is_own (pos n) = ltb 100 n && ltb n 30000
is_own _ = false

unfoldable pub del_rules : Family → List ℤ → Calls → Calls
del_rules f [] log = log
del_rules f (n ∷ ns) log = del_rules f ns (if is_own n then ip_rule_del f n ∷ log else log)

unfoldable pub clear_family : Env → Family → Daemon → Option Daemon
unfolding note
clear_family env f d = getcmd_result env (ip_rule f) d >>= λ r. prefs r.0 >>= λ ns. some (
    note (xfrm_policy_flush f)
      (note (xfrm_state_deleteall f) (record r.1 { log = del_rules f ns r.1.log })))

unfoldable pub ruleclear : Env → Daemon → Option Daemon
ruleclear env d = clear_family env ipv4 d >>= λ e. clear_family env ipv6 e

-- The default route of an interface, with its name put behind it.
unfoldable pub with_dev : Text → Text → Option Text
unfolding blank_newline
with_dev p dev = copy 80 p >>= λ r. copy 80 (blank_newline r ++ dev)

unfoldable pub rmnetcheck : Env → Daemon → Option Daemon
rmnetcheck env d = getcmd_result env ip4_route d >>= λ r.
    if not (has r.0 (codes "rmnet0"))
    then some r.1
    else (getcmd_result env ip4_route_rmnet r.1 >>= λ s. elim (strstr s.0 (codes "default")) [
      | none ↦ some s.1
      | some p ↦ with_dev p (codes " dev rmnet0") >>= λ route.
          some (record s.1 { rmnet_route = route; rmnet_flag = true; rmnetstatus = rmnet_on })
    ])

unfoldable pub wlancheck : Env → Daemon → Option Daemon
wlancheck env d = getcmd_result env ip4_route d >>= λ r.
    if not (has r.0 (codes "wlan0"))
    then some r.1
    else (getcmd_result env ip4_route_wlan r.1 >>= λ s. elim (strstr s.0 (codes "default")) [
      | none ↦ some s.1
      | some p ↦
          with_dev p (codes " dev wlan0") >>= λ route. some (record s.1 { wlan_route = route })
    ])

unfoldable pub rmnet_route_add : Daemon → Option Daemon
rmnet_route_add d = if d.rmnet_flag then run 13 d.rmnet_route ip_route_add d else some d

unfoldable pub rmnet_route_del : Daemon → Option Daemon
rmnet_route_del d = if d.rmnet_flag then run 13 d.rmnet_route ip_route_del d else some d

-- What `ip route add` or `del` with the route holds is looked through for "dev".
unfoldable pub run_wlan : Text → (Text → Call) → Daemon → Option Daemon
run_wlan verb c d = run 13 d.wlan_route c d >>= λ e.
    some (if has (verb ++ d.wlan_route) (codes "dev") then e else d)

unfoldable pub wlan_route_add : Daemon → Option Daemon
wlan_route_add d = if d.wifiswitch then run_wlan (codes "ip route add ") ip_route_add d else some d
