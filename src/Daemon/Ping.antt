-- ===== src/Daemon/Ping.antt =====
-- The command `ping` of cngictrl/cngictrl.c. `pthread_create` answers a positive number where it fails, so its
-- test for a negative one always passes. That a thread has gone when `pthread_join` returns is part of `join`.
use dsmip.Common.{
  ℕ, ◌-◌, ◌%◌, ◌^◌, ℤ, pos, negsuc, Bool, true, false, not, ◌&&◌, [], ◌∷◌, Option, none, some,
  if◌then◌else◌,
}
use dsmip.Daemon.Text.{Text, codes, ◌>>=◌, strstr, has, skipspace, getnumfromstr, copy, after}
use dsmip.Daemon.State.{
  PingStatus, ping_running, ping_off, ping_stopped, ping_thread, create, join, signal, Daemon, note,
}

-- `x[strlen(x)-1]=0`, before the array where the text is empty
unfoldable pub drop_last : Text → Option Text
drop_last [] = none
drop_last (c ∷ []) = some []
drop_last (c ∷ d ∷ t) = (drop_last (d ∷ t) >>= λ r. some (c ∷ r))

abbrev pub is_off : PingStatus → Bool
is_off ping_off = true
is_off _ = false

abbrev pub is_pinging : PingStatus → Bool
is_pinging ping_running = true
is_pinging _ = false

abbrev pub is_stopped : PingStatus → Bool
is_stopped ping_stopped = true
is_stopped _ = false

unfoldable pub start_ping : Daemon → Daemon
unfolding note
start_ping d =
    if is_off d.pingstatus
    then record (note (create ping_thread) d) {
      pingstatus = ping_running;
      pingfixed = false;
      halting = false;
      exiting = false;
    }
    else d

-- The thread is woken if it halts, told to exit, and waited for.
unfoldable pub end_ping : Daemon → Daemon
unfolding note
end_ping d =
    if is_off d.pingstatus
    then d
    else let w : Daemon =
        if d.halting then record (note (signal ping_thread) d) { halting = false } else d in
      record (note (join ping_thread) w) { exiting = false; pingstatus = ping_off }

unfoldable pub stop_ping : Daemon → Daemon
stop_ping d =
    if is_pinging d.pingstatus then record d { halting = true; pingstatus = ping_stopped } else d

unfoldable pub cont_ping : Daemon → Daemon
unfolding note
cont_ping d =
    if is_stopped d.pingstatus
    then record (note (signal ping_thread) d) { halting = false; pingstatus = ping_running }
    else d

unfoldable pub fix_ping : Text → Daemon → Option Daemon
unfolding drop_last
fix_ping t d = copy 80 (skipspace t) >>= λ c.
    drop_last c >>= λ p. some (record d { pingcmd = p; pingfixed = true })

-- The conversion to `__u16`.
unfoldable pub to_u16 : ℤ → ℕ
to_u16 (pos n) = n % 2 ^ 16
to_u16 (negsuc n) = 2 ^ 16 - 1 - n % 2 ^ 16

unfoldable pub miss_ping : Text → Daemon → Option Daemon
unfolding to_u16
miss_ping t d = getnumfromstr t >>= λ n. some (record d { missedseq = to_u16 n })

unfoldable pub restart_ping : Daemon → Daemon
restart_ping d = start_ping (record (end_ping d) { pingfixed = false })

unfoldable pub ping_command : Text → Daemon → Option Daemon
ping_command lp d =
    if not (has lp (codes "cont")) && has lp (codes "on")
    then some (start_ping d)
    else if has lp (codes "off")
    then some (end_ping d)
    else if has lp (codes "stop")
    then some (stop_ping d)
    else if has lp (codes "cont")
    then some (cont_ping d)
    else if has lp (codes "fix")
    then fix_ping (after 3 (strstr lp (codes "fix"))) d
    else if has lp (codes "restart")
    then some (restart_ping d)
    else if has lp (codes "miss")
    then miss_ping (after 4 (strstr lp (codes "miss"))) d
    else some d
