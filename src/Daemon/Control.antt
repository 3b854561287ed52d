-- ===== src/Daemon/Control.antt =====
-- What the daemon's log says of the ping thread, the mobile node's process and the requests, for the handlers of
-- cngictrl/cngictrl.c that make these calls.
pub mod Results
pub mod Answers
pub mod Lines
pub mod Reach
use dsmip.Common.{
  ℕ, zero, suc, ◌+◌, ◌%◌, ◌^◌, ℤ, ◌≡◌, refl, sym, subst, Bool, true, false, not, List, [], ◌∷◌,
  Option, none, some, up, arith, if◌then◌else◌,
}
use dsmip.Mobile.Events.Control.{CtrlCmd, auto_handoff_on, auto_handoff_off}
use dsmip.Daemon.Text.{Text, ◌>>=◌}
use dsmip.Daemon.State.{
  sig_int, sig_stop, sig_cont, ping_thread, ping_running, ping_stopped, ping_off, Call, start_mn,
  kill, create, join, signal, sendto_mn, Calls, Env, Daemon, note, getcmd_result, ps_mn,
}
use dsmip.Daemon.Node.{find_pid, mn_on, end_mn, mn_off, mn_stop, mn_cont, is_found}
use dsmip.Daemon.Ping.{
  is_off, is_stopped, is_pinging, start_ping, end_ping, stop_ping, cont_ping, restart_ping,
}
use dsmip.Daemon.Main.{request}
use dsmip.Daemon.Core.{core_calls, Core, core, Keeps}

-- Is the ping thread there?
abbrev pub pinging : Call → Option Bool
pinging (create ping_thread) = some true
pinging (join ping_thread) = some false
pinging _ = none

-- Is the mobile node's process stopped by a signal?
abbrev pub frozen : Call → Option Bool
frozen start_mn = some false
frozen (kill sig_stop p) = some true
frozen (kill sig_cont p) = some false
frozen _ = none

-- Has the mobile node been told to leave handoffs to the user?
abbrev pub by_hand : Call → Option Bool
by_hand (sendto_mn auto_handoff_off n) = some true
by_hand (sendto_mn auto_handoff_on n) = some false
by_hand _ = none

abbrev pub requests : Calls → ℕ
requests [] = 0
requests (sendto_mn c n ∷ log) = requests log + 1
requests (_ ∷ log) = requests log

-- One ping thread at a time, waited for once; a process is stopped and continued in turn, and ended while it
-- is not stopped.
abbrev pub Proper : Calls → Type 0
Proper [] = Unit
Proper (create ping_thread ∷ log) = (up pinging log ≡ false) × Proper log
Proper (join ping_thread ∷ log) = (up pinging log ≡ true) × Proper log
Proper (signal ping_thread ∷ log) = (up pinging log ≡ true) × Proper log
Proper (kill sig_stop p ∷ log) = (up frozen log ≡ false) × Proper log
Proper (kill sig_cont p ∷ log) = (up frozen log ≡ true) × Proper log
Proper (kill sig_int p ∷ log) = (up frozen log ≡ false) × Proper log
Proper (_ ∷ log) = Proper log

-- The requests are numbered from 2 on.
abbrev pub Numbered : Calls → Type 0
Numbered [] = Unit
Numbered (sendto_mn c n ∷ log) = (n ≡ (2 + requests log) % 2 ^ 16) × Numbered log
Numbered (_ ∷ log) = Numbered log

pub record IsControlled (c : Core) : Type 0 where
  pub proper : Proper c.calls
  pub thread : up pinging c.calls ≡ not (is_off c.pingstatus)
  pub halts : c.halting ≡ is_stopped c.pingstatus
  pub stays : c.exiting ≡ false
  pub process : c.mnswitch ≡ true → up frozen c.calls ≡ c.mnstop
  pub numbered : Numbered c.calls
  pub counted : c.seqno ≡ (2 + requests c.calls) % 2 ^ 16
  pub agreed : up by_hand c.calls ≡ not c.autohandoff

pub Keeps-IsControlled :
    {d e : Daemon} {o : Option Daemon}
    → Keeps core d o
    → IsControlled (core d)
    → o ≡ some e
    → IsControlled (core e)
Keeps-IsControlled {e = e} k v h = subst (λ c. IsControlled c) (sym (k.at e h)) v

pub core-IsControlled :
    (d e : Daemon) → core e ≡ core d → IsControlled (core d) → IsControlled (core e)
core-IsControlled d e h v = subst (λ c. IsControlled c) (sym h) v

module _ (d : Daemon) (v : IsControlled (core d)) where
  pub start_ping-IsControlled : IsControlled (core (start_ping d))
  unfolding start_ping note
  start_ping-IsControlled = ground arith

  pub end_ping-IsControlled : IsControlled (core (end_ping d))
  unfolding end_ping note
  end_ping-IsControlled = ground arith

  pub stop_ping-IsControlled : IsControlled (core (stop_ping d))
  unfolding stop_ping
  stop_ping-IsControlled = ground arith

  pub cont_ping-IsControlled : IsControlled (core (cont_ping d))
  unfolding cont_ping note
  cont_ping-IsControlled = ground arith

  pub end_mn-IsControlled : d.mnswitch ≡ true → IsControlled (core (end_mn d))
  unfolding end_mn note
  end_mn-IsControlled on = ground arith

  pub mn_stop-IsControlled : IsControlled (core (mn_stop d))
  unfolding mn_stop note
  mn_stop-IsControlled = ground arith

  pub mn_cont-IsControlled : IsControlled (core (mn_cont d))
  unfolding mn_cont note
  mn_cont-IsControlled = ground arith

  pub mn_on-IsControlled : (env : Env) {e : Daemon} → mn_on env d ≡ some e → IsControlled (core e)
  unfolding mn_on note getcmd_result
  mn_on-IsControlled env h = ground arith
