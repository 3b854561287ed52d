-- ===== src/Daemon/Control/Reach.antt =====
-- What holds while the daemon cngictrl runs.
use dsmip.Common.{◌+◌, ◌%◌, ◌^◌, ◌≡◌, ◌∙◌, true, not, up, arith}
use dsmip.Daemon.Text.{Text, codes, has}
use dsmip.Daemon.State.{lsmod, ps_mn, rmnet_fix, Env, Daemon, note, getcmd_result}
use dsmip.Daemon.Ping.{is_off, is_stopped}
use dsmip.Daemon.Reach.{
  globals, adopt_mn, cngictrl_init, Step, a_line, an_answer, a_round, a_failure, Reachable, started,
  stepped,
}
use dsmip.Daemon.Core.{core_calls, core, getcmd_result-core}
use dsmip.Daemon.Core.Commands.{checkwpaconf-Keeps}
use dsmip.Daemon.Control.{
  pinging, frozen, requests, Proper, Numbered, IsControlled, Keeps-IsControlled, core-IsControlled,
}
use dsmip.Daemon.Control.Results.{
  Controlled, some-Controlled, then-Controlled, kept_then-Controlled, kept_ask-Controlled,
}
use dsmip.Daemon.Control.Answers.{receive-Keeps, round-core}
use dsmip.Daemon.Control.Lines.{run_line-Controlled}

adopt_mn-Controlled :
    (env : Env) (r : Text × Daemon) → core r.1 ≡ core globals → Controlled (adopt_mn env r)
unfolding adopt_mn getcmd_result note
adopt_mn-Controlled env r k = record { result = λ e h. ground arith }

init-Controlled : (env : Env) → Controlled (cngictrl_init env globals)
unfolding cngictrl_init
init-Controlled env = kept_then-Controlled globals _ _ (checkwpaconf-Keeps env globals) λ e p.
    kept_ask-Controlled e _ _ (getcmd_result-core env lsmod e) λ r q.
      let f : Daemon = record r.1 { wifiswitch = has r.0 (codes "ar6000") } in
      kept_ask-Controlled f _ _ (getcmd_result-core env ps_mn f) λ s u.
        then-Controlled _ _ (adopt_mn-Controlled env s (u ∙ q ∙ p))
          λ g v. some-Controlled (record g { rmnetstatus = rmnet_fix }) v

step-IsControlled :
    (env : Env) {d e : Daemon} → Step env d e → IsControlled (core d) → IsControlled (core e)
step-IsControlled env {d} {e} (a_line line _ h) v = (run_line-Controlled env line d v).result e h
step-IsControlled env {d} {e} (an_answer a _ h) v = Keeps-IsControlled (receive-Keeps env a d) v h
step-IsControlled env {d} {e} (a_round reading t t' _ h) v =
    core-IsControlled d e (round-core env reading t t' d e h) v
step-IsControlled env a_failure v = v

pub Reachable-IsControlled : (env : Env) {d : Daemon} → Reachable env d → IsControlled (core d)
Reachable-IsControlled env {d} (started _ h) = (init-Controlled env).result d h
Reachable-IsControlled env (stepped r on s) = step-IsControlled env s (Reachable-IsControlled env r)

-- While the control daemon runs, the log of its calls shows these of the ping thread and of the
-- mobile node's process: the thread is made only while there is none, and woken and waited for only
-- while there is one; the process is stopped only while it is not stopped, continued only while it
-- is stopped, and ended only while it is not stopped; there is a ping thread exactly if pingstatus
-- is not PINGOFF; halting is set exactly if it is PINGSTOP; and while mnswitch is on the process is
-- stopped exactly if mnstop is set.
pub Reachable-Proper :
    (env : Env) (d : Daemon)
    → Reachable env d
    → Proper (core_calls d.log)
      × (up pinging (core_calls d.log) ≡ not (is_off d.pingstatus))
      × (d.halting ≡ is_stopped d.pingstatus)
      × (d.mnswitch ≡ true → up frozen (core_calls d.log) ≡ d.mnstop)
Reachable-Proper env d r =
    let v = Reachable-IsControlled env r in (v.proper, v.thread, v.halts, v.process)

-- While the control daemon runs, its requests to the mobile node have the numbers from 2 on in
-- their order, modulo 2 to the 16, and __SEQNO__ is the next number.
pub Reachable-Numbered :
    (env : Env) (d : Daemon)
    → Reachable env d
    → Numbered (core_calls d.log) × (d.seqno ≡ (2 + requests (core_calls d.log)) % 2 ^ 16)
Reachable-Numbered env d r = let v = Reachable-IsControlled env r in (v.numbered, v.counted)
