-- ===== src/Daemon/Control/Answers.antt =====
-- The mobile node's answers and the rounds of the thread of cngictrl/cngictrl.c, and the threads, the
-- process and the requests.
use dsmip.Common.{ℕ, ◌≡◌, refl, Option, none, some, arith}
use dsmip.Daemon.State.{Env, Daemon, rmnet_fix, show_answer, ipfix_done, note}
use dsmip.Daemon.Ipfix.{ipfix}
use dsmip.Daemon.Detect.{Detector, detect_round}
use dsmip.Daemon.Main.{Ack, notified, receive}
use dsmip.Daemon.Core.{core, Keeps, Keeps-some, Keeps-self, Keeps-if, Keeps-then}
use dsmip.Daemon.Core.Quiet.{ipfix-Keeps}
use dsmip.Daemon.Core.Commands.{leave_network-Keeps}

notified-Keeps : (env : Env) (a : Ack) (d : Daemon) → Keeps core d (notified env a d)
unfolding notified note
notified-Keeps env a d =
    Keeps-if d _
      (Keeps-if d _
        (Keeps-then d (ipfix env a.ack0 a.ack1 a.ack2 d) _ (ipfix-Keeps env a.ack0 a.ack1 a.ack2 d)
          λ e. Keeps-some e (note ipfix_done e) refl)
        (Keeps-self d))
      (Keeps-if d _ (Keeps-some d (record d { rmnetstatus = rmnet_fix }) refl) (Keeps-self d))

pub receive-Keeps : (env : Env) (a : Ack) (d : Daemon) → Keeps core d (receive env a d)
unfolding receive note
receive-Keeps env a d =
    Keeps-if d _ (Keeps-some d (note show_answer d) refl)
      (Keeps-if d _ (notified-Keeps env a d) (Keeps-self d))

pub round-core :
    (env : Env) (reading : Option ℕ) (t t' : Detector) (d e : Daemon)
    → detect_round env reading t d ≡ some (t', e)
    → core e ≡ core d
unfolding detect_round
round-core env none t t' d e h = cc
round-core env (some v) t t' d e h = ground (arith, (leave_network-Keeps env d).at e)
