-- ===== src/Mobile/Pace.antt =====
-- How often `bu_worker` and `nat_probe_worker` send.
use dsmip.Common.{ℕ, ◌+◌, ◌≤◌, ◌≡◌, refl, ap₂, arith, true, false, List, [], ◌∷◌, if◌then◌else◌}
use dsmip.Mobile.State.{CoaType, at_home, nat_v4, plain_v4, on_v6, Iface, Calls, Env, Node}
use dsmip.Mobile.Handoff.Steps.{send_bu}
use dsmip.Mobile.Events.Workers.{
  is_due, refresh, bu_worker, wants_probe, probe_times, probe_calls, nat_probe_worker,
}

-- No binding update within five seconds after one that has been sent.
module _ (env later : Env) (n : Node) (sent : (log : Calls) → env.is_sent log ≡ true)
    (since : env.uptime ≤ later.uptime) (soon : later.uptime ≤ env.uptime + 5) where
  not_due : is_due env.uptime later.uptime ≡ false
  not_due = ground (arith, since, soon)

  refresh-time :
      (t : CoaType)
      → (n.current_coa_type ≡ t)
      → (is_due n.last_bu_t env.uptime ≡ true)
      → bu_worker later false (refresh env n t) ≡ refresh env n t
  unfolding bu_worker send_bu
  refresh-time at_home e due = ground (arith, e)
  refresh-time nat_v4 e due = rw (sent, not_due) refl
  refresh-time plain_v4 e due = rw (sent, not_due) refl
  refresh-time on_v6 e due = rw (sent, not_due) refl

  -- If a binding update of bu_worker is due and sending succeeds, a call of bu_worker at most five
  -- seconds later does nothing.
  bu_worker-spaced :
      is_due n.last_bu_t env.uptime ≡ true
      → bu_worker later false (bu_worker env false n) ≡ bu_worker env false n
  unfolding bu_worker
  bu_worker-spaced due = rw (bu_worker, due) (refresh-time n.current_coa_type refl due)

-- A second round of probes in the same second sends none.
module _ (env : Env) (preferred : ℕ) where
  probed : Iface → Iface
  probed f = if wants_probe env preferred f then record f { last_nat_probe_t = env.uptime } else f

  wants_probe-probed : (f : Iface) → wants_probe env preferred (probed f) ≡ false
  unfolding probed wants_probe
  wants_probe-probed f = ground arith

  probe_times-again :
      (fs : List Iface)
      → probe_times env preferred (probe_times env preferred fs) ≡ probe_times env preferred fs
  unfolding probe_times probed
  probe_times-again [] = refl
  probe_times-again (f ∷ fs) =
      ap₂ (λ g gs. g ∷ gs) (rw (wants_probe-probed f) refl) (probe_times-again fs)

  probe_calls-again :
      (fs : List Iface) (log : Calls)
      → probe_calls env preferred (probe_times env preferred fs) log ≡ log
  unfolding probe_times probe_calls probed
  probe_calls-again [] log = refl
  probe_calls-again (f ∷ fs) log = rw (probe_calls, wants_probe-probed f) (probe_calls-again fs log)

nat_probe_worker-again :
    (env : Env) (n : Node) → nat_probe_worker env (nat_probe_worker env n) ≡ nat_probe_worker env n
unfolding nat_probe_worker
nat_probe_worker-again env n =
    let p = n.preferred_ifindex in
    rw
      (
        probe_times-again env p n.ifaces,
        probe_calls-again env p n.ifaces (probe_calls env p n.ifaces n.log),
      )
      refl
