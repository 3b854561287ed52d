-- ===== src/Ha/Round.antt =====
-- One round of the loop of `ha_working` in ha.c, and the clean-up of old bindings that ends it.
-- A round is what `select` reports: at most one NAT probe, then at most one binding update, then the
-- clean-up. `uptime` is an argument.
pub mod Expiry
use dsmip.Common.{ℕ, ◌-◌, Bool, true, Option, none, some, List, [], ◌∷◌, ltb, if◌then◌else◌}
use dsmip.Ha.State.{Config, Mn, Host, Ha, Log, Kernel}
use dsmip.Ha.Probe.{Probe, handle_probe}
use dsmip.Ha.Cleanup.{mn_state_cleanup}
use dsmip.Ha.Binding.Handler.{Bu, handle_bu}

-- `for(;imn<MAX_MN_NUM;++imn) if(…) mn_state_cleanup(imn);`
unfoldable pub cleanup_each : Config → (Mn → Bool) → List Mn → Log → List Mn × Log
cleanup_each cfg old [] log = ([], log)
cleanup_each cfg old (m ∷ ms) log =
    let h : Host =
      if old m
      then mn_state_cleanup cfg (record { mn = m; log = log })
      else record { mn = m; log = log } in
    let rest = cleanup_each cfg old ms h.log in (h.mn ∷ rest.0, rest.1)

-- `now - mns[imn].last_bu_t > 60`
unfoldable pub is_expired : ℕ → Mn → Bool
is_expired now m = ltb 60 (now - m.last_bu_t)

unfoldable pub expire : Config → ℕ → Ha → Ha
unfolding cleanup_each is_expired
expire cfg now ha =
    let r = cleanup_each cfg (is_expired now) ha.mns ha.log in record { mns = r.0; log = r.1 }

-- `none`: the probe read past the end of the table. The result of `mn_state_cleanup` is not looked at.
unfoldable pub round : Kernel → Config → ℕ → Option Probe → Option Bu → Ha → Option Ha
unfolding expire
round kernel cfg now probe bu ha =
    let probed : Option Ha = elim probe [ none ↦ some ha | some p ↦ handle_probe now p ha ] in
    elim probed [
      | none ↦ none
      | some ha' ↦ elim bu [
        | none ↦ some (expire cfg now ha')
        | some b ↦
            (let (ha'', goes_on) = handle_bu kernel cfg now b ha' in
              some (if goes_on then expire cfg now ha'' else ha''))
      ]
    ]

-- What `ha_working` does when `keepworking` has become 0.
unfoldable pub shut_down : Config → Ha → Ha
unfolding cleanup_each
shut_down cfg ha =
    let r = cleanup_each cfg (λ _. true) ha.mns ha.log in record { mns = r.0; log = r.1 }
