-- ===== src/Daemon/Detect/Moves.antt =====
-- What a round of `bmisscntDetect` of cngictrl/cngictrl.c does to the network in use.
use dsmip.Common.{
  ℕ, ℤ, ==ℤ_iff, ◌≡◌, ◌≢◌, ◌⊎◌, refl, true, false, List, [], ◌∷◌, Option, none, some, Option-cases,
  inl, inr, arith,
}
use dsmip.Daemon.Text.{◌>>=◌}
use dsmip.Daemon.State.{query, list_network, select_network, Env, Daemon, note, getcmd_result}
use dsmip.Daemon.Core.{Blind, Keeps-if, Keeps-some}
use dsmip.Daemon.Core.Shell.{ipfix_mnoff-Keeps}
use dsmip.Daemon.Detect.{
  Detector, Network, networks, marked, current_network, nextworkid, go_to, leave_network,
  detect_round,
}

-- The network that was chosen last.
abbrev chosen : Daemon → ℤ
chosen d = d.newid

chosen-Blind : Blind chosen
unfolding note
chosen-Blind = record { blind = λ c d h. refl }

go_to-newid : (env : Env) (id : ℤ) (d e : Daemon) → go_to env id d ≡ some e → e.newid ≡ id
unfolding go_to note
go_to-newid env id d e h =
    (Keeps-if {view = chosen} (record d { newid = id }) _
        (Keeps-some (record d { newid = id }) (record d { newid = id }) refl)
        (Keeps-if (record d { newid = id }) d.mnswitch
          (Keeps-some (record d { newid = id })
            (note (select_network true id) (record d { newid = id })) refl)
          (record { at = (ipfix_mnoff-Keeps chosen-Blind env _).at }))).at
      e h

abbrev pub IsOne : ℤ → List Network → Type 0
IsOne i (a ∷ b ∷ []) = (i ≡ a.id) ⊎ (i ≡ b.id)
IsOne i _ = false ≡ true

abbrev pub AreTwo : List Network → Type 0
AreTwo (a ∷ b ∷ []) = a.id ≢ b.id
AreTwo _ = false ≡ true

nextworkid-other :
    (c i : ℤ) (ns : List Network) → AreTwo ns → nextworkid c ns ≡ some i → (i ≢ c) × IsOne i ns
unfolding nextworkid
nextworkid-other c i [] two h = absurd (ground arith)
nextworkid-other c i (a ∷ []) two h = absurd (ground arith)
nextworkid-other c i (a ∷ b ∷ x ∷ ns) two h = absurd (ground arith)
nextworkid-other c i (a ∷ b ∷ []) two h = ground (arith, ==ℤ_iff a.id c)

-- The rest of a change, once the lines and the current network are known.
go_on : Env → List Network → ℤ → Daemon → Option Daemon
go_on env ns c d = nextworkid c ns >>= λ id. go_to env id d

leave_network_lem :
    (env : Env) (d e : Daemon) (ns : List Network) (c : ℤ)
    → networks (env.output d.log list_network) ≡ some ns
    → marked ns ≡ some c
    → leave_network env d ≡ some e
    → go_on env ns c (note (query list_network) d) ≡ some e
unfolding leave_network getcmd_result current_network go_on
leave_network_lem env d e ns c listed current h = ground arith

go_on-other :
    (env : Env) (d e : Daemon) (ns : List Network) (c : ℤ)
    → AreTwo ns
    → go_on env ns c d ≡ some e
    → (e.newid ≢ c) × IsOne e.newid ns
unfolding go_on
go_on-other env d e ns c two h = elim (Option-cases (nextworkid c ns)) [
  | inl q ↦ absurd (ground (arith, q, h))
  | inr q ↦
      let k = go_to-newid env (q.0) d e (rw (q.1) at h) in
      rw k (nextworkid-other c (q.0) ns two (q.1))
]

-- If two networks with different numbers are listed and the marked one is current, a change of the
-- network that ends without undefined behaviour chooses the other one of the two.
pub leave_network-other :
    (env : Env) (d e : Daemon) (ns : List Network) (c : ℤ)
    → networks (env.output d.log list_network) ≡ some ns
    → AreTwo ns
    → marked ns ≡ some c
    → leave_network env d ≡ some e
    → (e.newid ≢ c) × IsOne e.newid ns
leave_network-other env d e ns c listed two current h =
    go_on-other env (note (query list_network) d) e ns c two
      (leave_network_lem env d e ns c listed current h)

-- After a change of the network the next reading that the driver gives changes nothing, whatever it is.
detect_round-rests :
    (env : Env) (reading next : Option ℕ) (t t' t'' : Detector) (d e f : Daemon)
    → detect_round env reading t d ≡ some (t', e)
    → t'.waits ≡ true
    → detect_round env next t' e ≡ some (t'', f)
    → (f ≡ e) × (t''.waits ≡ false)
unfolding detect_round
detect_round-rests env none next t t' t'' d e f h w k = absurd (ground arith)
detect_round-rests env (some v) none t t' t'' d e f h w k = ground arith
detect_round-rests env (some v) (some u) t t' t'' d e f h w k = ground arith
