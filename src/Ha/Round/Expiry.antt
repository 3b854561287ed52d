-- ===== src/Ha/Round/Expiry.antt =====
-- The clean-up of old bindings in `ha_working` of ha.c: which entries it resets.
use dsmip.Common.{
  ap, ℕ, zero, suc, ◌+◌, ◌≤◌, ◌<◌, ◌≡◌, arith, pos, Bool, true, false, some, List, [], ◌∷◌,
  get_elem?, Bool-cases, inl, inr,
}
use dsmip.Ha.State.{Mn, Ha, Host, Config, Log}
use dsmip.Ha.Cleanup.{mn_state_cleanup}
use dsmip.Ha.Round.{cleanup_each, is_expired, expire}
use dsmip.Ha.Valid.{IsValid}
use dsmip.Ha.Valid.Rounds.{AllValid, IsSound}

-- Back at home, with no tunnel.
pub record IsReset (m : Mn) : Type 0 where
  pub home : m.active ≡ pos 0
  pub no44 : m.tnl44_ifindex ≡ pos 0
  pub no64 : m.tnl64_ifindex ≡ pos 0
  pub no66 : m.tnl66_ifindex ≡ pos 0
  pub no_interfaces : m.nnif ≡ 0

mn_state_cleanup-IsReset :
    (cfg : Config) (h : Host) → IsValid h.mn → IsReset (mn_state_cleanup cfg h).mn
unfolding mn_state_cleanup
mn_state_cleanup-IsReset cfg h v = ground arith

cleanup_each_lem :
    (cfg : Config) (old : Mn → Bool) (ms : List Mn) (log : Log) (i : ℕ) (m : Mn)
    → AllValid ms
    → get_elem? ms i ≡ some m
    → (m' : Mn) × (get_elem? (cleanup_each cfg old ms log).0 i ≡ some m')
      × (old m ≡ true → IsReset m')
      × (old m ≡ false → m' ≡ m)
unfolding cleanup_each
cleanup_each_lem cfg old [] log i m v e = ground arith
cleanup_each_lem cfg old (x ∷ ms) log zero m v e =
    let same : x ≡ m = ground arith in
    elim (Bool-cases (old x)) [
      | inl h ↦ (
        (mn_state_cleanup cfg (record { mn = x; log = log })).mn,
        rw h,
        (λ _. mn_state_cleanup-IsReset cfg (record { mn = x; log = log }) v.0),
        (λ f. absurd (clash h same f)),
      )
      | inr h ↦ (x, rw h, (λ t. absurd (clash' h same t)), (λ _. same))
    ]
  where
    clash : old x ≡ true → x ≡ m → old m ≡ false → ⊥
    clash h s f = cc (ap old s)

    clash' : old x ≡ false → x ≡ m → old m ≡ true → ⊥
    clash' h s t = cc (ap old s)
cleanup_each_lem cfg old (x ∷ ms) log (suc i) m v e = cleanup_each_lem cfg old ms _ i m v.1 e

-- At the end of a round over a sound table, a node heard of more than 60 seconds ago is reset, and
-- every other entry is as it was.
pub expire_lem :
    (cfg : Config) (now : ℕ) (ha : Ha) (i : ℕ) (m : Mn)
    → IsSound ha
    → get_elem? ha.mns i ≡ some m
    → (m' : Mn) × (get_elem? (expire cfg now ha).mns i ≡ some m')
      × (m.last_bu_t + 60 < now → IsReset m')
      × (now ≤ m.last_bu_t + 60 → m' ≡ m)
unfolding expire is_expired
expire_lem cfg now ha i m s e =
    let r = cleanup_each_lem cfg (is_expired now) ha.mns ha.log i m s.entries e in
    (r.0, r.1, (λ h. r.2 (ground arith)), (λ h. r.3 (ground arith)))
