-- ===== src/Ha/Valid/Rounds.antt =====
-- The invariant of the whole table `mns` over rounds of `ha_working`.
use Prim.Native.Nat.{bit_xor}
use dsmip.Common.{
  ◌==◌, if◌then◌else◌, ℕ, zero, suc, ◌<◌, ◌≡◌, ◌≢◌, refl, arith, ap, ◌∙◌, Bool, Option, none, some,
  List, [], ◌∷◌, length, get_elem?, set, length-set, Bool-cases, Option-cases, inl, inr,
}
use dsmip.Net.{ipv6_unmap_addr}
use dsmip.Ha.State.{Mn, Ha, Config, Kernel, Log}
use dsmip.Ha.Probe.{Probe, find_mn, probe_mn, handle_probe}
use dsmip.Ha.Binding.Handler.{Bu, is_stale, handle_bu}
use dsmip.Ha.Round.{cleanup_each, expire, round}
use dsmip.Ha.Valid.{IsValid}
use dsmip.Ha.Valid.Preserved.{mn_state_cleanup-IsValid, accept_bu-IsValid, probe_mn-IsValid}

abbrev pub AllValid : List Mn → Type 0
AllValid [] = Unit {0}
AllValid (m ∷ ms) = IsValid m × AllValid ms

-- Every entry is valid, and the table has its size.
pub record IsSound (ha : Ha) : Type 0 where
  pub entries : AllValid ha.mns
  pub size : length ha.mns ≡ 10

-- What a round needs of its events: a probe's home address is known, and a binding update's care-of
-- address is not the mapped 0.0.0.0.
abbrev pub ProbeKnown : Option Probe → Ha → Type 0
ProbeKnown none ha = Unit {0}
ProbeKnown (some p) ha = find_mn p.hoa ha.mns < 10

abbrev pub BuNonzero : Option Bu → Type 0
BuNonzero none = Unit {0}
BuNonzero (some b) = ipv6_unmap_addr b.coa ≢ some 0

AllValid-get : (ms : List Mn) (i : ℕ) (m : Mn) → AllValid ms → get_elem? ms i ≡ some m → IsValid m
AllValid-get [] i m v e = ground arith
AllValid-get (x ∷ ms) zero m v e = ground arith
AllValid-get (x ∷ ms) (suc i) m v e = AllValid-get ms i m v.1 e

AllValid-set : (ms : List Mn) (i : ℕ) (m : Mn) → IsValid m → AllValid ms → AllValid (set ms i m)
AllValid-set [] i m w v = tt
AllValid-set (x ∷ ms) zero m w v = (w, v.1)
AllValid-set (x ∷ ms) (suc i) m w v = (v.0, AllValid-set ms i m w v.1)

get_elem?-of_lt : (ms : List Mn) (i : ℕ) → i < length ms → (m : Mn) × (get_elem? ms i ≡ some m)
get_elem?-of_lt [] i h = absurd (omega arith)
get_elem?-of_lt (x ∷ ms) zero h = (x, refl)
get_elem?-of_lt (x ∷ ms) (suc i) h = get_elem?-of_lt ms i (omega arith)

set-IsSound :
    (ha : Ha) (i : ℕ) (m : Mn) (log : Log)
    → IsValid m
    → IsSound ha
    → IsSound (record { mns = set ha.mns i m; log = log })
set-IsSound ha i m log w s = record {
  entries = AllValid-set ha.mns i m w s.entries;
  size = length-set ha.mns i m ∙ s.size;
}

module _ (cfg : Config) (old : Mn → Bool) where
  cleanup_each-AllValid :
      (ms : List Mn) (log : Log) → AllValid ms → AllValid (cleanup_each cfg old ms log).0
  unfolding cleanup_each
  cleanup_each-AllValid [] log v = tt
  cleanup_each-AllValid (m ∷ ms) log v = elim (Bool-cases (old m)) [
    | inl e ↦ rw e (mn_state_cleanup-IsValid cfg _ v.0, cleanup_each-AllValid ms _ v.1)
    | inr e ↦ rw e (v.0, cleanup_each-AllValid ms _ v.1)
  ]

  length-cleanup_each :
      (ms : List Mn) (log : Log) → length (cleanup_each cfg old ms log).0 ≡ length ms
  unfolding cleanup_each
  length-cleanup_each [] log = refl
  length-cleanup_each (m ∷ ms) log = ap suc (length-cleanup_each ms _)

expire-IsSound : (cfg : Config) (now : ℕ) (ha : Ha) → IsSound ha → IsSound (expire cfg now ha)
unfolding expire
expire-IsSound cfg now ha s = record {
  entries = cleanup_each-AllValid cfg _ ha.mns ha.log s.entries;
  size = length-cleanup_each cfg _ ha.mns ha.log ∙ s.size;
}

handle_probe-IsSound :
    (now : ℕ) (p : Probe) (ha : Ha)
    → find_mn p.hoa ha.mns < 10
    → IsSound ha
    → (ha' : Ha) × (handle_probe now p ha ≡ some ha') × IsSound ha'
unfolding handle_probe
handle_probe-IsSound now p ha known s =
    let (m, e) = get_elem?-of_lt ha.mns (find_mn p.hoa ha.mns) (omega (arith, s.size)) in
    elim (Bool-cases (p.checksum == bit_xor (bit_xor p.ifindex p.seqno) p.port)) [
      | inl good ↦ (
        record ha { mns = set ha.mns (find_mn p.hoa ha.mns) (probe_mn now p m) },
        rw (good, e),
        set-IsSound ha _ _ ha.log (probe_mn-IsValid now p m (AllValid-get ha.mns _ m s.entries e))
            s,
      )
      | inr bad ↦ (ha, rw bad, s)
    ]

handle_bu-IsSound :
    (kernel : Kernel) (cfg : Config) (now : ℕ) (bu : Bu) (ha : Ha)
    → ipv6_unmap_addr bu.coa ≢ some 0
    → IsSound ha
    → IsSound (handle_bu kernel cfg now bu ha).0
unfolding handle_bu
handle_bu-IsSound kernel cfg now bu ha nz s =
    elim (Option-cases (get_elem? ha.mns (find_mn bu.hoa ha.mns))) [
      | inl e ↦ rw (e, handle_bu) s
      | inr (m, e) ↦ elim (Bool-cases (is_stale m bu.seqno)) [
        | inl stale ↦ rw (e, handle_bu, stale) s
        | inr fresh ↦
            rw (e, handle_bu, fresh)
              (set-IsSound ha _ _ _
                (accept_bu-IsValid kernel cfg now bu _ nz (AllValid-get ha.mns _ m s.entries e)) s)
      ]
    ]

-- What the second half of a round makes of the binding update.
abbrev after_bu : Kernel → Config → ℕ → Bu → Ha → Ha
after_bu kernel cfg now b ha =
    let (ha', goes_on) = handle_bu kernel cfg now b ha in
    if goes_on then expire cfg now ha' else ha'

after_bu-IsSound :
    (kernel : Kernel) (cfg : Config) (now : ℕ) (b : Bu) (ha : Ha)
    → ipv6_unmap_addr b.coa ≢ some 0
    → IsSound ha
    → IsSound (after_bu kernel cfg now b ha)
after_bu-IsSound kernel cfg now b ha z s =
    let s' = handle_bu-IsSound kernel cfg now b ha z s in
    elim (Bool-cases (handle_bu kernel cfg now b ha).1) [
      | inl e ↦ rw e (expire-IsSound cfg now _ s')
      | inr e ↦ rw e s'
    ]

-- A round over a sound table, with a probe for a known home address if any and a binding update with
-- another care-of address than the mapped 0.0.0.0 if any, does not reach past the end of the table, and
-- the table is sound again: every entry valid, its size unchanged.
pub round-IsSound :
    (kernel : Kernel) (cfg : Config) (now : ℕ) (probe : Option Probe) (bu : Option Bu) (ha : Ha)
    → ProbeKnown probe ha
    → BuNonzero bu
    → IsSound ha
    → (ha' : Ha) × (round kernel cfg now probe bu ha ≡ some ha') × IsSound ha'
unfolding round
round-IsSound kernel cfg now none none ha k z s =
    (expire cfg now ha, refl, expire-IsSound cfg now ha s)
round-IsSound kernel cfg now none (some b) ha k z s =
    (after_bu kernel cfg now b ha, refl, after_bu-IsSound kernel cfg now b ha z s)
round-IsSound kernel cfg now (some p) none ha k z s =
    let (ha', e, s') = handle_probe-IsSound now p ha k s in
    (expire cfg now ha', rw (e, round), expire-IsSound cfg now ha' s')
round-IsSound kernel cfg now (some p) (some b) ha k z s =
    let (ha', e, s') = handle_probe-IsSound now p ha k s in
    (after_bu kernel cfg now b ha', rw (e, round), after_bu-IsSound kernel cfg now b ha' z s')
