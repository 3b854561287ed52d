-- ===== src/Ha/Binding/Handler.antt =====
-- The binding update branch as a whole.
pub mod Sequence
use dsmip.Common.{
  ℕ, ◌-◌, Bool, true, false, none, some, ◌&&◌, ltb, get_elem?, set, if◌then◌else◌, ◌≡◌,
  Option-cases, Bool-cases, inl, inr,
}
use dsmip.Net.{In6Addr, v6_eq, ipv6_unmap_addr}
use dsmip.Ha.State.{Config, Mn, Host, Ha, Kernel}
use dsmip.Ha.Probe.{find_mn}
use dsmip.Ha.Binding.V4.{bu_v4}
use dsmip.Ha.Binding.V6.{bu_v6}
use dsmip.Ha.Binding.Home.{go_home}

-- What `recvbu` gives for a binding update: the link that it came in on (its result, positive), the
-- sequence number, the home address and the care-of address.
pub record Bu : Type 0 where
  pub ifindex : ℕ
  pub seqno : ℕ
  pub hoa : In6Addr
  pub coa : In6Addr

-- `last_bu_seq>seqno&&last_bu_seq-seqno<10`
unfoldable pub is_stale : Mn → ℕ → Bool
is_stale m seqno = ltb seqno m.last_bu_seq && ltb (m.last_bu_seq - seqno) 10

-- The care-of address decides.
unfoldable pub rebind : Kernel → Config → Bu → Host → Host
rebind kernel cfg bu h = elim (ipv6_unmap_addr bu.coa) [
  | some coav4 ↦ bu_v4 kernel cfg bu.ifindex bu.seqno bu.hoa coav4 h
  | none ↦
      if v6_eq h.mn.hoav6 bu.coa
      then go_home cfg h
      else bu_v6 kernel cfg bu.ifindex bu.seqno bu.hoa bu.coa h
]

-- To prove a property of the result, prove it for each kind of care-of address.
pub rebind_cases {ℓ} :
    (P : Host → Type ℓ) (kernel : Kernel) (cfg : Config) (bu : Bu) (h : Host)
    → ((v : ℕ)
        → ipv6_unmap_addr bu.coa ≡ some v
        → P (bu_v4 kernel cfg bu.ifindex bu.seqno bu.hoa v h))
    → (v6_eq h.mn.hoav6 bu.coa ≡ true → P (go_home cfg h))
    → (ipv6_unmap_addr bu.coa ≡ none
        → v6_eq h.mn.hoav6 bu.coa ≡ false
        → P (bu_v6 kernel cfg bu.ifindex bu.seqno bu.hoa bu.coa h))
    → P (rebind kernel cfg bu h)
unfolding rebind
rebind_cases P kernel cfg bu h on4 home on6 = elim (Option-cases (ipv6_unmap_addr bu.coa)) [
  | inr (v, e) ↦ rw (e, rebind) (on4 v e)
  | inl e ↦ elim (Bool-cases (v6_eq h.mn.hoav6 bu.coa)) [
    | inl back ↦ rw (e, rebind, back) (home back)
    | inr away ↦ rw (e, rebind, away) (on6 e away)
  ]
]

-- A binding update for a known mobile node that is not stale.
unfoldable pub accept_bu : Kernel → Config → ℕ → Bu → Host → Host
accept_bu kernel cfg now bu h =
    rebind kernel cfg bu
      (record h { mn = record (h.mn) { last_bu_seq = bu.seqno; last_bu_t = now } })

-- The Boolean is false where the source says `continue`: the rest of the round is then skipped.
unfoldable pub handle_bu : Kernel → Config → ℕ → Bu → Ha → Ha × Bool
unfolding is_stale
handle_bu kernel cfg now bu ha = elim (get_elem? ha.mns (find_mn bu.hoa ha.mns)) [
  | none ↦ (ha, true)
  | some m ↦
      if is_stale m bu.seqno
      then (ha, false)
      else (let h = accept_bu kernel cfg now bu (record { mn = m; log = ha.log }) in
          (record { mns = set ha.mns (find_mn bu.hoa ha.mns) h.mn; log = h.log }, true))
]
