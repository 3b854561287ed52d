-- ===== src/Ha/Binding/Handler/Sequence.antt =====
-- Which binding updates `ha_working` of ha.c ignores, and which entry the others change.
use dsmip.Common.{
  ℕ, zero, suc, ◌+◌, ◌<◌, ◌≡◌, ◌≢◌, ◌↔◌, inl, inr, refl, arith, false, some, List, [], ◌∷◌,
  get_elem?, set, ap, Bool-cases, Option-cases,
}
use dsmip.Ha.State.{Mn, Ha, Host, Kernel, Config}
use dsmip.Ha.Probe.{find_mn}
use dsmip.Ha.Binding.V4.{bu_v4, switch_v4}
use dsmip.Ha.Binding.V6.{bu_v6}
use dsmip.Ha.Binding.Home.{go_home}
use dsmip.Ha.Binding.Handler.{Bu, is_stale, rebind_cases, accept_bu, handle_bu}

get_elem?-set_ne {ℓ} :
    {A : Type ℓ} (xs : List A) {i j : ℕ} (v : A) → i ≢ j → get_elem? (set xs i v) j ≡ get_elem? xs j
get_elem?-set_ne [] v h = refl
get_elem?-set_ne (x ∷ xs) {i = zero} {j = zero} v h = absurd (h refl)
get_elem?-set_ne (x ∷ xs) {i = zero} {j = suc j} v h = refl
get_elem?-set_ne (x ∷ xs) {i = suc i} {j = zero} v h = refl
get_elem?-set_ne (x ∷ xs) {i = suc i} {j = suc j} v h = get_elem?-set_ne xs v (λ e. h (ap suc e))

module _ (kernel : Kernel) (cfg : Config) (now : ℕ) (bu : Bu) (ha : Ha) where
  -- A binding update is ignored exactly if its sequence number is below the node's last one by less
  -- than ten; then nothing changes and nothing is requested.
  handle_bu-stale :
      (m : Mn)
      → get_elem? ha.mns (find_mn bu.hoa ha.mns) ≡ some m
      → (((handle_bu kernel cfg now bu ha).1 ≡ false)
          ↔ ((bu.seqno < m.last_bu_seq) × (m.last_bu_seq < bu.seqno + 10)))
        × ((handle_bu kernel cfg now bu ha).1 ≡ false → (handle_bu kernel cfg now bu ha).0 ≡ ha)
  unfolding handle_bu
  handle_bu-stale m e = ((λ h. ground arith, λ h. ground arith), λ h. ground arith)

  -- No binding update changes the entry of another node.
  handle_bu-others :
      (j : ℕ)
      → find_mn bu.hoa ha.mns ≢ j
      → get_elem? (handle_bu kernel cfg now bu ha).0.mns j ≡ get_elem? ha.mns j
  unfolding handle_bu
  handle_bu-others j ne = elim (Option-cases (get_elem? ha.mns (find_mn bu.hoa ha.mns))) [
    | inl e ↦ rw (e, handle_bu)
    | inr (m, e) ↦ elim (Bool-cases (is_stale m bu.seqno)) [
      | inl stale ↦ rw (e, handle_bu, stale)
      | inr fresh ↦ rw (e, handle_bu, fresh) (get_elem?-set_ne ha.mns _ ne)
    ]
  ]

  -- An accepted binding update is remembered: its number and its time, whatever its care-of address.
  accept_bu-remembered :
      (h : Host)
      → ((accept_bu kernel cfg now bu h).mn.last_bu_seq ≡ bu.seqno)
        × ((accept_bu kernel cfg now bu h).mn.last_bu_t ≡ now)
  unfolding accept_bu bu_v4 switch_v4 bu_v6 go_home
  accept_bu-remembered h =
      rebind_cases (λ k. (k.mn.last_bu_seq ≡ bu.seqno) × (k.mn.last_bu_t ≡ now)) kernel cfg bu _
        (λ a e. ground arith) (λ e. ground arith) (λ e f. ground arith)
