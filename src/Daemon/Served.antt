-- ===== src/Daemon/Served.antt =====
-- The daemon cngictrl and the mobile node (mn/mn.c) together: the requests of the one and the commands of the
-- other. Requests arrive, in their order.
use dsmip.Common.{
  ℕ, ◌≡◌, ◌≢◌, ◌↔◌, refl, ◌∙◌, ap, Bool, true, false, [], ◌∷◌, length, get_elem?, Option, none,
  some, some_inj, up, ◌==◌, Bool-cases, inl, inr, arith, if◌then◌else◌,
}
use dsmip.Mobile.State.{Iface, Node}
use dsmip.Mobile.State as Mobile
use dsmip.Mobile.Handoff.Steps.{Coa, to_v6, to_v4}
use dsmip.Mobile.Handoff.{find_iface, do_handoff}
use dsmip.Mobile.Auto.{do_handoff-auto}
use dsmip.Mobile.Events.Control.{
  CtrlCmd, lscoa, handoff, auto_handoff_on, auto_handoff_off, other_command, CtrlResult,
  disable_auto_first, to_iface, ctrl_handoff, ctrl_fd_check,
}
use dsmip.Daemon.Text.{Text}
use dsmip.Daemon.State.{Call, start_mn, sendto_mn, Calls, Env, Daemon}
use dsmip.Daemon.Main.{handoff_link, handoff_by, handoff_command}
use dsmip.Daemon.Reach.{Reachable}
use dsmip.Daemon.Core.{core_calls}
use dsmip.Daemon.Control.{by_hand}
use dsmip.Daemon.Control.Reach.{Reachable-IsControlled}

abbrev pub is_told : Call → Bool
is_told start_mn = true
is_told (sendto_mn c n) = true
is_told _ = false

-- The mobile node after the daemon's calls: it starts with automatic handoffs on, carries out the requests, and
-- makes handoffs of its own between them.
pub data Served (env : Mobile.Env) : Calls → Node → Type 0 where
  at_first : (n : Node) → n.auto_handoff_enabled ≡ 1 → Served env [] n
  restart :
      (log : Calls) (m n : Node)
      → Served env log m
      → n.auto_handoff_enabled ≡ 1
      → Served env (start_mn ∷ log) n
  carry_out :
      (log : Calls) (m : Node) (c : CtrlCmd) (k : ℕ) (r : CtrlResult)
      → Served env log m
      → ctrl_fd_check env c m ≡ some r
      → Served env (sendto_mn c k ∷ log) r.node
  unrelated :
      (log : Calls) (m : Node) (c : Call)
      → Served env log m
      → is_told c ≡ false
      → Served env (c ∷ log) m
  hand_off :
      (log : Calls) (m : Node) (coa : Coa) (i : ℕ)
      → Served env log m
      → Served env log (do_handoff env coa i m)

-- Has the mobile node been started since it was last told about automatic handoffs?
abbrev pub restarted : Call → Option Bool
restarted start_mn = some true
restarted (sendto_mn auto_handoff_on n) = some false
restarted (sendto_mn auto_handoff_off n) = some false
restarted _ = none

to_iface-auto :
    (env : Mobile.Env) (n : Node) (f : Option Iface) (r : CtrlResult)
    → to_iface env n f ≡ some r
    → (r.node.auto_handoff_enabled ≡ n.auto_handoff_enabled) × (r.answer ≢ disable_auto_first)
to_iface-auto env n none r h = ground arith
to_iface-auto env n (some f) r h = ground (
  arith,
  do_handoff-auto env (to_v6 f.coav6) f.ifindex n,
  do_handoff-auto env (to_v4 true f.coav4) f.ifindex n,
)

handoff-auto :
    (env : Mobile.Env) (i : ℕ) (n : Node) (r : CtrlResult)
    → ctrl_handoff env i n ≡ some r
    → r.node.auto_handoff_enabled ≡ n.auto_handoff_enabled
unfolding ctrl_handoff
handoff-auto env i n r h = ground (
  arith,
  to_iface-auto env (record n { preferred_ifindex = i })
      (get_elem? n.ifaces (find_iface i n.ifaces)) r,
)

-- What the daemon's calls tell of the setting.
abbrev pub setting : Calls → ℕ
setting log = if up restarted log then 1 else if up by_hand log then 0 else 1

untold : (c : Call) → is_told c ≡ false → (restarted c ≡ none) × (by_hand c ≡ none)
untold start_mn h = ground arith
untold (sendto_mn c n) h = ground arith
untold c h = (refl, refl)

Served-setting :
    (env : Mobile.Env) (log : Calls) (n : Node)
    → Served env log n
    → n.auto_handoff_enabled ≡ setting log
unfolding ctrl_fd_check
Served-setting env _ _ (at_first n h) = h
Served-setting env _ _ (restart log m n s h) = h
Served-setting env _ _ (carry_out log m lscoa k r s h) = ground (arith, Served-setting env log m s)
Served-setting env _ _ (carry_out log m (handoff i) k r s h) =
    handoff-auto env i m r h ∙ Served-setting env log m s
Served-setting env _ _ (carry_out log m auto_handoff_on k r s h) = ground arith
Served-setting env _ _ (carry_out log m auto_handoff_off k r s h) = ground arith
Served-setting env _ _ (carry_out log m other_command k r s h) =
    ground (arith, Served-setting env log m s)
Served-setting env _ _ (unrelated log m c s h) =
    let q = untold c h in rw (up, q.0, q.1) (Served-setting env log m s)
Served-setting env _ _ (hand_off log m coa i s) =
    do_handoff-auto env coa i m ∙ Served-setting env log m s

longer : (c : Call) (log : Calls) → log ≢ c ∷ log
longer c log h = omega (arith, ap length h)

-- A handoff is sent only while automatic handoffs are off.
sent-by_hand :
    (env : Env) (o : Option ℕ) (d e : Daemon) (c : Call)
    → handoff_by env o d ≡ some e
    → core_calls e.log ≡ c ∷ core_calls d.log
    → d.autohandoff ≡ false
unfolding handoff_by
sent-by_hand env none d e c h q =
    absurd (longer c (core_calls d.log) (ap (λ (x : Daemon). core_calls x.log) (some_inj.0 h) ∙ q))
sent-by_hand env (some i) d e c h q = elim (Bool-cases d.autohandoff) [
  | inr f ↦ f
  | inl a ↦ absurd (
      longer c (core_calls d.log)
        (ap (λ (x : Daemon). core_calls x.log) (some_inj.0 (unsent env i d a ∙ h)) ∙ q))
]
  where
    unsent :
        (env : Env) (i : ℕ) (d : Daemon) → d.autohandoff ≡ true → some d ≡ handoff_by env (some i) d
    unsent env i d a = ground arith

answer_cases :
    (env : Mobile.Env) (i : ℕ) (n : Node) (r : CtrlResult)
    → ctrl_fd_check env (handoff i) n ≡ some r
    → (r.answer ≡ disable_auto_first)
      ↔ (((n.auto_handoff_enabled == 0) ≡ false) × ((n.current_ifindex == i) ≡ false))
unfolding ctrl_fd_check ctrl_handoff
answer_cases env i n r h = ground (
  arith,
  to_iface-auto env (record n { preferred_ifindex = i })
      (get_elem? n.ifaces (find_iface i n.ifaces)) r,
)

-- For a reachable control daemon and a mobile node that has carried out its requests, with handoffs
-- of its own between: a handoff that the daemon sends is refused by the node because automatic
-- handoffs are on exactly if the node was started after it was last told about them and is on
-- another link.
pub handoff_command-refused :
    (env : Env) (node_env : Mobile.Env) (t : Text) (i k : ℕ) (d e : Daemon) (n : Node)
    (r : CtrlResult)
    → Reachable env d
    → Served node_env (core_calls d.log) n
    → handoff_command env t d ≡ some e
    → core_calls e.log ≡ sendto_mn (handoff i) k ∷ core_calls d.log
    → ctrl_fd_check node_env (handoff i) n ≡ some r
    → (r.answer ≡ disable_auto_first)
      ↔ ((up restarted (core_calls d.log) ≡ true) × ((n.current_ifindex == i) ≡ false))
unfolding handoff_command
handoff_command-refused env node_env t i k d e n r reach served h sent answered =
    let off = sent-by_hand env (handoff_link t d) d e _ h sent in
    let agreed = (Reachable-IsControlled env reach).agreed in
    let flag = Served-setting node_env (core_calls d.log) n served in
    let cases = answer_cases node_env i n r answered in ground arith
