-- ===== src/Daemon/Core.antt =====
-- What the commands of the daemon share: the threads and the process it controls, and the requests it numbers.
-- `Keeps` and `Blind` are for the many handlers of cngictrl/cngictrl.c that do not deal with it.
pub mod Shell
pub mod Quiet
pub mod Commands
use dsmip.Common.{
  ℕ, zero, suc, ◌+◌, ℤ, ◌≡◌, refl, sym, ap, ◌∙◌, some_inj, Bool, true, false, not, ◌&&◌, List, [],
  ◌∷◌, Option, none, some, inl, inr, Option-cases, arith, if◌then◌else◌,
}
use dsmip.Daemon.Text.{Text, codes, ◌>>=◌}
use dsmip.Daemon.State.{
  Family, PingStatus, Query, sig_term, sig_int, sig_stop, sig_cont, ping_thread, Call, query,
  start_mn, kill, ip_addr_del, ip_route_del, ip_rule_del, create, join, signal, sendto_mn, Calls,
  Env, Daemon, note, getcmd_result,
}

-- The calls that concern the ping thread, the mobile node's process or the mobile node.
abbrev pub is_core : Call → Bool
is_core start_mn = true
is_core (kill sig_int p) = true
is_core (kill sig_stop p) = true
is_core (kill sig_cont p) = true
is_core (create ping_thread) = true
is_core (join ping_thread) = true
is_core (signal ping_thread) = true
is_core (sendto_mn c n) = true
is_core _ = false

abbrev pub core_calls : Calls → Calls
core_calls [] = []
core_calls (c ∷ log) = if is_core c then c ∷ core_calls log else core_calls log

pub record Core : Type 0 where
  pub autohandoff : Bool
  pub seqno : ℕ
  pub mnswitch : Bool
  pub mnstop : Bool
  pub mnpid : ℤ
  pub pingstatus : PingStatus
  pub halting : Bool
  pub exiting : Bool
  pub calls : Calls

abbrev pub core : Daemon → Core
core d = record {
  autohandoff = d.autohandoff;
  seqno = d.seqno;
  mnswitch = d.mnswitch;
  mnstop = d.mnstop;
  mnpid = d.mnpid;
  pingstatus = d.pingstatus;
  halting = d.halting;
  exiting = d.exiting;
  calls = core_calls d.log;
}

-- The daemon that comes back, if one does, looks the same.
pub record Keeps {V : Type 0} (view : Daemon → V) (d : Daemon) (o : Option Daemon) : Type 0 where
  pub at : (e : Daemon) → o ≡ some e → view e ≡ view d

-- A view that does not show the calls that are not of the core.
pub record Blind {V : Type 0} (view : Daemon → V) : Type 0 where
  pub blind : (c : Call) (d : Daemon) → is_core c ≡ false → view (note c d) ≡ view d

pub core-Blind : Blind core
unfolding note
core-Blind = record { blind = λ c d h. ground arith }

module _ {V : Type 0} {view : Daemon → V} where
  pub Keeps-some : (d e : Daemon) → view e ≡ view d → Keeps view d (some e)
  Keeps-some d e h = record { at = λ a k. ap view (sym (some_inj.0 k)) ∙ h }

  pub Keeps-none : (d : Daemon) → Keeps view d none
  Keeps-none d = record { at = λ e h. cc }

  pub Keeps-self : (d : Daemon) → Keeps view d (some d)
  Keeps-self d = Keeps-some d d refl

  pub Keeps-if :
      (d : Daemon) (b : Bool) {x y : Option Daemon}
      → Keeps view d x
      → Keeps view d y
      → Keeps view d (if b then x else y)
  Keeps-if d true k l = k
  Keeps-if d false k l = l

  pub Keeps-then :
      (d : Daemon) (m : Option Daemon) (f : Daemon → Option Daemon)
      → Keeps view d m
      → ((e : Daemon) → Keeps view e (f e))
      → Keeps view d (m >>= f)
  Keeps-then d none f k l = record { at = λ b h. cc }
  Keeps-then d (some e) f k l = record { at = λ b h. (l e).at b h ∙ k.at e refl }

  -- A step that gives a value and does not touch the daemon.
  pub Keeps-read :
      {A : Type 0} (d : Daemon) (m : Option A) (f : A → Option Daemon)
      → ((a : A) → Keeps view d (f a))
      → Keeps view d (m >>= f)
  Keeps-read d none f l = record { at = λ b h. cc }
  Keeps-read d (some a) f l = l a

module _ {V : Type 0} {view : Daemon → V} (v : Blind view) where
  getcmd_result-view :
      (env : Env) (q : Query) (d : Daemon) (r : Text × Daemon)
      → getcmd_result env q d ≡ some r
      → view r.1 ≡ view d
  unfolding getcmd_result
  getcmd_result-view env q d r h =
      let e : r.1 ≡ note (query q) d = ground arith in ap view e ∙ v.blind (query q) d refl

  pub Keeps-ask :
      (env : Env) (q : Query) (d : Daemon) (f : Text × Daemon → Option Daemon)
      → ((r : Text × Daemon) → Keeps view r.1 (f r))
      → Keeps view d (getcmd_result env q d >>= f)
  Keeps-ask env q d f l = elim (Option-cases (getcmd_result env q d)) [
    | inl e ↦ rw e record { at = λ b h. cc }
    | inr s ↦ rw (s.1) record { at = λ b h. (l s.0).at b h ∙ getcmd_result-view env q d s.0 s.1 }
  ]

pub getcmd_result-core :
    (env : Env) (q : Query) (d : Daemon) (r : Text × Daemon)
    → getcmd_result env q d ≡ some r
    → core r.1 ≡ core d
getcmd_result-core = getcmd_result-view core-Blind
