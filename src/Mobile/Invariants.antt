-- ===== src/Mobile/Invariants.antt =====
-- What is so in every state that the mobile node reaches.
use dsmip.Common.{◌+◌, ◌≡◌, refl, ◌∙◌, subst, ◌==◌, false, List, [], ◌∷◌, Option, none, some, inl}
use dsmip.Net.{ipv6_map_addr}
use dsmip.Mobile.State.{CoaType, at_home, nat_v4, plain_v4, on_v6, Call, Env, Node, note}
use dsmip.Mobile.Sound.{IsSound}
use dsmip.Mobile.Sound.Handoffs.{do_handoff-IsSound, Agrees-bu_log}
use dsmip.Mobile.Kept.{Kept, IsQuiet, ipfix_quiet, gprsfix_quiet, probe_quiet, OnSome, if-P}
use dsmip.Mobile.Kept.Links.{process_link-Kept}
use dsmip.Mobile.Kept.Addrs.{process_addr-Kept}
use dsmip.Mobile.Kept.Rest.{OfNode, ctrl_fd_check-Kept, bu_worker-Kept, nat_probe_worker-Kept}
use dsmip.Mobile.Handoff.Steps.{send_bu}
use dsmip.Mobile.Announced.{
  last_bu, Announced, IsAnnounced, do_handoff-IsAnnounced, refresh-IsAnnounced,
}
use dsmip.Mobile.Numbers.{IsNumbered, Numbered-next, do_handoff-IsNumbered}
use dsmip.Mobile.Events.Workers.{mn_init, refresh}
use dsmip.Mobile.Events.Control.{CtrlCmd, CtrlResult}
use dsmip.Mobile.Worker.{
  boot, Nlmsg, link_msg, addr_msg, other_msg, process_nlmsg, NlEvent, Round, after,
  link_event_fd_check, node_of, obey, check_ctrl, work, mn_round, Reachable, started, next,
}

module _ {P : Node → Type 0} (k : Kept P) where
  after-Kept :
      (o : Option Node) (f : Node → Option Node)
      → OnSome P o
      → ((m : Node) → P m → OnSome P (f m))
      → OnSome P (after o f)
  after-Kept none f p h = refl
  after-Kept (some m) f p h = h m p

  process_nlmsg-Kept : (env : Env) (m : Nlmsg) (n : Node) → P n → OnSome P (process_nlmsg env m n)
  unfolding process_nlmsg
  process_nlmsg-Kept env (link_msg m) n p = process_link-Kept k env m n p
  process_nlmsg-Kept env (addr_msg m) n p = process_addr-Kept k env m n p
  process_nlmsg-Kept env other_msg n p = p

  messages-Kept : (ms : List NlEvent) (n : Node) → P n → OnSome P (link_event_fd_check ms n)
  unfolding link_event_fd_check
  messages-Kept [] n p = p
  messages-Kept (m ∷ ms) n p =
      after-Kept _ _ (process_nlmsg-Kept m.env m.msg n p) (messages-Kept ms)

  node_of-Kept :
      (env : Env) (o : Option CtrlResult) → OnSome (OfNode k env) o → OnSome P (node_of o)
  node_of-Kept env none p = refl
  node_of-Kept env (some o) p = p

  obey-Kept : (env : Env) (c : Option CtrlCmd) (n : Node) → P n → OnSome P (obey env c n)
  obey-Kept env none n p = p
  obey-Kept env (some c) n p = node_of-Kept env _ (ctrl_fd_check-Kept k env c n p)

  check_ctrl-Kept :
      (env : Env) (c : Option CtrlCmd) (n : Node) → P n → OnSome P (check_ctrl env c n)
  unfolding check_ctrl
  check_ctrl-Kept env c n p =
      let q =
        k.settings n.preferred_ifindex n.auto_handoff_enabled n.wlan_ifindex n.consecutive_bu
          n.last_bu_t (n.skip_ctrl_fd + 1) n p in
      if-P (OnSome P) (n.skip_ctrl_fd == 0) q (obey-Kept env c _ q)

  work-Kept : (r : Round) (n : Node) → P n → OnSome P (work r n)
  work-Kept r n p = nat_probe_worker-Kept k r.probe_env _ (bu_worker-Kept k r.bu_env false n p)

  mn_round-Kept : (r : Round) (n : Node) → P n → OnSome P (mn_round r n)
  unfolding mn_round
  mn_round-Kept r n p =
      if-P (OnSome P) r.is_ready
        (after-Kept _ _ (messages-Kept r.messages n p)
          (λ m q. after-Kept _ _ (check_ctrl-Kept r.command_env r.command m q) (work-Kept r)))
        (work-Kept r n p)

  pub Reachable-Kept : {n : Node} → P (mn_init boot) → Reachable n → P n
  Reachable-Kept p started = p
  Reachable-Kept p (next r {n} {m} reach e) =
      subst (OnSome P) e (mn_round-Kept r n (Reachable-Kept p reach))

IsSound-Kept : Kept IsSound
unfolding send_bu
IsSound-Kept = record {
  handoffs = λ env coa i n asked w. do_handoff-IsSound env coa i n asked w;
  notes = quiet-IsSound;
  edits = λ e i n w. w;
  settings = λ p a w c l s n v. v;
  updates = λ env n w. refresh-IsSound env n n.current_coa_type w;
  times = λ env n w. w;
}
  where
    refresh-IsSound : (env : Env) (n : Node) (t : CoaType) → IsSound n → IsSound (refresh env n t)
    refresh-IsSound env n at_home w = w
    refresh-IsSound env n nat_v4 w = Agrees-bu_log w (ipv6_map_addr n.current_coav4) 1 n.bu_seq
    refresh-IsSound env n plain_v4 w = Agrees-bu_log w (ipv6_map_addr n.current_coav4) 1 n.bu_seq
    refresh-IsSound env n on_v6 w = Agrees-bu_log w n.current_coav6 1 n.bu_seq

    quiet-IsSound : (c : Call) (n : Node) → IsQuiet c → IsSound n → IsSound (note c n)
    quiet-IsSound _ n (ipfix_quiet a b c) w = record {
      encaps = w.encaps;
      policies = w.policies;
      states = w.states;
      rules = w.rules;
      detour4 = w.detour4;
      detour6 = w.detour6;
      temp_routes4 = w.temp_routes4;
      temp_routes6 = w.temp_routes6;
    }
    quiet-IsSound _ n gprsfix_quiet w = record {
      encaps = w.encaps;
      policies = w.policies;
      states = w.states;
      rules = w.rules;
      detour4 = w.detour4;
      detour6 = w.detour6;
      temp_routes4 = w.temp_routes4;
      temp_routes6 = w.temp_routes6;
    }
    quiet-IsSound _ n (probe_quiet i a) w = record {
      encaps = w.encaps;
      policies = w.policies;
      states = w.states;
      rules = w.rules;
      detour4 = w.detour4;
      detour6 = w.detour6;
      temp_routes4 = w.temp_routes4;
      temp_routes6 = w.temp_routes6;
    }

boot-IsSound : IsSound (mn_init boot)
unfolding mn_init
boot-IsSound = record {
  encaps = λ a. refl;
  policies = refl;
  states = refl;
  rules = λ a. refl;
  detour4 = refl;
  detour6 = refl;
  temp_routes4 = λ i. refl;
  temp_routes6 = λ i. refl;
}

-- After any rounds of mn_worker, of what the mobile node has set up these are up: the UDP
-- encapsulation of the care-of address in use if that is behind a NAT, and no other; the policy and
-- the state for binding updates, and the rule for the IPv6 care-of address, exactly on an IPv6
-- care-of address, and no rule for another IPv6 address; and no rule or route of the temporary table.
pub Reachable-IsSound : {n : Node} → Reachable n → IsSound n
Reachable-IsSound r = Reachable-Kept IsSound-Kept boot-IsSound r

IsNumbered-Kept : Kept IsNumbered
unfolding send_bu
IsNumbered-Kept = record {
  handoffs = λ env coa i n asked w. do_handoff-IsNumbered env coa i n w;
  notes = quiet-IsNumbered;
  edits = λ e i n w. w;
  settings = λ p a w c l s n v. v;
  updates = λ env n w. refresh-IsNumbered env n n.current_coa_type w;
  times = λ env n w. w;
}
  where
    refresh-IsNumbered :
        (env : Env) (n : Node) (t : CoaType) → IsNumbered n → IsNumbered (refresh env n t)
    refresh-IsNumbered env n at_home w = w
    refresh-IsNumbered env n nat_v4 w = Numbered-next (ipv6_map_addr n.current_coav4) w
    refresh-IsNumbered env n plain_v4 w = Numbered-next (ipv6_map_addr n.current_coav4) w
    refresh-IsNumbered env n on_v6 w = Numbered-next n.current_coav6 w

    quiet-IsNumbered : (c : Call) (n : Node) → IsQuiet c → IsNumbered n → IsNumbered (note c n)
    quiet-IsNumbered _ n (ipfix_quiet a b c) w = record {
      count = w.count;
      seq_eq = w.seq_eq;
      sent_eq = w.sent_eq;
    }
    quiet-IsNumbered _ n gprsfix_quiet w = record {
      count = w.count;
      seq_eq = w.seq_eq;
      sent_eq = w.sent_eq;
    }
    quiet-IsNumbered _ n (probe_quiet i a) w = record {
      count = w.count;
      seq_eq = w.seq_eq;
      sent_eq = w.sent_eq;
    }

boot-IsNumbered : IsNumbered (mn_init boot)
unfolding mn_init
boot-IsNumbered = record { count = 0; seq_eq = refl; sent_eq = refl }

-- After any rounds of mn_worker, the binding updates sent so far have the numbers from 1 on in
-- their order, modulo 2 to the 16, and __BU_SEQ__ is the next number.
pub Reachable-IsNumbered : {n : Node} → Reachable n → IsNumbered n
Reachable-IsNumbered r = Reachable-Kept IsNumbered-Kept boot-IsNumbered r

IsAnnounced-Kept : Kept IsAnnounced
IsAnnounced-Kept = record {
  handoffs = λ env coa i n asked w. do_handoff-IsAnnounced env coa i n w;
  notes = λ c n q w. quiet-Announced c n q n.current_coa_type w;
  edits = λ e i n w. w;
  settings = λ p a w c l s n v. v;
  updates = refresh-IsAnnounced;
  times = λ env n w. w;
}
  where
    quiet-last : (c : Call) (n : Node) → IsQuiet c → last_bu (c ∷ n.log) ≡ last_bu n.log
    quiet-last _ n (ipfix_quiet a b c) = refl
    quiet-last _ n gprsfix_quiet = refl
    quiet-last _ n (probe_quiet i a) = refl

    quiet-Announced :
        (c : Call) (n : Node)
        → IsQuiet c
        → (t : CoaType) → Announced t n.current_coav6 n.current_coav4 n.log
        → Announced t n.current_coav6 n.current_coav4 (c ∷ n.log)
    quiet-Announced c n q at_home w = rw (quiet-last c n q) w
    quiet-Announced c n q on_v6 w = quiet-last c n q ∙ w
    quiet-Announced c n q nat_v4 w = quiet-last c n q ∙ w
    quiet-Announced c n q plain_v4 w = quiet-last c n q ∙ w

boot-IsAnnounced : IsAnnounced (mn_init boot)
unfolding mn_init
boot-IsAnnounced = inl refl

-- After any rounds of mn_worker, the newest binding update names the care-of address in use if the
-- mobile node is away from home; at home it names the address that the node came home with, or none
-- has been sent.
pub Reachable-IsAnnounced : {n : Node} → Reachable n → IsAnnounced n
Reachable-IsAnnounced r = Reachable-Kept IsAnnounced-Kept boot-IsAnnounced r
