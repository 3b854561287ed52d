-- ===== src/Mobile/Worker.antt =====
-- `main`, `mn_worker` and `process_nlmsg` of mn/mn.c: the mobile node from its start, round by round.
use dsmip.Common.{◌+◌, ◌≡◌, Bool, false, List, [], ◌∷◌, Option, none, some, ◌==◌, if◌then◌else◌}
use dsmip.Mobile.State.{at_home, Env, Node}
use dsmip.Mobile.Events.Slots.{zero_iface}
use dsmip.Mobile.Events.Links.{LinkMsg, process_link}
use dsmip.Mobile.Events.Addrs.{AddrMsg, process_addr}
use dsmip.Mobile.Events.Control.{CtrlCmd, CtrlResult, ctrl_fd_check}
use dsmip.Mobile.Events.Workers.{bu_worker, nat_probe_worker, mn_init}

-- The globals as they are declared; `ifaces` and those without an initial value are zero.
abbrev pub boot : Node
boot = record {
  ifaces = zero_iface ∷ zero_iface ∷ zero_iface ∷ [];
  wlan_ifindex = 0;
  auto_handoff_enabled = 1;
  preferred_ifindex = 0;
  current_ifindex = 0;
  current_coav6 = record { w0 = 0; w1 = 0; w2 = 0; w3 = 0 };
  current_coav4 = 0;
  current_coa_type = at_home;
  bu_seq = 1;
  last_bu_t = 0;
  consecutive_bu = 0;
  skip_ctrl_fd = 0;
  tnl44_ifindex = 0;
  tnl64_ifindex = 0;
  tnl66_ifindex = 0;
  log = [];
}

pub data Nlmsg : Type 0 where
  link_msg : LinkMsg → Nlmsg
  addr_msg : AddrMsg → Nlmsg
  other_msg : Nlmsg

unfoldable pub process_nlmsg : Env → Nlmsg → Node → Option Node
unfolding process_link process_addr
process_nlmsg env (link_msg m) n = process_link env m n
process_nlmsg env (addr_msg m) n = process_addr env m n
process_nlmsg env other_msg n = some n

-- What a round finds: whether `select` returns more than 0, the messages with which `rtnl_listen` calls
-- `process_nlmsg`, and a command. Time passes between the calls, so that each has its own `Env`.
pub record NlEvent : Type 0 where
  pub env : Env
  pub msg : Nlmsg

pub record Round : Type 0 where
  pub is_ready : Bool
  pub messages : List NlEvent
  pub command : Option CtrlCmd
  pub command_env : Env
  pub bu_env : Env
  pub probe_env : Env

abbrev pub after : Option Node → (Node → Option Node) → Option Node
after none f = none
after (some n) f = f n

unfoldable pub link_event_fd_check : List NlEvent → Node → Option Node
unfolding process_nlmsg
link_event_fd_check [] n = some n
link_event_fd_check (m ∷ ms) n = after (process_nlmsg m.env m.msg n) (link_event_fd_check ms)

abbrev pub node_of : Option CtrlResult → Option Node
node_of none = none
node_of (some o) = some o.node

abbrev pub obey : Env → Option CtrlCmd → Node → Option Node
obey env none n = some n
obey env (some c) n = node_of (ctrl_fd_check env c n)

-- `if(skip_ctrl_fd++) ctrl_fd_check(&rfds);`
unfoldable pub check_ctrl : Env → Option CtrlCmd → Node → Option Node
unfolding ctrl_fd_check
check_ctrl env c n =
    let m : Node = record n { skip_ctrl_fd = n.skip_ctrl_fd + 1 } in
    if n.skip_ctrl_fd == 0 then some m else obey env c m

abbrev pub work : Round → Node → Option Node
work r n = some (nat_probe_worker r.probe_env (bu_worker r.bu_env false n))

unfoldable pub mn_round : Round → Node → Option Node
unfolding link_event_fd_check check_ctrl bu_worker nat_probe_worker
mn_round r n =
    if r.is_ready
    then after (link_event_fd_check r.messages n)
        (λ m. after (check_ctrl r.command_env r.command m) (work r))
    else work r n

-- Until SIGINT; `none` when a handler has left an array.
unfoldable pub mn_worker : List Round → Node → Option Node
unfolding mn_round
mn_worker [] n = some n
mn_worker (r ∷ rs) n = after (mn_round r n) (mn_worker rs)

-- The states after any number of rounds.
pub data Reachable : Node → Type 0 where
  started : Reachable (mn_init boot)
  next : (r : Round) {n m : Node} → Reachable n → mn_round r n ≡ some m → Reachable m
