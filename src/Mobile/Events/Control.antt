-- ===== src/Mobile/Events/Control.antt =====
-- `ctrl_fd_check` of mn/mn.c. The result is `none` where the code writes beyond an array. Of the texts
-- of the answers, only which one is sent is modelled, and the length of that of CTRL_CMD_LSCOA.
use dsmip.Common.{ℕ, true, not, ◌&&◌, get_elem?, Option, none, some, ◌==◌, if◌then◌else◌}
use dsmip.Mobile.State.{Iface, Env, Node}
use dsmip.Mobile.Handoff.Steps.{to_v6, to_v4}
use dsmip.Mobile.Handoff.{find_iface, do_handoff}
use dsmip.Mobile.Events.Listing.{listing_fits}

-- `cmd` and `data` of `struct CTRL_CMD`
pub data CtrlCmd : Type 0 where
  lscoa auto_handoff_on auto_handoff_off other_command : CtrlCmd
  handoff : ℕ → CtrlCmd

pub data Answer : Type 0 where
  listing disable_auto_first already_there no_such_interface using_v6 using_v4 no_answer : Answer

pub record CtrlResult : Type 0 where
  pub answer : Answer
  pub node : Node

-- The text for an interface without a valid address has over 120 characters, in `char tmpbuf[100]`.
abbrev pub to_iface : Env → Node → Option Iface → Option CtrlResult
to_iface env n none = some (record { answer = no_such_interface; node = n })
to_iface env n (some f) =
    if f.invalidv6 == 0
    then some (record { answer = using_v6; node = do_handoff env (to_v6 f.coav6) f.ifindex n })
    else if f.invalidv4 == 0
    then some (record { answer = using_v4; node = do_handoff env (to_v4 true f.coav4) f.ifindex n })
    else none

unfoldable pub ctrl_handoff : Env → ℕ → Node → Option CtrlResult
unfolding find_iface do_handoff
ctrl_handoff env ifindex n =
    let m : Node = record n { preferred_ifindex = ifindex } in
    if not (n.current_ifindex == ifindex) && not (n.auto_handoff_enabled == 0)
    then some (record { answer = disable_auto_first; node = m })
    else if n.current_ifindex == ifindex
    then some (record { answer = already_there; node = m })
    else to_iface env m (get_elem? n.ifaces (find_iface ifindex n.ifaces))

unfoldable pub ctrl_fd_check : Env → CtrlCmd → Node → Option CtrlResult
unfolding ctrl_handoff listing_fits
ctrl_fd_check env lscoa n =
    if listing_fits env n then some (record { answer = listing; node = n }) else none
ctrl_fd_check env (handoff ifindex) n = ctrl_handoff env ifindex n
ctrl_fd_check env auto_handoff_on n =
    some (record { answer = no_answer; node = record n { auto_handoff_enabled = 1 } })
ctrl_fd_check env auto_handoff_off n =
    some (record { answer = no_answer; node = record n { auto_handoff_enabled = 0 } })
ctrl_fd_check env other_command n = some (record { answer = no_answer; node = n })
