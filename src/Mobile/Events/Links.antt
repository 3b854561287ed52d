-- ===== src/Mobile/Events/Links.antt =====
-- `process_link` of mn/mn.c, and `getCurrentIfindex`, `cngictrl_ipfix` and `cngictrl_gprsfix`, which it
-- calls. The result is `none` where the code reads or writes outside `ifaces`. The return value, which
-- the caller does not read, is left out.
use dsmip.Common.{
  ℕ, ◌%◌, ◌^◌, ◌+◌, Bool, not, ◌&&◌, ◌||◌, List, [], ◌∷◌, get_elem?, Option, none, some, ◌==◌, ltb,
  if◌then◌else◌,
}
use dsmip.Net.{v6_eq}
use dsmip.Mobile.State.{
  nifaces, Card, wlan, gprs, other_card, Flags, Iface, ipfix, gprsfix, Env, Node, note,
}
use dsmip.Mobile.Handoff.Steps.{to_v6, is_on_v6, is_on_v4, is_at_home}
use dsmip.Mobile.Handoff.{find_iface}
use dsmip.Mobile.Events.Slots.{
  zero_iface, edit_iface, find_slot, is_up, same_flags, new_iface, prefer, use_iface,
}

-- The first interface that has the care-of address in use; -1 when there is none.
unfoldable pub get_current_ifindex : Node → List Iface → Option ℕ
get_current_ifindex n [] = none
get_current_ifindex n (f ∷ fs) =
    let t = n.current_coa_type in
    let later = get_current_ifindex n fs in
    if f.ifindex == 0
    then later
    else if f.invalidv6 == 0 && ((is_on_v6 t || is_at_home t) && v6_eq n.current_coav6 f.coav6)
    then some f.ifindex
    else if f.invalidv4 == 0 && ((is_at_home t || is_on_v4 t) && n.current_coav4 == f.coav4)
    then some f.ifindex
    else later

-- A result of `getCurrentIfindex` as a byte.
abbrev pub to_uint8 : Option ℕ → ℕ
to_uint8 (some i) = i % 2 ^ 8
to_uint8 none = 0xff

-- What is sent, and the flag; the answer for which it waits is not used.
unfoldable pub cngictrl_ipfix : ℕ → Node → Node
unfolding get_current_ifindex
cngictrl_ipfix flag n = record n {
  skip_ctrl_fd = 0;
  log =
      ipfix flag (n.auto_handoff_enabled % 2 ^ 8) (to_uint8 (get_current_ifindex n n.ifaces))
      ∷ n.log;
}

-- A message: its type, its length, and the fields of its `struct ifinfomsg`.
pub record LinkMsg : Type 0 where
  pub is_new : Bool
  pub nlmsg_len : ℕ
  pub ifi_family : ℕ
  pub ifi_type : ℕ
  pub ifi_index : ℕ
  pub ifi_flags : Flags

-- The first interface but `ifindex` that is up.
unfoldable pub find_up : ℕ → List Iface → Option Iface
find_up ifindex [] = none
find_up ifindex (f ∷ fs) =
    if ltb 0 f.ifindex && (not (f.ifindex == ifindex) && is_up f.flags)
    then some f
    else find_up ifindex fs

abbrev pub use_found : Env → Option Iface → Node → Node
use_found env none n = n
use_found env (some f) n = use_iface env f n n

-- The wlan card is down: to another interface, if handoffs are automatic.
unfoldable pub wlan_down : Env → ℕ → Node → Node
unfolding find_up use_iface cngictrl_ipfix
wlan_down env ifindex n =
    let i = find_iface ifindex n.ifaces in
    let m : Node =
      edit_iface (λ f. record f { invalidv6 = 1; invalidv4 = 1 }) i (cngictrl_ipfix 0 n) in
    if not (ltb i nifaces)
    then n
    else if m.auto_handoff_enabled == 0
    then m
    else use_found env (find_up ifindex m.ifaces) m

unfoldable pub wlan_changed : Env → LinkMsg → ℕ → Node → Node
unfolding cngictrl_ipfix wlan_down
wlan_changed env msg i n =
    let m : Node = edit_iface (λ f. record f { flags = msg.ifi_flags }) i n in
    if is_up msg.ifi_flags
    then cngictrl_ipfix 1 (record m { consecutive_bu = 1 })
    else wlan_down env msg.ifi_index m

-- A new entry for an interface that is up.
abbrev pub enter : LinkMsg → Card → ℕ → Node → Node
enter msg card i n =
    if is_up msg.ifi_flags
    then edit_iface (λ f. new_iface msg.ifi_index card msg.ifi_flags) i n
    else n

abbrev pub wlan_slot : Env → LinkMsg → ℕ → Node → Option Iface → Option Node
wlan_slot env msg i n none = none
wlan_slot env msg i n (some f) = some (
    if not (f.ifindex == msg.ifi_index)
    then enter msg wlan i n
    else if same_flags f.flags msg.ifi_flags
    then n
    else wlan_changed env msg i n)

unfoldable pub new_wlan : Env → LinkMsg → Node → Option Node
unfolding find_slot wlan_changed
new_wlan env msg n =
    let i = find_slot msg.ifi_index n.ifaces in
    let m : Node = record n { wlan_ifindex = msg.ifi_index } in
    wlan_slot env msg i m (get_elem? n.ifaces i)

abbrev pub gprs_changed : LinkMsg → ℕ → Node → Node
gprs_changed msg i n =
    let m : Node = edit_iface (λ f. record f { flags = msg.ifi_flags }) i n in
    if msg.ifi_flags.up || msg.ifi_flags.running then note gprsfix m else m

abbrev pub gprs_slot : LinkMsg → ℕ → Node → Option Iface → Option Node
gprs_slot msg i n none = none
gprs_slot msg i n (some f) = some (
    if not (f.ifindex == msg.ifi_index)
    then enter msg gprs i n
    else if same_flags f.flags msg.ifi_flags
    then n
    else gprs_changed msg i n)

unfoldable pub new_gprs : LinkMsg → Node → Option Node
unfolding find_slot
new_gprs msg n =
    let i = find_slot msg.ifi_index n.ifaces in gprs_slot msg i n (get_elem? n.ifaces i)

-- The loop of a deletion: up to the first other interface, noting the last entry of the deleted one.
pub record Scan : Type 0 where
  pub other : Option Iface
  pub id : Option ℕ

unfoldable pub scan : ℕ → ℕ → Option ℕ → List Iface → Scan
scan ifindex imn id [] = record { other = none; id = id }
scan ifindex imn id (f ∷ fs) =
    let later = scan ifindex (imn + 1) (if f.ifindex == ifindex then some imn else id) fs in
    if f.ifindex == ifindex
    then later
    else if f.ifindex == 0
    then later
    else record { other = some f; id = id }

-- To the other interface, at its home if it has no valid address, or to index 0.
abbrev pub go_other : Env → Option Iface → Node → Node
go_other env (some f) n = use_iface env f (prefer env (to_v6 env.hoav6) f.ifindex n) n
go_other env none n = prefer env (to_v6 env.hoav6) 0 n

-- `memset(ifaces+id,0,sizeof(struct _iface))`, with id -1 if the loop has not met the interface.
abbrev pub wipe : Option ℕ → Node → Option Node
wipe none n = none
wipe (some i) n = some (edit_iface (λ f. zero_iface) i n)

unfoldable pub del_link : Env → LinkMsg → Node → Option Node
unfolding scan use_iface prefer
del_link env msg n =
    let found = scan msg.ifi_index 0 none n.ifaces in wipe found.id (go_other env found.other n)

abbrev pub new_link : Env → LinkMsg → Node → Card → Option Node
new_link env msg n wlan = new_wlan env msg n
new_link env msg n gprs = new_gprs msg n
new_link env msg n other_card = some n

-- The types of loopback and tunnel interfaces.
abbrev pub is_virtual : ℕ → Bool
is_virtual t = t == 772 || (t == 769 || (t == 768 || t == 776))

-- AF_UNSPEC and AF_INET6
unfoldable pub is_ignored_link : LinkMsg → Bool
is_ignored_link msg =
    ltb msg.nlmsg_len 32
    || ((not (msg.ifi_family == 0) && not (msg.ifi_family == 10)) || is_virtual msg.ifi_type)

unfoldable pub process_link : Env → LinkMsg → Node → Option Node
unfolding new_wlan new_gprs del_link is_ignored_link
process_link env msg n =
    if is_ignored_link msg
    then some n
    else if msg.is_new
    then new_link env msg n (env.card_of msg.ifi_index)
    else del_link env msg n
