-- ===== src/Mobile/State.antt =====
-- The globals of mn/mn.c, and the calls by which it acts on the kernel and the network.
-- A call keeps the arguments that vary; those that are the same in every call (destination any,
-- metrics, the mobile node's and the Home Agent's own addresses, the UDP port 666) are not repeated.
use dsmip.Common.{ℕ, ◌-◌, ◌%◌, ◌^◌, ℤ, pos, negsuc, Bool, ◌∷◌, List}
use dsmip.Net.{In6Addr}

-- `NIF`, the length of `ifaces`
abbrev pub nifaces : ℕ
nifaces = 3

-- `current_coa_type`: 0 at home, 1 behind a NAT, 2 on IPv4 without NAT, -1 on IPv6.
pub data CoaType : Type 0 where
  at_home nat_v4 plain_v4 on_v6 : CoaType

-- What an interface's name begins with: `wlan_name`, `gprs_name`, or neither.
pub data Card : Type 0 where
  wlan gprs other_card : Card

-- `flags&IFF_UP` and `flags&IFF_RUNNING`
pub record Flags : Type 0 where
  pub up : Bool
  pub running : Bool

-- `struct _iface`; of the name only its beginning is used.
pub record Iface : Type 0 where
  pub ifindex : ℕ
  pub ifname : Card
  pub flags : Flags
  pub coav6 : In6Addr
  pub coav4 : ℕ
  pub invalidv4 : ℕ
  pub invalidv6 : ℕ
  pub last_nat_probe_t : ℕ

-- MN_ROUTE_DEFAULT, MN_MOBILE_ROUTE_TABLE, ROUTE_MOBILE, ROUTE_MOBILE_TMP
pub data RouteTable : Type 0 where
  default_table node_table mobile_table temp_table : RouteTable

-- The source of a route: any, or the mobile node's home address.
pub data Source : Type 0 where
  any_source home_source : Source

-- Routes: interface, table, source. Rules: table, priority, and the source of the traffic (`none` for
-- any). Tunnels: the mobile node's end, link. Home addresses are put on an interface. Policies: the
-- care-of address. UDP encapsulation and `sendbu`: the care-of address, and the sequence number. `ipfix` has
-- the three bytes sent to cngictrl: up or down, the flag for automatic handoff, the current interface.
pub data Call : Type 0 where
  route4_add : ℤ → RouteTable → Source → Call
  route4_del : ℤ → RouteTable → Source → Call
  route_add : ℤ → RouteTable → Source → Call
  route_del : ℤ → RouteTable → Source → Call
  rule4_any_add : RouteTable → ℕ → Call
  rule4_any_del : RouteTable → ℕ → Call
  rule_any_add : RouteTable → ℕ → Call
  rule_any_del : RouteTable → ℕ → Call
  rule4_add : RouteTable → ℕ → ℕ → Call
  rule4_del : RouteTable → ℕ → ℕ → Call
  rule_add : RouteTable → ℕ → In6Addr → Call
  rule_del : RouteTable → ℕ → In6Addr → Call
  tunnel44_add : In6Addr → ℕ → Call
  tunnel44_del : ℤ → Call
  tunnel64_add : In6Addr → ℕ → Call
  tunnel64_del : ℤ → Call
  tunnel66_add : In6Addr → ℕ → Call
  tunnel66_del : ℤ → Call
  addr_add : ℤ → Call
  addr4_add : ℤ → Call
  policy_add : Call
  policy_del : Call
  state_add : In6Addr → Call
  state_del : Call
  start_udp_encap : ℕ → Call
  stop_udp_encap : ℕ → Call
  mod_ipv6_gateway : Call
  sendbu : In6Addr → ℕ → Call
  nat_probe_send : ℕ → ℕ → Call
  ipfix : ℕ → ℕ → ℕ → Call
  gprsfix : Call

abbrev pub Calls : Type 0
Calls = List Call

-- What a handler is given: the home and the agent's addresses, the time, the kinds of interfaces and the
-- lengths of their names, and the kernel's answers, which may depend on all calls so far: a new tunnel's index or -1, and whether
-- the newest binding update was sent.
pub record Env : Type 0 where
  pub hoav6 : In6Addr
  pub hoav4 : ℕ
  pub hav6 : In6Addr
  pub hav4 : ℕ
  pub uptime : ℕ
  pub card_of : ℕ → Card
  pub name_length : ℕ → ℕ
  pub answer : Calls → ℤ
  pub is_sent : Calls → Bool

-- The globals; `bu_seq` is `__BU_SEQ__`, and `tnl44_ifindex` to `tnl66_ifindex` are `uint16_t`.
pub record Node : Type 0 where
  pub ifaces : List Iface
  pub wlan_ifindex : ℕ
  pub auto_handoff_enabled : ℕ
  pub preferred_ifindex : ℕ
  pub current_ifindex : ℕ
  pub current_coav6 : In6Addr
  pub current_coav4 : ℕ
  pub current_coa_type : CoaType
  pub bu_seq : ℕ
  pub last_bu_t : ℕ
  pub consecutive_bu : ℕ
  pub skip_ctrl_fd : ℕ
  pub tnl44_ifindex : ℕ
  pub tnl64_ifindex : ℕ
  pub tnl66_ifindex : ℕ
  pub log : Calls

-- The conversion of `int` to `uint16_t`.
abbrev pub to_uint16 : ℤ → ℕ
to_uint16 (pos n) = n % 2 ^ 16
to_uint16 (negsuc n) = 2 ^ 16 - 1 - n % 2 ^ 16

-- Calls are noted the newest first.
abbrev pub note : Call → Node → Node
note c n = record n { log = c ∷ n.log }
