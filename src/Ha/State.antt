-- ===== src/Ha/State.antt =====
-- The Home Agent's state in ha.c, and what it asks of the kernel and the network.
-- A request keeps the arguments that vary; those that are the same in every call (source any/0, the
-- prefix lengths 32 and 128, metrics, priorities, the local UDP port 666) are not repeated.
use dsmip.Common.{ℕ, ℤ, List}
use dsmip.Net.{In6Addr}

-- `NIF` and `MAX_MN_NUM`
abbrev pub nif : ℕ
nif = 30

abbrev pub max_mn_num : ℕ
max_mn_num = 10

-- `struct _mn`; `active` is 0 at home, -1 on an IPv6 care-of address, and the slot of the IPv4
-- care-of address otherwise. The arrays have `nif + 1` entries.
pub record Mn : Type 0 where
  pub hoav6 : In6Addr
  pub hoav4 : ℕ
  pub active : ℤ
  pub in_nat : List ℕ
  pub nif_map : List ℕ
  pub nnif : ℕ
  pub coav6 : In6Addr
  pub coav4 : List ℕ
  pub natv4 : List ℕ
  pub last_natv4_t : List ℕ
  pub nat_port : List ℕ
  pub last_bu_t : ℕ
  pub tnl44_ifindex : ℤ
  pub tnl66_ifindex : ℤ
  pub tnl64_ifindex : ℤ
  pub last_bu_seq : ℕ

-- The globals `hav4`, `hav4_2`, `special_ip` and `hav6`.
pub record Config : Type 0 where
  pub hav4 : ℕ
  pub hav4_2 : ℕ
  pub special_ip : ℕ
  pub hav6 : In6Addr

-- The tables `ROUTE_MOBILE` and `ROUTE_MOBILE_TMP`
pub data Table : Type 0 where
  mobile mobile_tmp : Table

-- The last argument of `sendba`: null, or the care-of address.
pub data BaRoute : Type 0 where
  no_coa : BaRoute
  via_coa : In6Addr → BaRoute

-- One call of a function of rtnl.h, tunlctl.h or ha-xfrm.h, or of `sendba`.
-- Routes: interface, table, destination. Rules: table, destination. Tunnels: local, remote, link.
-- UDP encapsulation: home addresses, source, NAT address, NAT port. `sendba`: link, sequence number,
-- home address, and the care-of address of the routing header if there is one.
pub data Request : Type 0 where
  route4_add : ℤ → Table → ℕ → Request
  route4_del : ℤ → Table → ℕ → Request
  route_add : ℤ → Table → In6Addr → Request
  route_del : ℤ → Table → In6Addr → Request
  rule4_add : Table → ℕ → Request
  rule4_del : Table → ℕ → Request
  rule_add : Table → In6Addr → Request
  rule_del : Table → In6Addr → Request
  tunnel44_add : In6Addr → In6Addr → ℕ → Request
  tunnel44_del : ℤ → Request
  tunnel64_add : In6Addr → In6Addr → ℕ → Request
  tunnel64_del : ℤ → Request
  tunnel66_add : In6Addr → In6Addr → ℕ → Request
  tunnel66_del : ℤ → Request
  start_udp_encap : In6Addr → ℕ → ℕ → ℕ → ℕ → Request
  stop_udp_encap : In6Addr → ℕ → ℕ → ℕ → ℕ → Request
  sendba : ℕ → ℕ → In6Addr → BaRoute → Request

-- Every request so far, the newest first.
abbrev pub Log : Type 0
Log = List Request

-- The interface index, or -1, that the kernel answers to the newest request of a log. It may depend
-- on the whole history.
abbrev pub Kernel : Type 0
Kernel = Log → ℤ

-- A mobile node's entry with the log of requests.
pub record Host : Type 0 where
  pub mn : Mn
  pub log : Log

-- The whole agent: `mns` and the log of requests.
pub record Ha : Type 0 where
  pub mns : List Mn
  pub log : Log
