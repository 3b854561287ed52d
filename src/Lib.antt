-- ===== src/Lib.antt =====
-- The Home Agent, the mobile node and the control daemon of a dual-stack Mobile IPv6 system with
-- NAT traversal.
--
-- The Home Agent (dsmip-ha/dual-stack-mobile-ipv6-lh/ha.c) keeps a table `mns` with an entry for
-- each mobile node. Its loop `ha_working` takes NAT probes, which fill in the care-of addresses and
-- NAT addresses of the node's interfaces, and binding updates, which choose the care-of address in
-- use. For a binding update it asks the kernel for tunnels, routes, rules and UDP encapsulations;
-- at the end of a round it resets the nodes that have been silent for over 60 seconds.
--
-- How the files correspond to the code:
-- - Common, and the files below it: lists as arrays, tests, signed numbers, masks.
-- - Net: addresses, `ipv6_map_addr` and `ipv6_unmap_addr` of common.h.
-- - Ha/State: `struct _mn`, the globals, and the calls that ha.c makes to rtnl.h, tunlctl.h,
--   ha-xfrm.h and `sendba`, as requests in a log, the newest first.
-- - Ha/Special: `ip_special`. Ha/Cleanup: `mn_state_cleanup`. Ha/Probe: `nif_map` and the NAT probe
--   branch of `ha_working`. Ha/Binding: its binding update branch (Steps, V4, V6, Home, Handler).
--   Ha/Round: a round of its loop, and its end.
-- - Ha/Valid: the invariant of the table. Ha/Trace: what a log says about rules, tunnels and
--   encapsulations, where the newest request decides, and about routes, where the kernel also
--   refuses some and takes them down with their interface (Routing).
-- - Buffer: the kernel module databuff/databuff.c of the same directory. Buffer/Store is its
--   memory, Buffer/Queue `buffer_data` and `send_buffered_data`, with the linked list seen as a
--   sequence of cells in Queue/Cells, Queue/Push and Queue/Refines; Buffer/Table the searches,
--   `add_mnlist`, `kernel_receive` and the two hooks, and Table/Reach the sequences of their calls.
-- - Mobility: mobility headers in ha.c. Options has the numbers of common.h and `mh_opt_len_chk`,
--   Pad `mh_try_pad` and its helpers, Parse `mh_opt_parse` and `mh_opt`, Messages `mh_create`, the
--   header length of `sendba`, and `recvbu` after `recvmsg`.
-- - Encap: the kernel module udpencap.c of the same directory. Encap/Skb has its packets and what
--   it uses of the kernel, Encap/Output `udp_encap_output` and `udp_encap_init_state`, Encap/Input
--   the input side, Encap/Load its load and unload.
-- - Mobile: the mobile node, mn/mn.c. Mobile/State has the globals as the record `Node`, with the
--   log of the calls that act on the kernel and the network; Mobile/Handoff is `do_handoff`, its
--   groups of calls in Steps and its branches in Branches; Mobile/Events has `process_link`
--   (Links), `process_addr` (Addrs), `ctrl_fd_check` (Control, and Listing for the length of its
--   longest answer), `bu_worker`, `nat_probe_worker`, `mn_init` and `mn_cleanup` (Workers) over the
--   array `ifaces` (Slots); Mobile/Worker is `mn_worker`, round by round, with the states
--   `Reachable`; Mobile/Updates and Mobile/Probes are the packets of `sendbu` and `nat_probe_send`
--   and how the Home Agent reads them; Mobile/Pool is the pool of tunnels of mn/tunlctl.h. What a
--   handler does outside the array or beyond a buffer is `none`. The other files have the proofs:
--   Sound what is up, Announced and Numbers the binding updates, Place and Attach where the node is
--   attached, Routes the rules for IPv4 addresses, Pace the timers, Cleanup the end, Entries and
--   Faults the array, Kept and Invariants what every handler and round keeps.
-- - Daemon: the control daemon, cngictrl/cngictrl.c and cngictrl.h. Daemon/Text has C strings as
--   lists of bytes, Daemon/State the globals as the record `Daemon` with the log of its calls;
--   Daemon/Words the command words, Daemon/Main the loop of `main`, Daemon/Node, Ping, Routes,
--   Ipfix and Settings what the commands and the mobile node's messages do, Daemon/Detect a round
--   of `bmisscntDetect`, Daemon/Reach the start and the states that are reached. The proofs: Core
--   what the handlers leave alone (Shell, Quiet, Commands), Control the threads, the process and
--   the requests, Served the daemon with the mobile node, and the files Numbers, Lines, Printed,
--   Link, Limits, Moves and Longest. Undefined behaviour, a write beyond an array included, is
--   `none`.
-- - Tests: sample states, and the theorems at sample inputs.
--
-- The control daemon reads commands from a user, starts and stops the mobile node and a ping, runs
-- the command `ip` and wpa_cli, and sends the mobile node requests; the mobile node tells it of
-- changes of its links.
--
-- The kernel is a parameter: a function from the log of all requests to the answer to the newest
-- one (a tunnel's interface index, or -1). Nothing is assumed of it but where a theorem says so.
-- Encap/Skb's `Kernel` is what udpencap.c uses, and `IsKernel` what it relies on. Of databuff's
-- kernel, `HZ`, `time_before` and the answers of `kmalloc` and `skb_copy` are arguments. Sockets,
-- packets and the clock are arguments: a round is given the probe, the binding update and the time.
--
-- Loops on fuel: the bit loop of `ip_special`, with 33 rounds for 32 bits; the option loop of
-- `mh_opt_parse`, with a round for each byte and one more; the two loops over a packet list, whose
-- fuel is an argument, enough if it is above the number of cells; the jump back in
-- `find_ipv6_payload_type`, whose fuel is enough if it is the packet's length. Numbers that the
-- code keeps in `int` and that are never negative are natural numbers.
--
-- Not modelled: the diagnostics, the building of netlink and IPv6 packets, the kernel modules under
-- tnls, which are Linux's, configuration files, the mobile node's configuration (mn/mn.c), what the
-- control daemon prints, its ping (cngictrl/ping, after iputils) and its XFRM calls
-- (cngictrl/cngictrl-xfrm3.h).
pub mod Common
pub mod Net
pub mod Ha
pub mod Tests
pub mod Buffer
pub mod Mobility
pub mod Encap
pub mod Mobile
pub mod Daemon
