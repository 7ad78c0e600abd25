-- ===== src/Lib.antt =====
-- A verification library for olsrd2, the OONF daemon that routes by OLSRv2 (RFC 7181) over the
-- neighbourhood discovery protocol NHDP (RFC 6130) and the packet format of RFC 5444.
--
-- Parts of the program and their modules:
--   Base: names, lists, integers and bit laws that the other modules share.
--   Common: src-api/common, the data structures below everything else. Common.Avl is the AVL tree
--     (avl.c, with the list of list.h that runs through it): Common.Avl has the rotations and the
--     rebalancing, on a subtree and the way to it in place of parent pointers, and Common.Avl.Ops the
--     operations; Common.Avl.Nearest and Common.Avl.Ceiling have avl_find_lessequal and
--     avl_find_greaterequal. Objects have names in place of their addresses in memory. The parts above
--     but for Timer work with a tree without duplicates as the map that it holds, which is Common.Tree.
--     Common.Netaddr has network addresses and Common.Subnet the test of a prefix (netaddr.c);
--     Common.Acl has the access control lists of such prefixes (netaddr_acl.c).
--   Rfc5444: src-plugins/subsystems/rfc5444/rfc5444.c, the coding of times and metrics and the
--     difference of sequence numbers. Messages carry such values; NHDP and OLSRv2 read and write
--     them.
--   Timer: src-plugins/subsystems/oonf_timer.c, the timers that NHDP and OLSRv2 let their data expire
--     by. It works on Common.Avl itself, with the timers by the time at which they fire; the time of
--     the clock and the random numbers are arguments.
--   Dupset: src-plugins/subsystems/oonf_duplicate_set.c, which tells new messages from old ones by
--     originator, message type and sequence number; the RFC 5444 reader asks it before a message is
--     processed or forwarded.
--   Nhdp: src-plugins/nhdp. Nhdp.Hysteresis is the interface of the link hysteresis
--     (nhdp/nhdp_hysteresis.c), a record of functions that Nhdp.Database takes as a parameter;
--     Nhdp.Olsrv1 (hysteresis_olsrv1/hysteresis_olsrv1.c) gives one of its implementations.
--     Nhdp.Database (nhdp/nhdp_db.c) has the links and neighbours: the status of a link is
--     recalculated when the hysteresis asks for it or a timer ends, and each neighbour counts its
--     symmetric links.
--     Nhdp.Mpr (mpr/selection-rfc7181.c and mpr/neighbor-graph.c) selects multipoint relays over an
--     interface of cost functions, which Nhdp.Mpr.Flooding (mpr/neighbor-graph-flooding.c) gives for
--     the flooding relays; the order of addresses is a parameter there.
--   Olsrv2: src-plugins/olsrv2. Olsrv2.Originator has the own originators
--     (olsrv2/olsrv2_originator.c). The others model olsrv2/olsrv2_routing.c: Olsrv2.Routing the
--     routing entries of a domain, Olsrv2.Dijkstra the topology as the shortest path calculation
--     reads it with its working tree, Olsrv2.Search a run of the calculation, Olsrv2.Update an
--     update with its runs, and Olsrv2.Kernel the way from the routes to the kernel and back. The
--     neighbours and their metrics come from NHDP (RoutingNeighbor), the address tests from Common.
--     Targets are numbers in place of addresses in memory; the allocator, the interface addresses
--     and the attached networks are fields of LocalNode.
--
-- Machine integers are natural numbers with the wrap-around written out, or signed numbers where the
-- code compares them with 0. Loops that the code bounds by a value run on fuel: the halving and
-- doubling loops get as many rounds as their integers have bits, and the theorems show that fewer
-- are needed. The shortest path calculation gets one round for each target of the topology, for each
-- round marks one more of them as done; the selection of relays gets one round more than there are
-- links, for each round leaves fewer candidates.
--
-- Not modelled: sockets, the operating system layers, logging, the configuration and plug-in
-- machinery, the text output of the info plug-ins, cryptography, and the other protocol plug-ins.
pub mod Base
pub mod Common
pub mod Rfc5444
pub mod Timer
pub mod Dupset
pub mod Nhdp
pub mod Olsrv2
