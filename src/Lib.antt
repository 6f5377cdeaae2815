-- ===== src/Lib.antt =====
-- A model of bytehub, a TCP and UDP relay with load balancing, with its correctness.
--
-- The program reads a configuration (src/conf), builds endpoints from it, and relays the connections
-- that each endpoint accepts to one of its peers (bytehub_core). A balancer (bytehub_lb) chooses the
-- peer and is told of successes and failures; a pool (bytehub_core/src/tcp/pool.rs) keeps connections
-- to the peers open ahead of time. Each part is a function from a state to a state: what stands under
-- one lock, or is one atomic access, is one step, and the clock is an argument of each call.
--
--   Lb.Health      bytehub_lb/src/health.rs: failure counters and windows of exclusion.
--   Lb.RoundRobin  bytehub_lb/src/round_robin.rs: smooth weighted round robin. `next` is scan (the loop
--                  over the nodes, `visit` for one), then finish (the choice or the fallback). An
--                  `i16` is an integer that wraps at its width. Children Loop, Selection and Nearest are
--                  about one call, Steady, Chosen and Fairness about many.
--   Lb.IpHash      bytehub_lb/src/ip_hash.rs: the hash ring. The sort and the binary search of the
--                  standard library are parameters. Child Hash holds the two hash functions on bytes.
--   Lb.Balancer    bytehub_lb/src/balancer.rs: the dispatch to a strategy.
--   Core.Tcp.Pool  bytehub_core/src/tcp/pool.rs: the stacks of idle connections. The read that tests a
--                  connection and the dial are parameters. Child Steps lets relay workers and the
--                  warm-up task interleave: each access under the lock is a step.
--   Core.Tcp.Connect  bytehub_core/src/tcp/middle.rs: the retries of a connect, over the operations of a
--                  balancer (`Balance`). The loop takes fuel, a number of rounds. Its children Rounds,
--                  Ends and Stuck are about its end: `Reached` are the states before its rounds.
--                  Children Tried, Turn, Turns and Weightless join the loop with the round robin.
--   Core.Tcp.Proxy    bytehub_core/src/tcp/proxy.rs: child Headers has the headers and their addresses;
--                  `handle_proxy` is accept_header, then send_header, on a record of both sockets. Child
--                  Chain puts relays in a row.
--   Core.Options   bytehub_core/src/endpoint.rs: the options of an endpoint.
--   Core.Tcp.Relay    bytehub_core/src/tcp/middle.rs: the timed relay of a connection, and the report after it.
--   Core.Tcp.Probe    bytehub_core/src/tcp/probe.rs: the active probe as a state machine over the results
--                  of its probes; a step may make a report to the balancer.
--   Core.Udp.Group    bytehub_core/src/udp/middle.rs: the grouping of a batch by sender, in place. Children
--                  Gather and Moves are about its inner loop, Open and Partition about the groups.
--   Core.Udp.Batched  bytehub_core/src/udp/batched.rs without batched system calls, and the registry.
--   Core.Udp.SockMap  bytehub_core/src/udp/sockmap.rs: the sockets by the addresses of the clients.
--   Core.Udp.Relay    bytehub_core/src/udp/middle.rs: a batch to the remote, and the replies.
--   Io.Stream      what is used of tokio's streams, with their laws (`Laws`).
--   Io.Copy        bytehub_io/src/buf.rs and mem_copy.rs: the copy of one direction. `poll_copy` is rounds of
--                  `fill`, `write_all` and `finish`; a result of the loop is a `Flow`.
--   Io.Copy.Bidi   bytehub_io/src/bidi_copy.rs: both directions, to the future BidiCopy.
--   Io.Obfs        bytehub_io/src/bidi_copy.rs: the prefix of an obfuscated relay, on lists of bytes; the
--                  random bytes are arguments. Child Session is the exchange of the prefixes.
--   Io.Peek        bytehub_io/src/peek.rs, and Io.Statistic bytehub_io/src/statistic.rs.
--   Conf           src/conf: the layers of options. A text is its bytes; clap's matches are a record.
--                  Child Legacy is src/conf/legacy/mod.rs, Net.Build and Endpoint build the options that
--                  the relay runs with, and Endpoint.Peers says which remote a token stands for.
--   Conf.Dns.Build src/conf/dns.rs: the servers and the options that the resolver library is given; the
--                  library's defaults and the lookup of an address are a record of parameters (`Library`).
--   Cmd            src/cmd/mod.rs and src/bin.rs: what the command line asks for, the configuration that the
--                  program starts with, and the tasks. Child Flag is src/cmd/flag.rs.
--   Prelude        tests, lists, integers, bits and bytes that the parts share.
--
-- A panic is `none` or a result of its own. Loops are recursions on the list that the code walks, or
-- on the number of rounds that the code's range gives, but for the retries, which take a bound on
-- their rounds: as many as the sum of the weights for the round robin. The digits of a number in a label take a bound of 20, which covers
-- 64 bits. A poll of the copy takes a bound on its rounds: the reads that can give bytes before one is
-- pending, and two more.
--
-- Not modelled: sockets, the runtime and logging, which the code only calls; the parsers of TOML and
-- JSON; system calls and zero copy; the resolver; the hooks and the transports, which are libraries.
-- The build of the log and the parse of PROXY headers call libraries only. Of the command line, the
-- limits of the system, help, version and the conversion of old configurations are left out.
mod Prelude
pub mod Lb
pub mod Conf
pub mod Core
pub mod Io
pub mod Cmd
