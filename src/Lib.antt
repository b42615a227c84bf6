-- ===== src/Lib.antt =====
-- nhop: a router for outgoing connections. It accepts connections on HTTP, SOCKS5 and forward front
-- ends, decides by a ruleset whether each goes directly or through an upstream SOCKS5 proxy, and
-- watches the upstreams to choose among them. This library models its decisions as functions and
-- proves what makes each part correct. Paths are from the repository's root.
--
-- The parts, in the order in which one connection meets them:
--
-- * Rules (nhop/src/rules/): a value is parsed to a matcher (Rules.Matcher), a ruleset is an ordered
--   list of rules (Rules.Ruleset), and `decide` answers the route. Rules.Decide, Rules.Hosts and
--   Rules.Push hold the proofs.
-- * Proxy (nhop/src/proxy/mod.rs): upstream addresses and lists (Proxy.Upstreams), declared forwards
--   (Proxy.Forwards), how a dial ends (Proxy.Failure), the loop guard (Proxy.Guard), the subscribers
--   to events (Proxy.Events) and the event of a connection from its decision to its end
--   (Proxy.Routed). The front ends: nhop/src/proxy/forward.rs (Proxy.Forward), socks5.rs
--   (Proxy.Socks5) and http.rs (Proxy.Http, with Reading for read_head, Rewritten for the head that is
--   forwarded and Serving for serve and the answers).
-- * Upstream (nhop/src/upstream/): verdicts (Upstream.Health, health.rs), the choice by verdicts and
--   a hold (Upstream.Select, select.rs), the record of the last choice (Upstream.Selection), the
--   published list (Upstream.Entries, entries.rs), the dialer and the patrol (Upstream.Dial and
--   Upstream.Patrol, mod.rs).
-- * Daemon (nhop/src/daemon/): what a run of the init script stages (Daemon.Staging, staging.rs), the
--   listeners (Daemon.Frontends, mod.rs), and the state task (Daemon.State, state.rs): Handle has one
--   function per command, Finish the end of a run, Publish what reaches the publications and the
--   listeners, Report what `status` and `doctor` read. Their other children are proofs.
--   Daemon.Server is one conversation of ipc_server.rs, Daemon.InitScript the program of a run and how
--   it ended (init_script.rs), and Daemon.OpenFiles the limit on open files (open_files.rs).
-- * Cli (nhop/src/cli/): the views that the daemon answers with (Explain and Status, explain.rs and
--   status.rs, with StatusView for what the system proxy adds), the system proxy (SystemProxy,
--   system_proxy.rs), doctor (Doctor and its Checks, doctor.rs), the client (Client and Answer,
--   client.rs) and the subcommands of mod.rs: the exit codes (Exit), the values of arguments
--   (Arguments, Names), what is printed (Printer, Render), the log (Logs), tail (Tail, tail.rs), the
--   commands of a run (Run) and the choice of the subcommand (Dispatch).
-- * Logging (nhop/src/logging.rs): the log read back.
-- * Wire (nhop-ipc/src/): the values that the parts exchange. Net and Text: addresses, UTF-8, and the
--   part of `str` and `char` that the router uses. Common: names and lemmas that all share. Tests:
--   concrete cases.
--
-- How the state is modelled. A shared verdict is a place in a store (`Verdicts`), and a handle is the
-- number of its place, so two lists published one after the other can hold one handle. A publication
-- is replaced as a whole. The daemon's state is a record, and a request's reply channel is a number:
-- a handler returns the new state and what it sends or starts. A message is a constructor that keeps
-- what the text is formatted from. The steps that other tasks take between two requests are steps of
-- the model too: a verdict that is written while a run is in flight is an event of its own.
--
-- What is a parameter. The readers and the printer of IP addresses, networks and the case tables of
-- Unicode are code that is not of this repository (`Net.Platform`). The network answers a dial, the
-- system answers a bind, a channel answers try_send, a run of networksetup answers a report, a file
-- has its metadata, a file of the log its bytes, a socket its lines, JSON its reader and its printer,
-- and the clock is read: each is an argument, one answer for each question, in the order asked.
-- Hypotheses on them are named: `Names` and `Grants` say what a listener that binds is bound to, and
-- that an address is free; `Renders` how the standard library prints addresses; `Sets` that
-- setrlimit sets what getrlimit reads.
--
-- Bounds. Loops are structural recursion on lists, but for three that have fuel. The printing of a
-- number has a unit for each unit of the number and one more, and a number has fewer digits. A
-- conversation (Daemon.Server) has a unit for each turn, and a turn takes a byte of the client at
-- least, so one more unit than there are bytes is enough. A turn of `follow` (Cli.Tail) takes a
-- read at least, so one more unit than there are reads is enough. Ports, lengths, identifiers and
-- counts of publications keep their width: an identifier of a run wraps at 2 ^ 64, and a count of
-- publications stops there.
--
-- Not modelled: the bytes that are relayed and their failures; JSON, which is generated code; the
-- writing of the log, which is tracing and its appender; the splitting of the command line, which
-- is argh; the accept loops, the start of the daemon and the paths of its files, which are calls
-- of the operating system.
pub mod Cli
pub mod Common
pub mod Daemon
pub mod Logging
pub mod Net
pub mod Proxy
pub mod Rules
pub mod Tests
pub mod Text
pub mod Upstream
pub mod Wire
