-- ===== src/Daemon/State/Publish.antt =====
-- nhop/src/daemon/state.rs: what reaches the publications and the listeners.
use nhop.Common.{Option, none, some, nat_eq, Result, ok, err}
use nhop.Proxy.Failure.{IoError}
use nhop.Proxy.Forwards.{Forwards, Listen}
use nhop.Proxy.Upstreams.{Upstreams}
use nhop.Upstream.Entries.{adopted}
use nhop.Daemon.Frontends
use nhop.Daemon.Frontends.{Frontends}
use nhop.Daemon.State.{DaemonState, Machine}

module _ {N : Type 0} (m : Machine) where
  unfoldable pub adopt_upstream : DaemonState N → Option Upstreams → DaemonState N
  adopt_upstream s none = s
  adopt_upstream s (some upstreams) =
      let (verdicts, list) = adopted m.judged_at s.verdicts s.upstreams upstreams in
      record s { verdicts = verdicts; upstreams = list }

  -- What `rebind` makes of the listeners' answer.
  abbrev pub moved_to :
      DaemonState N → Frontends × Result IoError Listen → DaemonState N × Result IoError (Unit {0})
  moved_to s (frontends, err failure) = (record s { frontends = frontends }, err failure)
  moved_to s (frontends, ok held) = (
    record s { frontends = frontends; http_listen = held.http; socks_listen = held.socks },
    ok tt,
  )

  unfoldable pub rebind : DaemonState N → Listen → DaemonState N × Result IoError (Unit {0})
  rebind s listen = moved_to s (Frontends.rebind m.binds s.frontends listen)

  -- What `rebind_forwards` makes of it.
  abbrev pub opened_as :
      DaemonState N
      → Frontends × Result IoError Forwards
      → DaemonState N × Result IoError (Unit {0})
  opened_as s (frontends, err failure) = (record s { frontends = frontends }, err failure)
  opened_as s (frontends, ok held) = (record s { frontends = frontends; forwards = held }, ok tt)

  unfoldable pub rebind_forwards :
      DaemonState N → Forwards → DaemonState N × Result IoError (Unit {0})
  rebind_forwards s forwards = opened_as s (Frontends.rebind_forwards m.binds s.frontends forwards)
