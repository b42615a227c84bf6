-- ===== src/Cli/Run/Refused.antt =====
-- nhop/src/cli/mod.rs with nhop/src/daemon/staging.rs: a refused list of upstreams fails its run.
use nhop.Common.{◌≡◌, some, List, [], ◌∷◌}
use nhop.Net.{Platform}
use nhop.Text.{Text, text}
use nhop.Wire.{Command, LoadId}
use nhop.Proxy.Upstreams
use nhop.Proxy.Upstreams.{Upstreams}
use nhop.Daemon.FailedCommand.{FailedCommand}
use nhop.Daemon.Staging
use nhop.Daemon.Staging.{Staging, with_upstream}
use nhop.Daemon.State.Transaction.{staged_by}
use nhop.Cli.Exit.{Exit}

abbrev sentence : Text
sentence = text "upstream fallbacks need a newer nhop daemon"

module _ {N : Type 0} (p : Platform N) where
  abbrev pub staged_by_each : LoadId → List Command → Staging N → Staging N
  staged_by_each id [] st = st
  staged_by_each id (c ∷ commands) st = staged_by_each id commands (staged_by p id c st)

  abbrev pub Fails : Staging N → Type 0
  Fails st = (f : FailedCommand) × (st.failed ≡ some f)
