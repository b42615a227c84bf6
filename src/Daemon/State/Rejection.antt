-- ===== src/Daemon/State/Rejection.antt =====
-- nhop/src/daemon/staging.rs: the first rejected command of a run is the one it is rejected on.
use nhop.Common.{
  some, List, [], ◌∷◌, ◌++◌, nat_eq, ◌≡◌, refl, Bool, true, false, Result, ok, err, if◌then◌else◌,
}
use nhop.Net.{Platform, socket_eq}
use nhop.Wire.{Command, LoadId, UpstreamAddr}
use nhop.Rules.Decision.{RuleId}
use nhop.Rules.Matcher.{InvalidRule}
use nhop.Rules.Ruleset
use nhop.Rules.Ruleset.{Ruleset}
use nhop.Proxy.Upstreams
use nhop.Proxy.Upstreams.{Upstreams, UnusableUpstreams}
use nhop.Proxy.Forwards
use nhop.Proxy.Forwards.{Forward, Forwards, DuplicateForward}
use nhop.Daemon.FailedCommand.{FailedCommand}
use nhop.Daemon.Staging.{
  Staging, fail, push_rule, set_upstream, push_forward, clear_rules, set_listen, with_rule,
  with_upstream, with_forward,
}
use nhop.Daemon.State.Transaction.{Event, asked, noticed, carries, staged_by, staged_by_all}

module _ {N : Type 0} {f : FailedCommand} where
  with_rule-failed :
      (st : Staging N) (r : Ruleset N × Result InvalidRule RuleId)
      → st.failed ≡ some f
      → (with_rule st r).0.failed ≡ some f
  unfolding fail
  with_rule-failed st (rules, ok id) e = e
  with_rule-failed st (rules, err failure) e = rw e refl

  with_upstream-failed :
      (st : Staging N) (fallbacks : List UpstreamAddr) (r : Result UnusableUpstreams Upstreams)
      → st.failed ≡ some f
      → (with_upstream st fallbacks r).0.failed ≡ some f
  unfolding fail
  with_upstream-failed st fallbacks (ok upstreams) e = e
  with_upstream-failed st fallbacks (err failure) e = rw e refl

  with_forward-failed :
      (st : Staging N) (r : Forwards × Result DuplicateForward (Unit {0}))
      → st.failed ≡ some f
      → (with_forward st r).0.failed ≡ some f
  unfolding fail
  with_forward-failed st (forwards, ok _) e = e
  with_forward-failed st (forwards, err failure) e = rw e refl

  if-failed :
      (b : Bool) (st st' : Staging N)
      → st.failed ≡ some f
      → st'.failed ≡ some f
      → (if b then st' else st).failed ≡ some f
  if-failed true st st' e e' = e'
  if-failed false st st' e e' = e

module _ {N : Type 0} (p : Platform N) {f : FailedCommand} where
  staged_by-failed :
      (id : LoadId) (c : Command) (st : Staging N)
      → st.failed ≡ some f
      → (staged_by p id c st).failed ≡ some f
  unfolding push_rule set_upstream push_forward clear_rules set_listen
  staged_by-failed id (Command.add_rule class kind value load) st e =
      if-failed (carries load id) st _ e
        (with_rule-failed st (Ruleset.push p st.rules class kind value) e)
  staged_by-failed id (Command.clear_rules load) st e = if-failed (carries load id) st _ e e
  staged_by-failed id (Command.set_upstream addr load) st e =
      if-failed (carries load id) st _ e (with_upstream-failed st [] (Upstreams.parse p addr []) e)
  staged_by-failed id (Command.set_upstreams addr fallbacks load) st e =
      if-failed (carries load id) st _ e
        (with_upstream-failed st fallbacks (Upstreams.parse p addr fallbacks) e)
  staged_by-failed id (Command.set_listen http socks load) st e =
      if-failed (carries load id) st _ e e
  staged_by-failed id (Command.add_forward at host port load) st e =
      if-failed (carries load id) st _ e (with_forward-failed st (Forwards.push st.forwards _) e)
  staged_by-failed id (Command.reload path) st e = e
  staged_by-failed id Command.on st e = e
  staged_by-failed id Command.off st e = e
  staged_by-failed id Command.status st e = e
  staged_by-failed id Command.rules st e = e
  staged_by-failed id (Command.test host port) st e = e
  staged_by-failed id Command.doctor st e = e
  staged_by-failed id Command.subscribe st e = e

  -- Whatever follows a rejected command, the run stays rejected on that command.
  pub staged_by_all-failed :
      (id : LoadId) (before after : List Event) (st : Staging N)
      → (staged_by_all p id before st).failed ≡ some f
      → (staged_by_all p id (before ++ after) st).failed ≡ some f
  staged_by_all-failed id [] [] st e = e
  staged_by_all-failed id [] (asked r ∷ after) st e =
      staged_by_all-failed id [] after (staged_by p id r.command st)
        (staged_by-failed id r.command st e)
  staged_by_all-failed id [] (noticed handle state cause at ∷ after) st e =
      staged_by_all-failed id [] after st e
  staged_by_all-failed id (asked r ∷ before) after st e =
      staged_by_all-failed id before after (staged_by p id r.command st) e
  staged_by_all-failed id (noticed handle state cause at ∷ before) after st e =
      staged_by_all-failed id before after st e
