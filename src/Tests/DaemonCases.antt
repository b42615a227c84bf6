-- ===== src/Tests/DaemonCases.antt =====
-- nhop/src/daemon/: cases of the loads, the refusals and the forwards.
use nhop.Common.{
  ltb, none, some, List, [], ◌∷◌, ok, err, ◌≡◌, ◌⊎◌, refl, inl, arith, true, if◌then◌else◌, ◌==◌,
}
use mathlib.Core.Bool.{Bool}
use nhop.Text.{text}
use nhop.Net.{socket_eq}
use nhop.Wire.{Command, RuleKind, require, up}
use nhop.Proxy.Failure.{IoError}
use nhop.Proxy.Forwards.{Forward}
use nhop.Upstream.Health.{probe}
use nhop.Daemon.FailedCommand.{FailedCommand}
use nhop.Daemon.Reply.{ScriptOutcome}
use nhop.Daemon.Frontends.{Binds, Bound, bound, rebind_bound_forwards}
use nhop.Daemon.Frontends.Wanted.{Serves, rebind_bound_forwards-Serves}
use nhop.Daemon.Staging.{Committed, fresh, issue}
use nhop.Daemon.State.{DaemonState, InFlight, Machine, CannotBind, Settled, in_flight}
use nhop.Daemon.State.Handle.{handle, script_of}
use nhop.Daemon.State.Transaction.{
  Event, asked, noticed, noticed_all, during, with_staged, staged_by_all, step, step_all,
  step_all-during,
}
use nhop.Daemon.State.Load.{
  load, recorded, judged, started, first_run, Discards, Routes, load-Discards, load-Routes,
}
use nhop.Daemon.State.Granted.{Commits, load-Commits}
use nhop.Daemon.State.Finish.{finish, commit_run}
use nhop.Daemon.State.Sound.{IsSound}
use nhop.Daemon.State.Reachable.{Step, Reaches, Reaches-IsSound}
use nhop.Tests.UpstreamCases.{entries_IsPublished}
use nhop.Daemon.State.Refusal.{Refuses, handle-Refuses, handle-serving, handle-stale}
use nhop.Tests.Fixtures.{primary, fallback, platform, rules, entries, cold, down_since}

abbrev grants : Binds
grants n addr = ok (ok addr)

abbrev machine : Machine
machine = record {
  now = 50;
  judged_at = λ h. 50;
  is_file = λ path. true;
  binds = grants;
  uptime_secs = 5;
  init_file = text "/etc/init.nhop";
}

abbrev idle : DaemonState Bool
idle = record {
  rules = rules;
  upstreams = entries;
  verdicts = cold;
  frontends = bound (record { http = primary; socks = fallback; forwards = [] });
  http_listen = primary;
  socks_listen = fallback;
  forwards = [];
  unconfigured = down_since 0;
  init_path = none;
  last_load = none;
  load_ids = 0;
  load = none;
  load_timeout = 30;
  hold = 60;
}

abbrev first_event : Event
first_event = asked (record {
  machine = machine;
  command = Command.add_rule require RuleKind.suffix (text "example") (some 1);
  reply = 3;
})

abbrev rejected_event : Event
rejected_event = asked (record {
  machine = machine;
  command = Command.add_rule require RuleKind.port (text "none") (some 1);
  reply = 4;
})

abbrev events : List Event
events = first_event ∷ noticed 0 up probe 60 ∷ []

load-Routes_example :
    Routes platform idle machine none 7 events machine ScriptOutcome.succeeded
      (load platform idle machine none 7 events machine ScriptOutcome.succeeded).0
unfolding in_flight
load-Routes_example =
    load-Routes platform idle machine none 7 events machine ScriptOutcome.succeeded refl refl

load-Discards_example :
    Discards platform
      (judged platform idle events)
      (script_of platform machine idle none)
      (load platform idle machine none 7 events machine ScriptOutcome.timed_out).0
unfolding in_flight
load-Discards_example =
    load-Discards platform idle machine none 7 events machine ScriptOutcome.timed_out refl refl
      (inl (λ e. cc))

abbrev run : InFlight Bool
run = record { id = 1; staged = fresh; reply = 7 }

step_all-during_example :
    step_all platform (during platform idle run) events
    ≡ during platform
        (record idle { verdicts = noticed_all events cold })
        (with_staged platform run (staged_by_all platform 1 events fresh))
step_all-during_example = step_all-during platform idle run events

handle-Refuses_example : Refuses platform machine (during platform idle run) Command.off 9
unfolding in_flight
handle-Refuses_example =
    handle-Refuses platform machine (during platform idle run) Command.off 9 {load = none} refl
      (λ e. cc)

handle-serving_example :
    handle platform machine (during platform idle run) Command.rules 9
    ≡ (during platform idle run, (handle platform machine idle Command.rules 9).1)
handle-serving_example = handle-serving platform machine idle run Command.rules 9 refl

abbrev later : DaemonState Bool
later = record idle { load_ids = 4 }

handle-stale_example :
    Refuses platform machine
      (during platform
        (started platform later (text "/etc/init.nhop"))
        (with_staged platform (first_run platform later 7) fresh))
      (Command.clear_rules (some 3))
      9
handle-stale_example =
    handle-stale platform machine later (text "/etc/init.nhop") 7 fresh
      (Command.clear_rules (some 3)) 9 (omega arith) (omega arith) refl

abbrev forward : Forward
forward = record { listen = primary; target = record { host = text "db.example"; port = 5432 } }

abbrev serving : Bound
serving = record { http = primary; socks = fallback; forwards = [] }

rebind_bound_forwards-Serves_example :
    ((failure : IoError) × (rebind_bound_forwards grants serving (forward ∷ [])
        ≡ (serving, err failure)))
    ⊎ Serves grants serving (forward ∷ []) (rebind_bound_forwards grants serving (forward ∷ []))
rebind_bound_forwards-Serves_example =
    rebind_bound_forwards-Serves grants serving (forward ∷ []) ((λ n listener e. cc), tt)

load-Commits_example :
    (result : DaemonState Bool × Settled) × ((load platform idle machine none 7 events machine
        ScriptOutcome.succeeded).0
      ≡ recorded platform machine result)
    × Commits machine
        (λ n addr. refl)
        (started platform (judged platform idle events) (script_of platform machine idle none))
        (staged_by_all platform (issue idle.load_ids).1 events fresh)
        result
unfolding in_flight issue nhop.Daemon.Staging.push_rule nhop.Rules.Ruleset.push
    nhop.Rules.Matcher.parse nhop.Common.list_same nhop.Rules.Matcher.lowercase
    nhop.Text.without_dot nhop.Text.is_whitespace nhop.Text.lower nhop.Text.starts_with
    nhop.Text.contains
load-Commits_example =
    load-Commits platform idle machine none 7 events machine (λ n addr. refl) refl refl refl

idle-IsSound : IsSound idle
idle-IsSound = record {
  numbered = (refl, (refl, (refl, tt)));
  published = entries_IsPublished;
  forwards = tt;
  run = tt;
}

reached :
    Reaches platform idle
      (finish machine (step platform idle first_event) ScriptOutcome.timed_out).0
reached =
    Reaches.next (Reaches.next Reaches.here (Step.happens first_event refl))
      (Step.ends machine ScriptOutcome.timed_out refl)

Reaches-IsSound_example :
    IsSound (finish machine (step platform idle first_event) ScriptOutcome.timed_out).0
Reaches-IsSound_example = Reaches-IsSound platform reached idle-IsSound

-- A system with no address left for a forward.
abbrev crowded : Machine
crowded = record machine { binds = λ n addr. if ltb n 2 then ok (ok addr) else err (IoError.os 98) }

abbrev moves : Committed Bool
moves = record {
  rules = [];
  upstream = none;
  listen = some (record { http = fallback; socks = primary });
  forwards = forward ∷ [];
}

-- The forward cannot be opened, and the front ends have moved: what routes stays, where clients
-- are accepted does not.
forward_fails_late :
    ((commit_run crowded idle moves).0.rules ≡ rules)
    × ((commit_run crowded idle moves).0.http_listen ≡ fallback)
    × ((commit_run crowded idle moves).1 ≡ err (CannotBind.forward (IoError.os 98)))
unfolding commit_run nhop.Daemon.Frontends.rebind nhop.Daemon.Frontends.rebind_forwards
    nhop.Daemon.Frontends.held
forward_fails_late = (refl, refl, refl)
