-- ===== src/Daemon/State/Handle.antt =====
-- nhop/src/daemon/state.rs: what each command does.
use nhop.Common.{ℕ, Option, none, some, List, [], nat_eq, if◌then◌else◌, Result, ok, err}
use nhop.Net.{Platform}
use nhop.Wire.{Command, ErrKind, Host, LoadId, Port, RuleClass, RuleKind, RuleValue, UpstreamAddr}
use nhop.Rules.Decision.{RuleId}
use nhop.Rules.Matcher.{InvalidRule}
use nhop.Rules.Ruleset
use nhop.Rules.Ruleset.{Ruleset}
use nhop.Proxy.Failure.{IoError}
use nhop.Proxy.Forwards
use nhop.Proxy.Forwards.{Forward, Forwards, Listen, DuplicateForward}
use nhop.Proxy.Upstreams
use nhop.Proxy.Upstreams.{Upstreams, UnusableUpstreams}
use nhop.Upstream.Entries
use nhop.Upstream.Entries.{UpstreamEntry, UpstreamEntries, adopted, selected}
use nhop.Cli.Explain.{DecisionView, rule_views, decision_view}
use nhop.Cli.Status.{PathBuf}
use nhop.Daemon.Reply.{
  Message, Response, in_progress, invalid, unreadable, unbindable, unopenable, duplicate,
}
use nhop.Daemon.Staging
use nhop.Daemon.Staging.{Staging, Committed, fresh, issue, commit}
use nhop.Daemon.State.{
  DaemonState, InFlight, Machine, Effect, target, apply_staged, dispatched, in_flight,
}
use nhop.Daemon.State.Publish.{adopt_upstream, rebind, rebind_forwards}
use nhop.Daemon.State.Report.{report, doctor}

module _ {N : Type 0} where
  unfoldable pub turn_off : DaemonState N → DaemonState N × Response
  turn_off s = elim (in_flight s) [
    | none ↦ (record s { rules = [] }, Response.ok)
    | some id ↦ (s, in_progress (Message.run_in_progress id))
  ]

module _ {N : Type 0} (p : Platform N) (m : Machine) where
  abbrev pub stage_rule : RuleClass → RuleKind → RuleValue → Staging N → Staging N × Response
  stage_rule class kind value staged =
      let (staged', pushed) = Staging.push_rule p staged class kind value in
      (staged', elim pushed [ ok _ ↦ Response.ok | err failure ↦ invalid failure ])

  abbrev pub with_rule :
      DaemonState N → Ruleset N × Result InvalidRule RuleId → DaemonState N × Response
  with_rule s (rules, ok id) = (record s { rules = rules }, Response.ok)
  with_rule s (rules, err failure) = (s, invalid failure)

  abbrev pub rule_now : DaemonState N → RuleClass → RuleKind → RuleValue → DaemonState N × Response
  rule_now s class kind value = with_rule s (Ruleset.push p s.rules class kind value)

  unfoldable pub add_rule :
      DaemonState N → RuleClass → RuleKind → RuleValue → Option LoadId → DaemonState N × Response
  unfolding target apply_staged
  add_rule s class kind value load =
      dispatched s (target s load) (stage_rule class kind value) (rule_now s class kind value)

  unfoldable pub clear_rules : DaemonState N → Option LoadId → DaemonState N × Response
  unfolding target apply_staged
  clear_rules s load =
      dispatched s (target s load) (λ staged. (Staging.clear_rules staged, Response.ok))
        (record s { rules = [] }, Response.ok)

  abbrev pub stage_upstreams : UpstreamAddr → List UpstreamAddr → Staging N → Staging N × Response
  stage_upstreams addr fallbacks staged =
      let (staged', set) = Staging.set_upstream p staged addr fallbacks in
      (staged', elim set [ ok _ ↦ Response.ok | err failure ↦ unreadable failure ])

  abbrev pub with_upstreams :
      DaemonState N → Result UnusableUpstreams Upstreams → DaemonState N × Response
  with_upstreams s (ok upstreams) = (adopt_upstream m s (some upstreams), Response.ok)
  with_upstreams s (err failure) = (s, unreadable failure)

  abbrev pub upstreams_now :
      DaemonState N → UpstreamAddr → List UpstreamAddr → DaemonState N × Response
  upstreams_now s addr fallbacks = with_upstreams s (Upstreams.parse p addr fallbacks)

  unfoldable pub set_upstream :
      DaemonState N → UpstreamAddr → List UpstreamAddr → Option LoadId → DaemonState N × Response
  unfolding target apply_staged adopt_upstream
  set_upstream s addr fallbacks load =
      dispatched s (target s load) (stage_upstreams addr fallbacks) (upstreams_now s addr fallbacks)

  abbrev pub replied :
      (IoError → Response) → DaemonState N × Result IoError (Unit {0}) → DaemonState N × Response
  replied refusal (s, ok _) = (s, Response.ok)
  replied refusal (s, err failure) = (s, refusal failure)

  abbrev pub listen_now : DaemonState N → Listen → DaemonState N × Response
  listen_now s listen = replied unbindable (rebind m s listen)

  unfoldable pub set_listen : DaemonState N → Listen → Option LoadId → DaemonState N × Response
  unfolding target apply_staged rebind
  set_listen s listen load =
      dispatched s (target s load) (λ staged. (Staging.set_listen staged listen, Response.ok))
        (listen_now s listen)

  abbrev pub stage_forward : Forward → Staging N → Staging N × Response
  stage_forward forward staged =
      let (staged', pushed) = Staging.push_forward staged forward in
      (staged', elim pushed [ ok _ ↦ Response.ok | err failure ↦ duplicate failure ])

  abbrev pub with_forward :
      DaemonState N → Forwards × Result DuplicateForward (Unit {0}) → DaemonState N × Response
  with_forward s (forwards, ok _) = replied unopenable (rebind_forwards m s forwards)
  with_forward s (forwards, err failure) = (s, duplicate failure)

  abbrev pub forward_now : DaemonState N → Forward → DaemonState N × Response
  forward_now s forward = with_forward s (Forwards.push s.forwards forward)

  unfoldable pub add_forward : DaemonState N → Forward → Option LoadId → DaemonState N × Response
  unfolding target apply_staged rebind_forwards
  add_forward s forward load =
      dispatched s (target s load) (stage_forward forward) (forward_now s forward)

  abbrev pub script_of : DaemonState N → Option PathBuf → PathBuf
  script_of s (some path) = path
  script_of s none = elim s.init_path [ some remembered ↦ remembered | none ↦ m.init_file ]

  unfoldable pub reload : DaemonState N → Option PathBuf → ℕ → DaemonState N × Effect
  unfolding in_flight issue
  reload s path reply = elim (in_flight s) [
    | some id ↦ (s, Effect.answered reply (in_progress (Message.run_in_progress id)))
    | none ↦
        let script = script_of s path in
        if m.is_file script
        then (let (issued, id) = issue s.load_ids in
            let run : InFlight N = record { id = id; staged = fresh; reply = reply } in
            (
              record s { load_ids = issued; init_path = some script; load = some run },
              Effect.running script id s.load_timeout,
            ))
        else (s, Effect.answered reply (Response.err ErrKind.not_found (Message.no_script script)))
  ]

  abbrev written_of : Option UpstreamEntry → Option UpstreamAddr
  written_of none = none
  written_of (some entry) = some entry.upstream.written

  unfoldable pub decision_for : DaemonState N → Host → Port → DecisionView
  decision_for s host port =
      decision_view p s.rules
        (written_of (Entries.required s.upstreams (selected s.verdicts s.upstreams m.now s.hold)))
        host port

  abbrev pub answering : ℕ → DaemonState N × Response → DaemonState N × Effect
  answering reply (s, response) = (s, Effect.answered reply response)

  unfoldable pub handle : DaemonState N → Command → ℕ → DaemonState N × Effect
  handle s Command.status reply = (s, report m s reply)
  handle s Command.rules reply = (s, Effect.answered reply (Response.rules (rule_views s.rules)))
  handle s (Command.add_rule class kind value load) reply =
      answering reply (add_rule s class kind value load)
  handle s (Command.clear_rules load) reply = answering reply (clear_rules s load)
  handle s (Command.set_upstream addr load) reply = answering reply (set_upstream s addr [] load)
  handle s (Command.set_upstreams addr fallbacks load) reply =
      answering reply (set_upstream s addr fallbacks load)
  handle s (Command.set_listen http socks load) reply =
      answering reply (set_listen s (record { http = http; socks = socks }) load)
  handle s (Command.add_forward at host port load) reply =
      answering reply
        (add_forward s (record { listen = at; target = record { host = host; port = port } }) load)
  handle s (Command.reload path) reply = reload s path reply
  handle s Command.on reply = reload s none reply
  handle s Command.off reply = answering reply (turn_off s)
  handle s (Command.test host port) reply =
      (s, Effect.answered reply (Response.decision (decision_for s host port)))
  handle s Command.doctor reply = (s, doctor s reply)
  handle s Command.subscribe reply =
      (s, Effect.answered reply (Response.err ErrKind.internal Message.streamed))
