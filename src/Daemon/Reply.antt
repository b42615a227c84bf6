-- ===== src/Daemon/Reply.antt =====
-- nhop/src/daemon/state.rs and nhop-ipc/src/command.rs: the replies. A message keeps what it is
-- formatted from.
use nhop.Common.{ℕ, Option, List}
use nhop.Wire.{ErrKind, LoadId}
use nhop.Rules.Matcher
use nhop.Rules.Matcher.{InvalidRule}
use nhop.Proxy.Failure.{IoError}
use nhop.Proxy.Forwards.{DuplicateForward}
use nhop.Proxy.Upstreams.{UnusableUpstreams}
use nhop.Upstream.Health.{Duration}
use nhop.Cli.Explain.{RuleView, DecisionView}
use nhop.Cli.Status.{PathBuf}
use nhop.Daemon.FailedCommand.{FailedCommand}

-- How a run of the script ended, of nhop/src/daemon/init_script.rs; an exit has a code unless a
-- signal ended it.
pub data ScriptOutcome : Type 0 where
  succeeded : ScriptOutcome
  exited : Option ℕ → ScriptOutcome
  timed_out : ScriptOutcome
  not_run : IoError → ScriptOutcome

-- What a message is formatted from.
pub data Message : Type 0 where
  run_in_progress run_gone : LoadId → Message
  other_run : LoadId → LoadId → Message
  no_script : PathBuf → Message
  invalid_rule : InvalidRule → Message
  unusable_upstreams : UnusableUpstreams → Message
  duplicate_forward : DuplicateForward → Message
  cannot_move cannot_open script_cannot_move script_cannot_open script_not_run : IoError → Message
  rejected_on : FailedCommand → Message
  discarded : Option ℕ → Message
  outlived : Duration → Message
  streamed vanished : Message

pub data Response : Type 0 where
  ok : Response
  rules : List RuleView → Response
  decision : DecisionView → Response
  err : ErrKind → Message → Response

abbrev pub in_progress : Message → Response
in_progress message = Response.err ErrKind.load_in_progress message

abbrev pub invalid : InvalidRule → Response
invalid failure = Response.err (Matcher.err_kind failure) (Message.invalid_rule failure)

abbrev pub unreadable : UnusableUpstreams → Response
unreadable failure = Response.err ErrKind.invalid_args (Message.unusable_upstreams failure)

abbrev pub unbindable : IoError → Response
unbindable failure = Response.err ErrKind.internal (Message.cannot_move failure)

abbrev pub unopenable : IoError → Response
unopenable failure = Response.err ErrKind.internal (Message.cannot_open failure)

abbrev pub duplicate : DuplicateForward → Response
duplicate failure = Response.err ErrKind.invalid_args (Message.duplicate_forward failure)
