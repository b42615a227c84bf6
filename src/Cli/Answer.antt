-- ===== src/Cli/Answer.antt =====
-- nhop-ipc/src/command.rs: the daemon's answers, as the client reads them.
use nhop.Common.{List}
use nhop.Text.{Text}
use nhop.Wire.{ErrKind}
use nhop.Proxy.Events.{EventView}
use nhop.Cli.Explain.{RuleView, DecisionView}
use nhop.Cli.StatusView.{StatusView}
use nhop.Cli.Doctor.{CheckView}

pub data Response : Type 0 where
  ok : Response
  rules : List RuleView → Response
  status : StatusView → Response
  decision : DecisionView → Response
  doctor : List CheckView → Response
  event : EventView → Response
  err : ErrKind → Text → Response
