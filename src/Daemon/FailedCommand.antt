-- ===== src/Daemon/FailedCommand.antt =====
-- nhop/src/daemon/staging.rs: the command that a run was rejected on.
use nhop.Text.{Text, text}

pub data FailedCommand : Type 0 where
  add_rule set_upstream set_upstreams set_listen add_forward : FailedCommand

unfoldable pub name : FailedCommand → Text
name FailedCommand.add_rule = text "add_rule"
name FailedCommand.set_upstream = text "set_upstream"
name FailedCommand.set_upstreams = text "set_upstreams"
name FailedCommand.set_listen = text "set_listen"
name FailedCommand.add_forward = text "add_forward"
