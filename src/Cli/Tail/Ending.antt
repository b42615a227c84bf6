-- ===== src/Cli/Tail/Ending.antt =====
-- nhop/src/cli/tail.rs: the stream of decisions comes to its end.
use nhop.Text.{Text}
use nhop.Cli.Printer.{Printer}
