-- ===== src/Cli/Exit.antt =====
-- nhop/src/cli/mod.rs and client.rs: the codes that the process exits with, and why the client has
-- no answer.
use nhop.Common.{ℕ}
use nhop.Text.{Text}
use nhop.Wire.{ErrKind}
use nhop.Proxy.Failure.{IoError}
use nhop.Cli.Status.{PathBuf}

pub data Exit : Type 0 where
  success failed missing upstream_down invalid_args : Exit

unfoldable pub code : Exit → ℕ
code Exit.success = 0
code Exit.failed = 1
code Exit.missing = 2
code Exit.upstream_down = 3
code Exit.invalid_args = 4

unfoldable pub of_err : ErrKind → Exit
of_err ErrKind.not_found = Exit.missing
of_err ErrKind.upstream_down = Exit.upstream_down
of_err ErrKind.invalid_args = Exit.invalid_args
of_err ErrKind.load_in_progress = Exit.failed
of_err ErrKind.internal = Exit.failed

-- A malformed answer keeps what the reader of JSON says of it.
pub data Unreachable : Type 0 where
  no_daemon : PathBuf → Unreachable
  closed : Unreachable
  io : IoError → Unreachable
  malformed : Text → Unreachable

unfoldable pub of_unreachable : Unreachable → Exit
of_unreachable (Unreachable.no_daemon socket_file) = Exit.missing
of_unreachable Unreachable.closed = Exit.missing
of_unreachable (Unreachable.io failure) = Exit.missing
of_unreachable (Unreachable.malformed failure) = Exit.failed
