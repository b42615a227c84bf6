-- ===== src/Cli/Client.antt =====
-- nhop/src/cli/client.rs and nhop-ipc/src/command.rs: one question to the daemon, as the client
-- sees it. What the socket and the reader of JSON answer are arguments.
use nhop.Common.{[], ◌∷◌, nat_eq, Result, ok, err}
use nhop.Text.{Text}
use nhop.Wire.{Command}
use nhop.Proxy.Failure.{IoError}
use nhop.Cli.Status.{PathBuf}
use nhop.Cli.Answer.{Response}
use nhop.Cli.Exit.{Unreachable, no_daemon, closed, io, malformed}

-- The kinds of `io::ErrorKind` that the client tells apart.
pub data IoKind : Type 0 where
  not_found connection_refused connection_reset other : IoKind

-- The socket, and the reader of answers. `sends` is writing a command out as JSON, sending it and
-- flushing; `reads` is the line that comes back, with its end, and empty at the end of file.
pub record Socket : Type 0 where
  pub kind : IoError → IoKind
  pub connects : Result IoError (Unit {0})
  pub sends : Command → Result IoError (Unit {0})
  pub reads : Command → Result IoError Text
  pub from_json : Text → Result Text Response

abbrev unconnectable_by : PathBuf → IoError → IoKind → Unreachable
unconnectable_by socket_file failure IoKind.not_found = no_daemon socket_file
unconnectable_by socket_file failure IoKind.connection_refused = no_daemon socket_file
unconnectable_by socket_file failure IoKind.connection_reset = io failure
unconnectable_by socket_file failure IoKind.other = io failure

unfoldable pub unconnectable : (IoError → IoKind) → PathBuf → IoError → Unreachable
unconnectable kind socket_file failure = unconnectable_by socket_file failure (kind failure)

unfoldable pub connect : Socket → PathBuf → Result Unreachable (Unit {0})
unfolding unconnectable
connect s socket_file = elim s.connects [
  | ok stream ↦ ok stream
  | err failure ↦ err (unconnectable s.kind socket_file failure)
]

abbrev hangup_by : IoError → IoKind → Result Unreachable Text
hangup_by failure IoKind.connection_reset = ok []
hangup_by failure IoKind.not_found = err (io failure)
hangup_by failure IoKind.connection_refused = err (io failure)
hangup_by failure IoKind.other = err (io failure)

-- A reset read is the end of file. The text read stands for its length too.
unfoldable pub read_or_hangup : (IoError → IoKind) → Result IoError Text → Result Unreachable Text
read_or_hangup kind (ok line) = ok line
read_or_hangup kind (err failure) = hangup_by failure (kind failure)

abbrev pub parsed : Result Text Response → Result Unreachable Response
parsed (ok response) = ok response
parsed (err failure) = err (malformed failure)

abbrev pub answered : Socket → Result Unreachable Text → Result Unreachable Response
answered s (err failure) = err failure
answered s (ok []) = err closed
answered s (ok (c ∷ line)) = parsed (s.from_json (c ∷ line))

unfoldable pub after_sending :
    Socket → Command → Result IoError (Unit {0}) → Result Unreachable Response
unfolding read_or_hangup
after_sending s command (err failure) = err (io failure)
after_sending s command (ok sent) = answered s (read_or_hangup s.kind (s.reads command))

abbrev pub after_connecting :
    Socket → Command → Result Unreachable (Unit {0}) → Result Unreachable Response
after_connecting s command (err failure) = err failure
after_connecting s command (ok stream) = after_sending s command (s.sends command)

unfoldable pub ask : Socket → PathBuf → Command → Result Unreachable Response
unfolding connect after_sending
ask s socket_file command = after_connecting s command (connect s socket_file)
