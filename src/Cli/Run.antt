-- ===== src/Cli/Run.antt =====
-- nhop/src/cli/mod.rs: what each subcommand does. The process around the command line is a record.
pub mod Refused
use nhop.Common.{
  ℕ, Bool, true, false, Option, none, some, List, [], ◌∷◌, ◌++◌, length, if◌then◌else◌, Result, ok,
  err,
}
use nhop.Net.{IpAddr}
use nhop.Text.{Text, text}
use nhop.Wire.{
  Command, ErrKind, LoadId, RuleClass, RuleKind, RuleValue, unreadable_upstream, upstreams,
}
use nhop.Proxy.Failure.{IoError}
use nhop.Proxy.Forwards.{Listen}
use nhop.Upstream.Health.{SystemTime, Duration}
use nhop.Logging.{Window, reaching_back}
use nhop.Cli.Status.{PathBuf}
use nhop.Cli.StatusView.{StatusView}
use nhop.Cli.Exit.{Exit, Unreachable, of_err, of_unreachable}
use nhop.Cli.Answer.{Response}
use nhop.Cli.Client.{Socket, ask}
use nhop.Cli.Printer.{Printer}
use nhop.Cli.Doctor.{CheckView, report, exit_of}
use nhop.Cli.Doctor.Checks.{unreachable}
use nhop.Cli.SystemProxy
use nhop.Cli.SystemProxy.{
  Invocation, NetworkService, ProxyFailure, Ran, apply, disabling, enabling, show_failure,
}
use nhop.Cli.Render.{Printed, succeeds, fails, render, payload_lines, proxy_lines}
use nhop.Cli.Logs.{LogDir, LogReader, print_from, keep_reading, unreadable_log, last_of}
use nhop.Cli.Tail.{Reads, follow}
use nhop.Cli.Arguments.{
  Destination, Output, ProxyAction, Subcommand, output_of, load_of_env, reload_path,
}

pub data StartFailure : Type 0 where
  already_running : ℕ → StartFailure
  io : IoError → StartFailure

unfoldable pub of_start : StartFailure → Exit
of_start (StartFailure.already_running owner) = Exit.failed
of_start (StartFailure.io failure) = Exit.failed

-- The process that the command line runs in, and what its parts answer: the daemon's socket, also as a second question finds it, the
-- daemon itself where `start` runs it, networksetup, whether the user is root, the log, the stream
-- that `tail` reads, the environment, and the printers of code that is not its own.
pub record Process : Type 0 where
  pub printer : Printer
  pub json : Response → Option Text
  pub show_unreachable : Unreachable → Text
  pub socket_file : PathBuf
  pub log_file : PathBuf
  pub socket : Socket
  pub socket_again : Socket
  pub runs_daemon : Result StartFailure (Unit {0})
  pub show_start : StartFailure → Text
  pub networksetup : List Text → Ran
  pub is_root : Bool
  pub load_id : Option Text
  pub absolute : PathBuf → Option PathBuf
  pub now : SystemTime
  pub log : LogDir
  pub later_logs : List LogDir
  pub log_reader : LogReader
  pub show_log_failure : Text
  pub subscribed : Result Unreachable Reads

abbrev sent_by : Command → Result IoError (Unit {0}) → List Command
sent_by command (err failure) = []
sent_by command (ok done) = command ∷ []

abbrev sent_over : Socket → Command → Result IoError (Unit {0}) → List Command
sent_over s command (err failure) = []
sent_over s command (ok stream) = sent_by command (s.sends command)

-- What reaches the daemon of a question: nothing where the socket cannot be connected or written to.
unfoldable pub sent : Socket → Command → List Command
sent s command = sent_over s command s.connects

module _ (w : Process) where
  -- `answer` and `ask`.
  abbrev pub shown : Output → Result Unreachable Response → Printed
  unfolding render of_unreachable
  shown output (ok response) = render w.printer w.json output response
  shown output (err failure) = fails (of_unreachable failure) (w.show_unreachable failure)

  unfoldable pub ask_daemon : Command → Output → Printed
  unfolding ask shown
  ask_daemon command output = shown output (ask w.socket w.socket_file command)

  -- A refused list within a run is followed by a second command, whose answer is not looked at:
  -- what is printed, and the commands that were sent.
  abbrev pub and_fails : LoadId → Command → Result Unreachable Response → Printed × List Command
  unfolding render of_unreachable unreadable_upstream sent
  and_fails load command (ok (Response.err ErrKind.invalid_args message)) = (
    render w.printer w.json Output.human (Response.err ErrKind.invalid_args message),
    sent w.socket command ++ sent w.socket_again (unreadable_upstream load),
  )
  and_fails load command answer = (shown Output.human answer, sent w.socket command)

  unfoldable pub set_upstreams : Command → Printed × List Command
  unfolding ask ask_daemon sent
  set_upstreams (Command.set_upstreams addr fallbacks (some load)) =
      and_fails load (Command.set_upstreams addr fallbacks (some load))
        (ask w.socket w.socket_file (Command.set_upstreams addr fallbacks (some load)))
  set_upstreams command = (ask_daemon command Output.human, sent w.socket command)

  abbrev pub diagnosed : Output → List CheckView → List Text → Printed
  unfolding payload_lines exit_of
  diagnosed output checks reason = record {
    out = payload_lines w.printer w.json output (Response.doctor checks);
    err = reason;
    exit = exit_of checks;
  }

  abbrev pub diagnosis : Output → Result Unreachable Response → Printed
  unfolding report unreachable render
  diagnosis output (ok (Response.doctor checks)) = diagnosed output checks []
  diagnosis output (ok response) = render w.printer w.json output response
  diagnosis output (err failure) =
      diagnosed output (report (unreachable (w.show_unreachable failure) ∷ []))
        ((text "nhop: " ++ w.show_unreachable failure) ∷ [])

  unfoldable pub diagnose : Output → Printed
  unfolding ask diagnosis
  diagnose output = diagnosis output (ask w.socket w.socket_file Command.doctor)

  abbrev action_name : ProxyAction → Text
  action_name ProxyAction.on = text "on"
  action_name ProxyAction.off = text "off"
  action_name ProxyAction.status = text "status"

  unfoldable pub needs_root : ProxyAction → NetworkService → Printed
  needs_root action service = fails Exit.failed (
      text "changing the system proxy needs root, run: sudo nhop proxy "
      ++ (action_name action ++ (text " --service '" ++ (service ++ text "'"))))

  abbrev proxy_failure : Text → NetworkService → ProxyFailure → Printed
  unfolding show_failure
  proxy_failure what service failure = fails Exit.failed (
      what
      ++ (service
          ++ (text ": " ++ show_failure w.printer.show_error w.printer.show_status failure)))

  abbrev written : NetworkService → Result ProxyFailure (Unit {0}) → Printed
  unfolding proxy_failure
  written service (ok done) = succeeds []
  written service (err failure) =
      proxy_failure (text "cannot change the settings of ") service failure

  unfoldable pub write_proxy : List Invocation → NetworkService → List Invocation × Printed
  unfolding apply written
  write_proxy invocations service =
      let (ran, result) = apply w.networksetup invocations in (ran, written service result)

  abbrev proxy_read : NetworkService → Result ProxyFailure SystemProxy.SystemProxy → Printed
  unfolding proxy_lines SystemProxy.view proxy_failure
  proxy_read service (ok proxy) = succeeds (proxy_lines (SystemProxy.view proxy))
  proxy_read service (err failure) =
      proxy_failure (text "cannot read the settings of ") service failure

  unfoldable pub read_proxy : NetworkService → Printed
  unfolding SystemProxy.read proxy_read
  read_proxy service = proxy_read service (SystemProxy.read w.networksetup service)

  abbrev pub listened : Result Unreachable Response → Result Printed Listen
  unfolding of_err of_unreachable
  listened (ok (Response.status s)) = ok (record { http = s.http_listen; socks = s.socks_listen })
  listened (ok (Response.err kind message)) = err (fails (of_err kind) message)
  listened (ok response) = err (
      fails Exit.failed (
        text
          "the daemon answered something other than a status, so its listen addresses are unknown"))
  listened (err failure) = err (fails (of_unreachable failure) (w.show_unreachable failure))

  unfoldable pub listen_of : Result Printed Listen
  unfolding ask listened
  listen_of = listened (ask w.socket w.socket_file Command.status)

  abbrev turned_on : NetworkService → Result Printed Listen → List Invocation × Printed
  unfolding write_proxy enabling
  turned_on service (ok listen) = write_proxy (enabling w.printer.show_ip listen service) service
  turned_on service (err printed) = ([], printed)

  -- The invocations that were made, and what is printed.
  unfoldable pub proxy : ProxyAction → NetworkService → List Invocation × Printed
  unfolding read_proxy needs_root turned_on listen_of write_proxy disabling
  proxy ProxyAction.status service = ([], read_proxy service)
  proxy ProxyAction.on service =
      if w.is_root then turned_on service listen_of else ([], needs_root ProxyAction.on service)
  proxy ProxyAction.off service =
      if w.is_root
      then write_proxy (disabling service) service
      else ([], needs_root ProxyAction.off service)
