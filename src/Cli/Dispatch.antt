-- ===== src/Cli/Dispatch.antt =====
-- nhop/src/cli/mod.rs: one invocation of the command line.
use nhop.Common.{
  ℕ, suc, Bool, true, false, Option, none, some, List, [], ◌∷◌, ◌++◌, length, Result, ok, err,
}
use nhop.Text.{Text, text}
use nhop.Wire.{Command, RuleClass, upstreams}
use nhop.Upstream.Health.{Duration}
use nhop.Logging.{Window, everything, reaching_back}
use nhop.Cli.Status.{PathBuf}
use nhop.Cli.Exit.{Exit, Unreachable, of_unreachable}
use nhop.Cli.Render.{Printed, succeeds, fails}
use nhop.Cli.Logs.{LogDir, LogReader, print_from, keep_reading, unreadable_log}
use nhop.Cli.Tail.{Reads, follow, report}
use nhop.Cli.Arguments.{Output, human, Subcommand, output_of, load_of_env, reload_path}
use nhop.Cli.Run.{Process, of_start, StartFailure, ask_daemon, set_upstreams, diagnose, proxy}

unfoldable pub window_of : Process → Option Duration → Window
unfolding reaching_back
window_of w none = everything
window_of w (some window) = reaching_back w.now window

-- The files that are kept, and the one being written behind them.
abbrev pub split_last : List PathBuf → Option (List PathBuf × PathBuf)
split_last [] = none
split_last (file ∷ files) = elim (split_last files) [
  | none ↦ some ([], file)
  | some (kept, current) ↦ some (file ∷ kept, current)
]

-- What is printed of the files that are kept, or the file that could not be read.
abbrev pub kept_then : List Text → List Text × Option PathBuf → List Text × Option PathBuf
kept_then out (more, failed) = (out ++ more, failed)

abbrev pub first_kept :
    PathBuf → Option (List Text × ℕ) → List Text × Option PathBuf → List Text × Option PathBuf
first_kept file none rest = ([], some file)
first_kept file (some (out, offset)) rest = kept_then out rest

unfoldable pub print_kept :
    LogReader → LogDir → Window → Output → List PathBuf → List Text × Option PathBuf
unfolding print_from
print_kept r dir window output [] = ([], none)
print_kept r dir window output (file ∷ files) =
    first_kept file (print_from r dir window output file 0) (print_kept r dir window output files)

abbrev pub kept_on : List Text → List Text × Exit → Printed
kept_on out (more, exit) = record { out = out ++ more; err = []; exit = exit }

module _ (w : Process) where
  abbrev pub followed_log : Bool → Window → Output → PathBuf → List Text → ℕ → Printed
  unfolding keep_reading
  followed_log false window output current out offset = succeeds out
  followed_log true window output current out offset =
      kept_on out (keep_reading w.log_reader window output current offset w.later_logs)

  abbrev pub current_printed :
      Bool → Window → Output → PathBuf → List Text → Option (List Text × ℕ) → Printed
  unfolding followed_log
  current_printed follow window output current out none = unreadable_log out current
  current_printed follow window output current out (some (more, offset)) =
      followed_log follow window output current (out ++ more) offset

  abbrev pub kept_printed : Bool → Window → Output → PathBuf → List Text × Option PathBuf → Printed
  unfolding current_printed print_from
  kept_printed follow window output current (out, some file) = unreadable_log out file
  kept_printed follow window output current (out, none) =
      current_printed follow window output current out
        (print_from w.log_reader w.log window output current 0)

  abbrev pub listed_logs : Bool → Window → Output → Option (List PathBuf × PathBuf) → Printed
  unfolding kept_printed print_kept
  listed_logs follow window output none =
      fails Exit.missing (text "no log file yet, run `nhop start` to write one at " ++ w.log_file)
  listed_logs follow window output (some (kept, current)) =
      kept_printed follow window output current (print_kept w.log_reader w.log window output kept)

  abbrev pub found_logs : Bool → Window → Output → Option (List PathBuf) → Printed
  unfolding listed_logs
  found_logs follow window output none =
      fails Exit.missing (text "cannot read the log directory: " ++ w.show_log_failure)
  found_logs follow window output (some files) = listed_logs follow window output (split_last files)

  unfoldable pub logs : Bool → Option Duration → Output → Printed
  unfolding found_logs window_of
  logs follow since output = found_logs follow (window_of w since) output w.log.files

  abbrev pub started : Result StartFailure (Unit {0}) → Printed
  unfolding of_start
  started (ok done) = succeeds []
  started (err failure) = fails (of_start failure) (w.show_start failure)

  abbrev pub tailed : Output → Result Unreachable Reads → Printed
  unfolding follow of_unreachable
  tailed output (err failure) = report w.show_unreachable failure
  tailed output (ok reads) =
      follow (suc (length reads)) w.printer w.json w.show_unreachable w.socket output reads

  -- The command that a subcommand sends to the daemon, where it sends one and no more.
  unfoldable pub command_of : Subcommand → Option Command
  unfolding load_of_env reload_path
  command_of (Subcommand.require kind value) =
      some (Command.add_rule RuleClass.require kind value (load_of_env w.load_id))
  command_of (Subcommand.prefer kind value) =
      some (Command.add_rule RuleClass.prefer kind value (load_of_env w.load_id))
  command_of (Subcommand.never kind value) =
      some (Command.add_rule RuleClass.never kind value (load_of_env w.load_id))
  command_of (Subcommand.listen http socks) =
      some (Command.set_listen http socks (load_of_env w.load_id))
  command_of (Subcommand.forward listen target) =
      some (Command.add_forward listen target.host target.port (load_of_env w.load_id))
  command_of (Subcommand.reload path) = some (Command.reload (reload_path w.absolute path))
  command_of Subcommand.on = some Command.on
  command_of Subcommand.off = some Command.off
  command_of (Subcommand.status json) = some Command.status
  command_of (Subcommand.rules json) = some Command.rules
  command_of (Subcommand.test target json) = some (Command.test target.host target.port)
  command_of _ = none

  abbrev pub output_asked : Subcommand → Output
  unfolding output_of
  output_asked (Subcommand.status json) = output_of json
  output_asked (Subcommand.rules json) = output_of json
  output_asked (Subcommand.test target json) = output_of json
  output_asked _ = human

  abbrev pub asked_for : Output → Option Command → Printed
  unfolding ask_daemon
  asked_for output none = succeeds []
  asked_for output (some command) = ask_daemon w command output

  unfoldable pub dispatch : Subcommand → Printed
  unfolding started set_upstreams upstreams load_of_env logs tailed diagnose proxy asked_for
      command_of output_of
  dispatch Subcommand.start = started w.runs_daemon
  dispatch (Subcommand.upstream addr fallbacks) =
      (set_upstreams w (upstreams addr fallbacks (load_of_env w.load_id))).0
  dispatch (Subcommand.logs follow since json) = logs follow since (output_of json)
  dispatch (Subcommand.tail json) = tailed (output_of json) w.subscribed
  dispatch (Subcommand.doctor json) = diagnose w (output_of json)
  dispatch (Subcommand.proxy action service) = (proxy w action service).1
  dispatch command = asked_for (output_asked command) (command_of command)

  -- `run`: what the crate `argh` makes of the arguments is either a subcommand, or a text to print
  -- and whether the arguments were at fault.
  unfoldable pub run : Result (Text × Bool) Subcommand → Printed
  unfolding dispatch
  run (ok command) = dispatch command
  run (err (output, false)) = succeeds (output ∷ [])
  run (err (output, true)) = record { out = []; err = output ∷ []; exit = Exit.invalid_args }
