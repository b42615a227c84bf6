-- ===== src/Cli/Logs.antt =====
-- nhop/src/cli/mod.rs: `nhop logs`, over the files of the log as they are at each reading.
use nhop.Common.{ℕ, Option, none, some, List, [], ◌∷◌, ◌++◌, ◌==◌, list_eq, nat_eq, if◌then◌else◌}
use nhop.Text.{Text, text}
use nhop.Text.Utf8.{Bytes}
use nhop.Wire.{UpstreamAddr}
use nhop.Upstream.Health.{SystemTime}
use nhop.Upstream.Selection.{Switch}
use nhop.Logging.{Window, Reader, Logged, LoggedVerdict, read_from, holds, logged}
use nhop.Cli.Status.{PathBuf}
use nhop.Cli.Exit.{Exit}
use nhop.Cli.Names.{health_name, cause_name, switch_cause_name}
use nhop.Cli.Render.{Printed, event_line}
use nhop.Cli.Arguments.{Output}

-- The log at one reading: its files in order, where the directory can be read, and their bytes,
-- where a file can be.
pub record LogDir : Type 0 where
  pub files : Option (List PathBuf)
  pub contents : PathBuf → Option Bytes

pub record LogReader : Type 0 where
  pub reader : Reader
  pub rfc3339 : SystemTime → Text

unfoldable pub switched_name : Option UpstreamAddr → Text
switched_name none = text "none"
switched_name (some upstream) = upstream

abbrev judged_name : Option UpstreamAddr → Text
judged_name none = []
judged_name (some upstream) = upstream ++ text " "

unfoldable pub verdict_line : (SystemTime → Text) → LoggedVerdict → Text
unfolding health_name cause_name
verdict_line rfc3339 v =
    rfc3339 v.at
    ++ (text "  verdict "
        ++ (judged_name v.upstream
            ++ (health_name v.from
                ++ (text " -> "
                    ++ (health_name v.to ++ (text "  (" ++ (cause_name v.cause ++ text ")")))))))

unfoldable pub switch_line : (SystemTime → Text) → SystemTime → Switch → Text
unfolding switched_name switch_cause_name
switch_line rfc3339 at s =
    rfc3339 at
    ++ (text "  switch "
        ++ (switched_name s.from
            ++ (text " -> "
                ++ (switched_name s.to
                    ++ (text "  (" ++ (switch_cause_name s.cause ++ text ")"))))))

abbrev rendered : (SystemTime → Text) → Text → Option Logged → Text
unfolding event_line verdict_line switch_line
rendered rfc3339 line none = line
rendered rfc3339 line (some (Logged.decision at event)) =
    rfc3339 at ++ (text "  " ++ event_line event)
rendered rfc3339 line (some (Logged.verdict v)) = verdict_line rfc3339 v
rendered rfc3339 line (some (Logged.switch at s)) = switch_line rfc3339 at s

unfoldable pub log_line : LogReader → Output → Text → Text
unfolding rendered logged
log_line r Output.json line = line
log_line r Output.human line = rendered r.rfc3339 line (logged r.reader line)

unfoldable pub in_window : LogReader → Window → Output → List Text → List Text
unfolding holds log_line
in_window r window output [] = []
in_window r window output (line ∷ lines) =
    let rest = in_window r window output lines in
    if holds r.reader.stamped window line then log_line r output line ∷ rest else rest

abbrev windowed : LogReader → Window → Output → Option (List Text × ℕ) → Option (List Text × ℕ)
windowed r window output none = none
windowed r window output (some (lines, offset)) = some (in_window r window output lines, offset)

-- What is printed of a file past an offset, and the offset that follows.
abbrev print_bytes : LogReader → Window → Output → ℕ → Option Bytes → Option (List Text × ℕ)
unfolding read_from in_window
print_bytes r window output offset none = none
print_bytes r window output offset (some file) = windowed r window output (read_from file offset)

unfoldable pub print_from :
    LogReader → LogDir → Window → Output → PathBuf → ℕ → Option (List Text × ℕ)
unfolding print_bytes
print_from r dir window output file offset = print_bytes r window output offset (dir.contents file)

abbrev pub unreadable_log : List Text → PathBuf → Printed
unreadable_log out file = record {
  out = out;
  err = (text "nhop: cannot read " ++ file) ∷ [];
  exit = Exit.failed;
}

-- `keep_reading`, through its readings of the log up to the first at which the directory cannot be
-- read: what it prints, and the code.
abbrev turned : PathBuf → PathBuf → ℕ → PathBuf × ℕ
turned newest current offset = if newest == current then (current, offset) else (newest, 0)

abbrev pub last_of : List PathBuf → Option PathBuf
last_of [] = none
last_of (file ∷ []) = some file
last_of (file ∷ next ∷ files) = last_of (next ∷ files)

abbrev printing : List Text → List Text × Exit → List Text × Exit
printing out (more, exit) = (out ++ more, exit)

-- One turn of `keep_reading`: it ends with a code, or prints lines and leaves a file and an offset.
pub data Turn : Type 0 where
  ends : Exit → Turn
  prints : List Text → PathBuf → ℕ → Turn

abbrev pub printed : PathBuf → Option (List Text × ℕ) → Turn
printed file none = Turn.ends Exit.failed
printed file (some (out, offset)) = Turn.prints out file offset

abbrev pub turn_newest : LogReader → LogDir → Window → Output → PathBuf → ℕ → Option PathBuf → Turn
unfolding print_from
turn_newest r dir window output current offset none = Turn.prints [] current offset
turn_newest r dir window output current offset (some newest) =
    let (file, start) = turned newest current offset in
    printed file (print_from r dir window output file start)

abbrev pub turn : LogReader → Window → Output → PathBuf → ℕ → LogDir → Option (List PathBuf) → Turn
turn r window output current offset dir none = Turn.ends Exit.missing
turn r window output current offset dir (some files) =
    turn_newest r dir window output current offset (last_of files)

unfoldable pub keep_reading :
    LogReader → Window → Output → PathBuf → ℕ → List LogDir → List Text × Exit
unfolding turn_newest
keep_reading r window output current offset [] = ([], Exit.missing)
keep_reading r window output current offset (dir ∷ readings) =
    elim (turn r window output current offset dir dir.files) [
      | Turn.ends exit ↦ ([], exit)
      | Turn.prints out file start ↦ printing out (keep_reading r window output file start readings)
    ]
