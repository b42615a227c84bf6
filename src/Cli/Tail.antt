-- ===== src/Cli/Tail.antt =====
-- nhop/src/cli/tail.rs: the stream of decisions. What the reads give is a list, whose end is the
-- end of the stream.
pub mod Ending
use nhop.Common.{ℕ, Option, none, some, List, [], ◌∷◌, ◌++◌, Result, ok, err, zero, suc}
use nhop.Text.{Text, trim}
use nhop.Proxy.Failure.{IoError}
use nhop.Cli.Exit.{Unreachable, of_unreachable, malformed}
use nhop.Cli.Answer.{Response}
use nhop.Cli.Client.{Socket, read_or_hangup}
use nhop.Cli.Printer.{Printer}
use nhop.Cli.Render.{Printed, render, fails, succeeds}
use nhop.Cli.Arguments.{Output}

-- The lines that are left, with what has been read.
abbrev pub Reads : Type 0
Reads = List (Result IoError Text)

abbrev pub Next : Type 0
Next = Result Unreachable (Option Response) × Reads

abbrev pub answer_of : Result Text Response → Result Unreachable (Option Response)
answer_of (ok response) = ok (some response)
answer_of (err failure) = err (malformed failure)

abbrev pub trimmed : Socket → Text → Reads → Next → Next
trimmed s [] rest later = later
trimmed s (c ∷ line) rest later = (answer_of (s.from_json (c ∷ line)), rest)

abbrev pub next_of : Socket → Result Unreachable Text → Reads → Next → Next
unfolding trim
next_of s (err failure) rest later = (err failure, rest)
next_of s (ok []) rest later = (ok none, rest)
next_of s (ok (c ∷ line)) rest later = trimmed s (trim (c ∷ line)) rest later

-- `Decisions::next`: a blank line is passed over.
unfoldable pub next : Socket → Reads → Next
unfolding read_or_hangup
next s [] = (ok none, [])
next s (read ∷ rest) = let later = next s rest in next_of s (read_or_hangup s.kind read) rest later

abbrev pub report : (Unreachable → Text) → Unreachable → Printed
unfolding of_unreachable
report show_unreachable failure = fails (of_unreachable failure) (show_unreachable failure)

abbrev pub before_rest : Printed → Printed → Printed
before_rest first rest = record {
  out = first.out ++ rest.out;
  err = first.err ++ rest.err;
  exit = rest.exit;
}

abbrev pub shown_by : Printer → (Response → Option Text) → Output → Response → Printed → Printed
unfolding render
shown_by pr json output (Response.event event) rest =
    before_rest (render pr json output (Response.event event)) rest
shown_by pr json output response rest = render pr json output response

abbrev pub followed :
    Printer
    → (Response → Option Text)
    → (Unreachable → Text)
    → Output
    → Result Unreachable (Option Response)
    → Printed
    → Printed
followed pr json show_unreachable output (err failure) rest = report show_unreachable failure
followed pr json show_unreachable output (ok none) rest = succeeds []
followed pr json show_unreachable output (ok (some response)) rest =
    shown_by pr json output response rest

-- The loop of `follow`. Every turn takes one read at least, so as many turns as there are reads,
-- and one more for the end, are enough.
unfoldable pub follow :
    ℕ
    → Printer
    → (Response → Option Text)
    → (Unreachable → Text)
    → Socket
    → Output
    → Reads
    → Printed
unfolding next
follow zero pr json show_unreachable s output reads = succeeds []
follow (suc fuel) pr json show_unreachable s output reads =
    let step = next s reads in
    let rest = follow fuel pr json show_unreachable s output step.1 in
    followed pr json show_unreachable output step.0 rest
