-- ===== src/Daemon/Server.antt =====
-- nhop/src/daemon/ipc_server.rs: one client of the IPC socket. The client is the bytes that it sends
-- before it closes, and writing to it succeeds; the state task and the reader of JSON are arguments.
pub mod Ending
use nhop.Common.{
  ℕ, zero, suc, ◌*◌, Bool, true, false, not, ◌&&◌, Option, none, some, List, [], ◌∷◌, ◌++◌, ◌==◌,
  nat_eq, if◌then◌else◌, length,
}
use nhop.Common.{Result}
use nhop.Common as Common
use nhop.Text.{Text, text, trim, ends_with}
use nhop.Text.Numbers.{show}
use nhop.Text.Utf8.{Bytes, from_utf8}
use nhop.Wire.{Command, ErrKind}
use nhop.Cli.Answer.{Response}

abbrev pub line_limit : ℕ
line_limit = 64 * 1024

-- `read_line` of a stream that ends after so many bytes: the line with its end, and what is left.
unfoldable pub read_line : ℕ → Bytes → Bytes × Bytes
read_line zero input = ([], input)
read_line (suc limit) [] = ([], [])
read_line (suc limit) (c ∷ input) =
    let rest = read_line limit input in if c == 10 then (c ∷ [], input) else (c ∷ rest.0, rest.1)

unfoldable pub oversized : Response
oversized =
    Response.err ErrKind.invalid_args
      (text "a command must be one line of at most " ++ (show line_limit ++ text " bytes"))

-- Why a conversation is over: the client closed it, a line was too long, it became a stream of
-- decisions, or a line was not UTF-8.
pub data Ended : Type 0 where
  closed too_long streams unreadable : Ended

module _ {S : Type 0} (call : S → Command → S × Response)
    (from_json : Text → Result Text Command) where
  -- The state of the daemon, the answers that were written, and why the conversation is over.
  abbrev pub Talk : Type 0
  Talk = S × List Response × Ended

  -- What one line does: it ends the conversation with an answer or none, or is answered by one or
  -- none and goes on.
  pub data Said : Type 0 where
    over : List Response → Ended → Said
    on : S → List Response → Said

  abbrev pub said_command : S → Result Text Command → Said
  said_command s (Common.ok Command.subscribe) = over [] Ended.streams
  said_command s (Common.ok command) = let (s', response) = call s command in on s' (response ∷ [])
  said_command s (Common.err failure) = on s (Response.err ErrKind.invalid_args failure ∷ [])

  abbrev pub said_trimmed : S → Text → Said
  said_trimmed s [] = on s []
  said_trimmed s (c ∷ line) = said_command s (from_json (c ∷ line))

  abbrev pub said_line : S → ℕ → Option Text → Said
  unfolding oversized trim ends_with
  said_line s read none = over [] Ended.unreadable
  said_line s read (some line) =
      if read == 0
      then over [] Ended.closed
      else if read == line_limit && not (ends_with line (10 ∷ []))
      then over (oversized ∷ []) Ended.too_long
      else said_trimmed s (trim line)

  unfoldable pub said : S → Bytes → Said
  unfolding from_utf8 said_line
  said s line = said_line s (length line) (from_utf8 line)

  abbrev pub answering : List Response → Option Talk → Option Talk
  answering first none = none
  answering first (some (s, more, ended)) = some (s, first ++ more, ended)

  abbrev pub go_on : S → Said → (S → Option Talk) → Option Talk
  go_on s (over responses ended) later = some (s, responses, ended)
  go_on s (on s' responses) later = answering responses (later s')

  -- The loop, with a unit of fuel for each line; `none` where the fuel runs out.
  unfoldable pub converse : ℕ → S → Bytes → Option Talk
  unfolding read_line said
  converse zero s input = none
  converse (suc fuel) s input =
      go_on s (said s (read_line line_limit input).0)
        (λ s'. converse fuel s' (read_line line_limit input).1)
