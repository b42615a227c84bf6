-- ===== src/Daemon/Server/Ending.antt =====
-- nhop/src/daemon/ipc_server.rs: a conversation ends.
use nhop.Common.{
  ℕ, zero, suc, ◌+◌, ◌≡◌, ◌<◌, refl, ap, arith, Option, none, some, List, [], ◌∷◌, nat_eq, length,
  Result,
}
use nhop.Text.{Text}
use nhop.Text.Utf8.{Bytes}
use nhop.Wire.{Command}
use nhop.Cli.Answer.{Response}
use nhop.Daemon.Server
use nhop.Daemon.Server.{line_limit, read_line, Ended, closed}

read_all :
    (limit : ℕ) (input : Bytes)
    → (length (read_line limit input).0 + length (read_line limit input).1) ≡ length input
unfolding read_line
read_all zero input = omega arith
read_all (suc limit) [] = omega arith
read_all (suc limit) (c ∷ input) = ground (arith, read_all limit input)

read_some : (limit c : ℕ) (input : Bytes) → 0 < limit → 0 < length (read_line limit (c ∷ input)).0
unfolding read_line
read_some zero c input h = ground arith
read_some (suc limit) c input h = ground arith

rest_shorter :
    (limit c : ℕ) (input : Bytes) (fuel : ℕ)
    → 0 < limit
    → length (c ∷ input) < suc fuel
    → length (read_line limit (c ∷ input)).1 < fuel
rest_shorter limit c input fuel positive h =
    omega (arith, read_all limit (c ∷ input), read_some limit c input positive)

limit_positive : 0 < line_limit
limit_positive = omega arith

read_end : (limit : ℕ) → read_line limit [] ≡ ([], [])
unfolding read_line
read_end zero = refl
read_end (suc limit) = refl

module _ {S : Type 0} (call : S → Command → S × Response)
    (from_json : Text → Result Text Command) where
  abbrev Talks : Option (Server.Talk call from_json) → Type 0
  Talks outcome = (talk : Server.Talk call from_json) × (outcome ≡ some talk)

  answering-Talks :
      (responses : List Response) (outcome : Option (Server.Talk call from_json))
      → Talks outcome
      → Talks (Server.answering call from_json responses outcome)
  answering-Talks responses none (talk, e) = cc
  answering-Talks responses (some (s, more, ended)) h = (_, refl)

  go_on-Talks :
      (s : S) (said : Server.Said call from_json) (later : S → Option (Server.Talk call from_json))
      → ((s' : S) → Talks (later s'))
      → Talks (Server.go_on call from_json s said later)
  go_on-Talks s (Server.over responses ended) later h = (_, refl)
  go_on-Talks s (Server.on s' responses) later h = answering-Talks responses (later s') (h s')

  closed-Talks :
      (s : S) (line : Bytes) (later : S → Option (Server.Talk call from_json))
      → line ≡ []
      → Talks (Server.go_on call from_json s (Server.said call from_json s line) later)
  unfolding Server.said
  closed-Talks s line later e = rw (e, Talks) (_, refl)

  -- Whatever a client of the IPC socket sends and whatever the daemon answers, the conversation is
  -- over within one turn more than there are bytes.
  pub converse-Ends :
      (fuel : ℕ) (s : S) (input : Bytes)
      → length input < fuel
      → Talks (Server.converse call from_json fuel s input)
  unfolding Server.converse
  converse-Ends zero s input h = let no : ⊥ = omega (arith, h) in absurd no
  converse-Ends (suc fuel) s [] h =
      closed-Talks s (read_line line_limit []).0
        (λ s'. Server.converse call from_json fuel s' (read_line line_limit []).1)
        (ap (λ (r : Bytes × Bytes). r.0) (read_end line_limit))
  converse-Ends (suc fuel) s (c ∷ input) h =
      let shorter = rest_shorter line_limit c input fuel limit_positive h in
      go_on-Talks s (Server.said call from_json s (read_line line_limit (c ∷ input)).0) _
        (λ s'. converse-Ends fuel s' (read_line line_limit (c ∷ input)).1 shorter)
