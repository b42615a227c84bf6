-- ===== src/Cli/Doctor/Reach.antt =====
-- nhop/src/cli/doctor.rs: the check that dials every upstream. What a connection attempt comes
-- to is an argument.
use nhop.Common.{◌/◌, ◌^◌, List, [], ◌∷◌, ◌++◌, map, leb, if◌then◌else◌, Result, ok, err}
use nhop.Net.{SocketAddr}
use nhop.Text.{Text, text}
use nhop.Text.Numbers.{show}
use nhop.Wire.{HealthState}
use nhop.Proxy.Failure.{IoError}
use nhop.Upstream.Health
use nhop.Upstream.Health.{Verdicts, Duration}
use nhop.Upstream.Entries.{UpstreamEntry, UpstreamEntries}
use nhop.Upstream.Dial.{prefer_connect_timeout}
use nhop.Cli.Printer.{Printer, join}
use nhop.Cli.Doctor.{Check, Outcome, Finding, passing, failing}

-- A connection attempt as it runs with no time limit, and a task that dials and ends without an
-- answer.
pub data Attempt : Type 0 where
  silent : Attempt
  answers : Duration → Result IoError (Unit {0}) → Attempt
  aborted : IoError → Attempt

pub data Reach : Type 0 where
  answered silent : Reach
  refused : IoError → Reach

abbrev reached : Result IoError (Unit {0}) → Reach
reached (ok stream) = Reach.answered
reached (err failure) = Reach.refused failure

unfoldable pub reach : Attempt → Reach
reach Attempt.silent = Reach.silent
reach (Attempt.answers after connected) =
    if leb after prefer_connect_timeout then reached connected else Reach.silent
reach (Attempt.aborted failure) = Reach.refused failure

unfoldable pub verdict_name : HealthState → Text
verdict_name HealthState.up = text "up"
verdict_name HealthState.down = text "down"

abbrev budget_secs : Text
budget_secs = show (prefer_connect_timeout / 10 ^ 9)

module _ (pr : Printer) (v : Verdicts) where
  unfoldable pub local_network : IoError → Text
  local_network failure =
      if pr.host_unreachable failure
      then text
          " - macOS reports a denied Local Network permission as a routing error, so grant nhop Local Network access in System Settings > Privacy & Security and check that the binary is signed"
      else []

  unfoldable pub refusal : Text → SocketAddr → IoError → Text
  unfolding local_network
  refusal name upstream failure =
      text "cannot reach "
      ++ (name
          ++ (text " on "
              ++ (pr.show_socket upstream
                  ++ (text ": " ++ (pr.show_error failure ++ local_network failure)))))

  abbrev state_name : UpstreamEntry → Text
  state_name entry = verdict_name (Health.state v entry.health)

  unfoldable pub alone : UpstreamEntry → Reach → Finding
  unfolding refusal verdict_name
  alone entry Reach.answered = passing Check.upstream_reachable (
      entry.upstream.written
      ++ (text " answered on "
          ++ (pr.show_socket entry.upstream.socket
              ++ (text ", the verdict is " ++ state_name entry))))
  alone entry Reach.silent = failing Check.upstream_reachable (
      entry.upstream.written
      ++ (text " did not answer within "
          ++ (budget_secs ++ (text "s, the verdict is " ++ state_name entry))))
  alone entry (Reach.refused failure) =
      failing Check.upstream_reachable
        (refusal entry.upstream.written entry.upstream.socket failure)

  unfoldable pub listed : UpstreamEntry → Reach → Text
  unfolding local_network verdict_name
  listed entry Reach.answered =
      entry.upstream.written ++ (text " reachable, the verdict is " ++ state_name entry)
  listed entry Reach.silent =
      entry.upstream.written
      ++ (text " unreachable, no answer within "
          ++ (budget_secs ++ (text "s, the verdict is " ++ state_name entry)))
  listed entry (Reach.refused failure) =
      entry.upstream.written
      ++ (text " unreachable, "
          ++ (pr.show_error failure
              ++ (local_network failure ++ (text ", the verdict is " ++ state_name entry))))

  abbrev after_reach : Outcome → Reach → Outcome
  after_reach outcome Reach.answered = Outcome.passed
  after_reach outcome Reach.silent = outcome
  after_reach outcome (Reach.refused failure) = outcome

  -- The loop over the entries reached: the outcome, and what is said of each.
  unfoldable pub described : Outcome → List (UpstreamEntry × Reach) → Outcome × List Text
  unfolding listed
  described outcome [] = (outcome, [])
  described outcome ((entry, r) ∷ more) =
      let rest = described (after_reach outcome r) more in (rest.0, listed entry r ∷ rest.1)

  abbrev pub reported : List (UpstreamEntry × Reach) → Finding
  reported [] =
      failing Check.upstream_reachable
        (text "no upstream is configured, name one with `nhop upstream socks5://<ip>:<port>`")
  reported ((entry, r) ∷ []) = alone entry r
  reported (first ∷ second ∷ more) =
      let all_described = described Outcome.failed (first ∷ second ∷ more) in
      record {
        check = Check.upstream_reachable;
        outcome = all_described.0;
        detail = join (text "; ") all_described.1;
      }

  unfoldable pub upstream_reachable : (SocketAddr → Attempt) → UpstreamEntries → Finding
  unfolding reach alone described join
  upstream_reachable connect list =
      reported (map (λ entry. (entry, reach (connect entry.upstream.socket))) list.entries)
