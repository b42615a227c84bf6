-- ===== src/Logging.antt =====
-- nhop/src/logging.rs: reading the log back. The files, the reader of JSON and the clock are
-- arguments; a file is its bytes.
pub mod Parts
pub mod Resumed
use nhop.Common.{
  ℕ, ◌+◌, ◌-◌, Bool, true, false, Option, none, some, List, [], ◌∷◌, ◌++◌, drop, length, ltb, leb,
  ◌==◌, nat_eq, if◌then◌else◌,
}
use nhop.Text.{Text, starts_with, ends_with, trim_end}
use nhop.Text.Utf8.{Bytes, from_utf8, byte_len}
use nhop.Wire.{HealthState, UpstreamAddr}
use nhop.Proxy.Events.{EventView}
use nhop.Upstream.Health.{SystemTime, Duration, VerdictCause, SwitchCause}
use nhop.Upstream.Selection.{Switch}
use nhop.Cli.Status.{PathBuf}

-- `files`: an entry of the state directory is its name, where that is UTF-8, and its path; sorting
-- paths is an argument.
unfoldable pub kept_files : Text → List (Option Text × PathBuf) → List PathBuf
unfolding starts_with
kept_files prefix [] = []
kept_files prefix ((none, path) ∷ entries) = kept_files prefix entries
kept_files prefix ((some name, path) ∷ entries) =
    let rest = kept_files prefix entries in if starts_with name prefix then path ∷ rest else rest

unfoldable pub files :
    (List PathBuf → List PathBuf) → Text → List (Option Text × PathBuf) → List PathBuf
unfolding kept_files
files sorted prefix entries = sorted (kept_files prefix entries)

-- `str::split_inclusive` with a line feed; what is read of the current part comes first.
unfoldable pub split_inclusive : Text → Text → List Text
split_inclusive [] [] = []
split_inclusive (d ∷ current) [] = (d ∷ current) ∷ []
split_inclusive current (c ∷ s) =
    let ended = (current ++ c ∷ []) ∷ split_inclusive [] s in
    let longer = split_inclusive (current ++ c ∷ []) s in if c == 10 then ended else longer

-- The loop of `read_from`: the lines that are complete, and the bytes that they take.
unfoldable pub complete : List Text → List Text × ℕ
unfolding ends_with trim_end
complete [] = ([], 0)
complete (line ∷ more) =
    let rest = complete more in
    if ends_with line (10 ∷ []) then (trim_end line ∷ rest.0, byte_len line + rest.1) else ([], 0)

abbrev pub past : ℕ → List Text × ℕ → List Text × ℕ
past offset (lines, consumed) = (lines, offset + consumed)

abbrev pub lines_of : ℕ → Option Text → Option (List Text × ℕ)
unfolding complete split_inclusive
lines_of offset none = none
lines_of offset (some read) = some (past offset (complete (split_inclusive [] read)))

-- Where the reading starts: at the start again in a file that is shorter than the offset.
abbrev pub resumed_at : Bytes → ℕ → ℕ
resumed_at file offset = if ltb (length file) offset then 0 else offset

unfoldable pub read_from : Bytes → ℕ → Option (List Text × ℕ)
unfolding from_utf8
read_from file offset =
    lines_of (resumed_at file offset) (from_utf8 (drop (resumed_at file offset) file))

pub data Window : Type 0 where
  everything : Window
  since : SystemTime → Window

-- `now` is the clock; an instant before the first that the clock can tell is none.
unfoldable pub reaching_back : SystemTime → Duration → Window
reaching_back now window = if leb window now then since (now - window) else everything

abbrev not_before : SystemTime → Option SystemTime → Bool
not_before cutoff none = false
not_before cutoff (some at) = leb cutoff at

-- `stamped` reads the instant of a line, where it has one.
unfoldable pub holds : (Text → Option SystemTime) → Window → Text → Bool
holds stamped everything line = true
holds stamped (since cutoff) line = not_before cutoff (stamped line)

pub record LoggedVerdict : Type 0 where
  pub at : SystemTime
  pub upstream : Option UpstreamAddr
  pub from : HealthState
  pub to : HealthState
  pub cause : VerdictCause

pub data Logged : Type 0 where
  decision : SystemTime → EventView → Logged
  verdict : LoggedVerdict → Logged
  switch : SystemTime → Switch → Logged

pub record VerdictFields : Type 0 where
  pub upstream : Option UpstreamAddr
  pub verdict_from : HealthState
  pub verdict_to : HealthState
  pub cause : VerdictCause

pub record SwitchFields : Type 0 where
  pub upstream_from : UpstreamAddr
  pub upstream_to : UpstreamAddr
  pub switch_cause : SwitchCause

-- What the crate `serde_json` reads of a line: its instant, whether it has fields, and the fields as
-- each of the three records, where they are one.
pub record Reader : Type 0 where
  pub stamped : Text → Option SystemTime
  pub has_fields : Text → Bool
  pub event_fields : Text → Option EventView
  pub verdict_fields : Text → Option VerdictFields
  pub switch_fields : Text → Option SwitchFields

unfoldable pub named_side : UpstreamAddr → Option UpstreamAddr
named_side [] = none
named_side (c ∷ upstream) = some (c ∷ upstream)

abbrev pub as_switch : SystemTime → Option SwitchFields → Option Logged
unfolding named_side
as_switch at none = none
as_switch at (some f) = some (
    Logged.switch at (record {
      from = named_side f.upstream_from;
      to = named_side f.upstream_to;
      cause = f.switch_cause;
    }))

abbrev pub as_verdict : SystemTime → Option VerdictFields → Option Logged → Option Logged
as_verdict at none later = later
as_verdict at (some f) later = some (
    Logged.verdict (record {
      at = at;
      upstream = f.upstream;
      from = f.verdict_from;
      to = f.verdict_to;
      cause = f.cause;
    }))

abbrev pub as_decision : SystemTime → Option EventView → Option Logged → Option Logged
as_decision at none later = later
as_decision at (some event) later = some (Logged.decision at event)

abbrev stamped_by : Reader → Text → Option SystemTime → Option Logged
stamped_by r line none = none
stamped_by r line (some at) =
    if r.has_fields line
    then as_decision at (r.event_fields line)
        (as_verdict at (r.verdict_fields line) (as_switch at (r.switch_fields line)))
    else none

unfoldable pub logged : Reader → Text → Option Logged
logged r line = stamped_by r line (r.stamped line)
