-- ===== src/Daemon/InitScript.antt =====
-- nhop/src/daemon/init_script.rs: the running of an init script. What the system answers to the
-- spawning, the waiting and the environment are arguments; a path is a text.
use nhop.Common.{
  ℕ, zero, suc, Bool, true, false, Option, none, some, List, [], ◌∷◌, ◌++◌, Result, ok, err,
}
use nhop.Text.{Text, text}
use nhop.Text.Numbers.{show}
use nhop.Wire.{LoadId}
use nhop.Cli.Status.{PathBuf}
use nhop.Proxy.Failure.{IoError}
use nhop.Daemon.Reply.{ScriptOutcome}

-- The variable that names the run, of nhop-ipc/src/command.rs.
abbrev load_id_env : Text
load_id_env = text "NHOP_LOAD_ID"

abbrev search_path_env : Text
search_path_env = text "PATH"

abbrev after_colon : Text → Text
after_colon [] = []
after_colon (c ∷ inherited) = text ":" ++ (c ∷ inherited)

abbrev inherited_or_empty : Option Text → Text
inherited_or_empty none = []
inherited_or_empty (some inherited) = inherited

-- `search_path`, given the variable and what `executable_dir` answers.
unfoldable pub search_path : Option Text → Option PathBuf → Text
search_path inherited none = inherited_or_empty inherited
search_path inherited (some directory) = directory ++ after_colon (inherited_or_empty inherited)

-- A program as it is spawned, with nothing to read and killed with its handle.
pub record Program : Type 0 where
  pub path : PathBuf
  pub current_dir : PathBuf
  pub env : List (Text × Text)

unfoldable pub program : PathBuf → PathBuf → LoadId → Option Text → Option PathBuf → Program
program script config_dir load inherited directory = record {
  path = script;
  current_dir = config_dir;
  env = (load_id_env, show load) ∷ (search_path_env, search_path inherited directory) ∷ [];
}

-- The code that a program exits with, unless a signal ended it.
abbrev pub ExitStatus : Type 0
ExitStatus = Option ℕ

abbrev ended_with : ExitStatus → ScriptOutcome
ended_with (some zero) = ScriptOutcome.succeeded
ended_with (some (suc code)) = ScriptOutcome.exited (some (suc code))
ended_with none = ScriptOutcome.exited none

-- What waiting under the timeout comes to, and whether the program is killed.
abbrev waited_for : Option (Result IoError ExitStatus) → ScriptOutcome × Bool
waited_for none = (ScriptOutcome.timed_out, true)
waited_for (some (err failure)) = (ScriptOutcome.not_run failure, false)
waited_for (some (ok status)) = (ended_with status, false)

abbrev spawned_as :
    Option (Result IoError ExitStatus) → Result IoError (Unit {0}) → ScriptOutcome × Bool
spawned_as waited (err failure) = (ScriptOutcome.not_run failure, false)
spawned_as waited (ok spawned) = waited_for waited

-- `run`, given what `spawn` answers and what waiting for the program answers, none where the
-- timeout is over first.
unfoldable pub run :
    (Program → Result IoError (Unit {0}))
    → (Program → Option (Result IoError ExitStatus))
    → Program
    → ScriptOutcome × Bool
run spawn wait program = spawned_as (wait program) (spawn program)
