-- ===== src/Daemon/OpenFiles.antt =====
-- nhop/src/daemon/open_files.rs: the limit on open files. The system is a state, with what getrlimit
-- and setrlimit answer on it.
pub mod Raised
use nhop.Common.{ℕ, Option, none, some, min, leb, if◌then◌else◌, Result, ok, err}
use nhop.Proxy.Failure.{IoError}

abbrev target : ℕ
target = 16384

pub record Limits : Type 0 where
  pub soft : ℕ
  pub hard : ℕ

unfoldable pub wanted : Limits → Option ℕ
wanted current =
    let capped = min target current.hard in if leb capped current.soft then none else some capped

-- The process, as getrlimit reads it and setrlimit writes it.
pub record System (S : Type 0) : Type 0 where
  pub read : S → Result IoError Limits
  pub write : ℕ → ℕ → S → S × Result IoError (Unit {0})

module _ {S : Type 0} (system : System S) where
  abbrev pub written : S × Result IoError (Unit {0}) → S × Result IoError Limits
  written (s, err failure) = (s, err failure)
  written (s, ok done) = (s, system.read s)

  abbrev pub raised : S → Limits → Option ℕ → S × Result IoError Limits
  raised s current none = (s, ok current)
  raised s current (some soft) = written (system.write soft current.hard s)

  unfoldable pub raise_from : S → Result IoError Limits → S × Result IoError Limits
  unfolding wanted
  raise_from s (err failure) = (s, err failure)
  raise_from s (ok current) = raised s current (wanted current)

  unfoldable pub raise : S → S × Result IoError Limits
  unfolding raise_from
  raise s = raise_from s (system.read s)
