-- ===== src/Cli/Arguments/Destinations.antt =====
-- nhop/src/cli/mod.rs with nhop/src/cli/explain.rs: a destination as it is printed is read back.
use nhop.Common.{ℕ, Bool, ◌==◌, nat_eq, not}
use nhop.Text.{Text}

abbrev no_colon : ℕ → Bool
no_colon c = not (c == b':')
