-- ===== src/Cli/Doctor.antt =====
-- nhop/src/cli/doctor.rs: the seven checks, their report, and the code that `doctor` exits with.
pub mod Checks
pub mod Reach
pub mod Reported
pub mod Exits
pub mod Pointed
use nhop.Common.{
  ℕ, suc, ◌+◌, ◌≡◌, ◌↔◌, arith, Bool, true, false, Option, none, some, List, [], ◌∷◌, ◌==◌, Eq,
  list_eq, nat_eq, if◌then◌else◌, map,
}
use nhop.Text.{Text, text}
use nhop.Cli.Exit.{Exit}

pub data Check : Type 0 where
  daemon_reachable ports_bound system_proxy upstream_reachable init_file last_load : Check
  log_writable : Check

abbrev pub check_same : Check → Check → Bool
check_same Check.daemon_reachable Check.daemon_reachable = true
check_same Check.ports_bound Check.ports_bound = true
check_same Check.system_proxy Check.system_proxy = true
check_same Check.upstream_reachable Check.upstream_reachable = true
check_same Check.init_file Check.init_file = true
check_same Check.last_load Check.last_load = true
check_same Check.log_writable Check.log_writable = true
check_same _ _ = false

pub check_same_iff : (a b : Check) → (check_same a b ≡ true) ↔ (a ≡ b)
check_same_iff a b = ground arith

instance abbrev pub check_eq : Eq Check
check_eq = record { same = check_same; same_iff = check_same_iff }

abbrev pub checks : List Check
checks =
    Check.daemon_reachable ∷ Check.ports_bound ∷ Check.system_proxy ∷ Check.upstream_reachable
    ∷ Check.init_file ∷ Check.last_load ∷ Check.log_writable ∷ []

unfoldable pub name : Check → Text
name Check.daemon_reachable = text "daemon_reachable"
name Check.ports_bound = text "ports_bound"
name Check.system_proxy = text "system_proxy"
name Check.upstream_reachable = text "upstream_reachable"
name Check.init_file = text "init_file"
name Check.last_load = text "last_load"
name Check.log_writable = text "log_writable"

pub data Outcome : Type 0 where
  passed failed : Outcome

abbrev pub is_ok : Outcome → Bool
is_ok Outcome.passed = true
is_ok Outcome.failed = false

pub record Finding : Type 0 where
  pub check : Check
  pub outcome : Outcome
  pub detail : Text

abbrev pub passing : Check → Text → Finding
passing check detail = record { check = check; outcome = Outcome.passed; detail = detail }

abbrev pub failing : Check → Text → Finding
failing check detail = record { check = check; outcome = Outcome.failed; detail = detail }

pub record CheckView : Type 0 where
  pub name : Text
  pub ok : Bool
  pub detail : Text

-- The loop of `view`.
unfoldable pub found : Check → List Finding → Option Finding
found check [] = none
found check (finding ∷ findings) =
    if finding.check == check then some finding else found check findings

abbrev pub viewed : Check → Option Finding → CheckView
unfolding name
viewed check none = record {
  name = name check;
  ok = false;
  detail = text "not checked, the daemon did not answer";
}
viewed check (some finding) = record {
  name = name check;
  ok = is_ok finding.outcome;
  detail = finding.detail;
}

unfoldable pub view : List Finding → Check → CheckView
unfolding found
view findings check = viewed check (found check findings)

unfoldable pub report : List Finding → List CheckView
unfolding view
report findings = map (view findings) checks

-- The counters of `exit_of`.
unfoldable pub counted : ℕ × ℕ → List CheckView → ℕ × ℕ
unfolding name
counted (n, beyond) [] = (n, beyond)
counted (n, beyond) (check ∷ more) =
    let skipped = counted (n, beyond) more in
    let upstream_only = counted (suc n, beyond) more in
    let other = counted (suc n, suc beyond) more in
    if check.ok
    then skipped
    else if check.name == name Check.upstream_reachable
    then upstream_only
    else other

abbrev pub exit_by : ℕ × ℕ → Exit
exit_by (n, beyond) =
    if n == 0 then Exit.success else if beyond == 0 then Exit.upstream_down else Exit.failed

unfoldable pub exit_of : List CheckView → Exit
unfolding counted
exit_of views = exit_by (counted (0, 0) views)
