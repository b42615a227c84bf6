-- ===== src/Rules.antt =====
-- nhop/src/rules/: what a rule matches, the ruleset, and the decision it makes.
pub mod Matcher
pub mod Decision
pub mod Ruleset
pub mod Decide
pub mod Hosts
pub mod Push
