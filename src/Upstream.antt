-- ===== src/Upstream.antt =====
-- nhop/src/upstream/: the verdicts on the upstreams, the choice between them, and the dials.
pub mod Health
pub mod Select
pub mod Entries
pub mod Selection
pub mod Dial
pub mod Patrol
