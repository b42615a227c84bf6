-- ===== src/Rules/Decision.antt =====
-- nhop/src/rules/mod.rs: where a destination is routed. A rule's identifier is its position.
use nhop.Common.{ℕ, Option, none, some}
use nhop.Wire.{RuleClass, DecisionKind}

abbrev pub RuleId : Type 0
RuleId = ℕ

pub data Decision : Type 0 where
  direct : Decision
  never : RuleId → Decision
  upstream : RuleClass → RuleId → Decision

unfoldable pub kind : Decision → DecisionKind
kind Decision.direct = DecisionKind.direct
kind (Decision.never id) = DecisionKind.never
kind (Decision.upstream c id) = DecisionKind.upstream

unfoldable pub rule : Decision → Option RuleId
rule Decision.direct = none
rule (Decision.never id) = some id
rule (Decision.upstream c id) = some id

unfoldable pub class : Decision → Option RuleClass
class Decision.direct = none
class (Decision.never id) = some RuleClass.never
class (Decision.upstream c id) = some c
