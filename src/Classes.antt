-- ===== src/Classes.antt =====
-- The operator's names of the route classes (`normalize_class` of
-- crates/runner-core/src/authority.rs, which crates/runner-core/src/stategate.rs repeats).
use flexnetos_runner.Shared.{
  Option, none, some, List, [], ◌∷◌, if◌then◌else◌, is_empty, Text, codes, trim, to_ascii_lowercase,
  split, one_of,
}

class_of : Text → Option Text
class_of s =
    if one_of s (codes "ci" ∷ codes "build" ∷ codes "test" ∷ [])
    then some (codes "ci")
    else if one_of s (codes "review" ∷ codes "review_gate" ∷ codes "review-gate" ∷ [])
    then some (codes "review")
    else if one_of s (codes "agent" ∷ codes "agent_task" ∷ codes "agent-task" ∷ [])
    then some (codes "agent")
    else if one_of s (codes "cycle" ∷ codes "loop" ∷ codes "loop_cycle" ∷ codes "loop-cycle" ∷ [])
    then some (codes "cycle")
    else none

unfoldable pub normalize_class : Text → Option Text
unfolding class_of
normalize_class class = class_of (to_ascii_lowercase (trim class))

-- The rules of a comma-separated list: `rules.split(',').map(str::trim).filter(..)`.
keep_rules : List Text → List Text
keep_rules [] = []
keep_rules (s ∷ rest) =
    let more = keep_rules rest in if is_empty (trim s) then more else trim s ∷ more

unfoldable pub rule_list : Text → List Text
unfolding keep_rules
rule_list rules = keep_rules (split 44 rules)
