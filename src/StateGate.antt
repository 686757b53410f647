-- ===== src/StateGate.antt =====
-- Admission by route class and survival tier (crates/runner-core/src/stategate.rs).
pub mod Degrades
pub mod Rules
pub mod Words
use flexnetos_runner.Shared.{
  Bool, ◌||◌, Option, none, some, List, [], ◌∷◌, ◌++◌, leb, if◌then◌else◌, is_some, Result, ok, err,
  Text, codes, text_eq, trim, to_ascii_lowercase, join, split_once, one_of, ◌>>=◌,
}
use flexnetos_runner.Job.{JobSpec, class}
use flexnetos_runner.Classes.{normalize_class, rule_list}
use flexnetos_runner.Governor.{SurvivalTier, full, conserving, distress, halted, rank, label}

pub record StateGatePolicy : Type 0 where
  pub ci_max : Option SurvivalTier
  pub review_max : Option SurvivalTier
  pub agent_max : Option SurvivalTier
  pub cycle_max : Option SurvivalTier

unfoldable pub disabled : StateGatePolicy
disabled = record { ci_max = none; review_max = none; agent_max = none; cycle_max = none }

unfoldable pub is_active : StateGatePolicy → Bool
is_active p = is_some p.ci_max || is_some p.review_max || is_some p.agent_max || is_some p.cycle_max

tier_of : Text → Result SurvivalTier Text
tier_of s =
    if text_eq s (codes "full")
    then ok full
    else if one_of s (codes "conserving" ∷ codes "conserve" ∷ [])
    then ok conserving
    else if text_eq s (codes "distress")
    then ok distress
    else if one_of s (codes "halted" ∷ codes "halt" ∷ [])
    then ok halted
    else err (codes "unknown survival tier `" ++ s ++ codes "`")

unfoldable pub parse_tier : Text → Result SurvivalTier Text
unfolding tier_of
parse_tier s = tier_of (to_ascii_lowercase (trim s))

set_max : StateGatePolicy → Text → SurvivalTier → Text → Result StateGatePolicy Text
set_max p name tier class =
    if text_eq name (codes "ci")
    then ok (record p { ci_max = some tier })
    else if text_eq name (codes "review")
    then ok (record p { review_max = some tier })
    else if text_eq name (codes "agent")
    then ok (record p { agent_max = some tier })
    else if text_eq name (codes "cycle")
    then ok (record p { cycle_max = some tier })
    else err (codes "unknown route class `" ++ class ++ codes "`")

allow_on : Option Text → StateGatePolicy → Text → SurvivalTier → Result StateGatePolicy Text
unfolding set_max
allow_on none p class tier = err (codes "unknown route class `" ++ class ++ codes "`")
allow_on (some name) p class tier = set_max p name tier class

unfoldable pub allow_until : StateGatePolicy → Text → SurvivalTier → Result StateGatePolicy Text
unfolding allow_on
allow_until p class tier = allow_on (normalize_class class) p class tier

add_rule_on : Option (Text × Text) → StateGatePolicy → Text → Result StateGatePolicy Text
add_rule_on none p rule =
    err (codes "state-gate rule `" ++ rule ++ codes "` must be class=max_tier")
add_rule_on (some (class, tier)) p rule = do t ← parse_tier tier; allow_until p class t

unfoldable pub add_rules : StateGatePolicy → List Text → Result StateGatePolicy Text
unfolding add_rule_on
add_rules p [] = ok p
add_rules p (rule ∷ rules) = do q ← add_rule_on (split_once 61 rule) p rule; add_rules q rules

unfoldable pub from_rules : Text → Result StateGatePolicy Text
unfolding add_rules
from_rules rules = add_rules disabled (rule_list rules)

max_on : Option Text → StateGatePolicy → Option SurvivalTier
max_on none p = none
max_on (some name) p =
    if text_eq name (codes "ci")
    then p.ci_max
    else if text_eq name (codes "review")
    then p.review_max
    else if text_eq name (codes "agent")
    then p.agent_max
    else if text_eq name (codes "cycle")
    then p.cycle_max
    else none

unfoldable pub max_for_class : StateGatePolicy → Text → Option SurvivalTier
unfolding max_on
max_for_class p class = max_on (normalize_class class) p

pub data StateGateDecision : Type 0 where
  allowed : StateGateDecision
  -- class, current, allowed_until
  deferred : Text → SurvivalTier → SurvivalTier → StateGateDecision

check_max : Option SurvivalTier → Text → SurvivalTier → StateGateDecision
check_max none class tier = allowed
check_max (some max_tier) class tier =
    if leb (rank tier) (rank max_tier) then allowed else deferred class tier max_tier

unfoldable pub check : StateGatePolicy → JobSpec → SurvivalTier → StateGateDecision
unfolding check_max
check p job tier = check_max (max_for_class p (class job.job)) (class job.job) tier

max_text : Text → Option SurvivalTier → List Text
max_text class none = []
max_text class (some tier) = (class ++ codes "<=" ++ label tier) ∷ []

or_off : List Text → Text
or_off [] = codes "off"
or_off (p ∷ ps) = join (codes ",") (p ∷ ps)

unfoldable pub describe : StateGatePolicy → Text
unfolding max_text or_off
describe p = or_off (
    max_text (codes "ci") p.ci_max
    ++ (max_text (codes "review") p.review_max
        ++ (max_text (codes "agent") p.agent_max ++ max_text (codes "cycle") p.cycle_max)))
