-- ===== src/Authority.antt =====
-- The authority gate on a submitter's provenance (crates/runner-core/src/authority.rs).
pub mod Floor
use flexnetos_runner.Shared.{
  ℕ, Bool, ◌||◌, Option, none, some, List, [], ◌∷◌, ◌++◌, leb, if◌then◌else◌, is_some, Result, ok,
  err, Text, codes, text_eq, trim, to_ascii_lowercase, split_once, join, one_of, ◌>>=◌,
}
use flexnetos_runner.Job.{JobKind, ci, review_gate, agent_task, loop_cycle, JobSpec, class}
use flexnetos_runner.Classes.{normalize_class, rule_list}

pub data AuthorityTier : Type 0 where
  guest agent maintainer owner : AuthorityTier

abbrev pub rank : AuthorityTier → ℕ
rank guest = 0
rank agent = 1
rank maintainer = 2
rank owner = 3

unfoldable pub as_str : AuthorityTier → Text
as_str guest = codes "guest"
as_str agent = codes "agent"
as_str maintainer = codes "maintainer"
as_str owner = codes "owner"

tier_of : Text → Result AuthorityTier Text
tier_of s =
    if one_of s (codes "guest" ∷ codes "unknown" ∷ codes "none" ∷ [])
    then ok guest
    else if one_of s (codes "agent" ∷ codes "bot" ∷ codes "automation" ∷ [])
    then ok agent
    else if one_of s (codes "maintainer" ∷ codes "trusted" ∷ [])
    then ok maintainer
    else if one_of s (codes "owner" ∷ codes "admin" ∷ codes "root" ∷ codes "system" ∷ [])
    then ok owner
    else err (codes "unknown authority tier `" ++ s ++ codes "`")

-- `impl FromStr for AuthorityTier`
unfoldable pub parse_tier : Text → Result AuthorityTier Text
unfolding tier_of
parse_tier s = tier_of (to_ascii_lowercase (trim s))

pub record Submitter : Type 0 where
  pub id : Text
  pub tier : AuthorityTier

pub record AuthorityPolicy : Type 0 where
  pub ci_floor : Option AuthorityTier
  pub review_floor : Option AuthorityTier
  pub agent_floor : Option AuthorityTier
  pub cycle_floor : Option AuthorityTier

unfoldable pub disabled : AuthorityPolicy
disabled = record { ci_floor = none; review_floor = none; agent_floor = none; cycle_floor = none }

unfoldable pub is_active : AuthorityPolicy → Bool
is_active p =
    is_some p.ci_floor || is_some p.review_floor || is_some p.agent_floor || is_some p.cycle_floor

set_floor : AuthorityPolicy → Text → AuthorityTier → Text → Result AuthorityPolicy Text
set_floor p name tier class =
    if text_eq name (codes "ci")
    then ok (record p { ci_floor = some tier })
    else if text_eq name (codes "review")
    then ok (record p { review_floor = some tier })
    else if text_eq name (codes "agent")
    then ok (record p { agent_floor = some tier })
    else if text_eq name (codes "cycle")
    then ok (record p { cycle_floor = some tier })
    else err (codes "unknown route class `" ++ class ++ codes "`")

require_on : Option Text → AuthorityPolicy → Text → AuthorityTier → Result AuthorityPolicy Text
unfolding set_floor
require_on none p class tier = err (codes "unknown route class `" ++ class ++ codes "`")
require_on (some name) p class tier = set_floor p name tier class

unfoldable pub require : AuthorityPolicy → Text → AuthorityTier → Result AuthorityPolicy Text
unfolding require_on
require p class tier = require_on (normalize_class class) p class tier

add_rule_on : Option (Text × Text) → AuthorityPolicy → Text → Result AuthorityPolicy Text
add_rule_on none p rule = err (codes "authority rule `" ++ rule ++ codes "` must be class=tier")
add_rule_on (some (class, tier)) p rule = do t ← parse_tier tier; require p class t

unfoldable pub add_rules : AuthorityPolicy → List Text → Result AuthorityPolicy Text
unfolding add_rule_on
add_rules p [] = ok p
add_rules p (rule ∷ rules) = do q ← add_rule_on (split_once 61 rule) p rule; add_rules q rules

unfoldable pub from_rules : Text → Result AuthorityPolicy Text
unfolding add_rules
from_rules rules = add_rules disabled (rule_list rules)

floor_of : JobKind → AuthorityPolicy → Option AuthorityTier
floor_of (ci _ _) p = p.ci_floor
floor_of (review_gate _ _ _ _) p = p.review_floor
floor_of (agent_task _ _ _) p = p.agent_floor
floor_of (loop_cycle _ _) p = p.cycle_floor

unfoldable pub min_for : AuthorityPolicy → JobSpec → Option AuthorityTier
unfolding floor_of
min_for p job = floor_of job.job p

pub data AuthorityDecision : Type 0 where
  allowed : AuthorityDecision
  -- route, required, actual, submitter
  denied : Text → AuthorityTier → AuthorityTier → Option Text → AuthorityDecision

abbrev pub tier_or_guest : Option Submitter → AuthorityTier
tier_or_guest none = guest
tier_or_guest (some s) = s.tier

submitter_id : Option Submitter → Option Text
submitter_id none = none
submitter_id (some s) = some s.id

check_floor : Option AuthorityTier → JobSpec → Option Submitter → AuthorityDecision
unfolding submitter_id
check_floor none job submitter = allowed
check_floor (some required) job submitter =
    let actual = tier_or_guest submitter in
    if leb (rank required) (rank actual)
    then allowed
    else denied (class job.job) required actual (submitter_id submitter)

unfoldable pub check : AuthorityPolicy → JobSpec → Option Submitter → AuthorityDecision
unfolding check_floor
check p job submitter = check_floor (min_for p job) job submitter

floor_text : Text → Option AuthorityTier → List Text
floor_text class none = []
floor_text class (some tier) = (class ++ codes ">=" ++ as_str tier) ∷ []

or_off : List Text → Text
or_off [] = codes "off"
or_off (p ∷ ps) = join (codes ",") (p ∷ ps)

unfoldable pub describe : AuthorityPolicy → Text
unfolding floor_text or_off
describe p = or_off (
    floor_text (codes "ci") p.ci_floor
    ++ (floor_text (codes "review") p.review_floor
        ++ (floor_text (codes "agent") p.agent_floor ++ floor_text (codes "cycle") p.cycle_floor)))
