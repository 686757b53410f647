-- ===== src/Targets.antt =====
-- The allowlist of kernels (crates/runner-core/src/targets.rs).
use flexnetos_runner.Shared.{
  Bool, true, false, ◌||◌, Option, none, some, List, [], ◌∷◌, ◌++◌, if◌then◌else◌, is_some, Result,
  ok, any, Text, codes, text_eq, to_ascii_lowercase, join, ◌>>=◌,
}
use flexnetos_runner.Classes.{rule_list}
use flexnetos_runner.Router.{Kernel, loop_lib, atc, handoff, weave, all_kernels, program, parse}

-- `None` is the inert policy. A set of kernels is a list.
pub record TargetAllowlist : Type 0 where
  pub allowed_set : Option (List Kernel)

unfoldable pub disabled : TargetAllowlist
disabled = record { allowed_set = none }

unfoldable pub only : List Kernel → TargetAllowlist
only kernels = record { allowed_set = some kernels }

-- `token == "*" || token.eq_ignore_ascii_case("all")`
means_all : Text → Bool
means_all token = text_eq token (codes "*") || text_eq (to_ascii_lowercase token) (codes "all")

-- The loop over the tokens, with the set gathered so far.
unfoldable pub add_tokens : List Kernel → List Text → Result TargetAllowlist Text
unfolding means_all
add_tokens found [] = ok (only found)
add_tokens found (token ∷ rest) = elim (means_all token) [
  | true ↦ ok (only all_kernels)
  | false ↦ (parse token) >>= λ k. add_tokens (found ++ k ∷ []) rest
]

unfoldable pub from_env : Option Text → Result TargetAllowlist Text
unfolding add_tokens
from_env none = ok disabled
from_env (some value) = add_tokens [] (rule_list value)

unfoldable pub is_active : TargetAllowlist → Bool
is_active p = is_some p.allowed_set

unfoldable pub kernel_eq : Kernel → Kernel → Bool
kernel_eq loop_lib loop_lib = true
kernel_eq atc atc = true
kernel_eq handoff handoff = true
kernel_eq weave weave = true
kernel_eq _ _ = false

allows_in : Option (List Kernel) → Kernel → Bool
allows_in none k = true
allows_in (some set) k = any (kernel_eq k) set

unfoldable pub allows : TargetAllowlist → Kernel → Bool
unfolding allows_in
allows p k = allows_in p.allowed_set k

pub data TargetDecision : Type 0 where
  allowed : TargetDecision
  denied : Kernel → Text → TargetDecision

-- The programs of the set in the order of `sort_unstable` on their names.
sorted_programs : List Kernel → List Kernel → List Text
sorted_programs [] set = []
sorted_programs (k ∷ ks) set =
    let rest = sorted_programs ks set in if any (kernel_eq k) set then program k ∷ rest else rest

describe_set : Option (List Kernel) → Text
unfolding sorted_programs
describe_set none = codes "off"
describe_set (some []) = codes "<empty deny-all>"
describe_set (some (k ∷ ks)) =
    join (codes ",") (sorted_programs (atc ∷ handoff ∷ loop_lib ∷ weave ∷ []) (k ∷ ks))

unfoldable pub describe : TargetAllowlist → Text
unfolding describe_set
describe p = describe_set p.allowed_set

unfoldable pub check : TargetAllowlist → Kernel → TargetDecision
check p k = if allows p k then allowed else denied k (describe p)
