-- ===== src/Router.antt =====
-- The kernels and the choice among routes (crates/runner-core/src/router.rs).
pub mod Best
use flexnetos_runner.Shared.{
  ◌+◌, ◌≡◌, refl, Bool, true, ◌&&◌, ◌||◌, Option, none, some, List, [], ◌∷◌, ◌++◌, if◌then◌else◌,
  is_some, Result, ok, err, Text, codes, text_eq, trim, to_ascii_lowercase, decimal, text_lt,
  one_of,
}
use mathlib.Core.Bool.{false≢true}
use flexnetos_runner.Job.{JobKind, ci, review_gate, agent_task, loop_cycle, JobSpec}
use flexnetos_runner.Agent.{Agent, as_str}
use flexnetos_runner.Shared.Int.{ℤ, pos, negsuc, ltb_ℤ, eqb_ℤ}

pub data Kernel : Type 0 where
  loop_lib atc handoff weave : Kernel

abbrev pub all_kernels : List Kernel
all_kernels = loop_lib ∷ atc ∷ handoff ∷ weave ∷ []

unfoldable pub program : Kernel → Text
program loop_lib = codes "loop"
program atc = codes "atc"
program handoff = codes "hf"
program weave = codes "weave"

parse_name : Text → Result Kernel Text
parse_name s =
    if one_of s (codes "loop" ∷ codes "loop_lib" ∷ codes "loop-lib" ∷ codes "looplib" ∷ [])
    then ok loop_lib
    else if text_eq s (codes "atc")
    then ok atc
    else if one_of s (codes "hf" ∷ codes "handoff" ∷ [])
    then ok handoff
    else if text_eq s (codes "weave")
    then ok weave
    else err (codes "unknown kernel target `" ++ s ++ codes "`")

unfoldable pub parse : Text → Result Kernel Text
unfolding parse_name
parse name = parse_name (to_ascii_lowercase (trim name))

pub record KernelPlan : Type 0 where
  pub kernel : Kernel
  pub route_id : Text
  pub route_weight : ℤ  -- i32
  pub intent : Text
  pub repo : Text
  pub agent : Option Agent

pub record RouteCandidate : Type 0 where
  pub id : Text
  pub weight : ℤ  -- i32
  pub plan : KernelPlan

-- `RouteCandidate::new`
unfoldable pub new_candidate : Text → ℤ → KernelPlan → RouteCandidate
new_candidate id weight p = record {
  id = id;
  weight = weight;
  plan = record p { route_id = id; route_weight = weight };
}

-- `b.weight.cmp(&a.weight).then_with(|| a.id.cmp(&b.id))` is `Less`.
unfoldable pub before : RouteCandidate → RouteCandidate → Bool
before a b = ltb_ℤ b.weight a.weight || eqb_ℤ b.weight a.weight && text_lt a.id b.id

-- `min_by`: of several least candidates it keeps the first.
unfoldable pub min_from : RouteCandidate → List RouteCandidate → RouteCandidate
min_from best [] = best
min_from best (c ∷ cs) = min_from (if before c best then c else best) cs

unfoldable pub select_route : List RouteCandidate → Option KernelPlan
unfolding min_from
select_route [] = none
select_route (c ∷ cs) = some (min_from c cs).plan

plan : Kernel → Text → ℤ → Text → Text → Option Agent → KernelPlan
plan kernel route_id weight intent repo agent = record {
  kernel = kernel;
  route_id = route_id;
  route_weight = weight;
  intent = intent;
  repo = repo;
  agent = agent;
}

unfoldable pub candidates : JobKind → List RouteCandidate
unfolding new_candidate plan
candidates (ci repo head_sha) =
    new_candidate (codes "ci.loop") (pos 100)
      (plan loop_lib (codes "ci.loop") (pos 100) (codes "ci build/test @ " ++ head_sha) repo none)
    ∷ []
candidates (review_gate repo pr_number head_sha agent) =
    new_candidate (codes "review.atc") (pos 100) (
      plan atc (codes "review.atc") (pos 100)
        (codes "merge-gate review PR #" ++ decimal pr_number ++ codes " via " ++ as_str agent) repo
        (some agent))
    ∷ []
candidates (agent_task repo prompt_ref agent) =
    new_candidate (codes "agent.atc") (pos 100) (
      plan atc (codes "agent.atc") (pos 100)
        (codes "agent task " ++ prompt_ref ++ codes " via " ++ as_str agent) repo (some agent))
    ∷ []
candidates (loop_cycle repo task_id) =
    new_candidate (codes "cycle.handoff") (pos 100) (
      plan handoff (codes "cycle.handoff") (pos 100) (codes "loop cycle / ship " ++ task_id) repo
        none)
    ∷ []

-- `o.expect(..)`, which is called where there is a value.
abbrev expect {ℓ} : {A : Type ℓ} (o : Option A) → is_some o ≡ true → A
expect none h = absurd (false≢true h)
expect (some a) h = a

selects : (k : JobKind) → is_some (select_route (candidates k)) ≡ true
unfolding select_route candidates
selects (ci _ _) = refl
selects (review_gate _ _ _ _) = refl
selects (agent_task _ _ _) = refl
selects (loop_cycle _ _) = refl

unfoldable pub route : JobSpec → KernelPlan
unfolding selects candidates select_route
route job = expect (select_route (candidates job.job)) (selects job.job)

-- `i32::to_string`
unfoldable pub show_weight : ℤ → Text
show_weight (pos n) = decimal n
show_weight (negsuc n) = codes "-" ++ decimal (n + 1)
