-- ===== src/Lint.antt =====
-- The structural lint of a job (crates/runner-core/src/lint.rs).
pub mod Blank
pub mod OwnerName
pub mod WellFormed
use flexnetos_runner.Shared.{
  ℕ, Bool, false, not, ◌&&◌, List, [], ◌∷◌, ◌++◌, map, ◌==◌, if◌then◌else◌, is_empty, any, Text,
  codes, is_whitespace, trim, split, join,
}
use flexnetos_runner.Job.{JobKind, ci, review_gate, agent_task, loop_cycle, JobSpec}

pub record LintError : Type 0 where
  pub field : Text
  pub message : Text

abbrev lint_error : Text → Text → LintError
lint_error field message = record { field = field; message = message }

-- The pieces of `repo.split('/')`: owner, name, and no more.
unfoldable pub is_owner_name : List Text → Bool
is_owner_name (owner ∷ name ∷ []) = not (is_empty owner) && not (is_empty name)
is_owner_name _ = false

unfoldable pub repo_errors : Text → List LintError
repo_errors repo =
    if is_empty (trim repo)
    then lint_error (codes "job.repo") (codes "repo is empty") ∷ []
    else if any is_whitespace repo
    then lint_error (codes "job.repo")
        (codes "repo `" ++ repo ++ codes "` contains whitespace (expected owner/name)")
      ∷ []
    else if is_owner_name (split 47 repo)
    then []
    else lint_error (codes "job.repo") (codes "repo `" ++ repo ++ codes "` is not `owner/name`")
      ∷ []

unfoldable pub require_nonblank : Text → Text → Text → List LintError
require_nonblank value field label =
    if is_empty (trim value) then lint_error field (label ++ codes " is empty") ∷ [] else []

pr_number_errors : ℕ → List LintError
pr_number_errors n =
    if n == 0 then lint_error (codes "job.pr_number") (codes "pr_number must be > 0") ∷ [] else []

unfoldable pub kind_errors : JobKind → List LintError
unfolding pr_number_errors
kind_errors (ci repo head_sha) =
    repo_errors repo ++ require_nonblank head_sha (codes "job.head_sha") (codes "head_sha")
kind_errors (review_gate repo pr_number head_sha agent) =
    repo_errors repo
    ++ (require_nonblank head_sha (codes "job.head_sha") (codes "head_sha")
        ++ pr_number_errors pr_number)
kind_errors (agent_task repo prompt_ref agent) =
    repo_errors repo ++ require_nonblank prompt_ref (codes "job.prompt_ref") (codes "prompt_ref")
kind_errors (loop_cycle repo task_id) =
    repo_errors repo ++ require_nonblank task_id (codes "job.task_id") (codes "task_id")

unfoldable pub structural_errors : JobSpec → List LintError
unfolding kind_errors
structural_errors job =
    require_nonblank job.id (codes "id") (codes "job id")
    ++ (require_nonblank job.correlation_id (codes "correlation_id") (codes "correlation id")
        ++ kind_errors job.job)

unfoldable pub is_structurally_valid : JobSpec → Bool
is_structurally_valid job = is_empty (structural_errors job)

-- `Display` of one error
show : LintError → Text
show e = e.field ++ codes ": " ++ e.message

unfoldable pub summarize : List LintError → Text
unfolding show
summarize errors = join (codes "; ") (map show errors)
