-- ===== src/Lint/WellFormed.antt =====
-- What a job without lint errors looks like (crates/runner-core/src/lint.rs).
use flexnetos_runner.Shared.{
  ℕ, ◌<◌, ◌≡◌, refl, sym, ◌∙◌, ◌↔◌, inl, inr, true, false, List, [], ◌∷◌, ◌++◌, arith, ◌==◌,
  is_empty, any, Bool-cases, Text, is_whitespace, trim, split, Among,
}
use flexnetos_runner.Job.{JobKind, ci, review_gate, agent_task, loop_cycle, JobSpec}
use flexnetos_runner.Lint.{
  is_owner_name, repo_errors, require_nonblank, pr_number_errors, kind_errors, structural_errors,
}
use flexnetos_runner.Lint.Blank.{NonBlank, is_empty-trim_iff}
use flexnetos_runner.Lint.OwnerName.{IsOwnerName, is_owner_name_iff}

-- `owner/name` without white space.
abbrev pub IsRepo : Text → Type 0
IsRepo repo = (any is_whitespace repo ≡ false) × IsOwnerName repo

abbrev pub IsKindOk : JobKind → Type 0
IsKindOk (ci repo head_sha) = IsRepo repo × NonBlank head_sha
IsKindOk (review_gate repo pr_number head_sha agent) =
    IsRepo repo × (NonBlank head_sha × (0 < pr_number))
IsKindOk (agent_task repo prompt_ref agent) = IsRepo repo × NonBlank prompt_ref
IsKindOk (loop_cycle repo task_id) = IsRepo repo × NonBlank task_id

append_nil_iff : {A : Type 0} (xs ys : List A) → (xs ++ ys ≡ []) ↔ ((xs ≡ []) × (ys ≡ []))
append_nil_iff [] ys = (λ e. (refl, e), λ w. w.1)
append_nil_iff (x ∷ xs) ys = (λ e. cc, λ w. (let e = w.0 in cc))

-- Two lists of errors that are empty under two conditions.
both_iff :
    {A : Type 0} {P Q : Type 0} (xs ys : List A)
    → ((xs ≡ []) ↔ P)
    → ((ys ≡ []) ↔ Q)
    → (xs ++ ys ≡ []) ↔ (P × Q)
both_iff xs ys p q =
    let both = append_nil_iff xs ys in
    (λ e. (let (a, b) = both.0 e in (p.0 a, q.0 b)), λ (a, b). both.1 (p.1 a, q.1 b))

require_nonblank_iff : (v f l : Text) → (require_nonblank v f l ≡ []) ↔ NonBlank v
unfolding require_nonblank
require_nonblank_iff v f l =
    let both = is_empty-trim_iff v in
    elim (Bool-cases (is_empty (trim v))) [
      | inl e ↦ rw e (λ h. cc, λ w. (let bad : true ≡ false = sym e ∙ both.1 w in cc))
      | inr e ↦ rw e (λ h. both.0 e, λ w. refl)
    ]

mid_lem : (c : ℕ) (xs ys : Text) → Among c (xs ++ c ∷ ys)
mid_lem c [] ys = inl refl
mid_lem c (x ∷ xs) ys = inr (mid_lem c xs ys)

trim-IsOwnerName : (s : Text) → IsOwnerName s → is_empty (trim s) ≡ false
unfolding is_whitespace
trim-IsOwnerName s (owner, name, q, a, b, c, d) =
    (is_empty-trim_iff s).1 (47, rw q (mid_lem 47 owner name), refl)

repo_errors_iff : (repo : Text) → (repo_errors repo ≡ []) ↔ IsRepo repo
unfolding repo_errors
repo_errors_iff repo =
    let shape = is_owner_name_iff repo in
    elim (Bool-cases (is_empty (trim repo))) [
      | inl e ↦
          rw e (λ h. cc, λ w. (let bad : true ≡ false = sym e ∙ trim-IsOwnerName repo w.1 in cc))
      | inr e ↦ rw e (elim (Bool-cases (any is_whitespace repo)) [
        | inl space ↦ rw space (λ h. cc, λ w. (let bad : true ≡ false = w.0 in cc))
        | inr solid ↦ elim (Bool-cases (is_owner_name (split 47 repo))) [
          | inl f ↦ rw (solid, f) (λ h. (refl, shape.0 f), λ w. refl)
          | inr f ↦
              rw (solid, f) (λ h. cc, λ w. (let bad : true ≡ false = sym (shape.1 w.1) ∙ f in cc))
        ]
      ])
    ]

pr_number_iff : (n : ℕ) → (pr_number_errors n ≡ []) ↔ (0 < n)
unfolding pr_number_errors
pr_number_iff n = elim (Bool-cases (n == 0)) [
  | inl e ↦ rw e (λ h. cc, λ h. (let z : n ≡ 0 = ground arith in absurd (omega arith)))
  | inr e ↦ rw e (λ h. ground arith, λ h. refl)
]

kind_errors_iff : (k : JobKind) → (kind_errors k ≡ []) ↔ IsKindOk k
unfolding kind_errors
kind_errors_iff (ci repo head_sha) =
    both_iff (repo_errors repo) _ (repo_errors_iff repo) (require_nonblank_iff head_sha _ _)
kind_errors_iff (review_gate repo pr_number head_sha agent) =
    both_iff (repo_errors repo) _ (repo_errors_iff repo) (
      both_iff _ (pr_number_errors pr_number) (require_nonblank_iff head_sha _ _)
        (pr_number_iff pr_number))
kind_errors_iff (agent_task repo prompt_ref agent) =
    both_iff (repo_errors repo) _ (repo_errors_iff repo) (require_nonblank_iff prompt_ref _ _)
kind_errors_iff (loop_cycle repo task_id) =
    both_iff (repo_errors repo) _ (repo_errors_iff repo) (require_nonblank_iff task_id _ _)

-- A job has no lint errors exactly when its id and its correlation id are not blank, its repository is
-- `owner/name` without white space or further slash, its other text is not blank, and its pull request,
-- if it has one, has a positive number.
pub structural_errors_iff :
    (job : JobSpec)
    → (structural_errors job ≡ [])
      ↔ (NonBlank job.id × (NonBlank job.correlation_id × IsKindOk job.job))
unfolding structural_errors
structural_errors_iff job =
    both_iff _ _ (require_nonblank_iff job.id _ _)
      (both_iff _ _ (require_nonblank_iff job.correlation_id _ _) (kind_errors_iff job.job))
