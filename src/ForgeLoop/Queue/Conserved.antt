-- ===== src/ForgeLoop/Queue/Conserved.antt =====
-- The rows of the queue audit share out its jobs (crates/runner-cli/src/forge_loop.rs).
use flexnetos_runner.Shared.{
  ℕ, ◌+◌, ◌≡◌, refl, ◌∙◌, Bool, List, [], ◌∷◌, ◌++◌, map, arith, unwrap_or, length, Bool-cases, inl,
  inr, Text, text_eq, text_eq_refl,
}
use flexnetos_runner.Shared.Order.{list_order, ℕ_order}
use flexnetos_runner.Shared.Sorted
use flexnetos_runner.Shared.Sorted.{IsSorted}
use flexnetos_runner.ForgeLoop.Audits.{count_where}
use flexnetos_runner.ForgeLoop.Queue.{
  RunnerQueueJobInput, RunnerQueueRunInput, dedupe_runner_queue_runs,
}
use flexnetos_runner.ForgeLoop.Queue.Report.{
  RunnerQueueJobSummary, RunnerQueueRepositorySummary, job_summary, summaries_of, all_summaries,
  count_at, tally, keep, repositories_of, count_jobs_by_repository, repository_summary,
  runner_queue_audit_report,
}
use flexnetos_runner.ForgeLoop.Queue.Tally.{
  count_at-IsSorted, tally-IsSorted, get-count_at, get-tally, Known, tally-Known, sum_at,
  sum_at-add, sum_at-cong, sum_at-zero, hit, hits,
}

-- Every job's repository is a key of the map.
abbrev AllKnown : List (Text × ℕ) → List RunnerQueueJobSummary → Type 0
AllKnown m [] = Unit
AllKnown m (job ∷ jobs) = Known job.repository m × AllKnown m jobs

AllKnown-append :
    (m : List (Text × ℕ)) (js ks : List RunnerQueueJobSummary)
    → AllKnown m js
    → AllKnown m ks
    → AllKnown m (js ++ ks)
AllKnown-append m [] ks a b = b
AllKnown-append m (j ∷ js) ks a b = (a.0, AllKnown-append m js ks a.1 b)

AllKnown-keep :
    (m : List (Text × ℕ)) (p : RunnerQueueJobSummary → Bool) (js : List RunnerQueueJobSummary)
    → AllKnown m js
    → AllKnown m (keep p js)
unfolding keep
AllKnown-keep m p [] a = tt
AllKnown-keep m p (j ∷ js) a = elim (Bool-cases (p j)) [
  | inl e ↦ rw e (a.0, AllKnown-keep m p js a.1)
  | inr e ↦ rw e (AllKnown-keep m p js a.1)
]

summaries_of-AllKnown :
    (m : List (Text × ℕ)) (run : RunnerQueueRunInput) (js : List RunnerQueueJobInput)
    → Known run.repository m
    → AllKnown m (summaries_of run js)
unfolding summaries_of job_summary
summaries_of-AllKnown m run [] h = tt
summaries_of-AllKnown m run (j ∷ js) h = (h, summaries_of-AllKnown m run js h)

abbrev repository_names : List RunnerQueueRunInput → List Text
repository_names = map (λ (run : RunnerQueueRunInput). run.repository)

-- The counts of the runs' repositories, on top of `m`, know every job of the runs.
all_summaries-AllKnown :
    (runs : List RunnerQueueRunInput) (m : List (Text × ℕ))
    → IsSorted m
    → AllKnown (tally (repository_names runs) m) (all_summaries runs)
unfolding tally all_summaries
all_summaries-AllKnown [] m s = tt
all_summaries-AllKnown (run ∷ runs) m s =
    let counted = count_at-IsSorted run.repository m s in
    let here : Known run.repository (count_at run.repository m) =
      ground (arith, get-count_at run.repository run.repository m s, text_eq_refl run.repository) in
    AllKnown-append _ (summaries_of run run.jobs) (all_summaries runs)
      (summaries_of-AllKnown _ run run.jobs
        (tally-Known run.repository (repository_names runs) _ counted here))
      (all_summaries-AllKnown runs _ counted)

-- The jobs of a repository.
abbrev jobs_at : List RunnerQueueJobSummary → Text → ℕ
jobs_at js k = count_where (λ (job : RunnerQueueJobSummary). text_eq job.repository k) js

-- Shared out over the keys, each job counts once.
shared_out :
    (m : List (Text × ℕ)) (js : List RunnerQueueJobSummary)
    → IsSorted m
    → AllKnown m js
    → sum_at (jobs_at js) (Sorted.keys m) ≡ length js
unfolding count_where
shared_out m [] s a = sum_at-zero (Sorted.keys m)
shared_out m (j ∷ js) s a =
    sum_at-add (hit j.repository) (jobs_at js) (Sorted.keys m)
    ∙ ground (arith, hits j.repository m s, a.0, shared_out m js s a.1)

count-repositories_of :
    (k : Text) (js : List RunnerQueueJobSummary)
    → count_where (λ n. text_eq n k) (repositories_of js) ≡ jobs_at js k
unfolding count_where repositories_of
count-repositories_of k [] = refl
count-repositories_of k (j ∷ js) = omega (arith, count-repositories_of k js)

get-count_jobs :
    (k : Text) (js : List RunnerQueueJobSummary)
    → unwrap_or (Sorted.get k (count_jobs_by_repository js)) 0 ≡ jobs_at js k
unfolding count_jobs_by_repository Sorted.get
get-count_jobs k js =
    get-tally k (repositories_of js) [] tt ∙ omega (arith, count-repositories_of k js)

-- The sum of a field over rows.
abbrev pub total : (RunnerQueueRepositorySummary → ℕ) → List RunnerQueueRepositorySummary → ℕ
total field [] = 0
total field (row ∷ rows) = field row + total field rows

total-map :
    (field : RunnerQueueRepositorySummary → ℕ) (row : Text → RunnerQueueRepositorySummary)
    (ks : List Text)
    → total field (map row ks) ≡ sum_at (λ k. field (row k)) ks
total-map field row [] = refl
total-map field row (k ∷ ks) = omega (arith, total-map field row ks)

-- Rows over the known repositories share out some jobs, if each row has the number of its own.
rows_share :
    (field : RunnerQueueRepositorySummary → ℕ) (row : Text → RunnerQueueRepositorySummary)
    (m : List (Text × ℕ)) (js : List RunnerQueueJobSummary)
    → IsSorted m
    → AllKnown m js
    → ((k : Text) → field (row k) ≡ jobs_at js k)
    → total field (map row (Sorted.keys m)) ≡ length js
rows_share field row m js s a own =
    total-map field row (Sorted.keys m) ∙ sum_at-cong _ _ (Sorted.keys m) own ∙ shared_out m js s a

-- The rows of the report share out the jobs that run, wait and wait elsewhere: over all repositories
-- the numbers of each kind add up to the jobs that the report lists.
pub audit_conserves :
    (max_queued : ℕ) (observed : List RunnerQueueRunInput)
    → let r = runner_queue_audit_report max_queued observed in
      (total (λ row. row.active_local_runner_jobs) r.repositories
        ≡ length r.active_local_runner_jobs)
      × (total (λ row. row.queued_local_runner_jobs) r.repositories
          ≡ length r.queued_local_runner_jobs)
      × (total (λ row. row.nonlocal_queued_jobs) r.repositories ≡ length r.nonlocal_queued_jobs)
unfolding runner_queue_audit_report repository_summary
audit_conserves max_queued observed =
    let runs = dedupe_runner_queue_runs observed in
    let m = tally (repository_names runs) [] in
    let sorted : IsSorted m = tally-IsSorted (repository_names runs) [] tt in
    let known : AllKnown m (all_summaries runs) = all_summaries-AllKnown runs [] tt in
    (
      rows_share _ _ m _ sorted (AllKnown-keep m _ _ known) (λ k. get-count_jobs k _),
      rows_share _ _ m _ sorted (AllKnown-keep m _ _ known) (λ k. get-count_jobs k _),
      rows_share _ _ m _ sorted (AllKnown-keep m _ _ known) (λ k. refl),
    )
