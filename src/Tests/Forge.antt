-- ===== src/Tests/Forge.antt =====
-- The theorems on processes, jobs, cycles and paths, applied to concrete data.
use flexnetos_runner.Shared.{
  ℕ, ◌&&◌, leb, ◌==◌, as_bytes, all, ◌≤◌, ◌≡◌, refl, ◌↔◌, true, false, none, List, [], ◌∷◌, ok, err,
  if◌then◌else◌, arith, Text, codes, Among, text_eq, contains, starts_with, to_ascii_lowercase,
  one_of, split,
}
use flexnetos_runner.ForgeLoop.Eval.{EvalInput, evaluate}
use flexnetos_runner.ForgeLoop.Eval.Promotion.{evaluate_mono}
use flexnetos_runner.ForgeLoop.Fleet.{RunnerFleetJob, dedupe_runner_fleet_jobs}
use flexnetos_runner.ForgeLoop.Fleet.Merge.{RowOf, first_of}
use flexnetos_runner.ForgeLoop.Fleet.Rows.{Ascending, dedupe_refines}
use flexnetos_runner.ForgeLoop.Manifest.{
  Auth, CycleManifest, validate_cycle_manifest, cycle_manifest,
}
use flexnetos_runner.ForgeLoop.Manifest.Accepted.{written_like, accepted_iff_written}
use flexnetos_runner.ForgeLoop.Processes.{lines, ProcInfo}
use flexnetos_runner.ForgeLoop.Publish.{
  normalize_git_porcelain_path, unescape, escaped, drop_last, is_quoted,
}
use flexnetos_runner.ForgeLoop.Publish.Git.{
  Spelling, verbatim, short, octal, fits, IsGit, is_plain, quote,
}
use flexnetos_runner.ForgeLoop.Publish.Quoting.{normalize-quote}
use flexnetos_runner.RunnerState.Audit.{
  audit_runner_state, audit_entry, audit_entries, audit_candidate, duplicates_in, sort_entries,
  RunnerStateAuditReport, report_on, git_status, candidate_paths, sort_dedup,
}
use flexnetos_runner.RunnerState.Class.{
  from_byte, renamed_to, ends_with, file_name_of, is_denied_sensitive_path, classify_path,
  all_slots, matches_path, parse_git_status_paths,
}
use flexnetos_runner.RunnerState.Dedupe.{names, other_lines, keep_first_exact}
use flexnetos_runner.RunnerState.Disk.{
  Disk, remove, absent, text, keep_first, count_duplicates, gitignore_hides_work,
}
use flexnetos_runner.RunnerState.Kept.{removed_exact}
use flexnetos_runner.RunnerState.Runtime.{is_ledger_path}
use flexnetos_runner.RunnerState.Normalize.{
  System, removed, settle_entries, settle_entry, no_paths, RunnerStateNormalizeReport,
  normalize_runner_state,
}
use flexnetos_runner.Tests.Demo.{external}

-- A worker with a step of a job below it.
abbrev index : List (ℕ × ProcInfo)
index =
    (7, record { ppid = 1; cmdline = codes "/opt/bin/Runner.Worker spawn" })
    ∷ (9, record { ppid = 7; cmdline = codes "cargo test" })
    ∷ []

abbrev job_of_pid : ℕ → Text → RunnerFleetJob
job_of_pid pid job = record {
  repository = codes "FlexNetOS/runner";
  workflow = codes "CI";
  run_id = codes "12";
  job = job;
  action = [];
  head_ref = [];
  ref_name = codes "main";
  workspace = codes "/w";
  pids = pid ∷ [];
}

abbrev jobs : List RunnerFleetJob
jobs = job_of_pid 9 (codes "test") ∷ job_of_pid 5 (codes "lint") ∷ job_of_pid 7 (codes "test") ∷ []

dedupe_refines_example :
    Ascending (dedupe_runner_fleet_jobs jobs)
    × ((k : List Text) → RowOf k jobs (first_of k (dedupe_runner_fleet_jobs jobs)))
dedupe_refines_example = dedupe_refines jobs

abbrev cycle : EvalInput
cycle = record {
  cycle_goal = none;
  prompt_sha256 = none;
  red_test_first = true;
  gates_passed = true;
  retry_count = 2;
  useful_research_items = 3;
  runtime_secs = 600;
  diff_files = 4;
}

abbrev retried : EvalInput
retried = record cycle { retry_count = 6; runtime_secs = 5000 }

evaluate_mono_example :
    ((evaluate retried).score ≤ (evaluate cycle).score)
    × ((evaluate retried).upgrade_allowed ≡ true → (evaluate cycle).upgrade_allowed ≡ true)
evaluate_mono_example = evaluate_mono retried cycle (record {
  red = λ h. h;
  gates = λ h. h;
  retries = omega arith;
  findings = omega arith;
  runtime = omega arith;
  size = refl;
})

abbrev auth : Auth
auth = record {
  auth_json = codes "/home/ci/.codex/auth.json";
  auth_mode = codes "chatgpt";
  login_status_command = codes "rtk codex login status";
  verification_commands = [];
}

-- The manifest of a run that would start a second cycle.
abbrev repeated : CycleManifest
repeated =
    cycle_manifest external auth
      (record { goal = codes "cycle 7"; auto_merge = true; once = false })

accepted_iff_written_example :
    (validate_cycle_manifest external auth repeated ≡ ok tt)
    ↔ ((repeated.once ≡ true) × (repeated ≡ written_like external auth repeated))
accepted_iff_written_example = accepted_iff_written external auth repeated

-- git's default, with core.quotePath on.
abbrev bytes_spelled : ℕ → List ℕ → Spelling
bytes_spelled c [] = octal c []
bytes_spelled c (b ∷ bs) = octal b bs

abbrev default_spelling : ℕ → Spelling
default_spelling c =
    if c == 34
    then short 34
    else if c == 92
    then short 92
    else if c == 10
    then short 110
    else if c == 9
    then short 116
    else if c == 13
    then short 114
    else if leb 32 c && leb c 126
    then verbatim
    else bytes_spelled c (as_bytes (c ∷ []))

bytes_spelled-fits : (c : ℕ) (bytes : List ℕ) → fits c (bytes_spelled c bytes) ≡ true
bytes_spelled-fits c [] = refl
bytes_spelled-fits c (b ∷ bs) = refl

default_spelling-IsGit : IsGit default_spelling
default_spelling-IsGit c = ground (arith, bytes_spelled-fits c (as_bytes (c ∷ [])))

normalize-quote_example :
    (normalize_git_porcelain_path (quote default_spelling (codes "a \"b\".md"))
      ≡ codes "a \"b\".md")
    ↔ (all (λ c. is_plain c (default_spelling c)) (codes "a \"b\".md") ≡ true)
normalize-quote_example =
    normalize-quote default_spelling (codes "a \"b\".md") default_spelling-IsGit

-- The path "é" is read as the eight characters that spell its two bytes.
accent-unread :
    normalize_git_porcelain_path (quote default_spelling (233 ∷ [])) ≡ codes "\\303\\251"
unfolding normalize_git_porcelain_path unescape escaped drop_last is_quoted starts_with ends_with
    as_bytes codes
accent-unread = refl

abbrev lines_twice : List Text
lines_twice =
    codes "[safe]" ∷ codes "directory = /w" ∷ codes "directory = /v" ∷ codes "directory = /w" ∷ []

keep_first_exact_example :
    (count_duplicates [] (keep_first [] lines_twice) ≡ 0)
    × ((d : Text) → names d (keep_first [] lines_twice) ≡ names d lines_twice)
    × (other_lines (keep_first [] lines_twice) ≡ other_lines lines_twice)
keep_first_exact_example = keep_first_exact lines_twice

-- Nothing but a workspace of the task ledger.
abbrev disk : Disk
disk p = if text_eq p (codes ".kb/workspaces/w") then text [] else absent

abbrev sys : System
sys = record {
  listing = λ d. git_status (codes "?? .kb/workspaces/w\n");
  active = λ d. [];
  commit_snapshot = λ d message. ok tt;
  push_pr = λ d automerge. ok tt;
}

abbrev candidates : List Text
candidates = codes ".kb/workspaces/w" ∷ []

abbrev no_audit : RunnerStateAuditReport
no_audit = report_on false [] [] []

abbrev nothing_done : RunnerStateNormalizeReport
nothing_done = record {
  dry_run = false;
  paths = no_paths;
  audit_before = no_audit;
  audit_after = no_audit;
}

abbrev outcome : Disk × RunnerStateNormalizeReport
outcome = elim (normalize_runner_state sys disk false all_slots) [
  | ok done ↦ done
  | err e ↦ (disk, nothing_done)
]

disk-candidates : candidate_paths disk (sys.listing disk) ≡ ok candidates
unfolding candidate_paths sort_dedup gitignore_hides_work parse_git_status_paths text_eq codes lines
    split from_byte starts_with renamed_to
disk-candidates = refl

disk-normalizes : normalize_runner_state sys disk false all_slots ≡ ok outcome
unfolding normalize_runner_state audit_runner_state candidate_paths gitignore_hides_work text_eq
    codes audit_entries parse_git_status_paths lines split from_byte starts_with renamed_to
    matches_path audit_entry classify_path is_denied_sensitive_path one_of audit_candidate
    duplicates_in report_on sort_dedup sort_entries file_name_of remove removed settle_entries
    settle_entry contains to_ascii_lowercase
disk-normalizes = refl

removed_exact_example : Among (codes ".kb/workspaces/w") outcome.1.paths.removed_runtime_paths ↔ (
    Among (codes ".kb/workspaces/w") candidates
    × (matches_path all_slots (codes ".kb/workspaces/w") ≡ true)
    × (is_ledger_path (codes ".kb/workspaces/w") ≡ true))
removed_exact_example =
    removed_exact sys disk false all_slots candidates outcome.0 outcome.1 disk-candidates
      disk-normalizes (codes ".kb/workspaces/w")
