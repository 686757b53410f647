-- ===== src/RunnerState/Audit.antt =====
-- candidate_paths and audit_runner_state of crates/runner-cli/src/runner_state.rs. `Listing` is what
-- git or the walk over the directories gives; the running processes are a list.
use flexnetos_runner.Shared.{
  ℕ, ◌+◌, Bool, true, false, not, ◌&&◌, List, [], ◌∷◌, ◌++◌, if◌then◌else◌, is_empty, Option, none,
  some, Result, ok, err, ◌>>=◌, Text, codes, text_eq,
}
use flexnetos_runner.Shared.Order.{list_order, ℕ_order}
use flexnetos_runner.Shared.Sorted
use flexnetos_runner.RunnerState.Disk.{
  Disk, IoError, read_failed, gitignore, gitignore_hides_work, safe_directory_duplicates,
}
use flexnetos_runner.RunnerState.Class.{
  RunnerStateClass, live_runner_state, cache_state, config_churn, git_kb_runtime, denied_sensitive,
  unclassified, RunnerStateEntry, RunnerStateSlots, entry, ends_with, parse_git_status_paths,
  classify_path, matches_path,
}

-- What a successful `git status` printed, or the paths that the walk met, or the path at which it
-- failed.
pub data Listing : Type 0 where
  git_status : Text → Listing
  walked : List Text → Listing
  walk_failed : Text → Listing

listed : Listing → Result (List Text) IoError
listed (git_status status) = ok (parse_git_status_paths status)
listed (walked paths) = ok paths
listed (walk_failed path) = err (read_failed path)

unfoldable pub insert_path : Text → List Text → List Text
insert_path p [] = p ∷ []
insert_path p (q ∷ paths) =
    if list_order.same p q
    then q ∷ paths
    else if list_order.lt p q
    then p ∷ q ∷ paths
    else q ∷ insert_path p paths

-- `paths.sort()` and `paths.dedup()`
unfoldable pub sort_dedup : List Text → List Text
unfolding insert_path
sort_dedup [] = []
sort_dedup (p ∷ paths) = insert_path p (sort_dedup paths)

unfoldable pub candidate_paths : Disk → Listing → Result (List Text) IoError
unfolding listed sort_dedup
candidate_paths disk listing = listed listing >>= λ paths. gitignore_hides_work disk >>= λ hides.
    ok (sort_dedup (paths ++ (if hides then gitignore ∷ [] else [])))

-- The entry of one candidate.
unfoldable pub audit_entry : Disk → Text → Result RunnerStateEntry IoError
audit_entry disk path =
    if text_eq path gitignore
    then (gitignore_hides_work disk >>= λ hides.
        if hides
        then ok (
            entry path config_churn (codes "broad _work ignore hides preserved runner state") true
              true)
        else classify_path disk path)
    else classify_path disk path

is_churn : RunnerStateClass → Bool
is_churn config_churn = true
is_churn live_runner_state = false
is_churn cache_state = false
is_churn git_kb_runtime = false
is_churn denied_sensitive = false
is_churn unclassified = false

add_duplicates : Text → Option ℕ → List (Text × ℕ) → List (Text × ℕ)
add_duplicates path none found = found
add_duplicates path (some n) found = Sorted.entry path (λ old. n) n found

-- With the duplicates in the file of the entry, if it is a gitconfig that is churn.
unfoldable pub duplicates_in :
    Disk → RunnerStateEntry → List (Text × ℕ) → Result (List (Text × ℕ)) IoError
unfolding is_churn add_duplicates
duplicates_in disk e found =
    if is_churn e.class && ends_with (codes ".gitconfig") e.path
    then (safe_directory_duplicates disk e.path >>= λ n. ok (add_duplicates e.path n found))
    else ok found

-- One round of the loop: the entry of a candidate of the slots, and the duplicates so far.
unfoldable pub audit_candidate :
    Disk
    → RunnerStateSlots
    → List (Text × ℕ)
    → Text
    → Result (List RunnerStateEntry × List (Text × ℕ)) IoError
audit_candidate disk slots found path =
    if matches_path slots path
    then (audit_entry disk path >>= λ e. duplicates_in disk e found >>= λ ds. ok (e ∷ [], ds))
    else ok ([], found)

unfoldable pub audit_entries :
    Disk
    → RunnerStateSlots
    → List (Text × ℕ)
    → List Text
    → Result (List RunnerStateEntry × List (Text × ℕ)) IoError
audit_entries disk slots found [] = ok ([], found)
audit_entries disk slots found (path ∷ paths) = audit_candidate disk slots found path >>= λ here.
    audit_entries disk slots here.1 paths >>= λ rest. ok (here.0 ++ rest.0, rest.1)

unfoldable pub insert_entry : RunnerStateEntry → List RunnerStateEntry → List RunnerStateEntry
insert_entry e [] = e ∷ []
insert_entry e (f ∷ entries) =
    if list_order.lt f.path e.path then f ∷ insert_entry e entries else e ∷ f ∷ entries

-- `entries.sort_by(|a, b| a.path.cmp(&b.path))`
unfoldable pub sort_entries : List RunnerStateEntry → List RunnerStateEntry
unfolding insert_entry
sort_entries [] = []
sort_entries (e ∷ entries) = insert_entry e (sort_entries entries)

-- The order of the classes.
unfoldable pub rank : RunnerStateClass → ℕ
rank live_runner_state = 0
rank cache_state = 1
rank config_churn = 2
rank git_kb_runtime = 3
rank denied_sensitive = 4
rank unclassified = 5

debug_name : RunnerStateClass → Text
debug_name live_runner_state = codes "LiveRunnerState"
debug_name cache_state = codes "CacheState"
debug_name config_churn = codes "ConfigChurn"
debug_name git_kb_runtime = codes "GitKbRuntime"
debug_name denied_sensitive = codes "DeniedSensitive"
debug_name unclassified = codes "Unclassified"

count_classes : List RunnerStateEntry → List (ℕ × ℕ) → List (ℕ × ℕ)
count_classes [] counts = counts
count_classes (e ∷ es) counts = count_classes es (Sorted.entry (rank e.class) (λ n. n + 1) 1 counts)

blockers_of : List RunnerStateEntry → List Text
unfolding debug_name
blockers_of [] = []
blockers_of (e ∷ es) =
    (if e.blocker
      then (debug_name e.class
          ++ (codes ": " ++ (e.path ++ (codes " (" ++ (e.reason ++ codes ")")))))
        ∷ []
      else [])
    ++ blockers_of es

is_unclassified : RunnerStateClass → Bool
is_unclassified unclassified = true
is_unclassified live_runner_state = false
is_unclassified cache_state = false
is_unclassified config_churn = false
is_unclassified git_kb_runtime = false
is_unclassified denied_sensitive = false

unclassified_of : List RunnerStateEntry → List Text
unfolding is_unclassified
unclassified_of [] = []
unclassified_of (e ∷ es) =
    (if is_unclassified e.class then e.path ∷ [] else []) ++ unclassified_of es

pub record RunnerStateAuditReport : Type 0 where
  pub strict : Bool
  pub entries : List RunnerStateEntry
  pub by_class : List (ℕ × ℕ)
  pub blockers : List Text
  pub unclassified_paths : List Text
  pub duplicate_safe_directories : List (Text × ℕ)
  pub active_processes : List Text

unfoldable pub report_on :
    Bool → List Text → List RunnerStateEntry → List (Text × ℕ) → RunnerStateAuditReport
unfolding count_classes blockers_of unclassified_of
report_on strict active entries duplicates =
    let sorted = sort_entries entries in
    record {
      strict = strict;
      entries = sorted;
      by_class = count_classes sorted [];
      blockers =
          blockers_of sorted
          ++ (if strict && not (is_empty active)
              then codes "active runner process gate is not idle" ∷ []
              else []);
      unclassified_paths = unclassified_of sorted;
      duplicate_safe_directories = duplicates;
      active_processes = active;
    }

unfoldable pub audit_runner_state :
    Disk → Listing → List Text → Bool → RunnerStateSlots → Result RunnerStateAuditReport IoError
audit_runner_state disk listing active strict slots = candidate_paths disk listing >>= λ paths.
    audit_entries disk slots [] paths >>= λ found. ok (report_on strict active found.0 found.1)
