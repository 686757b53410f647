-- ===== src/RunnerState/Normalize.antt =====
-- normalize_runner_state and settle_runner_state of crates/runner-cli/src/runner_state.rs. The
-- listings and the processes of each audit, and the git commands, are parameters.
use flexnetos_runner.Shared.{
  Bool, false, not, ◌&&◌, List, [], ◌∷◌, ◌++◌, if◌then◌else◌, is_empty, Result, ok, err, map_err,
  ◌>>=◌, Text, codes, text_eq, join,
}
use flexnetos_runner.RunnerState.Disk.{
  Disk, IoError, gitignore, dedupe_safe_directories, rewrite_gitignore_without_broad_work_ignore,
  remove,
}
use flexnetos_runner.RunnerState.Class.{
  RunnerStateClass, live_runner_state, cache_state, config_churn, git_kb_runtime, denied_sensitive,
  unclassified, RunnerStateEntry, RunnerStateSlots, ends_with,
}
use flexnetos_runner.RunnerState.Audit.{Listing, RunnerStateAuditReport, audit_runner_state}

pub record Paths : Type 0 where
  pub normalized_paths : List Text
  pub removed_runtime_paths : List Text
  pub preserved_paths : List Text

abbrev pub no_paths : Paths
no_paths = record { normalized_paths = []; removed_runtime_paths = []; preserved_paths = [] }

unfoldable pub normalized : Text → Paths → Paths
normalized p l = record l { normalized_paths = l.normalized_paths ++ p ∷ [] }

unfoldable pub removed : Text → Paths → Paths
removed p l = record l { removed_runtime_paths = l.removed_runtime_paths ++ p ∷ [] }

unfoldable pub preserved : Text → Paths → Paths
preserved p l = record l { preserved_paths = l.preserved_paths ++ p ∷ [] }

-- What the loop does with one entry, by its class.
unfoldable pub settle_entry :
    Bool → RunnerStateClass → Text → Disk → Paths → Result (Disk × Paths) IoError
settle_entry dry config_churn path disk l =
    if ends_with (codes ".gitconfig") path
    then ((if dry then ok disk else dedupe_safe_directories disk path) >>= λ d.
        ok (d, normalized path l))
    else if text_eq path gitignore
    then ((if dry then ok disk else rewrite_gitignore_without_broad_work_ignore disk) >>= λ d.
        ok (d, normalized path l))
    else ok (disk, preserved path l)
settle_entry dry git_kb_runtime path disk l =
    ok (if dry then disk else remove path disk, removed path l)
settle_entry dry live_runner_state path disk l = ok (disk, preserved path l)
settle_entry dry cache_state path disk l = ok (disk, preserved path l)
settle_entry dry denied_sensitive path disk l = ok (disk, preserved path l)
settle_entry dry unclassified path disk l = ok (disk, preserved path l)

unfoldable pub settle_entries :
    Bool → List RunnerStateEntry → Disk → Paths → Result (Disk × Paths) IoError
settle_entries dry [] disk l = ok (disk, l)
settle_entries dry (e ∷ es) disk l =
    settle_entry dry e.class e.path disk l >>= λ p. settle_entries dry es p.0 p.1

pub record RunnerStateNormalizeReport : Type 0 where
  pub dry_run : Bool
  pub paths : Paths
  pub audit_before : RunnerStateAuditReport
  pub audit_after : RunnerStateAuditReport

-- What the program asks of the system around it.
pub record System : Type 0 where
  pub listing : Disk → Listing
  pub active : Disk → List Text
  pub commit_snapshot : Disk → Text → Result (Unit {0}) IoError
  pub push_pr : Disk → Bool → Result (Unit {0}) IoError

module _ (sys : System) where
  audit_with : Disk → Bool → RunnerStateSlots → Result RunnerStateAuditReport IoError
  audit_with disk strict slots =
      audit_runner_state disk (sys.listing disk) (sys.active disk) strict slots

  unfoldable pub normalize_runner_state :
      Disk → Bool → RunnerStateSlots → Result (Disk × RunnerStateNormalizeReport) IoError
  unfolding audit_with
  normalize_runner_state disk dry slots = audit_with disk false slots >>= λ before.
      settle_entries dry before.entries disk no_paths >>= λ (p : Disk × Paths).
      audit_with p.0 false slots >>= λ after.
      ok (p.0, record { dry_run = dry; paths = p.1; audit_before = before; audit_after = after })

pub data SettleError : Type 0 where
  not_idle : Text → SettleError
  push_without_commit : SettleError
  failed : IoError → SettleError

pub record RunnerStateSettleOptions : Type 0 where
  pub slots : RunnerStateSlots
  pub require_idle : Bool
  pub force : Bool
  pub commit : Bool
  pub message : Text
  pub push : Bool
  pub automerge : Bool
  pub dry_run : Bool
  pub strict : Bool

pub record RunnerStateSettleReport : Type 0 where
  pub paths : Paths
  pub actions : List Text
  pub audit_after : RunnerStateAuditReport

module _ (sys : System) where
  commit_step : RunnerStateSettleOptions → Disk → Result (List Text) SettleError
  commit_step o disk =
      if not o.commit
      then ok []
      else if o.dry_run
      then ok ((codes "dry-run: would commit snapshot: " ++ o.message) ∷ [])
      else (map_err failed (sys.commit_snapshot disk o.message) >>= λ done.
          ok ((codes "committed snapshot: " ++ o.message) ∷ []))

  push_step : RunnerStateSettleOptions → Disk → Result (List Text) SettleError
  push_step o disk =
      if not o.push
      then ok []
      else if not o.commit
      then err push_without_commit
      else if o.dry_run
      then ok (codes "dry-run: would push branch and create PR" ∷ [])
      else (map_err failed (sys.push_pr disk o.automerge) >>= λ done.
          ok (codes "pushed branch and created PR" ∷ []))

  -- On an error the files that were changed by then are not told.
  unfoldable pub settle_runner_state :
      Disk → RunnerStateSettleOptions → Result (Disk × RunnerStateSettleReport) SettleError
  unfolding commit_step push_step
  settle_runner_state disk o =
      if o.require_idle && not o.force && not (is_empty (sys.active disk))
      then err (not_idle (join (codes " | ") (sys.active disk)))
      else (map_err failed (normalize_runner_state sys disk o.dry_run o.slots)
          >>= λ (n : Disk × RunnerStateNormalizeReport). commit_step o n.0 >>= λ committed.
              push_step o n.0 >>= λ pushed.
              map_err failed
                (audit_runner_state n.0 (sys.listing n.0) (sys.active n.0) o.strict o.slots)
              >>= λ after. ok (
                n.0,
                record { paths = n.1.paths; actions = committed ++ pushed; audit_after = after },
              ))
