-- ===== src/ForgeLoop/Docs.antt =====
-- Whether the ledger still queues what the code has: markdown_blocks_containing, block_is_queued and
-- docs_drift_report of crates/runner-cli/src/forge_loop.rs.
use flexnetos_runner.Shared.{
  ℕ, Bool, false, not, ◌&&◌, ◌||◌, none, some, List, [], ◌∷◌, ◌++◌, leb, if◌then◌else◌, is_empty,
  length, Text, codes, starts_with, contains, join, Result, ok, err, any,
}
use flexnetos_runner.ForgeLoop.Processes.{lines}
use flexnetos_runner.ForgeLoop.Repository.{Repository}

-- What the loop over the lines has so far; the lists are in order.
pub record Blocks : Type 0 where
  pub blocks : List Text
  pub current : List Text
  pub context : List Text

unfoldable pub flush : Blocks → Blocks
flush b =
    if is_empty b.current
    then b
    else record b { blocks = b.blocks ++ join (codes "\n") b.current ∷ []; current = [] }

is_section : Text → Bool
is_section line = starts_with (codes "## ") line

is_subsection : Text → Bool
is_subsection line = starts_with (codes "### ") line

keep_sections : List Text → List Text
unfolding is_section
keep_sections [] = []
keep_sections (heading ∷ context) =
    let rest = keep_sections context in if is_section heading then heading ∷ rest else rest

unfoldable pub enter : Text → Blocks → Blocks
unfolding keep_sections is_section is_subsection
enter line b =
    if is_section line || is_subsection line
    then record (flush b) {
      context = (if is_subsection line then keep_sections b.context else []) ++ line ∷ [];
    }
    else b

starts_with_digit : Text → Bool
starts_with_digit [] = false
starts_with_digit (c ∷ s) = leb 48 c && leb c 57

unfoldable pub starts_block : Text → Bool
unfolding starts_with_digit
starts_block line =
    starts_with (codes "- ") line || starts_with_digit line && contains (codes ". **") line

unfoldable pub take_line : Text → Blocks → Blocks
take_line line b =
    let entered = enter line b in
    let ready =
      if starts_block line then record (flush entered) { current = entered.context } else entered in
    record ready { current = ready.current ++ line ∷ [] }

unfoldable pub take_lines : List Text → Blocks → Blocks
take_lines [] b = b
take_lines (line ∷ rest) b = take_lines rest (take_line line b)

unfoldable pub blocks_with : Text → List Text → List Text
blocks_with needle [] = []
blocks_with needle (block ∷ blocks) =
    let rest = blocks_with needle blocks in if contains needle block then block ∷ rest else rest

unfoldable pub markdown_blocks_containing : Text → Text → List Text
markdown_blocks_containing text needle =
    let done = take_lines (lines text) (record { blocks = []; current = []; context = [] }) in
    blocks_with needle (flush done).blocks

unfoldable pub block_is_queued : Text → Bool
block_is_queued block =
    if contains (codes "APPLIED") block
    then false
    else any (λ mark. contains mark block)
        (codes "**Queued"
          ∷ codes "— Queued"
          ∷ codes "- ▷"
          ∷ codes "queued after"
          ∷ codes "still said “Queued”"
          ∷ codes "deep code audit backlog"
          ∷ codes "Tier 0"
          ∷ codes "Tier 1"
          ∷ codes "Tier 2"
          ∷ [])

pub record AppliedDocFeature : Type 0 where
  pub title : Text
  pub module_path : Text

abbrev feature : Text → Text → AppliedDocFeature
feature title module_path = record { title = title; module_path = module_path }

abbrev pub applied_doc_features : List AppliedDocFeature
applied_doc_features =
    feature (codes "State-gated route admission") (codes "crates/runner-core/src/stategate.rs")
    ∷ feature (codes "Deterministic route-selection contract")
        (codes "crates/runner-core/src/router.rs")
    ∷ feature (codes "Idle / liveness watchdog") (codes "crates/runner-core/src/liveness.rs")
    ∷ feature (codes "Delegation-target allowlist") (codes "crates/runner-core/src/targets.rs")
    ∷ feature (codes "Per-target single-flight mutex")
        (codes "crates/runner-core/src/singleflight.rs")
    ∷ feature (codes "Rule-citation audit schema") (codes "crates/runner-core/src/events.rs")
    ∷ []

queued_drift : AppliedDocFeature → List Text → List Text
queued_drift f [] = []
queued_drift f (block ∷ blocks) =
    let rest = queued_drift f blocks in
    if block_is_queued block
    then (f.title
        ++ (codes " exists at "
            ++ (f.module_path ++ codes " but is still documented as queued/backlog work")))
      ∷ rest
    else rest

unfoldable pub feature_drift : Repository → Text → AppliedDocFeature → List Text
unfolding queued_drift
feature_drift root ledger f =
    let found = markdown_blocks_containing ledger f.title in
    if not (root.exists f.module_path)
    then []
    else if is_empty found
    then (f.title
        ++ (codes " exists at "
            ++ (f.module_path ++ codes " but is missing from docs/kclaw0-upgrade-ledger.md")))
      ∷ []
    else queued_drift f found

unfoldable pub drift_of : Repository → Text → List AppliedDocFeature → List Text
drift_of root ledger [] = []
drift_of root ledger (f ∷ features) = feature_drift root ledger f ++ drift_of root ledger features

pub record DocsDriftReport : Type 0 where
  pub checked_features : ℕ
  pub drift : List Text

-- The error names the ledger that cannot be read.
unfoldable pub docs_drift_report : Repository → Result DocsDriftReport Text
docs_drift_report root = elim (root.read (codes "docs/kclaw0-upgrade-ledger.md")) [
  | none ↦ err (codes "docs/kclaw0-upgrade-ledger.md")
  | some ledger ↦ ok (record {
    checked_features = length applied_doc_features;
    drift = drift_of root ledger applied_doc_features;
  })
]
