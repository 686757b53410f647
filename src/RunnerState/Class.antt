-- ===== src/RunnerState/Class.antt =====
-- The classes of paths: parse_git_status_paths, classify_path and RunnerStateSlots of
-- crates/runner-cli/src/runner_state.rs.
use mathlib.Core.List.{reverse}
use flexnetos_runner.Shared.{
  ℕ, zero, suc, ◌+◌, ◌-◌, ◌/◌, ◌%◌, Bool, true, false, ◌&&◌, ◌||◌, Option, none, some, List, [],
  ◌∷◌, ◌++◌, map, ltb, leb, ◌==◌, if◌then◌else◌, Result, ok, ◌>>=◌, unwrap_or, Text, codes, text_eq,
  to_ascii_lowercase, split, starts_with, contains, one_of,
}
use flexnetos_runner.ForgeLoop.Processes.{lines}
use flexnetos_runner.RunnerState.Disk.{Disk, IoError, gitignore, safe_directory_duplicates}

unfoldable pub ends_with : Text → Text → Bool
ends_with suffix s = starts_with (reverse suffix) (reverse s)

utf8_len : ℕ → ℕ
utf8_len c = if ltb c 128 then 1 else if ltb c 2048 then 2 else if ltb c 65536 then 3 else 4

-- `line.get(n..)`: none past the end or inside a character.
unfoldable pub from_byte : ℕ → Text → Option Text
unfolding utf8_len
from_byte zero s = some s
from_byte (suc n) [] = none
from_byte (suc n) (c ∷ s) =
    let rest = from_byte (suc n - utf8_len c) s in if leb (utf8_len c) (suc n) then rest else none

-- `path.split(" -> ").last()`: what stands after the last separator, with `skip` characters of the
-- one just met still to pass.
last_piece : ℕ → Text → Text → Text
last_piece skip piece [] = piece
last_piece (suc skip) piece (c ∷ s) = last_piece skip piece s
last_piece zero piece (c ∷ s) =
    let met = starts_with (codes " -> ") (c ∷ s) in
    last_piece (if met then 3 else 0) (if met then [] else piece ++ c ∷ []) s

unfoldable pub renamed_to : Text → Text
unfolding last_piece
renamed_to = last_piece 0 []

drop_quotes : Text → Text
drop_quotes [] = []
drop_quotes (c ∷ s) = if c == 34 then drop_quotes s else c ∷ s

-- `path.trim_matches('"').replace('\\', "/")`
unquoted : Text → Text
unfolding drop_quotes
unquoted s = map (λ c. if c == 92 then 47 else c) (reverse (drop_quotes (reverse (drop_quotes s))))

is_candidate : Text → Bool
is_candidate path =
    starts_with (codes "_work/") path || starts_with (codes ".kb/") path || text_eq path gitignore

status_path : Text → List Text
unfolding unquoted is_candidate
status_path line = elim (from_byte 3 line) [
  | none ↦ []
  | some rest ↦ let path = unquoted (renamed_to rest) in if is_candidate path then path ∷ [] else []
]

status_paths : List Text → List Text
unfolding status_path
status_paths [] = []
status_paths (line ∷ rest) = status_path line ++ status_paths rest

unfoldable pub parse_git_status_paths : Text → List Text
unfolding status_paths
parse_git_status_paths status = status_paths (lines status)

pub data RunnerStateClass : Type 0 where
  live_runner_state cache_state config_churn git_kb_runtime denied_sensitive unclassified :
      RunnerStateClass

pub record RunnerStateEntry : Type 0 where
  pub path : Text
  pub class : RunnerStateClass
  pub reason : Text
  pub normalized : Bool
  pub blocker : Bool

abbrev pub entry : Text → RunnerStateClass → Text → Bool → Bool → RunnerStateEntry
entry path class reason normalized blocker = record {
  path = path;
  class = class;
  reason = reason;
  normalized = normalized;
  blocker = blocker;
}

unfoldable pub is_denied_sensitive_path : Text → Text → Bool
is_denied_sensitive_path path_lower file_name =
    one_of file_name (codes ".runner" ∷ codes ".credentials" ∷ codes ".credentials_rsaparams" ∷ [])
    || one_of file_name (codes ".env" ∷ codes ".service" ∷ [])
      && contains (codes "_work/repos/actions-runner-") path_lower
    || contains (codes "token") path_lower
    || contains (codes "secret") path_lower

last_of : Text → List Text → Text
last_of d [] = d
last_of d (s ∷ rest) = last_of s rest

-- `path.rsplit('/').next()`
unfoldable pub file_name_of : Text → Text
unfolding last_of
file_name_of path = last_of path (split 47 path)

abbrev pub is_sensitive : Text → Bool
is_sensitive path = is_denied_sensitive_path (to_ascii_lowercase path) (file_name_of path)

gitconfig_entry : Text → Option ℕ → RunnerStateEntry
gitconfig_entry path duplicates =
    if ltb 0 (unwrap_or duplicates 0)
    then entry path config_churn (codes "duplicate safe.directory entries") true false
    else entry path live_runner_state
        (codes "runner-home gitconfig without duplicate safe.directory churn") false false

-- The rules that do not read a file.
path_entry : Text → RunnerStateEntry
path_entry path =
    if contains (codes "/_pipelinemapping/") path
      || ends_with (codes "PipelineFolder.json") path
      || text_eq (file_name_of path) (codes ".runner_migrated")
    then entry path live_runner_state
        (codes "live runner state must be snapshotted or left to active owner") false false
    else if contains (codes "/.cache/kache/") path
        || contains (codes "/.cache/envctl/") path
        || ends_with (codes "/.cargo/.global-cache") path
        || contains (codes "/.cargo/") path
    then entry path cache_state (codes "cache state is compression/snapshot eligible, not hidden")
        false false
    else if starts_with (codes "_work/") path
    then entry path live_runner_state (codes "preserved _work topology/state") false false
    else entry path unclassified (codes "no runner-state classification rule matched") false true

unfoldable pub classify_path : Disk → Text → Result RunnerStateEntry IoError
unfolding gitconfig_entry path_entry
classify_path disk path =
    if is_sensitive path
    then ok (
        entry path denied_sensitive (codes "runner identity/credential path fails closed") false
          true)
    else if starts_with (codes ".kb/store") path
    then ok (
        entry path git_kb_runtime
          (codes "GitKB durable store evidence is preserved for the task ledger") false false)
    else if starts_with (codes ".kb/.cache") path || starts_with (codes ".kb/workspaces") path
    then ok (
        entry path git_kb_runtime
          (codes "GitKB runtime cache/workspace can be cleaned after git-kb status/fsck") true
          false)
    else if text_eq path gitignore
    then ok (entry path config_churn (codes "broad _work ignore must be removed") true true)
    else if ends_with (codes ".gitconfig") path && contains (codes "_work/runner-home-") path
    then (safe_directory_duplicates disk path >>= λ n. ok (gitconfig_entry path n))
    else ok (path_entry path)

pub data RunnerStateSlots : Type 0 where
  all_slots : RunnerStateSlots
  slot : ℕ → RunnerStateSlots

-- `RunnerStateSlots::parse`
unfoldable pub parse_slots : Text → Option RunnerStateSlots
parse_slots raw =
    if text_eq raw (codes "all")
    then some all_slots
    else if one_of raw (codes "01" ∷ codes "1" ∷ [])
    then some (slot 1)
    else if one_of raw (codes "02" ∷ codes "2" ∷ [])
    then some (slot 2)
    else none

-- `{slot:02}` of a number below 100
slot_name : ℕ → Text
slot_name n = (48 + n / 10) ∷ (48 + n % 10) ∷ []

unfoldable pub matches_path : RunnerStateSlots → Text → Bool
unfolding slot_name
matches_path all_slots path = true
matches_path (slot n) path =
    contains (codes "runner-home-" ++ slot_name n) path
    || contains (codes "actions-runner-" ++ (slot_name n ++ codes "-work")) path
    || contains (codes "actions-runner-" ++ slot_name n) path
