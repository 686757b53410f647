-- ===== src/RunnerState/Disk.antt =====
-- The files that runner_state.rs reads and writes (crates/runner-cli/src/runner_state.rs), by their
-- path from the root: reading, the duplicates in a gitconfig, and the rules of a .gitignore. A write
-- that is begun is taken to succeed.
use flexnetos_runner.Shared.{
  ℕ, ◌+◌, Bool, false, not, ◌&&◌, ◌||◌, Option, none, some, List, [], ◌∷◌, ◌++◌, if◌then◌else◌, any,
  is_empty, Result, ok, err, Text, codes, text_eq, trim, join, starts_with, strip_prefix, one_of,
}
use flexnetos_runner.ForgeLoop.Processes.{lines}

-- What a read of a file gives.
pub data Read : Type 0 where
  absent : Read
  unreadable : Read
  text : Text → Read

abbrev pub Disk : Type 0
Disk = Text → Read

pub data IoError : Type 0 where
  read_failed : Text → IoError

unfoldable pub write : Text → Text → Disk → Disk
write path content disk p = if text_eq p path then text content else disk p

-- The file, or the directory with all that is below it.
unfoldable pub remove : Text → Disk → Disk
remove path disk p = if text_eq p path || starts_with (path ++ codes "/") p then absent else disk p

unfoldable pub directory_in : Text → Option Text
directory_in line = elim (strip_prefix (codes "directory = ") (trim line)) [
  | none ↦ none
  | some value ↦ some (trim value)
]

-- The lines that name a directory which a line before them names.
unfoldable pub count_duplicates : List Text → List Text → ℕ
count_duplicates seen [] = 0
count_duplicates seen (line ∷ rest) = elim (directory_in line) [
  | none ↦ count_duplicates seen rest
  | some d ↦ (if one_of d seen then 1 else 0) + count_duplicates (d ∷ seen) rest
]

unfoldable pub keep_first : List Text → List Text → List Text
keep_first seen [] = []
keep_first seen (line ∷ rest) = elim (directory_in line) [
  | none ↦ line ∷ keep_first seen rest
  | some d ↦ (if one_of d seen then [] else line ∷ []) ++ keep_first (d ∷ seen) rest
]

unfoldable pub safe_directory_duplicates : Disk → Text → Result (Option ℕ) IoError
safe_directory_duplicates disk path = elim (disk path) [
  | absent ↦ ok none
  | unreadable ↦ err (read_failed path)
  | text t ↦ ok (some (count_duplicates [] (lines t)))
]

unfoldable pub dedupe_safe_directories : Disk → Text → Result Disk IoError
dedupe_safe_directories disk path = elim (disk path) [
  | absent ↦ err (read_failed path)
  | unreadable ↦ err (read_failed path)
  | text t ↦ ok (write path (join (codes "\n") (keep_first [] (lines t)) ++ codes "\n") disk)
]

-- A rule that hides the whole of _work.
unfoldable pub hides_work : Text → Bool
hides_work line =
    let trimmed = trim line in
    not (starts_with (codes "#") trimmed)
    && not (starts_with (codes "!") trimmed)
    && one_of trimmed (codes "_work" ∷ codes "_work/" ∷ codes "/_work" ∷ codes "/_work/" ∷ [])

abbrev pub gitignore : Text
gitignore = codes ".gitignore"

unfoldable pub gitignore_hides_work : Disk → Result Bool IoError
gitignore_hides_work disk = elim (disk gitignore) [
  | absent ↦ ok false
  | unreadable ↦ err (read_failed gitignore)
  | text t ↦ ok (any hides_work (lines t))
]

unfoldable pub without_rules : List Text → List Text
without_rules [] = []
without_rules (line ∷ rest) = (if hides_work line then [] else line ∷ []) ++ without_rules rest

unfoldable pub rewrite_gitignore_without_broad_work_ignore : Disk → Result Disk IoError
rewrite_gitignore_without_broad_work_ignore disk = elim (disk gitignore) [
  | absent ↦ err (read_failed gitignore)
  | unreadable ↦ err (read_failed gitignore)
  | text t ↦
      let kept = join (codes "\n") (without_rules (lines t)) in
      ok (write gitignore (if is_empty kept then kept else kept ++ codes "\n") disk)
]
