-- ===== src/ForgeLoop/Processes.antt =====
-- The process tree under /proc: ProcInfo, parse_status_ppid, has_runner_worker_ancestor and
-- parse_nul_env of crates/runner-cli/src/forge_loop.rs. A file's bytes are the text that
-- from_utf8_lossy makes of them, which keeps every NUL.
pub mod Ancestors
use mathlib.Core.Option
use flexnetos_runner.Shared.{
  ℕ, zero, suc, ◌+◌, ◌-◌, ◌*◌, Bool, true, false, not, ◌&&◌, ◌||◌, Option, none, some, List, [],
  ◌∷◌, ◌++◌, map, ltb, leb, ◌==◌, if◌then◌else◌, is_empty, all, unwrap_or, filter_some, or_else,
  Text, codes, trim, split, split_once, strip_prefix, contains,
}
use flexnetos_runner.Shared.Order.{Order, ℕ_order, list_order}
use flexnetos_runner.Shared.Sorted

pub record ProcInfo : Type 0 where
  pub ppid : ℕ
  pub cmdline : Text

is_digit : ℕ → Bool
is_digit c = leb 48 c && leb c 57

value_from : ℕ → Text → ℕ
value_from n [] = n
value_from n (c ∷ s) = value_from (n * 10 + (c - 48)) s

parse_digits : Text → Option ℕ
unfolding is_digit value_from
parse_digits s =
    if not (is_empty s) && (all is_digit s && leb (value_from 0 s) 4294967295)
    then some (value_from 0 s)
    else none

-- `str::parse::<u32>`
unfoldable pub parse_u32 : Text → Option ℕ
unfolding parse_digits
parse_u32 [] = none
parse_u32 (c ∷ s) = if c == 43 then parse_digits s else parse_digits (c ∷ s)

-- A line without the carriage return before its end.
drop_return : Text → Text
drop_return [] = []
drop_return (c ∷ []) = if c == 13 then [] else c ∷ []
drop_return (c ∷ d ∷ s) = c ∷ drop_return (d ∷ s)

-- No empty line after the last line feed; only a line that ends in a line feed loses its return.
lines_of : List Text → List Text
unfolding drop_return
lines_of [] = []
lines_of (s ∷ []) = if is_empty s then [] else s ∷ []
lines_of (s ∷ t ∷ rest) = drop_return s ∷ lines_of (t ∷ rest)

-- `str::lines`
unfoldable pub lines : Text → List Text
unfolding lines_of
lines s = lines_of (split 10 s)

ppid_in : Text → Option ℕ
ppid_in line = elim (strip_prefix (codes "PPid:") line) [
  | none ↦ none
  | some value ↦ parse_u32 (trim value)
]

find_ppid : List Text → Option ℕ
unfolding ppid_in
find_ppid [] = none
find_ppid (line ∷ rest) = or_else (ppid_in line) (find_ppid rest)

unfoldable pub parse_status_ppid : Text → Option ℕ
unfolding find_ppid
parse_status_ppid status = find_ppid (lines status)

-- What can be read of a process: `none` for a file that cannot be.
pub record ProcFiles : Type 0 where
  pub file_name : Text
  pub status : Option Text
  pub cmdline : Option Text
  pub comm : Option Text
  pub environ : Option Text

spaced : Text → Text
spaced = map (λ c. if c == 0 then 32 else c)

unfoldable pub proc_info : ProcFiles → ProcInfo
unfolding spaced
proc_info p =
    let parent : Option ℕ = elim p.status [
      | none ↦ none
      | some status ↦ parse_status_ppid status
    ] in
    let cmd = Option.map (λ raw. trim (spaced raw)) p.cmdline in
    record {
      ppid = unwrap_or parent 0;
      cmdline =
          unwrap_or
            (or_else (filter_some (λ c. not (is_empty c)) cmd)
              (Option.map (λ comm. trim comm) p.comm))
            [];
    }

-- The last of two entries with one process number counts.
unfoldable pub proc_index : List ProcFiles → List (ℕ × ProcInfo) → List (ℕ × ProcInfo)
proc_index [] index = index
proc_index (p ∷ rest) index = proc_index rest (elim (parse_u32 p.file_name) [
  | none ↦ index
  | some pid ↦ Sorted.entry pid (λ old. proc_info p) (proc_info p) index
])

abbrev is_worker : ProcInfo → Bool
is_worker info = contains (codes "Runner.Worker") info.cmdline

-- The loop of has_runner_worker_ancestor on its variables, with fuel; `none` if the fuel runs out.
unfoldable pub climb : ℕ → Option ℕ → ℕ → List (ℕ × ProcInfo) → Option Bool
climb zero current depth index = none
climb (suc fuel) none depth index = some false
climb (suc fuel) (some candidate) depth index =
    if ltb 64 (depth + 1) then some false else elim (Sorted.get candidate index) [
      | none ↦ some false
      | some info ↦
          let on = climb fuel (some info.ppid) (depth + 1) index in
          if is_worker info
          then some true
          else if info.ppid == 0 || info.ppid == candidate
          then some false
          else on
    ]

-- The loop starts at most 65 rounds.
unfoldable pub has_runner_worker_ancestor : ℕ → List (ℕ × ProcInfo) → Bool
unfolding climb
has_runner_worker_ancestor pid index = unwrap_or (climb 66 (some pid) 0 index) false

-- `text.split_once('=')` of each non-empty entry; the last entry of a name counts.
unfoldable pub env_entries : List Text → List (Text × Text) → List (Text × Text)
env_entries [] env = env
env_entries (e ∷ rest) env = env_entries rest (
    if is_empty e then env else elim (split_once 61 e) [
      | none ↦ env
      | some (key, value) ↦ Sorted.entry key (λ old. value) value env
    ])

unfoldable pub parse_nul_env : Text → List (Text × Text)
unfolding env_entries
parse_nul_env raw = env_entries (split 0 raw) []
