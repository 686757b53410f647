-- ===== src/Scan.antt =====
-- The content scan of a job's free text (crates/runner-core/src/scan.rs).
pub mod Blocks
use flexnetos_runner.Shared.{
  ℕ, Bool, true, false, not, ◌&&◌, ◌||◌, Option, some, List, [], ◌∷◌, ◌++◌, map, ltb, leb, ◌==◌,
  if◌then◌else◌, is_some, any, Text, codes, text_eq, trim, to_ascii_lowercase, contains, join,
  one_of,
}
use flexnetos_runner.Job.{JobKind, ci, review_gate, agent_task, loop_cycle, JobSpec}

pub data Severity : Type 0 where
  none low medium high critical : Severity

abbrev pub rank : Severity → ℕ
rank none = 0
rank low = 1
rank medium = 2
rank high = 3
rank critical = 4

unfoldable pub label : Severity → Text
label none = codes "none"
label low = codes "low"
label medium = codes "medium"
label high = codes "high"
label critical = codes "critical"

severity_of : Text → Severity
severity_of s =
    if text_eq s (codes "low")
    then low
    else if one_of s (codes "medium" ∷ codes "med" ∷ [])
    then medium
    else if text_eq s (codes "high")
    then high
    else if one_of s (codes "critical" ∷ codes "crit" ∷ [])
    then critical
    else none

unfoldable pub parse : Text → Severity
unfolding severity_of
parse s = severity_of (to_ascii_lowercase (trim s))

pub record Finding : Type 0 where
  pub field : Text
  pub pattern_name : Text
  pub severity : Severity

pub record ScanReport : Type 0 where
  pub findings : List Finding

-- `max` keeps the later of two equal values, which is the same severity.
abbrev pub worse : Severity → Severity → Severity
worse a b = if leb (rank a) (rank b) then b else a

unfoldable pub max_from : Severity → List Finding → Severity
max_from worst [] = worst
max_from worst (f ∷ fs) = max_from (worse worst f.severity) fs

-- With no finding the severity is `none`, the least one.
unfoldable pub max_severity : ScanReport → Severity
unfolding max_from
max_severity r = max_from none r.findings

pub record Pattern : Type 0 where
  pub name : Text
  pub severity : Severity
  pub matches : Text → Bool

-- `v.contains(c)` at one character
abbrev has : ℕ → Text → Bool
has c v = any (λ d. d == c) v

-- `char::is_control`: the code points of the category Cc.
abbrev is_control : ℕ → Bool
is_control c = leb c 31 || leb 127 c && leb c 159

unfoldable pub nul_byte : Text → Bool
nul_byte v = has 0 v

unfoldable pub control_char : Text → Bool
control_char v = any (λ c. is_control c && not (c == 9) && not (c == 10) && not (c == 13)) v

unfoldable pub crlf_injection : Text → Bool
crlf_injection v = has 10 v || has 13 v

unfoldable pub command_substitution : Text → Bool
command_substitution v = contains (codes "$(") v || has 96 v || contains (codes "${") v

unfoldable pub path_traversal : Text → Bool
path_traversal v = contains (codes "../") v || contains (codes "..\\") v

unfoldable pub shell_metacharacter : Text → Bool
shell_metacharacter v = has 59 v || has 124 v || contains (codes "&&") v || has 38 v

unfoldable pub redirection : Text → Bool
redirection v = has 62 v || has 60 v

abbrev pattern_of : Text → Severity → (Text → Bool) → Pattern
pattern_of name severity matches = record { name = name; severity = severity; matches = matches }

unfoldable pub bank : List Pattern
bank =
    pattern_of (codes "nul-byte") critical nul_byte
    ∷ pattern_of (codes "control-char") high control_char
    ∷ pattern_of (codes "crlf-injection") high crlf_injection
    ∷ pattern_of (codes "command-substitution") high command_substitution
    ∷ pattern_of (codes "path-traversal") high path_traversal
    ∷ pattern_of (codes "shell-metacharacter") medium shell_metacharacter
    ∷ pattern_of (codes "redirection") low redirection
    ∷ []

unfoldable pub scan_bank : List Pattern → Text → Text → List Finding
scan_bank [] field value = []
scan_bank (p ∷ ps) field value =
    let rest = scan_bank ps field value in
    if p.matches value
    then record { field = field; pattern_name = p.name; severity = p.severity } ∷ rest
    else rest

unfoldable pub scan_value : Text → Text → List Finding
unfolding scan_bank
scan_value field value = scan_bank bank field value

-- The free-text fields of a kind, with their paths.
unfoldable pub kind_fields : JobKind → List (Text × Text)
kind_fields (ci repo head_sha) = (codes "job.repo", repo) ∷ (codes "job.head_sha", head_sha) ∷ []
kind_fields (review_gate repo pr_number head_sha agent) =
    (codes "job.repo", repo) ∷ (codes "job.head_sha", head_sha) ∷ []
kind_fields (agent_task repo prompt_ref agent) =
    (codes "job.repo", repo) ∷ (codes "job.prompt_ref", prompt_ref) ∷ []
kind_fields (loop_cycle repo task_id) =
    (codes "job.repo", repo) ∷ (codes "job.task_id", task_id) ∷ []

unfoldable pub scan_fields : List (Text × Text) → List Finding
scan_fields [] = []
scan_fields ((field, value) ∷ rest) = scan_value field value ++ scan_fields rest

unfoldable pub fields_of : JobSpec → List (Text × Text)
unfolding kind_fields
fields_of job =
    (codes "id", job.id) ∷ (codes "correlation_id", job.correlation_id) ∷ kind_fields job.job

unfoldable pub scan : JobSpec → ScanReport
unfolding scan_fields fields_of
scan job = record { findings = scan_fields (fields_of job) }

pub record ScanPolicy : Type 0 where
  pub block_threshold : Option Severity

unfoldable pub is_none : Severity → Bool
is_none none = true
is_none _ = false

unfoldable pub block_at : Severity → ScanPolicy
unfolding is_none
block_at s = record { block_threshold = if is_none s then Option.none else some s }

unfoldable pub disabled : ScanPolicy
disabled = record { block_threshold = Option.none }

unfoldable pub from_env : Text → ScanPolicy
from_env value = block_at (parse value)

unfoldable pub is_active : ScanPolicy → Bool
is_active p = is_some p.block_threshold

blocks_on : Option Severity → ScanReport → Bool
blocks_on Option.none r = false
blocks_on (some threshold) r = leb (rank threshold) (rank (max_severity r))

unfoldable pub blocks : ScanPolicy → ScanReport → Bool
unfolding blocks_on
blocks p r = blocks_on p.block_threshold r

show_finding : Finding → Text
show_finding f = f.field ++ codes " [" ++ label f.severity ++ codes "] " ++ f.pattern_name

-- A stable insertion, the worst severity first.
insert_worst : Finding → List Finding → List Finding
insert_worst f [] = f ∷ []
insert_worst f (g ∷ gs) =
    if ltb (rank f.severity) (rank g.severity) then g ∷ insert_worst f gs else f ∷ g ∷ gs

sort_worst : List Finding → List Finding
unfolding insert_worst
sort_worst [] = []
sort_worst (f ∷ fs) = insert_worst f (sort_worst fs)

unfoldable pub summary : ScanReport → Text
unfolding sort_worst show_finding
summary r = join (codes "; ") (map show_finding (sort_worst r.findings))
