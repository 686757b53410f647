-- ===== src/ForgeLoop/Publish.antt =====
-- What the outer engine publishes: publishable_paths_from_status, normalize_git_porcelain_path,
-- parse_pr_create_reference and command_invocation of crates/runner-cli/src/forge_loop.rs.
pub mod Git
pub mod Quoting
use mathlib.Core.List.{reverse}
use flexnetos_runner.Shared.{
  ℕ, ◌+◌, Bool, true, false, not, ◌&&◌, ◌||◌, Option, none, some, List, [], ◌∷◌, ◌++◌, leb, ◌==◌,
  if◌then◌else◌, is_empty, all, length, Result, ok, err, Text, codes, text_eq, trim, is_whitespace,
  starts_with, strip_prefix, contains,
}
use flexnetos_runner.ForgeLoop.Processes.{lines}
use flexnetos_runner.RunnerState.Class.{from_byte, renamed_to, ends_with}

-- A backslash and the character after it.
unfoldable pub escaped : ℕ → Text
escaped d =
    if d == 34
    then 34 ∷ []
    else if d == 92
    then 92 ∷ []
    else if d == 110
    then 10 ∷ []
    else if d == 116
    then 9 ∷ []
    else 92 ∷ d ∷ []

unfoldable pub unescape : Text → Text
unescape [] = []
unescape (c ∷ []) = c ∷ []
unescape (c ∷ d ∷ s) =
    let pair = escaped d ++ unescape s in
    let one = c ∷ unescape (d ∷ s) in if c == 92 then pair else one

unfoldable pub drop_last : Text → Text
drop_last [] = []
drop_last (c ∷ []) = []
drop_last (c ∷ d ∷ s) = c ∷ drop_last (d ∷ s)

drop_first : Text → Text
drop_first [] = []
drop_first (c ∷ s) = s

unfoldable pub is_quoted : Text → Bool
is_quoted path = starts_with (34 ∷ []) path && ends_with (34 ∷ []) path && leb 2 (length path)

unfoldable pub normalize_git_porcelain_path : Text → Text
unfolding drop_first
normalize_git_porcelain_path path =
    if not (is_quoted path) then path else unescape (drop_last (drop_first path))

is_publishable : Text → Bool
is_publishable path =
    not (text_eq path (codes "codex-forge-loop-output.md"))
    && not (starts_with (codes "_work/") path)
    && not (is_empty path)

publishable_path : Text → List Text
unfolding is_publishable
publishable_path line = elim (from_byte 3 line) [
  | none ↦ []
  | some rest ↦
      let path = normalize_git_porcelain_path (renamed_to (trim rest)) in
      if is_publishable path then path ∷ [] else []
]

publishable_lines : List Text → List Text
unfolding publishable_path
publishable_lines [] = []
publishable_lines (line ∷ rest) = publishable_path line ++ publishable_lines rest

unfoldable pub publishable_paths_from_status : Text → List Text
unfolding publishable_lines
publishable_paths_from_status status = publishable_lines (lines status)

-- `str::split_whitespace`
words_from : Text → Text → List Text
words_from word [] = if is_empty word then [] else word ∷ []
words_from word (c ∷ s) =
    let rest = words_from (if is_whitespace c then [] else word ++ c ∷ []) s in
    if is_whitespace c && not (is_empty word) then word ∷ rest else rest

unfoldable pub split_whitespace : Text → List Text
unfolding words_from
split_whitespace = words_from []

-- A comma, a full stop, a semicolon or a parenthesis.
is_mark : ℕ → Bool
is_mark c = c == 44 || c == 46 || c == 59 || c == 40 || c == 41

drop_marks : Text → Text
drop_marks [] = []
drop_marks (c ∷ s) = if is_mark c then drop_marks s else c ∷ s

trim_marks : Text → Text
unfolding is_mark drop_marks
trim_marks s = reverse (drop_marks (reverse (drop_marks s)))

is_number : Text → Bool
is_number s = not (is_empty s) && all (λ c. leb 48 c && leb c 57) s

find_url : List Text → Option Text
find_url [] = none
find_url (word ∷ rest) =
    let token = trim_marks word in
    let later = find_url rest in
    if (starts_with (codes "https://") token || starts_with (codes "http://") token)
      && contains (codes "/pull/") token
    then some token
    else later

number_in : Text → Option Text
number_in token = elim (strip_prefix (codes "#") token) [
  | none ↦ if is_number token then some token else none
  | some number ↦ if is_number number then some number else none
]

find_number : List Text → Option Text
find_number [] = none
find_number (word ∷ rest) =
    let later = find_number rest in
    elim (number_in (trim_marks word)) [ none ↦ later | some number ↦ some number ]

-- The last URL of a pull request, else the first number; the error carries the trimmed output.
unfoldable pub parse_pr_create_reference : Text → Result Text Text
unfolding trim_marks is_number number_in find_url find_number
parse_pr_create_reference output =
    let tokens = split_whitespace (trim output) in
    elim (find_url (reverse tokens)) [
      | some url ↦ ok url
      | none ↦ elim (find_number tokens) [ some number ↦ ok number | none ↦ err (trim output) ]
    ]

unfoldable pub command_invocation : Text → List Text → Text × List Text
command_invocation program args = (
  codes "rtk",
  (if text_eq program (codes "find") then codes "proxy" ∷ [] else []) ++ program ∷ args,
)
