-- ===== src/Release.antt =====
-- The release commands (crates/runner-cli/src/release.rs): the workspace's root, the tools and what
-- the release script is called with. The environment and the files are the fields of Host; the
-- script's run is an argument. A path is a text, absolute or not, that names no directory twice by
-- `//` or `.`.
use mathlib.Core.List.{reverse}
use flexnetos_runner.Shared.{
  ℕ, ◌/◌, ◌%◌, Bool, false, ◌&&◌, ◌||◌, Option, none, some, List, [], ◌∷◌, ◌++◌, ◌==◌, map,
  if◌then◌else◌, is_empty, Result, ok, err, Text, codes, join, split, or_else,
}

-- What a path's metadata say of it.
pub record Metadata : Type 0 where
  pub regular : Bool
  pub permissions : ℕ

pub record Host : Type 0 where
  pub variable : Text → Option Text
  pub metadata : Text → Option Metadata
  pub canonicalize : Text → Option Text
  pub current_exe : Option Text
  pub current_dir : Option Text

pub data Mode : Type 0 where
  build : Mode
  check : Mode

pub record ReleaseArgs : Type 0 where
  pub root : Option Text
  pub out : Option Text
  pub components : Option Text
  pub cargo : Option Text
  pub bun : Option Text

pub data ReleaseCommand : Type 0 where
  build_release : ReleaseArgs → ReleaseCommand
  check_release : ReleaseArgs → ReleaseCommand

pub record Prepared : Type 0 where
  pub script : Text
  pub args : List Text
  pub env : List (Text × Text)
  pub out_root : Text

pub data ReleaseError : Type 0 where
  no_root : ReleaseError
  no_script : Text → ReleaseError
  not_spawned : Text → ReleaseError
  failed : Text → Text → Text → ReleaseError

abbrev pub script_rel : Text
script_rel = codes "flexnetos_runner/scripts/build-local-ubuntu-release.sh"

join_after : ℕ → Text → Text → Text
join_after c [] rel = if c == 47 then rel else 47 ∷ rel
join_after _ (c ∷ s) rel = c ∷ join_after c s rel

-- `Path::join` with a relative path.
unfoldable pub join_path : Text → Text → Text
unfolding join_after
join_path [] rel = rel
join_path (c ∷ s) rel = c ∷ join_after c s rel

-- The directories above a path, the nearest first, after those that are given.
above : Text → Text → List Text → List Text
above before [] found = found
above before (c ∷ []) found = found
above before (c ∷ d ∷ s) found =
    above (c ∷ before) (d ∷ s)
      (if c == 47 then (if is_empty before then c ∷ [] else reverse before) ∷ found else found)

-- `Path::ancestors`: the path itself, then the directories above it.
unfoldable pub ancestors : Text → List Text
unfolding above
ancestors [] = [] ∷ []
ancestors (c ∷ s) = (c ∷ s) ∷ above [] (c ∷ s) (if c == 47 then [] else [] ∷ [])

unfoldable pub canonical_or_owned : Host → Text → Text
canonical_or_owned h path = elim (h.canonicalize path) [ none ↦ path | some p ↦ p ]

unfoldable pub is_file : Host → Text → Bool
is_file h path = elim (h.metadata path) [ none ↦ false | some m ↦ m.regular ]

-- Bit k of a mode, with 2 ^ k given.
has_bit : ℕ → ℕ → Bool
has_bit mode power = (mode / power) % 2 == 1

-- A regular file whose mode has one of the bits 0o111.
unfoldable pub is_executable : Host → Text → Bool
unfolding has_bit
is_executable h path = elim (h.metadata path) [
  | none ↦ false
  | some m ↦
      m.regular && (has_bit m.permissions 1 || has_bit m.permissions 8 || has_bit m.permissions 64)
]

holds_script : Host → Text → Bool
unfolding is_file join_path
holds_script h root = is_file h (join_path root script_rel)

discover_in : Host → List Text → Option Text
discover_in h [] = none
discover_in h (dir ∷ dirs) =
    if holds_script h dir then some (canonical_or_owned h dir) else discover_in h dirs

unfoldable pub discover_root_from : Host → Text → Option Text
unfolding discover_in holds_script
discover_root_from h start = discover_in h (ancestors start)

discover_from : Host → Option Text → Option Text
discover_from h none = none
discover_from h (some start) = discover_root_from h start

-- A variable that is set and not empty.
set_variable : Host → Text → Option Text
set_variable h name = elim (h.variable name) [
  | none ↦ none
  | some value ↦ if is_empty value then none else some value
]

canonical : Host → Option Text → Option Text
canonical h none = none
canonical h (some path) = some (canonical_or_owned h path)

abbrev workspace_root : Text
workspace_root = codes "/home/flexnetos/meta"

last_resort : Host → Option Text
last_resort h =
    if holds_script h workspace_root then some (canonical_or_owned h workspace_root) else none

unfoldable pub resolve_root : Host → Option Text → Result Text ReleaseError
unfolding canonical discover_from set_variable last_resort holds_script
resolve_root h explicit =
    elim (or_else (canonical h explicit) (
      or_else (canonical h (set_variable h (codes "FXRUN_WORKSPACE_ROOT"))) (
        or_else (canonical h (set_variable h (codes "FLEXNETOS_ROOT"))) (
          or_else (discover_from h h.current_exe)
            (or_else (discover_from h h.current_dir) (last_resort h)))))) [
              | none ↦ err no_root
              | some root ↦ ok root
            ]

first_executable : Host → List Text → Option Text
first_executable h [] = none
first_executable h (path ∷ paths) =
    if is_executable h path then some path else first_executable h paths

unfoldable pub which : Host → Text → Option Text
unfolding first_executable
which h program = elim (h.variable (codes "PATH")) [
  | none ↦ none
  | some path ↦ first_executable h (map (λ (dir : Text). join_path dir program) (split 58 path))
]

slot_cargo : Text → Text → Text
slot_cargo root slot = join_path root (
    codes "flexnetos_runner/_work/"
    ++ slot
    ++ codes "/.rustup/toolchains/stable-x86_64-unknown-linux-gnu/bin/cargo")

unfoldable pub resolve_cargo : Host → Text → Option Text → Option Text
unfolding slot_cargo first_executable set_variable
resolve_cargo h root explicit = or_else explicit (
    or_else (set_variable h (codes "FXRUN_CARGO")) (
      or_else
        (first_executable h (
          slot_cargo root (codes "runner-home-02") ∷ slot_cargo root (codes "runner-home-01") ∷ []))
        (which h (codes "cargo"))))

unfoldable pub resolve_bun : Host → Text → Option Text → Option Text
unfolding first_executable set_variable
resolve_bun h root explicit = or_else explicit (
    or_else (set_variable h (codes "FXRUN_BUN")) (
      or_else (first_executable h (join_path root (codes ".toolchains/.bun/bin/bun") ∷ []))
        (which h (codes "bun"))))

-- The pieces between commas and blanks, those that are empty left out: the one that is begun, last
-- character first, and the rest of the text.
pieces : Text → Text → List Text
pieces piece [] = if is_empty piece then [] else reverse piece ∷ []
pieces piece (c ∷ s) =
    let rest = pieces [] s in
    let longer = pieces (c ∷ piece) s in
    if c == 44 || c == 32 then (if is_empty piece then rest else reverse piece ∷ rest) else longer

unfoldable pub normalized_components : Text → Text
unfolding pieces
normalized_components s = join (codes " ") (pieces [] s)

unfoldable pub default_out_root : Text → Text
default_out_root root = join_path root (codes "release")

env_entry : Text → Option Text → List (Text × Text)
env_entry name none = []
env_entry name (some value) = (name, value) ∷ []

mode_args : Mode → List Text
mode_args build = []
mode_args check = codes "--check-only" ∷ []

out_args : Option Text → List Text
out_args none = []
out_args (some out) = codes "--out" ∷ out ∷ []

out_root_of : Text → Option Text → Text
out_root_of root none = default_out_root root
out_root_of root (some out) = out

components_value : Option Text → Option Text
components_value none = none
components_value (some components) = some (normalized_components components)

prepared_at : Host → Mode → ReleaseArgs → Text → Prepared
unfolding env_entry mode_args out_args out_root_of components_value
prepared_at h mode a root = record {
  script = join_path root script_rel;
  args = mode_args mode ++ out_args a.out;
  env =
      env_entry (codes "FXRUN_CARGO") (resolve_cargo h root a.cargo)
      ++ env_entry (codes "FXRUN_BUN") (resolve_bun h root a.bun)
      ++ env_entry (codes "FXRUN_RELEASE_COMPONENTS") (components_value a.components);
  out_root = out_root_of root a.out;
}

unfoldable pub prepare : Host → Mode → ReleaseArgs → Result Prepared ReleaseError
unfolding prepared_at holds_script
prepare h mode a = elim (resolve_root h a.root) [
  | err e ↦ err e
  | ok root ↦
      if holds_script h root
      then ok (prepared_at h mode a root)
      else err (no_script (join_path root script_rel))
]

-- How the script ended: it was not started, or its status, with the status's text.
pub data Status : Type 0 where
  unstarted : Status
  success : Status
  failure : Text → Status

label_of : Mode → Text
label_of build = codes "build"
label_of check = codes "check"

env_line : Text × Text → Text
env_line entry = codes "  env      : " ++ entry.0 ++ codes "=" ++ entry.1

announced : Mode → Prepared → List Text
unfolding label_of env_line
announced mode p =
    (codes "fxrun release " ++ label_of mode)
    ∷ (codes "  script   : " ++ p.script)
    ∷ (codes "  out_root : " ++ p.out_root)
    ∷ map env_line p.env

ended : Mode → Prepared → Status → Result (Unit {0}) ReleaseError
unfolding label_of
ended mode p unstarted = err (not_spawned p.script)
ended mode p success = ok tt
ended mode p (failure status) = err (failed (label_of mode) p.script status)

execute_mode :
    Host → (Prepared → Status) → Mode → ReleaseArgs → List Text × Result (Unit {0}) ReleaseError
unfolding announced ended
execute_mode h run mode a = elim (prepare h mode a) [
  | err e ↦ ([], err e)
  | ok p ↦ (announced mode p, ended mode p (run p))
]

-- The lines that are printed, and how the command ends.
unfoldable pub execute :
    Host → (Prepared → Status) → ReleaseCommand → List Text × Result (Unit {0}) ReleaseError
unfolding execute_mode
execute h run (build_release a) = execute_mode h run build a
execute h run (check_release a) = execute_mode h run check a
