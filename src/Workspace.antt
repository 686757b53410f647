-- ===== src/Workspace.antt =====
-- The guard of a job's work area, which cleans up once (crates/runner-core/src/workspace.rs).
pub mod Once
use flexnetos_runner.Shared.{
  ℕ, zero, suc, ◌+◌, ◌-◌, ◌*◌, ◌/◌, ◌%◌, ◌^◌, ◌≤◌, ◌<◌, min, max, String, ◌≡◌, refl, sym, ap, ◌∙◌,
  ◌≢◌, ◌↔◌, ◌⊎◌, inl, inr, Bool, true, false, not, ◌&&◌, ◌||◌, Option, none, some, List, [], ◌∷◌,
  ◌++◌, map, arith, ltb, leb, ◌==◌, if◌then◌else◌, or_else, unwrap_or, filter_some, is_some, Result,
  ok, err, length, take, drop, is_empty, any, all, Bool-cases, Option-cases, text_eq_iff,
  text_eq_refl, Text, codes, text_eq, is_whitespace, trim, to_ascii_lowercase, split, split_once,
  starts_with, contains, join, decimal, text_lt, strip_prefix, as_bytes, one_of, map_err, ok≢err,
  err-injective, ok-injective, ==_iff, length-append, Among, tests, ltb→lt, lt→ltb, leb→le, le→leb,
  &&_iff, append-nil, append_assoc, u32, u64, usize, u64_max, saturating_add, saturating_mul,
  saturating_sub, Float, IsIeee,
}

pub record TeardownReport : Type 0 where
  pub ran : Bool
  pub residue : Option Text

unfoldable pub is_clean : TeardownReport → Bool
is_clean t = not (is_some t.residue)

-- `cleanup` is what the injected closure will return when it runs; it is gone after that. `on_residue`
-- says whether a reporter is attached.
pub record JobWorkspace : Type 0 where
  pub root : Text
  pub cleanup : Option (Result (Unit {0}) Text)
  pub on_residue : Bool

-- What the closures have done: the roots that a cleanup ran on, and the calls of the reporter.
pub record World : Type 0 where
  pub cleaned : List Text
  pub reported : List (Text × Text)

-- `JobWorkspace::new`
unfoldable pub new_workspace : Text → Result (Unit {0}) Text → JobWorkspace
new_workspace root outcome = record { root = root; cleanup = some outcome; on_residue = false }

unfoldable pub with_residue_reporter : JobWorkspace → JobWorkspace
with_residue_reporter ws = record ws { on_residue = true }

abbrev run_on : Text → World → World
run_on root w = record w { cleaned = w.cleaned ++ root ∷ [] }

report_on : Result (Unit {0}) Text → JobWorkspace → World → World
report_on (ok _) ws w = w
report_on (err e) ws w =
    if ws.on_residue then record w { reported = w.reported ++ (ws.root, e) ∷ [] } else w

drop_on : Option (Result (Unit {0}) Text) → JobWorkspace → World → World
unfolding report_on
drop_on none ws w = w
drop_on (some outcome) ws w = report_on outcome ws (run_on ws.root w)

-- `impl Drop for JobWorkspace`
unfoldable pub drop_workspace : JobWorkspace → World → World
unfolding drop_on
drop_workspace ws w = drop_on ws.cleanup ws w

residue_of : Result (Unit {0}) Text → Option Text
residue_of (ok _) = none
residue_of (err e) = some e

teardown_on : Option (Result (Unit {0}) Text) → JobWorkspace → World → TeardownReport × World
unfolding residue_of
teardown_on none ws w = (record { ran = false; residue = none }, w)
teardown_on (some outcome) ws w =
    (record { ran = true; residue = residue_of outcome }, run_on ws.root w)

-- The workspace goes in by value, so that it is dropped at the end, without its cleanup.
unfoldable pub teardown : JobWorkspace → World → TeardownReport × World
unfolding teardown_on drop_workspace
teardown ws w =
    let (report, w') = teardown_on ws.cleanup ws w in
    (report, drop_workspace (record ws { cleanup = none }) w')
