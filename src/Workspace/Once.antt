-- ===== src/Workspace/Once.antt =====
-- The cleanup runs once on each way out (crates/runner-core/src/workspace.rs).
use flexnetos_runner.Shared.{
  ◌≡◌, refl, sym, Bool, true, false, List, [], ◌∷◌, ◌++◌, if◌then◌else◌, Result, ok, err, Text,
  append-nil,
}
use flexnetos_runner.Workspace.{
  JobWorkspace, World, new_workspace, with_residue_reporter, drop_workspace, teardown, is_clean,
}

-- The workspace, with a reporter or without.
abbrev pub built : Text → Result (Unit {0}) Text → Bool → JobWorkspace
built root outcome false = new_workspace root outcome
built root outcome true = with_residue_reporter (new_workspace root outcome)

abbrev pub failures : Text → Result (Unit {0}) Text → List (Text × Text)
failures root (ok _) = []
failures root (err e) = (root, e) ∷ []

abbrev pub succeeds : Result (Unit {0}) Text → Bool
succeeds (ok _) = true
succeeds (err e) = false

-- A workspace that is torn down and one that is only dropped run their cleanup once each. The teardown
-- is clean exactly if the cleanup succeeds, and calls no reporter; the drop calls it, if there is one,
-- exactly if the cleanup fails.
pub cleaned_once :
    (root : Text) (outcome : Result (Unit {0}) Text) (reporter : Bool) (w : World)
    → let ws = built root outcome reporter in
      let (report, torn) = teardown ws w in
      let dropped = drop_workspace ws w in
      (torn.cleaned ≡ w.cleaned ++ root ∷ [])
      × (dropped.cleaned ≡ w.cleaned ++ root ∷ [])
      × (is_clean report ≡ succeeds outcome)
      × (torn.reported ≡ w.reported)
      × (dropped.reported ≡ w.reported ++ (if reporter then failures root outcome else []))
unfolding new_workspace with_residue_reporter drop_workspace teardown is_clean
cleaned_once root (ok u) false w = (refl, refl, refl, refl, sym (append-nil w.reported))
cleaned_once root (ok u) true w = (refl, refl, refl, refl, sym (append-nil w.reported))
cleaned_once root (err e) false w = (refl, refl, refl, refl, sym (append-nil w.reported))
cleaned_once root (err e) true w = (refl, refl, refl, refl, refl)
