-- ===== src/ForgeLoop/Manifest/Accepted.antt =====
-- Which manifests pass the checks (crates/runner-cli/src/forge_loop.rs).
use flexnetos_runner.Shared.{◌≡◌, refl, ◌↔◌, true, List, [], ◌∷◌, arith, ok, text_eq_iff}
use flexnetos_runner.External.{External}
use flexnetos_runner.ForgeLoop.Manifest.{
  CyclePhase, red, implement, gate, evaluate, research, upgrade, required_phases, phase_eq,
  phases_eq, Auth, CycleManifest, RunArgs, cycle_pr_title, prompt_hash_of, cycle_manifest,
  validate_cycle_manifest,
}

phase_eq_sound : (p q : CyclePhase) → phase_eq p q ≡ true → p ≡ q
unfolding phase_eq
phase_eq_sound red q h = ground arith
phase_eq_sound implement q h = ground arith
phase_eq_sound gate q h = ground arith
phase_eq_sound evaluate q h = ground arith
phase_eq_sound research q h = ground arith
phase_eq_sound upgrade q h = ground arith

phases_eq_sound : (ps qs : List CyclePhase) → phases_eq ps qs ≡ true → ps ≡ qs
unfolding phases_eq
phases_eq_sound [] [] h = refl
phases_eq_sound [] (q ∷ qs) h = cc
phases_eq_sound (p ∷ ps) [] h = cc
phases_eq_sound (p ∷ ps) (q ∷ qs) h = ground (arith, phase_eq_sound p q, phases_eq_sound ps qs)

phases_eq_required : phases_eq required_phases required_phases ≡ true
unfolding phases_eq
phases_eq_required = refl

module _ (ex : External) (auth : Auth) where
  -- The manifest that a run with the goal and the flags of `m` writes, but for what the environment
  -- says of the login.
  abbrev pub written_like : CycleManifest → CycleManifest
  written_like m =
      let args : RunArgs = record { goal = m.goal; auto_merge = m.auto_merge; once = m.once } in
      record (cycle_manifest ex auth args) {
        auth_mode = m.auth_mode;
        auth_status_command = m.auth_status_command;
        auth_verification_commands = m.auth_verification_commands;
      }

  -- What the checks ask.
  record Passes (m : CycleManifest) : Type 0 where
    version : m.schema_version ≡ 1
    title : m.pr_title ≡ cycle_pr_title m.goal
    prompt : m.prompt_sha256 ≡ prompt_hash_of ex auth m.goal m.auto_merge
    once : m.once ≡ true
    strict : m.strict_upgrade_only ≡ true
    phases : m.phases ≡ required_phases

  validate-Passes : (m : CycleManifest) → validate_cycle_manifest ex auth m ≡ ok tt → Passes m
  unfolding validate_cycle_manifest
  validate-Passes m h = ground (
    arith,
    text_eq_iff m.pr_title (cycle_pr_title m.goal),
    text_eq_iff m.prompt_sha256 (prompt_hash_of ex auth m.goal m.auto_merge),
    phases_eq_sound m.phases required_phases,
  )

  Passes-validate : (m : CycleManifest) → Passes m → validate_cycle_manifest ex auth m ≡ ok tt
  unfolding validate_cycle_manifest
  Passes-validate m p = ground (
    arith,
    text_eq_iff m.pr_title (cycle_pr_title m.goal),
    text_eq_iff m.prompt_sha256 (prompt_hash_of ex auth m.goal m.auto_merge),
    phases_eq_required,
  )

-- A manifest passes the checks exactly if it is for one cycle and is what a run with its goal and
-- flags writes, in the same environment, but for what it says of the login.
pub accepted_iff_written :
    (ex : External) (auth : Auth) (m : CycleManifest)
    → (validate_cycle_manifest ex auth m ≡ ok tt) ↔ ((m.once ≡ true) × (m ≡ written_like ex auth m))
unfolding cycle_manifest
accepted_iff_written ex auth m = (
  λ h. let p = validate-Passes ex auth m h in (p.once, ground arith),
  λ h. Passes-validate ex auth m (ground arith),
)
