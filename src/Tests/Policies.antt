-- ===== src/Tests/Policies.antt =====
-- The theorems on frames, the constitution and the policies, applied to concrete data.
use flexnetos_runner.Shared.{
  ℕ, ◌≤◌, ◌<◌, ◌≡◌, refl, sym, ap, ◌∙◌, inl, inr, arith, split, split_from, split_once,
  split_once_from, trim, trim_start, is_whitespace, to_ascii_lowercase, lower, one_of, ◌↔◌, ◌⊎◌,
  true, false, none, some, List, [], ◌∷◌, ◌++◌, if◌then◌else◌, ok, err, Text, codes, text_eq,
  contains, as_bytes, Among,
}
use flexnetos_runner.Authority
use flexnetos_runner.Authority.{AuthorityPolicy, Submitter, tier_or_guest}
use flexnetos_runner.Constitution.{intact, seal, verify}
use flexnetos_runner.Constitution.Seal.{Files, HasHash, verify-seal}
use flexnetos_runner.Deadline.{DeadlinePolicy, LivenessPolicy, requested, effective, effective_idle}
use flexnetos_runner.Deadline.Tighter.{IsTightest, effective-IsTightest}
use flexnetos_runner.Governor.{SurvivalTier}
use flexnetos_runner.Governor
use flexnetos_runner.Job.{JobSpec, class}
use flexnetos_runner.Lint.{structural_errors}
use flexnetos_runner.Lint.Blank.{NonBlank}
use flexnetos_runner.Lint.WellFormed.{IsKindOk, structural_errors_iff}
use flexnetos_runner.Router.{RouteCandidate, KernelPlan, atc, select_route}
use flexnetos_runner.Router.Best.{IsChosen, AreDistinct, select_route_best}
use flexnetos_runner.Scan
use flexnetos_runner.Scan.{Pattern, bank, fields_of, scan, blocks, block_at}
use flexnetos_runner.Scan.Blocks.{blocks_exact}
use flexnetos_runner.Shared.Int.{pos}
use flexnetos_runner.StateGate
use flexnetos_runner.StateGate.{StateGatePolicy}
use flexnetos_runner.StateGate.Words.{last_bound}
use flexnetos_runner.Classes.{rule_list, normalize_class}
use flexnetos_runner.StateGate.Degrades.{check_exact}
use flexnetos_runner.Tests.Demo.{external, external-IsSound, job_for}
use flexnetos_runner.Workspace.{World, teardown, drop_workspace, is_clean}
use flexnetos_runner.Workspace.Once
use flexnetos_runner.Workspace.Once.{built, succeeds, cleaned_once}
use flexnetos_runner.Redact.{from_secrets, min_secret_len, byte_len, redact}
use flexnetos_runner.Redact.Secrets.{IsLongestFirst, from_secrets_exact}
use flexnetos_runner.Wire.{sign_bytes, sign_frame, sign_envelope, verify_frame, verify_envelope}
use flexnetos_runner.Wire.Frame.{DispatchRequest}
use flexnetos_runner.Wire.RoundTrip.{Carries, verify_frame_exact, verify_frame-sign_frame}

abbrev key : List ℕ
key = 7 ∷ []

abbrev job : JobSpec
job = job_for (codes "j1")

abbrev signed : DispatchRequest
signed = record {
  spec_json = codes "j1";
  signature = sign_bytes external key (as_bytes (codes "j1"));
  envelope_signature = none;
  approval = none;
  submitter = none;
  deadline_secs = none;
  idle_timeout_secs = none;
}

abbrev sealed : DispatchRequest
sealed = record signed {
  envelope_signature = some (sign_bytes external key (signed.spec_json ++ signed.signature));
}

verify_frame_exact_example : (verify_frame external key signed ≡ ok job) ↔ (
    Carries external key (as_bytes signed.spec_json) signed.signature
    × (external.parse_spec signed.spec_json ≡ ok job))
verify_frame_exact_example = verify_frame_exact external key signed job external-IsSound

signs : sign_frame external key job ≡ ok signed
unfolding sign_frame text_eq codes
signs = refl

seals : sign_envelope external key signed ≡ ok sealed
unfolding sign_envelope
seals = refl

verify_frame-sign_frame_example :
    (verify_frame external key signed ≡ ok job)
    × (verify_envelope external key sealed ≡ ok tt)
    × (verify_frame external key sealed ≡ ok job)
verify_frame-sign_frame_example =
    verify_frame-sign_frame external key job signed sealed external-IsSound signs seals

-- A file that is read as its own name, and one whose contents changed.
abbrev before_edit : Files
before_edit name = some name

abbrev after_edit : Files
after_edit name = some (name ++ 10 ∷ [])

abbrev names : List Text
names = codes "AGENTS.md" ∷ codes "SOUL.md" ∷ []

verify-seal_example : (verify external (seal external names before_edit) after_edit ≡ intact) ↔ (
    (name h : Text)
    → Among name names
    → HasHash external before_edit name h
    → HasHash external after_edit name h)
verify-seal_example = verify-seal external names before_edit after_edit

blocks_exact_example : (blocks (block_at Scan.high) (scan job) ≡ true) ↔ (
    (field value : Text) × Among (field, value) (fields_of job)
    × ((p : Pattern) × Among p bank
        × (p.matches value ≡ true)
        × (Scan.rank Scan.high ≤ Scan.rank p.severity)))
blocks_exact_example = blocks_exact Scan.high job (unfold Scan.is_none in refl)

structural_errors_iff_example :
    (structural_errors job ≡ [])
    ↔ (NonBlank job.id × (NonBlank job.correlation_id × IsKindOk job.job))
structural_errors_iff_example = structural_errors_iff job

abbrev plan_for : Text → KernelPlan
plan_for id = record {
  kernel = atc;
  route_id = id;
  route_weight = pos 1;
  intent = id;
  repo = id;
  agent = none;
}

abbrev routes : List RouteCandidate
routes =
    record { id = codes "b"; weight = pos 1; plan = plan_for (codes "b") }
    ∷ record { id = codes "a"; weight = pos 1; plan = plan_for (codes "a") }
    ∷ []

b≢a : codes "b" ≡ codes "a" → ⊥
unfolding codes
b≢a e = ground arith

routes-distinct : AreDistinct routes
routes-distinct c d (inl i) (inr (inr j)) _ _ e = absurd j
routes-distinct c d (inr (inl i)) (inr (inr j)) _ _ e = absurd j
routes-distinct c d (inr (inr i)) j _ _ e = absurd i
routes-distinct c d (inl i) (inl j) _ _ e = sym i ∙ j
routes-distinct c d (inl i) (inr (inl j)) _ _ e =
    absurd (b≢a (ap (λ x. x.id) i ∙ e ∙ sym (ap (λ x. x.id) j)))
routes-distinct c d (inr (inl i)) (inl j) _ _ e =
    absurd (b≢a (ap (λ x. x.id) j ∙ sym e ∙ sym (ap (λ x. x.id) i)))
routes-distinct c d (inr (inl i)) (inr (inl j)) _ _ e = sym i ∙ j

select_route_best_example :
    (((select_route routes ≡ none) × (routes ≡ []))
      ⊎ ((c : RouteCandidate) × (select_route routes ≡ some c.plan)
          × Among c routes
          × IsChosen c routes))
    × ((ds : List RouteCandidate)
        → AreDistinct routes
        → ((c : RouteCandidate) → Among c routes ↔ Among c ds)
        → select_route routes ≡ select_route ds)
select_route_best_example = select_route_best routes

abbrev gate_rules : Text
gate_rules = codes "ci=distress, loop = full,cycle=conserve"

abbrev gates : StateGatePolicy
gates = record {
  ci_max = some Governor.distress;
  review_max = none;
  agent_max = none;
  cycle_max = some Governor.conserving;
}

gates-read : StateGate.from_rules gate_rules ≡ ok gates
unfolding StateGate.from_rules StateGate.parse_tier StateGate.allow_until StateGate.disabled
    StateGate.add_rules normalize_class rule_list split split_from split_once split_once_from trim
    trim_start is_whitespace to_ascii_lowercase lower one_of text_eq codes
gates-read = refl

check_exact_example :
    ((StateGate.check gates job Governor.distress ≡ StateGate.allowed) ↔ (
      (m : SurvivalTier)
      → last_bound job.job (rule_list gate_rules) ≡ some m
      → Governor.rank Governor.distress ≤ Governor.rank m))
    × ((m : SurvivalTier)
        → last_bound job.job (rule_list gate_rules) ≡ some m
        → Governor.rank m < Governor.rank Governor.distress
        → StateGate.check gates job Governor.distress
          ≡ StateGate.deferred (class job.job) Governor.distress m)
    × ((better : SurvivalTier)
        → Governor.rank better ≤ Governor.rank Governor.distress
        → StateGate.check gates job Governor.distress ≡ StateGate.allowed
        → StateGate.check gates job better ≡ StateGate.allowed)
check_exact_example = check_exact gate_rules gates job Governor.distress gates-read

abbrev floors : AuthorityPolicy
floors = record {
  ci_floor = none;
  review_floor = none;
  agent_floor = none;
  cycle_floor = some Authority.maintainer;
}

abbrev deadline : DeadlinePolicy
deadline = record { default_secs = some 60 }

abbrev liveness : LivenessPolicy
liveness = record { default_secs = none }

effective-IsTightest_example :
    IsTightest deadline.default_secs (requested (some 30)) (effective deadline (some 30))
    × IsTightest liveness.default_secs (requested (some 30)) (effective_idle liveness (some 30))
effective-IsTightest_example = effective-IsTightest deadline liveness (some 30)

cleaned_once_example :
    let ws = built (codes "/tmp/job") (err (codes "busy")) true in
    let w : World = record { cleaned = []; reported = [] } in
    let (report, torn) = teardown ws w in
    let dropped = drop_workspace ws w in
    (torn.cleaned ≡ w.cleaned ++ codes "/tmp/job" ∷ [])
    × (dropped.cleaned ≡ w.cleaned ++ codes "/tmp/job" ∷ [])
    × (is_clean report ≡ succeeds (err (codes "busy")))
    × (torn.reported ≡ w.reported)
    × (dropped.reported
        ≡ w.reported
          ++ (if true then Once.failures (codes "/tmp/job") (err (codes "busy")) else []))
cleaned_once_example =
    cleaned_once (codes "/tmp/job") (err (codes "busy")) true
      (record { cleaned = []; reported = [] })

abbrev candidates : List Text
candidates = codes "hunter2" ∷ codes "abc" ∷ codes "correct horse" ∷ codes "hunter2" ∷ []

from_secrets_exact_example :
    ((x : Text)
      → Among x (from_secrets candidates).secrets
        ↔ (Among x candidates × (min_secret_len ≤ byte_len x)))
    × IsLongestFirst (from_secrets candidates).secrets
    × ((text : Text)
        → ((x : Text) → Among x (from_secrets candidates).secrets → contains x text ≡ false)
        → redact (from_secrets candidates) text ≡ text)
from_secrets_exact_example = from_secrets_exact candidates
