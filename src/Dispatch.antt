-- ===== src/Dispatch.antt =====
-- The dispatcher's decision for one frame (`handle_request` of crates/runner-dispatch/src/main.rs).
pub mod Steps
pub mod Admission
pub mod Flight
pub mod Delegate
pub mod Turns
pub mod Cleared
pub mod Ends
pub mod Audit
pub mod Budget
pub mod Accepted
pub mod Passes
pub mod Failures
use flexnetos_runner.Shared.{
  ℕ, zero, suc, ◌+◌, ◌-◌, ◌*◌, ◌/◌, ◌%◌, ◌^◌, ◌≤◌, ◌<◌, min, max, String, ◌≡◌, refl, sym, ap, ◌∙◌,
  ◌≢◌, ◌↔◌, ◌⊎◌, inl, inr, Bool, true, false, not, ◌&&◌, ◌||◌, Option, none, some, List, [], ◌∷◌,
  ◌++◌, map, arith, ltb, leb, ◌==◌, if◌then◌else◌, or_else, unwrap_or, filter_some, is_some, Result,
  ok, err, length, take, drop, is_empty, any, all, Bool-cases, Option-cases, text_eq_iff,
  text_eq_refl, Text, codes, text_eq, is_whitespace, trim, to_ascii_lowercase, split, split_once,
  starts_with, contains, join, decimal, text_lt, strip_prefix, as_bytes, one_of, map_err, u32, u64,
  usize, u64_max, saturating_add, saturating_mul, saturating_sub, Float,
}
use Admission
use Flight
use Delegate
use Steps.{answer, Runner, State, Step, ◌>>=◌, ◌>>◌}
use flexnetos_runner.Constitution.{ConstitutionStatus}
use flexnetos_runner.Wire.Frame.{DispatchResponse}

module _ (r : Runner) where
  -- The body of the handler; each gate may answer in place of what follows it.
  unfoldable pub process : ConstitutionStatus → ℕ → List ℕ → Step r DispatchResponse
  process constitution now raw = do
    Admission.constitution_gate r constitution
    req ← Admission.parse_gate r raw
    job ← Admission.verify_gate r req
    Admission.envelope_gate r req job
    Admission.authority_gate r req job
    Admission.lint_gate r job
    Admission.scan_gate r job
    place ← Admission.fork_gate r job
    Admission.approval_gate r req job
    Admission.quarantine_gate r job
    plan ← Admission.target_gate r job
    Admission.tier_gate r job
    lease ← Flight.acquire_gate r job
    Delegate.with_permit r lease (Delegate.in_flight r req job plan place now)

  unfoldable pub handle_request :
      ConstitutionStatus → ℕ → List ℕ → State r → DispatchResponse × State r
  unfolding process
  handle_request constitution now raw s =
      let (x, s') = process constitution now raw s in (answer x, s')
