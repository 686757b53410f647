-- ===== src/External.antt =====
-- The third-party code that the runner calls: serde_json, hex, sha2 and hmac. It is a parameter of
-- every definition that uses it. What the proofs rely on is stated by the records of laws.
use flexnetos_runner.Shared.{ℕ, Bool, Option, List, Result, Text}
use flexnetos_runner.Cost.{JobCost}
use flexnetos_runner.Job.{JobKind, JobSpec}
use flexnetos_runner.Wire.Frame.{DispatchRequest, EnvelopeAuthMaterial}

pub record External : Type 0 where
  -- `serde_json::to_vec(&job.job)`
  pub kind_json : JobKind → List ℕ
  -- `serde_json::to_string(spec)` and `serde_json::from_str`
  pub spec_json : JobSpec → Result Text Text
  pub parse_spec : Text → Result JobSpec Text
  -- `serde_json::from_slice` at a `DispatchRequest`
  pub parse_request : List ℕ → Result DispatchRequest Text
  -- `serde_json::to_vec(&material)`
  pub envelope_json : EnvelopeAuthMaterial → Result (List ℕ) Text
  -- `serde_json::from_str` at a `JobCost`
  pub parse_cost : Text → Result JobCost Text
  pub sha256 : List ℕ → List ℕ
  -- `mac.finalize()` and `mac.verify_slice(..)` under a key and a message
  pub hmac : List ℕ → List ℕ → List ℕ
  pub hmac_verify : List ℕ → List ℕ → List ℕ → Bool
  pub hex_encode : List ℕ → Text
  pub hex_decode : Text → Option (List ℕ)
