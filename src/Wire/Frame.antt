-- ===== src/Wire/Frame.antt =====
-- The data of the dispatch frame and of its reply (crates/runner-core/src/wire.rs).
use flexnetos_runner.Shared.{ℕ, Bool, false, Option, none, some, ◌++◌, Text, codes}
use flexnetos_runner.Authority.{Submitter}
use flexnetos_runner.Recovery.{RecoveryDirective}

pub record Approval : Type 0 where
  pub by : Text
  pub signature : Text

pub record DispatchRequest : Type 0 where
  pub spec_json : Text
  pub signature : Text
  pub envelope_signature : Option Text
  pub approval : Option Approval
  pub submitter : Option Submitter
  pub deadline_secs : Option ℕ
  pub idle_timeout_secs : Option ℕ

pub record DispatchResponse : Type 0 where
  pub accepted : Bool
  pub kernel : Option Text
  pub placement : Option Text
  pub intent : Option Text
  pub error : Option Text
  pub recovery : Option RecoveryDirective

-- `DispatchResponse::rejected`
unfoldable pub rejected : Text → DispatchResponse
rejected error = record {
  accepted = false;
  kernel = none;
  placement = none;
  intent = none;
  error = some error;
  recovery = none;
}

unfoldable pub with_recovery : DispatchResponse → RecoveryDirective → DispatchResponse
with_recovery r d = record r { recovery = some d }

pub record EnvelopeAuthMaterial : Type 0 where
  pub version : ℕ
  pub spec_json : Text
  pub signature : Text
  pub approval : Option Approval
  pub submitter : Option Submitter
  pub deadline_secs : Option ℕ
  pub idle_timeout_secs : Option ℕ

pub data WireError : Type 0 where
  malformed : Text → WireError
  bad_signature : WireError

-- `Display` of the error
unfoldable pub show : WireError → Text
show (malformed s) = codes "malformed dispatch frame: " ++ s
show bad_signature = codes "signature mismatch"
