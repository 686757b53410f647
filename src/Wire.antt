-- ===== src/Wire.antt =====
-- Signing and verifying frames, envelopes and approval grants (crates/runner-core/src/wire.rs).
pub mod Frame
pub mod RoundTrip
use flexnetos_runner.Shared.{
  ℕ, zero, suc, ◌+◌, ◌-◌, ◌*◌, ◌/◌, ◌%◌, ◌^◌, ◌≤◌, ◌<◌, min, max, String, ◌≡◌, refl, sym, ap, ◌∙◌,
  ◌≢◌, ◌↔◌, ◌⊎◌, inl, inr, Bool, true, false, not, ◌&&◌, ◌||◌, Option, none, some, List, [], ◌∷◌,
  ◌++◌, map, arith, ltb, leb, ◌==◌, if◌then◌else◌, or_else, unwrap_or, filter_some, is_some, Result,
  ok, err, length, take, drop, is_empty, any, all, Bool-cases, Option-cases, text_eq_iff,
  text_eq_refl, Text, codes, text_eq, is_whitespace, trim, to_ascii_lowercase, split, split_once,
  starts_with, contains, join, decimal, text_lt, strip_prefix, as_bytes, one_of, ◌>>=◌, map_err,
  u32, u64, usize, u64_max, saturating_add, saturating_mul, saturating_sub, Float,
}
use flexnetos_runner.Job.{JobSpec}
use flexnetos_runner.External.{External}
use Frame.{Approval, DispatchRequest, WireError, malformed, bad_signature}

-- `sha256=<hex>` over a message
unfoldable pub sign_bytes : External → List ℕ → List ℕ → Text
sign_bytes ex key msg = codes "sha256=" ++ ex.hex_encode (ex.hmac key msg)

verify_mac : External → List ℕ → List ℕ → Option (List ℕ) → Result (Unit {0}) WireError
verify_mac ex key msg none = err (malformed (codes "signature not hex"))
verify_mac ex key msg (some mac) = if ex.hmac_verify key msg mac then ok tt else err bad_signature

verify_hex : External → List ℕ → List ℕ → Option Text → Result (Unit {0}) WireError
unfolding verify_mac
verify_hex ex key msg none = err (malformed (codes "expected `sha256=<hex>`"))
verify_hex ex key msg (some hex) = verify_mac ex key msg (ex.hex_decode hex)

unfoldable pub verify_bytes : External → List ℕ → List ℕ → Text → Result (Unit {0}) WireError
unfolding verify_hex
verify_bytes ex key msg signature =
    verify_hex ex key msg (strip_prefix (codes "sha256=") (trim signature))

unfoldable pub is_ok {ℓ κ} : {A : Type ℓ} {E : Type κ} → Result A E → Bool
is_ok (ok a) = true
is_ok (err e) = false

-- `approve:<fingerprint>:<by>`
grant_message : Text → Text → List ℕ
grant_message fingerprint by = as_bytes (codes "approve:" ++ fingerprint ++ codes ":" ++ by)

-- `Approval::grant`
unfoldable pub grant : External → List ℕ → Text → Text → Approval
unfolding grant_message
grant ex key fingerprint by = record {
  by = by;
  signature = sign_bytes ex key (grant_message fingerprint by);
}

-- `Approval::verify`
unfoldable pub verify_grant : External → Approval → List ℕ → Text → Bool
unfolding grant_message is_ok
verify_grant ex a key fingerprint =
    is_ok (verify_bytes ex key (grant_message fingerprint a.by) a.signature)

unfoldable pub sign_frame : External → List ℕ → JobSpec → Result DispatchRequest WireError
sign_frame ex key spec = map_err malformed (ex.spec_json spec) >>= λ json. ok (record {
  spec_json = json;
  signature = sign_bytes ex key (as_bytes json);
  envelope_signature = none;
  approval = none;
  submitter = none;
  deadline_secs = none;
  idle_timeout_secs = none;
})

envelope_auth_bytes : External → DispatchRequest → Result (List ℕ) WireError
envelope_auth_bytes ex req = map_err malformed (
    ex.envelope_json (record {
      version = 1;
      spec_json = req.spec_json;
      signature = req.signature;
      approval = req.approval;
      submitter = req.submitter;
      deadline_secs = req.deadline_secs;
      idle_timeout_secs = req.idle_timeout_secs;
    }))

unfoldable pub sign_envelope :
    External → List ℕ → DispatchRequest → Result DispatchRequest WireError
unfolding envelope_auth_bytes
sign_envelope ex key req = envelope_auth_bytes ex req >>= λ bytes.
    ok (record req { envelope_signature = some (sign_bytes ex key bytes) })

verify_envelope_on : Option Text → External → List ℕ → DispatchRequest → Result (Unit {0}) WireError
unfolding envelope_auth_bytes
verify_envelope_on none ex key req = err bad_signature
verify_envelope_on (some signature) ex key req =
    envelope_auth_bytes ex req >>= λ bytes. verify_bytes ex key bytes signature

unfoldable pub verify_envelope : External → List ℕ → DispatchRequest → Result (Unit {0}) WireError
unfolding verify_envelope_on
verify_envelope ex key req = verify_envelope_on req.envelope_signature ex key req

unfoldable pub verify_frame : External → List ℕ → DispatchRequest → Result JobSpec WireError
verify_frame ex key req = verify_bytes ex key (as_bytes req.spec_json) req.signature >>= λ _.
    map_err malformed (ex.parse_spec req.spec_json)
