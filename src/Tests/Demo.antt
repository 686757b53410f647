-- ===== src/Tests/Demo.antt =====
-- A concrete runner for the tests: its policies, its third-party functions and a signed frame.
use flexnetos_runner.Shared.{
  ℕ, ◌+◌, ◌-◌, ◌≡◌, refl, sym, ap, ◌∙◌, inl, inr, Bool, true, false, not, ◌&&◌, none, some, List,
  [], ◌∷◌, ◌++◌, map, arith, if◌then◌else◌, ok, err, any, Bool-cases, text_eq_iff, Text, codes,
  text_eq, is_whitespace, as_bytes, ok≢err, ok-injective, &&_iff,
}
use flexnetos_runner.Approval
use flexnetos_runner.Authority
use flexnetos_runner.Dispatch.Steps.{Runner, State, Call, Delegation, delivered, timed_out}
use flexnetos_runner.External.{External}
use flexnetos_runner.Governor.{Budget, with_budget}
use flexnetos_runner.Job.{JobSpec, JobKind, class, ci, review_gate, agent_task, loop_cycle}
use flexnetos_runner.LoopGuard
use flexnetos_runner.Quarantine
use flexnetos_runner.RateLimit
use flexnetos_runner.Recovery
use flexnetos_runner.Risk
use flexnetos_runner.Scan
use flexnetos_runner.Shared.Floats.Fixed.{fixed_point}
use flexnetos_runner.SingleFlight
use flexnetos_runner.StateGate
use flexnetos_runner.Targets
use flexnetos_runner.Wire.{sign_bytes}
use flexnetos_runner.Wire.RoundTrip.{IsSound}

abbrev pub repo : Text
repo = codes "acme/widgets"

abbrev pub job_for : Text → JobSpec
job_for id = record {
  id = id;
  correlation_id = codes "c1";
  from_fork = false;
  job = loop_cycle repo (codes "T-1");
}

abbrev is_cycle : JobKind → Bool
is_cycle (loop_cycle r t) = text_eq r repo && text_eq t (codes "T-1")
is_cycle _ = false

-- The jobs that are printed differ in their ids only.
abbrev is_printed : JobSpec → Bool
is_printed s = not s.from_fork && text_eq s.correlation_id (codes "c1") && is_cycle s.job

-- A byte is written as one character past the ones of white space.
abbrev pub to_hex : List ℕ → Text
to_hex = map (λ b. b + 65536)

abbrev pub of_hex : Text → List ℕ
of_hex = map (λ c. c - 65536)

abbrev pub external : External
external = record {
  kind_json = λ k. class k;
  spec_json = λ s. if is_printed s then ok s.id else err (codes "unprintable");
  parse_spec = λ json. ok (job_for json);
  parse_request = λ raw. ok (record {
    spec_json = codes "j1";
    signature = raw;
    envelope_signature = none;
    approval = none;
    submitter = none;
    deadline_secs = some 30;
    idle_timeout_secs = none;
  });
  envelope_json = λ m. ok (m.spec_json ++ m.signature);
  parse_cost = λ t. err (codes "no cost");
  sha256 = λ b. b;
  hmac = λ key msg. key ++ msg;
  hmac_verify = λ key msg mac. text_eq mac (key ++ msg);
  hex_encode = to_hex;
  hex_decode = λ t. some (of_hex t);
}

hex_plain_lem : (bytes : List ℕ) → any is_whitespace (to_hex bytes) ≡ false
unfolding is_whitespace
hex_plain_lem [] = refl
hex_plain_lem (b ∷ bytes) = ground (arith, hex_plain_lem bytes)

of_hex-to_hex : (bytes : List ℕ) → of_hex (to_hex bytes) ≡ bytes
of_hex-to_hex [] = refl
of_hex-to_hex (b ∷ bytes) =
    (let e : b + 65536 - 65536 ≡ b = omega arith in rw (e, of_hex-to_hex bytes) refl)

cycle_lem : (k : JobKind) → is_cycle k ≡ true → k ≡ loop_cycle repo (codes "T-1")
cycle_lem (loop_cycle r t) h =
    let (a, b) = (&&_iff (text_eq r repo) (text_eq t (codes "T-1"))).0 h in
    rw ((text_eq_iff r repo).0 a, (text_eq_iff t (codes "T-1")).0 b) refl
cycle_lem (ci r t) h = cc
cycle_lem (review_gate r n t a) h = cc
cycle_lem (agent_task r t a) h = cc

job_of_parts :
    (id c : Text) (f : Bool) (k : JobKind)
    → c ≡ codes "c1"
    → f ≡ false
    → k ≡ loop_cycle repo (codes "T-1")
    → job_for id ≡ record { id = id; correlation_id = c; from_fork = f; job = k }
job_of_parts id c f k p q r = rw (p, q, r) refl

not_lem : (b : Bool) → not b ≡ true → b ≡ false
not_lem b h = ground arith

printed_lem : (s : JobSpec) → is_printed s ≡ true → job_for s.id ≡ s
printed_lem s h =
    let (b, d) =
      (&&_iff (not s.from_fork && text_eq s.correlation_id (codes "c1")) (is_cycle s.job)).0 h in
    let (a, c) = (&&_iff (not s.from_fork) (text_eq s.correlation_id (codes "c1"))).0 b in
    job_of_parts s.id s.correlation_id s.from_fork s.job
      ((text_eq_iff s.correlation_id (codes "c1")).0 c) (not_lem s.from_fork a) (cycle_lem s.job d)

pub external-IsSound : IsSound external
external-IsSound = record {
  hex_plain = hex_plain_lem;
  hex_round = λ key msg. ap some (of_hex-to_hex (key ++ msg));
  hmac_iff = λ key msg mac. text_eq_iff mac (key ++ msg);
  spec_round = λ s json h. elim (Bool-cases (is_printed s)) [
    | inl p ↦
        (let e : s.id ≡ json =
            ok-injective (sym (ap (λ b. if b then ok s.id else err (codes "unprintable")) p) ∙ h) in
          ap ok (ap job_for (sym e) ∙ printed_lem s p))
    | inr p ↦ absurd (ok≢err (sym h ∙ ap (λ b. if b then ok s.id else err (codes "unprintable")) p))
  ];
}

abbrev pub budget : Budget
budget = record { jobs = some 2; tokens = none; usd_micros = none; grace = 1 }

-- A runner in front of a kernel.
abbrev pub runner_with : (Call → Delegation) → Runner
runner_with kernel = record {
  fl = fixed_point;
  ex = external;
  key = 7 ∷ [];
  invoke = kernel;
  approval = Approval.no_approval;
  authority = Authority.disabled;
  target_allowlist = Targets.disabled;
  state_gate = StateGate.disabled;
  state_defer_secs = 60;
  policy = Recovery.new_policy 3 5;
  quarantine_policy = record { threshold = 2 };
  scan_policy = Scan.block_at Scan.high;
  risk_policy = Risk.disabled fixed_point;
  deadline = record { default_secs = some 60 };
  liveness = record { default_secs = none };
}

-- A kernel that delivers, and one that hangs.
abbrev pub demo : Runner
demo = runner_with (λ call. delivered (record { tokens = 5; usd_micros = 0 }))

abbrev pub hung : Runner
hung = runner_with (λ call. timed_out 30)

abbrev pub start_of : (r : Runner) → State r
start_of r = record {
  singleflight = SingleFlight.empty_flights;
  guard = LoopGuard.new_guard 8 4;
  governor = with_budget budget;
  retry = Recovery.empty_retry;
  quarantine = Quarantine.empty_ledger;
  rate_limiter = RateLimit.new_limiter (RateLimit.new_policy 2 60 0);
  risk_ledger = Risk.empty_risk;
  log = [];
  calls = [];
}

abbrev pub start : State demo
start = start_of demo

-- A signed frame, and one with another text in place of the signature.
abbrev pub frame : List ℕ
frame = sign_bytes external (7 ∷ []) (as_bytes (codes "j1"))

abbrev pub forged : List ℕ
forged = codes "sha256=00"
