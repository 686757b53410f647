-- ===== src/Wire/RoundTrip.antt =====
-- What signing makes verifies, and what verifies is signed (crates/runner-core/src/wire.rs).
use flexnetos_runner.Shared.{
  ℕ, ◌≡◌, refl, sym, ap, ◌∙◌, ◌↔◌, inl, inr, Bool, true, false, Option, none, some, List, [], ◌∷◌,
  ◌++◌, arith, ◌==◌, Result, ok, err, any, Bool-cases, Text, codes, is_whitespace, trim,
  strip_prefix, as_bytes, ◌>>=◌, map_err, ok≢err, ok-injective, ==_iff,
}
use mathlib.Core.List.{reverse, reverse_aux, reverse-reverse}
use flexnetos_runner.External.{External}
use flexnetos_runner.Job.{JobSpec}
use flexnetos_runner.Shared.Strings.{trim_start}
use flexnetos_runner.Wire.{
  sign_bytes, verify_mac, verify_hex, verify_bytes, grant, verify_grant, grant_message, is_ok,
  sign_frame, envelope_auth_bytes, sign_envelope, verify_envelope, verify_envelope_on, verify_frame,
}
use flexnetos_runner.Wire.Frame.{DispatchRequest, malformed}

-- What the runner relies on: a hex text has no white space and decodes to what it encodes, the check of a
-- code accepts exactly the code of the message, and a printed job is parsed as itself.
pub record IsSound (ex : External) : Type 0 where
  pub hex_plain : (bytes : List ℕ) → any is_whitespace (ex.hex_encode bytes) ≡ false
  pub hex_round :
      (key msg : List ℕ) → ex.hex_decode (ex.hex_encode (ex.hmac key msg)) ≡ some (ex.hmac key msg)
  pub hmac_iff :
      (key msg mac : List ℕ) → (ex.hmac_verify key msg mac ≡ true) ↔ (mac ≡ ex.hmac key msg)
  pub spec_round :
      (spec : JobSpec) (json : Text) → ex.spec_json spec ≡ ok json → ex.parse_spec json ≡ ok spec

any-reverse_aux :
    (p : ℕ → Bool) (l r : List ℕ)
    → any p l ≡ false
    → any p r ≡ false
    → any p (reverse_aux l r) ≡ false
any-reverse_aux p [] r hl hr = hr
any-reverse_aux p (x ∷ l) r hl hr = any-reverse_aux p l (x ∷ r) (ground arith) (ground arith)

trim_start-plain : (s : Text) → any is_whitespace s ≡ false → trim_start s ≡ s
unfolding trim_start
trim_start-plain [] h = refl
trim_start-plain (c ∷ s) h = (let k : is_whitespace c ≡ false = ground arith in rw k refl)

trim-plain : (s : Text) → any is_whitespace s ≡ false → trim s ≡ s
unfolding trim
trim-plain s h =
    rw
      (
        trim_start-plain s h,
        trim_start-plain (reverse s) (any-reverse_aux is_whitespace s [] h refl),
      )
      (reverse-reverse s)

strip_prefix-append : (p s : Text) → strip_prefix p (p ++ s) ≡ some s
unfolding strip_prefix
strip_prefix-append [] s = refl
strip_prefix-append (c ∷ p) s =
    (let k : (c == c) ≡ true = (==_iff c c).1 refl in rw k (strip_prefix-append p s))

any-append :
    (p : ℕ → Bool) (s t : Text) → any p s ≡ false → any p t ≡ false → any p (s ++ t) ≡ false
any-append p [] t hs ht = ht
any-append p (c ∷ s) t hs ht = (let ih = any-append p s t (ground arith) ht in ground arith)

module _ (ex : External) (h : IsSound ex) where
  verify_bytes-sign_bytes :
      (key msg : List ℕ) → verify_bytes ex key msg (sign_bytes ex key msg) ≡ ok tt
  unfolding verify_bytes verify_hex verify_mac sign_bytes
  verify_bytes-sign_bytes key msg =
      let hex : Text = ex.hex_encode (ex.hmac key msg) in
      let plain : any is_whitespace (codes "sha256=" ++ hex) ≡ false =
        any-append is_whitespace (codes "sha256=") hex (unfold is_whitespace codes in refl)
          (h.hex_plain (ex.hmac key msg)) in
      rw
        (
          trim-plain (codes "sha256=" ++ hex) plain,
          strip_prefix-append (codes "sha256=") hex,
          h.hex_round key msg,
          (h.hmac_iff key msg (ex.hmac key msg)).1 refl,
        )
        refl

  verify_mac_iff :
      (key msg : List ℕ) (o : Option (List ℕ))
      → (verify_mac ex key msg o ≡ ok tt) ↔ (o ≡ some (ex.hmac key msg))
  unfolding verify_mac
  verify_mac_iff key msg none = (λ e. absurd (ok≢err (sym e)), λ e. cc)
  verify_mac_iff key msg (some mac) = elim (Bool-cases (ex.hmac_verify key msg mac)) [
    | inl v ↦ rw v (λ e. ap some ((h.hmac_iff key msg mac).0 v), λ e. refl)
    | inr v ↦ rw v (
      λ e. absurd (ok≢err (sym e)),
      λ e.
          (let same : mac ≡ ex.hmac key msg = cc in
            let k = (h.hmac_iff key msg mac).1 same in let bad : true ≡ false = sym k ∙ v in cc),
    )
  ]

  verify_hex_iff :
      (key msg : List ℕ) (o : Option Text)
      → (verify_hex ex key msg o ≡ ok tt)
        ↔ ((hex : Text) × (o ≡ some hex) × (ex.hex_decode hex ≡ some (ex.hmac key msg)))
  unfolding verify_hex
  verify_hex_iff key msg none = (λ e. absurd (ok≢err (sym e)), λ w. (let e = w.1 in cc))
  verify_hex_iff key msg (some hex) =
      let both = verify_mac_iff key msg (ex.hex_decode hex) in
      (
        λ e. (hex, refl, both.0 e),
        λ w. (let (other, e, d) = w in let same : hex ≡ other = cc in both.1 (rw same d)),
      )

-- The text carries, after its prefix and without white space around it, the code of the message.
abbrev pub Carries : External → List ℕ → List ℕ → Text → Type 0
Carries ex key msg signature =
    (hex : Text) × (strip_prefix (codes "sha256=") (trim signature) ≡ some hex)
    × (ex.hex_decode hex ≡ some (ex.hmac key msg))

bind_ok :
    {A B E : Type 0} (m : Result A E) (f : A → Result B E) {b : B}
    → (m >>= f) ≡ ok b
    → (a : A) × (m ≡ ok a) × (f a ≡ ok b)
bind_ok (ok a) f e = (a, refl, e)
bind_ok (err x) f e = absurd (ok≢err (sym e))

map_err_ok : {A E F : Type 0} (f : E → F) (m : Result A E) {a : A} → map_err f m ≡ ok a → m ≡ ok a
map_err_ok f (ok a) e = ap ok (ok-injective e)
map_err_ok f (err x) e = absurd (ok≢err (sym e))

-- With sound third-party functions, a frame verifies as a job exactly when its signature carries the
-- code of its text under the key and the text parses as the job.
pub verify_frame_exact :
    (ex : External) (key : List ℕ) (req : DispatchRequest) (job : JobSpec)
    → IsSound ex
    → (verify_frame ex key req ≡ ok job) ↔ (
        Carries ex key (as_bytes req.spec_json) req.signature
        × (ex.parse_spec req.spec_json ≡ ok job))
unfolding verify_frame verify_bytes
verify_frame_exact ex key req job h =
    let msg : List ℕ = as_bytes req.spec_json in
    let both = verify_hex_iff ex h key msg (strip_prefix (codes "sha256=") (trim req.signature)) in
    (
      λ e.
          (let (u, signed, parsed) =
              bind_ok (verify_bytes ex key msg req.signature)
                (λ _. map_err malformed (ex.parse_spec req.spec_json)) e in
            (both.0 signed, map_err_ok malformed (ex.parse_spec req.spec_json) parsed)),
      λ w. rw (both.1 w.0, w.1) refl,
    )

module _ (ex : External) (key : List ℕ) (h : IsSound ex) where
  sign_frame_lem :
      (spec : JobSpec) (req : DispatchRequest)
      → sign_frame ex key spec ≡ ok req
      → verify_frame ex key req ≡ ok spec
  unfolding sign_frame verify_frame
  sign_frame_lem spec req e =
      let (json, printed, made) = bind_ok (map_err malformed (ex.spec_json spec)) _ e in
      let parsed : ex.parse_spec json ≡ ok spec =
        h.spec_round spec json (map_err_ok malformed (ex.spec_json spec) printed) in
      rw (← ok-injective made, verify_bytes-sign_bytes ex h key (as_bytes json), parsed) refl

  sign_envelope_lem :
      (req sealed : DispatchRequest)
      → sign_envelope ex key req ≡ ok sealed
      → (verify_envelope ex key sealed ≡ ok tt)
        × (verify_frame ex key sealed ≡ verify_frame ex key req)
  unfolding sign_envelope verify_envelope verify_envelope_on envelope_auth_bytes verify_frame
  sign_envelope_lem req sealed e =
      let (bytes, printed, made) = bind_ok (envelope_auth_bytes ex req) _ e in
      rw (← ok-injective made) (rw (printed, verify_bytes-sign_bytes ex h key bytes) refl, refl)

-- With sound third-party functions, a job that could be signed verifies under the same key as itself,
-- and a frame whose envelope could then be signed verifies with its envelope, and still as the same job.
pub verify_frame-sign_frame :
    (ex : External) (key : List ℕ) (spec : JobSpec) (req sealed : DispatchRequest)
    → IsSound ex
    → sign_frame ex key spec ≡ ok req
    → sign_envelope ex key req ≡ ok sealed
    → (verify_frame ex key req ≡ ok spec)
      × (verify_envelope ex key sealed ≡ ok tt)
      × (verify_frame ex key sealed ≡ ok spec)
verify_frame-sign_frame ex key spec req sealed h e f =
    let signed = sign_frame_lem ex key h spec req e in
    let (envelope, same) = sign_envelope_lem ex key h req sealed f in
    (signed, envelope, same ∙ signed)

-- With sound third-party functions, a grant for a fingerprint approves it under the same key.
verify_grant-grant :
    (ex : External) (key : List ℕ) (fingerprint by : Text)
    → IsSound ex
    → verify_grant ex (grant ex key fingerprint by) key fingerprint ≡ true
unfolding verify_grant grant is_ok
verify_grant-grant ex key fingerprint by h =
    rw (verify_bytes-sign_bytes ex h key (grant_message fingerprint by)) refl
