-- ===== src/RateLimit/Window.antt =====
-- The bound of the rate limiter on every span of its window (crates/runner-core/src/ratelimit.rs).
use flexnetos_runner.Shared.{
  ℕ, ◌≤◌, ◌<◌, ◌≡◌, refl, sym, ap, ◌∙◌, inl, inr, true, false, some, List, [], ◌∷◌, ◌++◌, arith,
  leb, if◌then◌else◌, length, Bool-cases, Text, length-append, leb→le, append-nil, append_assoc,
  u64_max,
}
use flexnetos_runner.RateLimit.{
  RateLimitPolicy, RateLimiter, is_denied, new_limiter, drop_old, check, record_failure,
  clear_route,
}
use flexnetos_runner.RateLimit.Prune.{
  live, spans, live-append, spans-append, spans-le-live, live-le-length, live-drop_old,
  length-drop_old, check_admitted, check_denied, policy-check,
}

-- What the dispatcher does with a limiter.
pub data Op : Type 0 where
  request : Text → ℕ → Op
  fail : Text → ℕ → Op
  release : Text → Op

-- The times at which requests are admitted.
pub admits : RateLimiter → List Op → List ℕ
admits l [] = []
admits l (request route now ∷ ops) =
    (if is_denied (check l route now).1 then [] else now ∷ []) ++ admits (check l route now).0 ops
admits l (fail route now ∷ ops) = admits (record_failure l route now) ops
admits l (release route ∷ ops) = admits (clear_route l route) ops

-- The clock does not run backwards, and fits its machine word.
abbrev pub OnClock : ℕ → List Op → Type 0
OnClock clock [] = Unit {0}
OnClock clock (request route now ∷ ops) = (clock ≤ now) × (now < u64_max) × OnClock now ops
OnClock clock (fail route now ∷ ops) = OnClock clock ops
OnClock clock (release route ∷ ops) = OnClock clock ops

-- The limiter against the times admitted so far.
record Tracks (w cap clock : ℕ) (past : List ℕ) (l : RateLimiter) : Type 0 where
  capped : l.policy.max_per_window ≡ some cap
  width : l.policy.window_secs ≡ w
  small : cap < 4294967296
  room : length l.recent ≤ cap
  same : (t : ℕ) → clock ≤ t → live w t past ≡ live w t l.recent
  bound : (t : ℕ) → spans w t past ≤ cap

spans-after : (w now t : ℕ) → leb now t ≡ false → spans w t (now ∷ []) ≡ 0
unfolding spans
spans-after w now t h = rw h

module _ (w cap : ℕ) where
  live-kept :
      (l : RateLimiter) (now : ℕ)
      → l.policy.window_secs ≡ w
      → (t : ℕ) → now ≤ t
      → now < u64_max
      → live w t (drop_old l.policy.window_secs now l.recent) ≡ live w t l.recent
  live-kept l now width t later fits =
      ap (λ v. live w t (drop_old v now l.recent)) width ∙ live-drop_old w now t l.recent later fits

  Tracks-admitted :
      (clock : ℕ) (past : List ℕ) (l : RateLimiter) (route : Text) (now : ℕ)
      → Tracks w cap clock past l
      → clock ≤ now
      → now < u64_max
      → is_denied (check l route now).1 ≡ false
      → Tracks w cap now (past ++ now ∷ []) (check l route now).0
  Tracks-admitted clock past l route now h le fits ok' =
      let (e, fewer) = check_admitted l route now cap h.capped ok' in
      let k : List ℕ = drop_old l.policy.window_secs now l.recent in
      let roomy : length (k ++ now ∷ []) ≤ cap = ground (
        arith,
        length-append k (now ∷ []),
        h.room,
        h.small,
        length-drop_old l.policy.window_secs now l.recent,
        fewer,
      ) in
      let alike : (t : ℕ) → now ≤ t → live w t (past ++ now ∷ []) ≡ live w t (k ++ now ∷ []) =
        λ t later. omega (
          arith,
          live-append w t past (now ∷ []),
          live-append w t k (now ∷ []),
          h.same t (omega arith),
          live-kept l now h.width t later fits,
        ) in
      record {
        capped =
            ap (λ (p : RateLimitPolicy). p.max_per_window) (policy-check l route now) ∙ h.capped;
        width = ap (λ (p : RateLimitPolicy). p.window_secs) (policy-check l route now) ∙ h.width;
        small = h.small;
        room = rw e roomy;
        same = λ t later. alike t later ∙ sym (ap (live w t) e);
        bound = λ t. elim (Bool-cases (leb now t)) [
          | inl later ↦ omega (
            arith,
            spans-le-live w t (past ++ now ∷ []),
            alike t (leb→le _ _ later),
            live-le-length w t (k ++ now ∷ []),
            roomy,
          )
          | inr earlier ↦
              omega
                (arith, spans-append w t past (now ∷ []), spans-after w now t earlier, h.bound t)
        ];
      }

  Tracks-denied :
      (clock : ℕ) (past : List ℕ) (l : RateLimiter) (route : Text) (now : ℕ)
      → Tracks w cap clock past l
      → clock ≤ now
      → now < u64_max
      → is_denied (check l route now).1 ≡ true
      → Tracks w cap now past (check l route now).0
  Tracks-denied clock past l route now h le fits no' =
      let policy' : (check l route now).0.policy ≡ l.policy = policy-check l route now in
      let capped' : (check l route now).0.policy.max_per_window ≡ some cap =
        ap (λ (p : RateLimitPolicy). p.max_per_window) policy' ∙ h.capped in
      let width' : (check l route now).0.policy.window_secs ≡ w =
        ap (λ (p : RateLimitPolicy). p.window_secs) policy' ∙ h.width in
      elim (check_denied l route now cap h.capped no') [
        | inl e ↦ record {
          capped = capped';
          width = width';
          small = h.small;
          room = rw e h.room;
          same = λ t later. h.same t (omega arith) ∙ sym (ap (live w t) e);
          bound = h.bound;
        }
        | inr e ↦ record {
          capped = capped';
          width = width';
          small = h.small;
          room = rw e (omega (arith, length-drop_old l.policy.window_secs now l.recent, h.room));
          same = λ t later.
              h.same t (omega arith)
              ∙ sym (live-kept l now h.width t later fits)
              ∙ sym (ap (live w t) e);
          bound = h.bound;
        }
      ]

  policy-record_failure :
      (l : RateLimiter) (route : Text) (now : ℕ)
      → ((record_failure l route now).policy ≡ l.policy)
        × ((record_failure l route now).recent ≡ l.recent)
  unfolding record_failure
  policy-record_failure l route now = ground arith

  Tracks-same :
      (clock : ℕ) (past : List ℕ) (l m : RateLimiter)
      → m.policy ≡ l.policy
      → m.recent ≡ l.recent
      → Tracks w cap clock past l
      → Tracks w cap clock past m
  Tracks-same clock past l m p e h = record {
    capped = ap (λ (q : RateLimitPolicy). q.max_per_window) p ∙ h.capped;
    width = ap (λ (q : RateLimitPolicy). q.window_secs) p ∙ h.width;
    small = h.small;
    room = rw e h.room;
    same = λ t later. h.same t later ∙ sym (ap (live w t) e);
    bound = h.bound;
  }

  admits-bounded :
      (clock : ℕ) (past : List ℕ) (l : RateLimiter) (ops : List Op)
      → Tracks w cap clock past l
      → OnClock clock ops
      → (t : ℕ) → spans w t (past ++ admits l ops) ≤ cap
  unfolding admits
  admits-bounded clock past l [] h on t = rw append-nil (h.bound t)
  admits-bounded clock past l (request route now ∷ ops) h on t =
      elim (Bool-cases (is_denied (check l route now).1)) [
        | inl no' ↦ rw no' (
            admits-bounded now past (check l route now).0 ops
              (Tracks-denied clock past l route now h on.0 on.1 no') on.2 t)
        | inr ok' ↦
            rw (ok', ← append_assoc past (now ∷ []) (admits (check l route now).0 ops))
              (admits-bounded now (past ++ now ∷ []) (check l route now).0 ops
                (Tracks-admitted clock past l route now h on.0 on.1 ok') on.2 t)
      ]
  admits-bounded clock past l (fail route now ∷ ops) h on t =
      let (p, e) = policy-record_failure l route now in
      admits-bounded clock past (record_failure l route now) ops
        (Tracks-same clock past l (record_failure l route now) p e h) on t
  admits-bounded clock past l (release route ∷ ops) h on t =
      admits-bounded clock past (clear_route l route) ops
        (Tracks-same clock past l (clear_route l route) (unfold clear_route in refl)
          (unfold clear_route in refl) h)
        on t

-- A fresh limiter with a window cap below 2 ^ 32, over any requests on a clock that does not run
-- backwards and stays below 2 ^ 64 - 1, and any failures and releases of routes, admits at most the cap
-- in every span of its window.
pub window_bounded :
    (p : RateLimitPolicy) (cap : ℕ) (ops : List Op)
    → p.max_per_window ≡ some cap
    → cap < 4294967296
    → OnClock 0 ops
    → (t : ℕ) → spans p.window_secs t (admits (new_limiter p) ops) ≤ cap
window_bounded p cap ops capped small on t =
    admits-bounded p.window_secs cap 0 [] (new_limiter p) ops
      (record {
        capped = unfold new_limiter in capped;
        width = unfold new_limiter in refl;
        small = small;
        room = unfold new_limiter in omega arith;
        same = λ t later. unfold new_limiter in refl;
        bound = λ t. unfold spans in omega arith;
      })
      on t
