-- ===== src/LoopGuard/History.antt =====
-- The breaker's window against the whole history of dispatches
-- (crates/runner-core/src/loopguard.rs).
use flexnetos_runner.Shared.{
  ℕ, zero, suc, ◌-◌, ◌≤◌, ◌<◌, max, ◌≡◌, refl, ap, sym, ◌∙◌, inl, inr, false, List, [], ◌∷◌, ◌++◌,
  arith, ltb, leb, if◌then◌else◌, length, length-append, tests, ltb→lt, append-nil, append_assoc,
  drop, Bool-cases, Text,
}
use flexnetos_runner.LoopGuard.{
  LoopGuard, remember, observe_text, occurrences, pass, trip, new_guard,
}

-- The last `n` of a list.
abbrev pub last_of : ℕ → List Text → List Text
last_of n xs = drop (length xs - n) xs

-- The guard after a history of fingerprints.
pub observe_all : LoopGuard → List Text → LoopGuard
observe_all g [] = g
observe_all g (fp ∷ fps) = observe_all (observe_text g fp).0 fps

drop-append : (n : ℕ) (xs ys : List Text) → n ≤ length xs → drop n (xs ++ ys) ≡ drop n xs ++ ys
drop-append zero xs ys h = refl
drop-append (suc n) [] ys h = absurd (omega arith)
drop-append (suc n) (x ∷ xs) ys h = drop-append n xs ys (omega arith)

length-drop : (n : ℕ) (xs : List Text) → length (drop n xs) ≡ length xs - n
length-drop zero xs = omega arith
length-drop (suc n) [] = omega arith
length-drop (suc n) (x ∷ xs) = omega (arith, length-drop n xs)

drop-drop-one : (n : ℕ) (xs : List Text) → drop 1 (drop n xs) ≡ drop (suc n) xs
drop-drop-one zero [] = refl
drop-drop-one zero (x ∷ xs) = refl
drop-drop-one (suc n) [] = refl
drop-drop-one (suc n) (x ∷ xs) = drop-drop-one n xs

drop-nil : (n : ℕ) → drop {A = Text} n [] ≡ []
drop-nil zero = refl
drop-nil (suc n) = refl

drop_cong : (m n : ℕ) (xs : List Text) → m ≡ n → drop m xs ≡ drop n xs
drop_cong m n xs e = ap (λ k. drop k xs) e

not_lt : (a b : ℕ) → ltb a b ≡ false → b ≤ a
not_lt a b h = ground arith

-- One observation keeps the window the last part of the history.
remember-last :
    (w : ℕ) (h : List Text) (fp : Text)
    → 0 < w
    → remember w (last_of w h) fp ≡ last_of w (h ++ fp ∷ [])
unfolding remember
remember-last w h fp pos =
    rw (← drop-append (length h - w) h (fp ∷ []) (omega arith))
      (elim (Bool-cases (ltb w (length (drop (length h - w) (h ++ fp ∷ []))))) [
        | inl over ↦
            rw (over, drop-drop-one (length h - w) (h ++ fp ∷ []))
              (drop_cong (suc (length h - w)) (length (h ++ fp ∷ []) - w) (h ++ fp ∷ []) (
                omega (
                  tests,
                  length-drop (length h - w) (h ++ fp ∷ []),
                  length-append h (fp ∷ []),
                  ltb→lt _ _ over,
                )))
        | inr room ↦ rw room (
            drop_cong (length h - w) (length (h ++ fp ∷ []) - w) (h ++ fp ∷ []) (
              omega (
                arith,
                length-drop (length h - w) (h ++ fp ∷ []),
                length-append h (fp ∷ []),
                not_lt _ _ room,
              )))
      ])

observe_all-window : (g : LoopGuard) (fps : List Text) → (observe_all g fps).window ≡ g.window
unfolding observe_all observe_text
observe_all-window g [] = refl
observe_all-window g (fp ∷ fps) = observe_all-window (observe_text g fp).0 fps

observe_all-threshold :
    (g : LoopGuard) (fps : List Text) → (observe_all g fps).trip_threshold ≡ g.trip_threshold
unfolding observe_all observe_text
observe_all-threshold g [] = refl
observe_all-threshold g (fp ∷ fps) = observe_all-threshold (observe_text g fp).0 fps

recent-from :
    (g : LoopGuard) (h fps : List Text)
    → 0 < g.window
    → g.recent ≡ last_of g.window h
    → (observe_all g fps).recent ≡ last_of g.window (h ++ fps)
unfolding observe_all observe_text
recent-from g h [] pos e = rw append-nil e
recent-from g h (fp ∷ fps) pos e =
    recent-from (observe_text g fp).0 (h ++ fp ∷ []) fps pos
      (rw e (remember-last g.window h fp pos))
    ∙ ap (last_of g.window) (append_assoc h (fp ∷ []) fps)

-- Whatever was dispatched, a new guard remembers exactly the last `window` fingerprints.
pub recent-last :
    (window threshold : ℕ) (fps : List Text)
    → (observe_all (new_guard window threshold) fps).recent ≡ last_of (max window 1) fps
unfolding new_guard
recent-last window threshold fps =
    recent-from (new_guard window threshold) [] fps (omega arith)
      (sym (drop-nil (0 - max window 1)))

verdict-on :
    (g : LoopGuard) (w threshold : ℕ) (h : List Text) (fp : Text)
    → g.window ≡ w
    → g.trip_threshold ≡ threshold
    → 0 < w
    → g.recent ≡ last_of w h
    → (observe_text g fp).1 ≡ (
        let seen = occurrences fp (last_of w (h ++ fp ∷ [])) in
        if leb threshold seen then trip seen else pass)
unfolding observe_text
verdict-on g w threshold h fp ew et pos e =
    ap
      (λ k.
        if leb g.trip_threshold (occurrences fp (remember k g.recent fp))
        then trip (occurrences fp (remember k g.recent fp))
        else pass)
      ew
    ∙ ap
        (λ k.
          if leb k (occurrences fp (remember w g.recent fp))
          then trip (occurrences fp (remember w g.recent fp))
          else pass)
        et
    ∙ ap (λ l. if leb threshold (occurrences fp l) then trip (occurrences fp l) else pass)
        (ap (λ l. remember w l fp) e ∙ remember-last w h fp pos)

recent-last-new :
    (window threshold : ℕ) (fps : List Text)
    → (observe_all (new_guard window threshold) fps).recent
      ≡ last_of (new_guard window threshold).window fps
unfolding new_guard
recent-last-new window threshold fps = recent-last window threshold fps

-- A new guard that has seen a history trips on the next fingerprint exactly when that fingerprint
-- stands at least `trip_threshold` times among the last `window` of the history and itself; the
-- verdict is the number of times.
pub verdict_exact :
    (window threshold : ℕ) (h : List Text) (fp : Text)
    → let g = new_guard window threshold in
      let seen = occurrences fp (last_of g.window (h ++ fp ∷ [])) in
      (observe_text (observe_all g h) fp).1
      ≡ (if leb g.trip_threshold seen then trip seen else pass)
verdict_exact window threshold h fp =
    let g : LoopGuard = new_guard window threshold in
    verdict-on (observe_all g h) g.window g.trip_threshold h fp (observe_all-window g h)
      (observe_all-threshold g h) (unfold new_guard in omega arith)
      (recent-last-new window threshold h)
