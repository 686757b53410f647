-- ===== src/ForgeLoop/Idle/Covered.antt =====
-- No idle span is longer than the gaps that the audit reports
-- (crates/runner-cli/src/forge_loop.rs).
use flexnetos_runner.Shared.{
  ℕ, ◌+◌, ◌-◌, ◌*◌, ◌≤◌, max, ◌≡◌, refl, ◌⊎◌, inl, inr, true, false, Option, none, some, List, [],
  ◌∷◌, ◌++◌, arith, Bool-cases,
}
use flexnetos_runner.Shared.Int.{
  ◌≤ℤ◌, ◌<ℤ◌, ℤ, pos, pos_part, neg_part, sub_ℕ, leb_ℤ, ltb_ℤ, max_ℤ, min_ℤ,
}
use flexnetos_runner.ForgeLoop.Entries.{WorkflowRunEntry, PrHistoryEntry}
use flexnetos_runner.ForgeLoop.Runs.{local_runner_productive_interval}
use flexnetos_runner.ForgeLoop.Idle.{
  IdleGapRecovery, no_gaps, gap_minutes, record_idle_gap, insert_interval, sort_intervals, clip,
  intervals_of, sweep, gap_before, moved, local_runner_idle_gap_recovery,
}

-- The seconds from `a` to `b`, if `b` is not earlier.
abbrev pub seconds_between : ℤ → ℤ → ℕ
seconds_between a b = (pos_part b + neg_part a) - (neg_part b + pos_part a)

positive_part : (x y : ℕ) → pos_part (max_ℤ (sub_ℕ x y) (pos 0)) ≡ x - y
positive_part x y = ground arith

gap_minutes_lem : (a b : ℤ) → seconds_between a b ≤ gap_minutes a b * 60
unfolding gap_minutes
gap_minutes_lem a b =
    omega (arith, positive_part (pos_part b + neg_part a) (neg_part b + pos_part a))

-- The interval leaves the span between `a` and `b` free.
abbrev pub Apart : ℤ → ℤ → ℤ × ℤ → Type 0
Apart a b (start, end) = (end ≤ℤ a) ⊎ (b ≤ℤ start)

abbrev AllApart : ℤ → ℤ → List (ℤ × ℤ) → Type 0
AllApart a b [] = Unit
AllApart a b (x ∷ xs) = Apart a b x × AllApart a b xs

insert_interval-AllApart :
    (a b : ℤ) (x : ℤ × ℤ) (xs : List (ℤ × ℤ))
    → Apart a b x
    → AllApart a b xs
    → AllApart a b (insert_interval x xs)
unfolding insert_interval
insert_interval-AllApart a b x [] h hs = (h, tt)
insert_interval-AllApart a b x (y ∷ ys) h hs =
    ground (arith, insert_interval-AllApart a b x ys h hs.1)

sort_intervals-AllApart :
    (a b : ℤ) (xs : List (ℤ × ℤ)) → AllApart a b xs → AllApart a b (sort_intervals xs)
unfolding sort_intervals
sort_intervals-AllApart a b [] h = tt
sort_intervals-AllApart a b (x ∷ xs) h =
    insert_interval-AllApart a b x (sort_intervals xs) h.0 (sort_intervals-AllApart a b xs h.1)

append-AllApart :
    (a b : ℤ) (xs ys : List (ℤ × ℤ)) → AllApart a b xs → AllApart a b ys → AllApart a b (xs ++ ys)
append-AllApart a b [] ys hx hy = hy
append-AllApart a b (x ∷ xs) ys hx hy = (hx.0, append-AllApart a b xs ys hx.1 hy)

min_ℤ-le : (e w a : ℤ) → e ≤ℤ a → min_ℤ e w ≤ℤ a
min_ℤ-le e w a h = ground arith

le-max_ℤ : (b s w : ℤ) → b ≤ℤ s → b ≤ℤ max_ℤ s w
le-max_ℤ b s w h = ground arith

-- A span of the window that an interval leaves free is left free by its part in the window.
clip-AllApart :
    (ws we a b s e : ℤ)
    → ws ≤ℤ a
    → b ≤ℤ we
    → Apart a b (s, e)
    → AllApart a b (clip ws we (some (s, e)))
unfolding clip
clip-AllApart ws we a b s e from to h = elim (Bool-cases (leb_ℤ (max_ℤ s ws) (min_ℤ e we))) [
  | inl fits ↦
      rw fits
        (elim h [ inl l ↦ (inl (min_ℤ-le e we a l), tt) | inr g ↦ (inr (le-max_ℤ b s ws g), tt) ])
  | inr out ↦ rw out tt
]

clip_option-AllApart :
    (ws we a b : ℤ) (o : Option (ℤ × ℤ))
    → ws ≤ℤ a
    → b ≤ℤ we
    → ((s e : ℤ) → o ≡ some (s, e) → Apart a b (s, e))
    → AllApart a b (clip ws we o)
clip_option-AllApart ws we a b none from to h = unfold clip in tt
clip_option-AllApart ws we a b (some (s, e)) from to h =
    clip-AllApart ws we a b s e from to (h s e refl)

-- No productive interval of a run meets the span.
abbrev pub IsIdle : List WorkflowRunEntry → ℕ → ℤ → ℤ → Type 0
IsIdle [] min_minutes a b = Unit
IsIdle (run ∷ runs) min_minutes a b =
    ((s e : ℤ) → local_runner_productive_interval run min_minutes ≡ some (s, e) → Apart a b (s, e))
    × IsIdle runs min_minutes a b

intervals_of-AllApart :
    (ws we a b : ℤ) (n : ℕ) (runs : List WorkflowRunEntry)
    → ws ≤ℤ a
    → b ≤ℤ we
    → IsIdle runs n a b
    → AllApart a b (intervals_of ws we n runs)
unfolding intervals_of
intervals_of-AllApart ws we a b n [] from to h = tt
intervals_of-AllApart ws we a b n (run ∷ runs) from to h =
    append-AllApart a b (clip ws we (local_runner_productive_interval run n))
      (intervals_of ws we n runs)
      (clip_option-AllApart ws we a b (local_runner_productive_interval run n) from to h.0)
      (intervals_of-AllApart ws we a b n runs from to h.1)

module _ (runs : List WorkflowRunEntry) (prs : List PrHistoryEntry) where
  -- A recorded gap counts, and what is recorded stays.
  record_idle_gap_lem :
      (s e : ℤ) (r : IdleGapRecovery)
      → (gap_minutes s e ≤ (record_idle_gap runs prs s e r).max_idle_gap_minutes_observed)
        × (r.max_idle_gap_minutes_observed
            ≤ (record_idle_gap runs prs s e r).max_idle_gap_minutes_observed)
  unfolding record_idle_gap
  record_idle_gap_lem s e r = ground arith

  -- The observed maximum is that of both kinds of gap.
  abbrev IsSplit : IdleGapRecovery → Type 0
  IsSplit r =
      r.max_idle_gap_minutes_observed
      ≡ max r.max_unrecovered_idle_gap_minutes r.recovered_idle_gap_minutes

  record_idle_gap-IsSplit :
      (s e : ℤ) (r : IdleGapRecovery) → IsSplit r → IsSplit (record_idle_gap runs prs s e r)
  unfolding record_idle_gap
  record_idle_gap-IsSplit s e r h = ground arith

  gap_before-IsSplit :
      (c s : ℤ) (r : IdleGapRecovery) → IsSplit r → IsSplit (gap_before runs prs c s r)
  unfolding gap_before
  gap_before-IsSplit c s r h = elim (Bool-cases (ltb_ℤ c s)) [
    | inl e ↦ rw e (record_idle_gap-IsSplit c s r h)
    | inr e ↦ rw e h
  ]

  gap_before_keeps :
      (c s : ℤ) (r : IdleGapRecovery)
      → r.max_idle_gap_minutes_observed ≤ (gap_before runs prs c s r).max_idle_gap_minutes_observed
  unfolding gap_before
  gap_before_keeps c s r = ground (arith, record_idle_gap_lem c s r)

  -- A span between the cursor and the next start is no longer than the gap.
  gap_before_covers :
      (a b c s : ℤ) (r : IdleGapRecovery)
      → a <ℤ b
      → c ≤ℤ a
      → b ≤ℤ s
      → seconds_between a b ≤ (gap_before runs prs c s r).max_idle_gap_minutes_observed * 60
  unfolding gap_before
  gap_before_covers a b c s r lt from to =
      let open_gap : ltb_ℤ c s ≡ true = ground arith in
      rw open_gap (omega (arith, (record_idle_gap_lem c s r).0, gap_minutes_lem c s))

  moved-le : (c e a : ℤ) → c ≤ℤ a → e ≤ℤ a → moved runs prs c e ≤ℤ a
  unfolding moved
  moved-le c e a h k = ground arith

  module _ (we : ℤ) where
    sweep-IsSplit :
        (xs : List (ℤ × ℤ)) (c : ℤ) (r : IdleGapRecovery)
        → IsSplit r
        → IsSplit (sweep runs prs we xs c r)
    unfolding sweep
    sweep-IsSplit [] c r h = gap_before-IsSplit c we r h
    sweep-IsSplit ((s, e) ∷ xs) c r h = sweep-IsSplit xs _ _ (gap_before-IsSplit c s r h)

    sweep_keeps :
        (xs : List (ℤ × ℤ)) (c : ℤ) (r : IdleGapRecovery)
        → r.max_idle_gap_minutes_observed ≤ (sweep runs prs we xs c r).max_idle_gap_minutes_observed
    unfolding sweep
    sweep_keeps [] c r = gap_before_keeps c we r
    sweep_keeps ((s, e) ∷ xs) c r = omega (
      arith,
      gap_before_keeps c s r,
      sweep_keeps xs (moved runs prs c e) (gap_before runs prs c s r),
    )

    sweep_covers :
        (a b : ℤ) (xs : List (ℤ × ℤ)) (c : ℤ) (r : IdleGapRecovery)
        → a <ℤ b
        → b ≤ℤ we
        → c ≤ℤ a
        → AllApart a b xs
        → seconds_between a b ≤ (sweep runs prs we xs c r).max_idle_gap_minutes_observed * 60
    unfolding sweep
    sweep_covers a b [] c r lt to from h = gap_before_covers a b c we r lt from to
    sweep_covers a b ((s, e) ∷ xs) c r lt to from (inl before, h) =
        sweep_covers a b xs (moved runs prs c e) (gap_before runs prs c s r) lt to
          (moved-le c e a from before) h
    sweep_covers a b ((s, e) ∷ xs) c r lt to from (inr after, h) = omega (
      arith,
      gap_before_covers a b c s r lt from after,
      sweep_keeps xs (moved runs prs c e) (gap_before runs prs c s r),
    )

-- A span of the window that no productive interval meets is no longer than the largest gap that is
-- reported, in minutes, and that gap is the larger of the largest recovered and the largest other gap.
pub idle_bounded :
    (runs : List WorkflowRunEntry) (prs : List PrHistoryEntry) (ws we : ℤ) (n : ℕ) (a b : ℤ)
    → ws ≤ℤ a
    → a <ℤ b
    → b ≤ℤ we
    → IsIdle runs n a b
    → let r = local_runner_idle_gap_recovery runs prs ws we n in
      (seconds_between a b ≤ r.max_idle_gap_minutes_observed * 60)
      × (r.max_idle_gap_minutes_observed
          ≡ max r.max_unrecovered_idle_gap_minutes r.recovered_idle_gap_minutes)
unfolding local_runner_idle_gap_recovery
idle_bounded runs prs ws we n a b from lt to idle =
    let proper : leb_ℤ we ws ≡ false = ground arith in
    let xs : List (ℤ × ℤ) = intervals_of ws we n runs in
    rw proper (
      sweep_covers runs prs we a b (sort_intervals xs) ws no_gaps lt to from
          (sort_intervals-AllApart a b xs (intervals_of-AllApart ws we a b n runs from to idle)),
      sweep-IsSplit runs prs we (sort_intervals xs) ws no_gaps refl,
    )
