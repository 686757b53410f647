-- ===== src/Router/Best.antt =====
-- The route that is selected among candidates (crates/runner-core/src/router.rs).
use flexnetos_runner.Shared.{
  ◌≡◌, refl, sym, ap, ◌∙◌, ◌⊎◌, ◌↔◌, inl, inr, true, false, none, some, List, [], ◌∷◌, arith,
  if◌then◌else◌, Bool-cases, Text, text_lt, Among,
}
use mathlib.Core.Path.{subst}
use flexnetos_runner.Shared.Int.{◌≤ℤ◌}
use flexnetos_runner.Router.{RouteCandidate, before, min_from, select_route}

text_lt_asym : (a b : Text) → text_lt a b ≡ true → text_lt b a ≡ false
unfolding text_lt
text_lt_asym [] [] h = refl
text_lt_asym [] (b ∷ t) h = refl
text_lt_asym (a ∷ s) [] h = cc
text_lt_asym (a ∷ s) (b ∷ t) h = ground (arith, text_lt_asym s t)

text_lt_trans_not : (a b c : Text) → text_lt a b ≡ false → text_lt b c ≡ false → text_lt a c ≡ false
unfolding text_lt
text_lt_trans_not a [] [] h k = h
text_lt_trans_not a [] (z ∷ c) h k = cc
text_lt_trans_not [] (y ∷ b) c h k = cc
text_lt_trans_not (x ∷ a) (y ∷ b) [] h k = refl
text_lt_trans_not (x ∷ a) (y ∷ b) (z ∷ c) h k = ground (arith, text_lt_trans_not a b c)

-- Integers compare as their positions do.
before_asym : (a b : RouteCandidate) → before a b ≡ true → before b a ≡ false
unfolding before
before_asym a b h = ground (arith, text_lt_asym a.id b.id)

before_trans_not :
    (a b c : RouteCandidate) → before a b ≡ false → before b c ≡ false → before a c ≡ false
unfolding before
before_trans_not a b c h k = ground (arith, text_lt_trans_not a.id b.id c.id)

-- No candidate of the list is before this one.
abbrev pub IsFirst : RouteCandidate → List RouteCandidate → Type 0
IsFirst r cs = (c : RouteCandidate) → Among c cs → before c r ≡ false

before_irrefl : (a : RouteCandidate) → before a a ≡ false
before_irrefl a = elim (Bool-cases (before a a)) [ inl h ↦ before_asym a a h | inr h ↦ h ]

min_from-cons :
    (best c : RouteCandidate) (cs : List RouteCandidate)
    → min_from best (c ∷ cs) ≡ min_from (if before c best then c else best) cs
unfolding min_from
min_from-cons best c cs = refl

min_from_lem :
    (best : RouteCandidate) (cs : List RouteCandidate)
    → Among (min_from best cs) (best ∷ cs) × IsFirst (min_from best cs) (best ∷ cs)
min_from_lem best [] =
    unfold min_from in
    (inl refl, λ c i. elim i [ inl e ↦ rw e (before_irrefl c) | inr j ↦ absurd j ])
min_from_lem best (c ∷ cs) = elim (Bool-cases (before c best)) [
  | inl less ↦
      let (among, first) = min_from_lem c cs in
      let step : min_from best (c ∷ cs) ≡ min_from c cs =
        min_from-cons best c cs ∙ ap (λ t. min_from (if t then c else best) cs) less in
      subst (λ r. Among r (best ∷ c ∷ cs) × IsFirst r (best ∷ c ∷ cs)) (sym step)
        (
          inr among,
          λ d i. elim i [
            | inl e ↦ rw (← e) (
                before_trans_not best c (min_from c cs) (before_asym c best less)
                  (first c (inl refl)))
            | inr j ↦ first d j
          ],
        )
  | inr not_less ↦
      let (among, first) = min_from_lem best cs in
      let step : min_from best (c ∷ cs) ≡ min_from best cs =
        min_from-cons best c cs ∙ ap (λ t. min_from (if t then c else best) cs) not_less in
      subst (λ r. Among r (best ∷ c ∷ cs) × IsFirst r (best ∷ c ∷ cs)) (sym step)
        (
          elim among [ inl e ↦ inl e | inr j ↦ inr (inr j) ],
          λ d i. elim i [
            | inl e ↦ first d (inl e)
            | inr (inl e) ↦
                rw (← e)
                  (before_trans_not c best (min_from best cs) not_less (first best (inl refl)))
            | inr (inr j) ↦ first d (inr j)
          ],
        )
]

-- No candidate has a higher weight, and of those with the same weight none has a lesser name.
abbrev pub IsChosen : RouteCandidate → List RouteCandidate → Type 0
IsChosen c cs =
    (d : RouteCandidate)
    → Among d cs
    → (d.weight ≤ℤ c.weight) × (c.weight ≤ℤ d.weight → text_lt d.id c.id ≡ false)

not_before-best :
    (c d : RouteCandidate)
    → before d c ≡ false
    → (d.weight ≤ℤ c.weight) × (c.weight ≤ℤ d.weight → text_lt d.id c.id ≡ false)
unfolding before
not_before-best c d h = (ground arith, λ le. ground arith)

text_lt_total : (a b : Text) → text_lt a b ≡ false → text_lt b a ≡ false → a ≡ b
unfolding text_lt
text_lt_total [] [] h k = refl
text_lt_total [] (b ∷ t) h k = cc
text_lt_total (a ∷ s) [] h k = cc
text_lt_total (a ∷ s) (b ∷ t) h k = ground (arith, text_lt_total s t)

-- Two of the candidates with the same weight and the same name are the same.
abbrev pub AreDistinct : List RouteCandidate → Type 0
AreDistinct cs =
    (c d : RouteCandidate)
    → Among c cs
    → Among d cs
    → c.weight ≤ℤ d.weight
    → d.weight ≤ℤ c.weight
    → c.id ≡ d.id
    → c ≡ d

select_route-IsChosen :
    (cs : List RouteCandidate)
    → ((select_route cs ≡ none) × (cs ≡ []))
      ⊎ ((c : RouteCandidate) × (select_route cs ≡ some c.plan) × Among c cs × IsChosen c cs)
unfolding select_route
select_route-IsChosen [] = inl (refl, refl)
select_route-IsChosen (c ∷ cs) =
    let (among, first) = min_from_lem c cs in
    inr (min_from c cs, refl, among, λ d i. not_before-best (min_from c cs) d (first d i))

-- The best of a list is the best of every list with the same entries.
best_unique :
    (cs : List RouteCandidate) (c d : RouteCandidate)
    → AreDistinct cs
    → Among c cs
    → Among d cs
    → IsChosen c cs
    → IsChosen d cs
    → c ≡ d
best_unique cs c d distinct i j best_c best_d =
    let (le_dc, name_d) = best_c d j in
    let (le_cd, name_c) = best_d c i in
    distinct c d i j le_cd le_dc (text_lt_total c.id d.id (name_c le_dc) (name_d le_cd))

select_route_any_order :
    (cs ds : List RouteCandidate)
    → AreDistinct cs
    → ((c : RouteCandidate) → Among c cs ↔ Among c ds)
    → select_route cs ≡ select_route ds
select_route_any_order cs ds distinct same = elim (select_route-IsChosen cs) [
  | inl (none_cs, empty_cs) ↦ elim (select_route-IsChosen ds) [
    | inl (none_ds, empty_ds) ↦ none_cs ∙ sym none_ds
    | inr (d, some_ds, j, best) ↦ absurd (subst (λ xs. Among d xs) empty_cs ((same d).1 j))
  ]
  | inr (c, some_cs, i, best) ↦ elim (select_route-IsChosen ds) [
    | inl (none_ds, empty_ds) ↦ absurd (subst (λ xs. Among c xs) empty_ds ((same c).0 i))
    | inr (d, some_ds, j, best_ds) ↦
        let one : c ≡ d =
          best_unique cs c d distinct i ((same d).1 j) best (λ x k. best_ds x ((same x).0 k)) in
        some_cs ∙ ap (λ x. some x.plan) one ∙ sym some_ds
  ]
]

-- The plan selected is that of a candidate with the highest weight, which among those of this weight
-- has the least name. Only from no candidates nothing is selected. When no two candidates have the
-- same weight and the same name, every list of the same candidates has the same plan selected.
pub select_route_best :
    (cs : List RouteCandidate)
    → (((select_route cs ≡ none) × (cs ≡ []))
        ⊎ ((c : RouteCandidate) × (select_route cs ≡ some c.plan) × Among c cs × IsChosen c cs))
      × ((ds : List RouteCandidate)
          → AreDistinct cs
          → ((c : RouteCandidate) → Among c cs ↔ Among c ds)
          → select_route cs ≡ select_route ds)
select_route_best cs = (select_route-IsChosen cs, select_route_any_order cs)
