-- ===== src/ForgeLoop/Queue/Tally.antt =====
-- Counts by name, and sums over the names that are counted (crates/runner-cli/src/forge_loop.rs).
use flexnetos_runner.Shared.{
  ℕ, ◌+◌, ◌≡◌, refl, ◌∙◌, true, some, List, [], ◌∷◌, arith, if◌then◌else◌, is_some, unwrap_or,
  Bool-cases, inl, inr, Text, text_eq, text_eq_iff, same-text_eq,
}
use flexnetos_runner.Shared.Order.{list_order, ℕ_order, lex_same_iff}
use flexnetos_runner.Shared.Sorted
use flexnetos_runner.Shared.Sorted.{IsSorted}
use flexnetos_runner.ForgeLoop.Audits.{count_where}
use flexnetos_runner.ForgeLoop.Queue.Report.{count_at, tally}

pub count_at-IsSorted : (n : Text) (m : List (Text × ℕ)) → IsSorted m → IsSorted (count_at n m)
unfolding count_at
count_at-IsSorted n m s = Sorted.entry-IsSorted n (λ k. k + 1) 1 m s

pub tally-IsSorted : (ns : List Text) (m : List (Text × ℕ)) → IsSorted m → IsSorted (tally ns m)
unfolding tally
tally-IsSorted [] m s = s
tally-IsSorted (n ∷ ns) m s = tally-IsSorted ns (count_at n m) (count_at-IsSorted n m s)

pub get-count_at :
    (k n : Text) (m : List (Text × ℕ))
    → IsSorted m
    → Sorted.get k (count_at n m)
      ≡ (if text_eq n k then some (unwrap_or (Sorted.get k m) 0 + 1) else Sorted.get k m)
unfolding count_at
get-count_at k n m s = Sorted.get-entry_at n (λ x. x + 1) 1 k m s ∙ ground (arith, same-text_eq n k)

pub get-tally :
    (k : Text) (ns : List Text) (m : List (Text × ℕ))
    → IsSorted m
    → unwrap_or (Sorted.get k (tally ns m)) 0
      ≡ unwrap_or (Sorted.get k m) 0 + count_where (λ n. text_eq n k) ns
unfolding tally count_where
get-tally k [] m s = ground arith
get-tally k (n ∷ ns) m s =
    ground (arith, get-tally k ns (count_at n m) (count_at-IsSorted n m s), get-count_at k n m s)

-- The name is a key of the counts.
abbrev pub Known : Text → List (Text × ℕ) → Type 0
Known k m = is_some (Sorted.get k m) ≡ true

pub tally-Known :
    (k : Text) (ns : List Text) (m : List (Text × ℕ))
    → IsSorted m
    → Known k m
    → Known k (tally ns m)
unfolding tally
tally-Known k [] m s h = h
tally-Known k (n ∷ ns) m s h =
    tally-Known k ns (count_at n m) (count_at-IsSorted n m s) (ground (arith, get-count_at k n m s))

-- The sum over some names.
abbrev pub sum_at : (Text → ℕ) → List Text → ℕ
sum_at f [] = 0
sum_at f (k ∷ ks) = f k + sum_at f ks

pub sum_at-add :
    (f g : Text → ℕ) (ks : List Text) → sum_at (λ k. f k + g k) ks ≡ sum_at f ks + sum_at g ks
sum_at-add f g [] = refl
sum_at-add f g (k ∷ ks) = omega (arith, sum_at-add f g ks)

pub sum_at-cong :
    (f g : Text → ℕ) (ks : List Text) → ((k : Text) → f k ≡ g k) → sum_at f ks ≡ sum_at g ks
sum_at-cong f g [] h = refl
sum_at-cong f g (k ∷ ks) h = omega (arith, h k, sum_at-cong f g ks h)

pub sum_at-zero : (ks : List Text) → sum_at (λ k. 0) ks ≡ 0
sum_at-zero [] = refl
sum_at-zero (k ∷ ks) = omega (arith, sum_at-zero ks)

-- Is it the same text?
abbrev pub hit : Text → Text → ℕ
hit r k = if text_eq r k then 1 else 0

pub hits :
    (r : Text) (m : List (Text × ℕ))
    → IsSorted m
    → sum_at (hit r) (Sorted.keys m) ≡ (if is_some (Sorted.get r m) then 1 else 0)
unfolding Sorted.keys Sorted.get
hits r [] s = refl
hits r ((k, v) ∷ m) s = elim (Bool-cases (list_order.same k r)) [
  | inl e ↦
      let k_is_r : k ≡ r = (lex_same_iff k r).0 e in
      ground (arith, text_eq_iff r k, hits r m s.1, Sorted.get_before k m s.0 s.1)
  | inr e ↦ ground (arith, text_eq_iff r k, lex_same_iff k r, hits r m s.1)
]
