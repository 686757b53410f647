-- ===== src/ForgeLoop/Fleet/Rows.antt =====
-- The deduplicated jobs as a map from keys (crates/runner-cli/src/forge_loop.rs).
use mathlib.Core.Path.{subst}
use flexnetos_runner.Shared.{sym, ◌≡◌, refl, true, List, [], ◌∷◌, arith, Text}
use flexnetos_runner.Shared.Order.{list_order, ℕ_order}
use flexnetos_runner.Shared.Sorted
use flexnetos_runner.Shared.Sorted.{IsSorted, After, modified}
use flexnetos_runner.ForgeLoop.Fleet.{
  RunnerFleetJob, key_of, absorb, collect, dedupe_runner_fleet_jobs,
}
use flexnetos_runner.ForgeLoop.Fleet.Merge.{first_of, RowOf, collect-RowOf, collect-IsSorted}

-- The keys of the rows ascend, so no two rows have one key.
abbrev pub KeyBefore : List Text → List RunnerFleetJob → Type 0
KeyBefore k [] = Unit
KeyBefore k (j ∷ js) = list_order.lt k (key_of j) ≡ true

abbrev pub Ascending : List RunnerFleetJob → Type 0
Ascending [] = Unit
Ascending (j ∷ js) = KeyBefore (key_of j) js × Ascending js

-- Each entry stands at its own key.
abbrev AtKeys : List (List Text × RunnerFleetJob) → Type 0
AtKeys [] = Unit
AtKeys ((k, j) ∷ m) = (key_of j ≡ k) × AtKeys m

key_of-absorb : (j e : RunnerFleetJob) → key_of (absorb j e) ≡ key_of e
unfolding key_of absorb
key_of-absorb j e = refl

entry-AtKeys :
    (j : RunnerFleetJob) (m : List (List Text × RunnerFleetJob))
    → AtKeys m
    → AtKeys (Sorted.entry (key_of j) (absorb j) j m)
unfolding Sorted.entry
entry-AtKeys j [] a = (refl, tt)
entry-AtKeys j ((k, e) ∷ m) a = ground (arith, key_of-absorb j e, entry-AtKeys j m a.1)

collect-AtKeys :
    (js : List RunnerFleetJob) (m : List (List Text × RunnerFleetJob))
    → AtKeys m
    → AtKeys (collect js m)
unfolding collect
collect-AtKeys [] m a = a
collect-AtKeys (j ∷ js) m a = collect-AtKeys js _ (entry-AtKeys j m a)

first_of-values :
    (k : List Text) (m : List (List Text × RunnerFleetJob))
    → AtKeys m
    → first_of k (Sorted.values m) ≡ Sorted.get k m
unfolding first_of Sorted.values Sorted.get
first_of-values k [] a = refl
first_of-values k ((i, e) ∷ m) a = rw (a.0, first_of-values k m a.1) refl

values-Ascending :
    (m : List (List Text × RunnerFleetJob)) → IsSorted m → AtKeys m → Ascending (Sorted.values m)
unfolding Sorted.values
values-Ascending [] s a = tt
values-Ascending ((i, e) ∷ []) s a = (tt, tt)
values-Ascending ((i, e) ∷ (j, f) ∷ m) s a =
    (rw (a.0, a.1.0) s.0, values-Ascending ((j, f) ∷ m) s.1 a.1)

-- The deduplicated jobs are the map from a key to its first job with the process numbers of all the
-- jobs of that key: the rows ascend by key, and the row of a key is that, or none if no job has it.
pub dedupe_refines :
    (js : List RunnerFleetJob)
    → Ascending (dedupe_runner_fleet_jobs js)
      × ((k : List Text) → RowOf k js (first_of k (dedupe_runner_fleet_jobs js)))
unfolding dedupe_runner_fleet_jobs
dedupe_refines js =
    let at : AtKeys (collect js []) = collect-AtKeys js [] tt in
    (
      values-Ascending (collect js []) (collect-IsSorted js [] tt) at,
      λ k. subst (RowOf k js) (sym (first_of-values k (collect js []) at)) (collect-RowOf k js),
    )
