-- ===== src/ForgeLoop/Fleet/Merge.antt =====
-- What the merged rows say of the jobs (crates/runner-cli/src/forge_loop.rs).
use mathlib.Core.Logic.Iff
use mathlib.Core.Path.{subst}
use flexnetos_runner.Shared.{
  ap, sym, ℕ, ◌≡◌, refl, ◌∙◌, ◌↔◌, ◌⊎◌, inl, inr, Bool, true, false, Option, none, some, List, [],
  ◌∷◌, ◌++◌, if◌then◌else◌, arith, Bool-cases, Among, Text,
}
use flexnetos_runner.Shared.Order.{list_order, ℕ_order}
use flexnetos_runner.Shared.Sorted
use flexnetos_runner.Shared.Sorted.{modified, IsSorted, After, get-entry, entry-IsSorted}
use flexnetos_runner.ForgeLoop.Fleet.{
  RunnerFleetJob, key_of, insert_pid, sort_pids, dedup_after, dedup_pids, absorb, collect,
}

Among-append : (p : ℕ) (xs ys : List ℕ) → Among p (xs ++ ys) ↔ (Among p xs ⊎ Among p ys)
Among-append p [] ys = grind (arith, inl, inr)
Among-append p (x ∷ xs) ys = grind (arith, inl, inr, Among-append p xs ys)

Among-insert_pid : (p a : ℕ) (xs : List ℕ) → Among p (insert_pid a xs) ↔ ((a ≡ p) ⊎ Among p xs)
unfolding insert_pid
Among-insert_pid p a [] = grind (arith, inl, inr)
Among-insert_pid p a (x ∷ xs) = grind (arith, inl, inr, Among-insert_pid p a xs)

Among-sort_pids : (p : ℕ) (xs : List ℕ) → Among p (sort_pids xs) ↔ Among p xs
unfolding sort_pids
Among-sort_pids p [] = grind (arith, inl, inr)
Among-sort_pids p (x ∷ xs) =
    grind (arith, inl, inr, Among-insert_pid p x (sort_pids xs), Among-sort_pids p xs)

Among-dedup_after :
    (p a : ℕ) (xs : List ℕ) → ((a ≡ p) ⊎ Among p (dedup_after a xs)) ↔ ((a ≡ p) ⊎ Among p xs)
unfolding dedup_after
Among-dedup_after p a [] = grind (arith, inl, inr)
Among-dedup_after p a (x ∷ xs) =
    grind (arith, inl, inr, Among-dedup_after p a xs, Among-dedup_after p x xs)

Among-dedup_pids : (p : ℕ) (xs : List ℕ) → Among p (dedup_pids xs) ↔ Among p xs
unfolding dedup_pids
Among-dedup_pids p [] = grind (arith, inl, inr)
Among-dedup_pids p (x ∷ xs) = Among-dedup_after p x xs

-- A merged row has the process numbers of both.
Among-absorb :
    (p : ℕ) (j e : RunnerFleetJob) → Among p (absorb j e).pids ↔ (Among p e.pids ⊎ Among p j.pids)
unfolding absorb
Among-absorb p j e =
    Iff.trans (Among-dedup_pids p (sort_pids (e.pids ++ j.pids)))
      (Iff.trans (Among-sort_pids p (e.pids ++ j.pids)) (Among-append p e.pids j.pids))

abbrev keyed : List Text → RunnerFleetJob → Bool
keyed k j = list_order.same (key_of j) k

-- A job of this key has this process number.
abbrev pub Runs : List Text → ℕ → List RunnerFleetJob → Type 0
Runs k p [] = ⊥
Runs k p (j ∷ js) = ((key_of j ≡ k) × Among p j.pids) ⊎ Runs k p js

-- The first job of this key.
unfoldable pub first_of : List Text → List RunnerFleetJob → Option RunnerFleetJob
first_of k [] = none
first_of k (j ∷ js) = if keyed k j then some j else first_of k js

gather : List Text → Option RunnerFleetJob → List RunnerFleetJob → Option RunnerFleetJob
gather k o [] = o
gather k o (j ∷ js) = gather k (if keyed k j then some (modified (absorb j) j o) else o) js

pub collect-IsSorted :
    (js : List RunnerFleetJob) (m : List (List Text × RunnerFleetJob))
    → IsSorted m
    → IsSorted (collect js m)
unfolding collect
collect-IsSorted [] m s = s
collect-IsSorted (j ∷ js) m s = collect-IsSorted js _ (entry-IsSorted (key_of j) (absorb j) j m s)

get-collect :
    (k : List Text) (js : List RunnerFleetJob) (m : List (List Text × RunnerFleetJob))
    → IsSorted m
    → Sorted.get k (collect js m) ≡ gather k (Sorted.get k m) js
unfolding collect gather
get-collect k [] m s = refl
get-collect k (j ∷ js) m s =
    get-collect k js _ (entry-IsSorted (key_of j) (absorb j) j m s)
    ∙ ap (λ o. gather k o js) (Sorted.get-entry_at (key_of j) (absorb j) j k m s)

key_iff : (k : List Text) (j : RunnerFleetJob) → (keyed k j ≡ true) ↔ (key_of j ≡ k)
key_iff k j = list_order.same_iff (key_of j) k

-- `r` is the job `e` with its process numbers and those of the jobs of this key.
pub record Merges (k : List Text) (e : RunnerFleetJob) (js : List RunnerFleetJob)
    (r : RunnerFleetJob) : Type 0 where
  pub fields : r ≡ record e { pids = r.pids }
  pub numbers : (p : ℕ) → Among p r.pids ↔ (Among p e.pids ⊎ Runs k p js)

absorb_fields :
    (j e : RunnerFleetJob) (xs : List ℕ)
    → record (absorb j e) { pids = xs } ≡ record e { pids = xs }
unfolding absorb
absorb_fields j e xs = refl

Merges-cons :
    (k : List Text) (j e r : RunnerFleetJob) (js : List RunnerFleetJob)
    → key_of j ≡ k
    → Merges k (absorb j e) js r
    → Merges k e (j ∷ js) r
Merges-cons k j e r js here m = record {
  fields = m.fields ∙ absorb_fields j e r.pids;
  numbers = λ p. (
    λ h. elim ((m.numbers p).0 h) [
      | inl i ↦ elim ((Among-absorb p j e).0 i) [ inl a ↦ inl a | inr b ↦ inr (inl (here, b)) ]
      | inr f ↦ inr (inr f)
    ],
    λ h. (m.numbers p).1 (elim h [
      | inl a ↦ inl ((Among-absorb p j e).1 (inl a))
      | inr f ↦ elim f [ inl b ↦ inl ((Among-absorb p j e).1 (inr b.1)) | inr g ↦ inr g ]
    ]),
  );
}

Merges-skip :
    (k : List Text) (j e r : RunnerFleetJob) (js : List RunnerFleetJob)
    → keyed k j ≡ false
    → Merges k e js r
    → Merges k e (j ∷ js) r
Merges-skip k j e r js other m = record {
  fields = m.fields;
  numbers = λ p. (
    λ h. elim ((m.numbers p).0 h) [ inl a ↦ inl a | inr f ↦ inr (inr f) ],
    λ h. (m.numbers p).1 (elim h [
      | inl a ↦ inl a
      | inr f ↦ elim f [ inl b ↦ absurd (cc ((key_iff k j).1 b.0, other)) | inr g ↦ inr g ]
    ]),
  );
}

gather-Merges :
    (k : List Text) (e : RunnerFleetJob) (js : List RunnerFleetJob)
    → (r : RunnerFleetJob) × (gather k (some e) js ≡ some r) × Merges k e js r
unfolding gather
gather-Merges k e [] = (
  e,
  refl,
  record {
    fields = refl;
    numbers = λ p. (λ h. inl h, λ h. elim h [ inl i ↦ i | inr f ↦ absurd f ]);
  },
)
gather-Merges k e (j ∷ js) = elim (Bool-cases (keyed k j)) [
  | inl here ↦
      let (r, found, m) = gather-Merges k (absorb j e) js in
      rw here (r, found, Merges-cons k j e r js ((key_iff k j).0 here) m)
  | inr other ↦
      let (r, found, m) = gather-Merges k e js in
      rw other (r, found, Merges-skip k j e r js other m)
]

-- What a key's row is: none if no job has the key, else the first such job with the process numbers
-- of all.
abbrev pub RowOf : List Text → List RunnerFleetJob → Option RunnerFleetJob → Type 0
RowOf k js none = first_of k js ≡ none
RowOf k js (some r) =
    (e : RunnerFleetJob) × (first_of k js ≡ some e)
    × (r ≡ record e { pids = r.pids })
    × ((p : ℕ) → Among p r.pids ↔ Runs k p js)

RowOf-skip :
    (k : List Text) (j : RunnerFleetJob) (js : List RunnerFleetJob) (o : Option RunnerFleetJob)
    → keyed k j ≡ false
    → RowOf k js o
    → RowOf k (j ∷ js) o
unfolding first_of
RowOf-skip k j js none other row = rw other row
RowOf-skip k j js (some r) other (e, first, fields, numbers) = (
  e,
  rw other first,
  fields,
  λ p. (
    λ h. inr ((numbers p).0 h),
    λ h. (numbers p).1 (elim h [ inl b ↦ absurd (cc ((key_iff k j).1 b.0, other)) | inr g ↦ g ]),
  ),
)

Merges-RowOf :
    (k : List Text) (j r : RunnerFleetJob) (js : List RunnerFleetJob)
    → keyed k j ≡ true
    → Merges k j js r
    → RowOf k (j ∷ js) (some r)
unfolding first_of
Merges-RowOf k j r js here m =
    let key : key_of j ≡ k = (key_iff k j).0 here in
    (
      j,
      rw here refl,
      m.fields,
      λ p. (
        λ h. elim ((m.numbers p).0 h) [ inl a ↦ inl (key, a) | inr f ↦ inr f ],
        λ h. (m.numbers p).1 (elim h [ inl b ↦ inl b.1 | inr f ↦ inr f ]),
      ),
    )

gather-RowOf : (k : List Text) (js : List RunnerFleetJob) → RowOf k js (gather k none js)
unfolding gather
gather-RowOf k [] = unfold first_of in refl
gather-RowOf k (j ∷ js) = elim (Bool-cases (keyed k j)) [
  | inl here ↦
      let (r, found, m) = gather-Merges k j js in
      rw here (subst (RowOf k (j ∷ js)) (sym found) (Merges-RowOf k j r js here m))
  | inr other ↦ rw other (RowOf-skip k j js (gather k none js) other (gather-RowOf k js))
]

-- The map's entry at a key.
pub collect-RowOf :
    (k : List Text) (js : List RunnerFleetJob) → RowOf k js (Sorted.get k (collect js []))
collect-RowOf k js =
    subst (RowOf k js) (sym (get-collect k js [] tt ∙ ap (λ o. gather k o js) (Sorted.get-nil k)))
      (gather-RowOf k js)
