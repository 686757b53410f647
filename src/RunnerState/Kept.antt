-- ===== src/RunnerState/Kept.antt =====
-- Which paths a normalization removes (crates/runner-cli/src/runner_state.rs).
use flexnetos_runner.Shared.{
  ℕ, ap, sym, ◌≡◌, refl, ◌∙◌, ◌↔◌, ◌⊎◌, inl, inr, Bool, true, false, List, [], ◌∷◌, ◌++◌,
  if◌then◌else◌, arith, Bool-cases, Among, ok, ok-injective, >>=-ok, Text,
}
use flexnetos_runner.Shared.Order.{list_order, ℕ_order}
use flexnetos_runner.RunnerState.Disk.{Disk}
use flexnetos_runner.RunnerState.Class.{
  RunnerStateClass, live_runner_state, cache_state, config_churn, git_kb_runtime, denied_sensitive,
  unclassified, RunnerStateEntry, RunnerStateSlots, matches_path,
}
use flexnetos_runner.RunnerState.Audit.{
  Listing, RunnerStateAuditReport, candidate_paths, audit_entries, sort_entries, insert_entry,
  report_on, audit_runner_state,
}
use flexnetos_runner.RunnerState.Normalize.{
  Paths, no_paths, normalized, removed, preserved, settle_entry, settle_entries, System,
  RunnerStateNormalizeReport, normalize_runner_state,
}
use flexnetos_runner.RunnerState.Runtime.{
  is_runtime, is_ledger_path, HasRuntime, audit_entries-HasRuntime,
}

settle_entry-removed :
    (dry : Bool) (c : RunnerStateClass) (path : Text) (disk : Disk) (l : Paths) (r : Disk × Paths)
    → settle_entry dry c path disk l ≡ ok r
    → r.1.removed_runtime_paths
      ≡ (if is_runtime c then l.removed_runtime_paths ++ path ∷ [] else l.removed_runtime_paths)
unfolding settle_entry normalized removed preserved
settle_entry-removed dry config_churn path disk l r h = ground arith
settle_entry-removed dry git_kb_runtime path disk l r h = ground arith
settle_entry-removed dry live_runner_state path disk l r h = ground arith
settle_entry-removed dry cache_state path disk l r h = ground arith
settle_entry-removed dry denied_sensitive path disk l r h = ground arith
settle_entry-removed dry unclassified path disk l r h = ground arith

insert_entry-HasRuntime :
    (p : Text) (e : RunnerStateEntry) (es : List RunnerStateEntry)
    → HasRuntime p (insert_entry e es) ↔ HasRuntime p (e ∷ es)
unfolding insert_entry
insert_entry-HasRuntime p e [] = (λ h. h, λ h. h)
insert_entry-HasRuntime p e (f ∷ es) = grind (arith, inl, inr, insert_entry-HasRuntime p e es)

sort_entries-HasRuntime :
    (p : Text) (es : List RunnerStateEntry) → HasRuntime p (sort_entries es) ↔ HasRuntime p es
unfolding sort_entries
sort_entries-HasRuntime p [] = (λ h. h, λ h. h)
sort_entries-HasRuntime p (e ∷ es) =
    grind
      (arith, inl, inr, insert_entry-HasRuntime p e (sort_entries es), sort_entries-HasRuntime p es)

Among-append : (p : Text) (xs ys : List Text) → Among p (xs ++ ys) ↔ (Among p xs ⊎ Among p ys)
Among-append p [] ys = grind (arith, inl, inr)
Among-append p (x ∷ xs) ys = grind (arith, inl, inr, Among-append p xs ys)

settle_entry-Among :
    (dry : Bool) (p : Text) (c : RunnerStateClass) (path : Text) (disk : Disk) (l : Paths)
    (r : Disk × Paths)
    → settle_entry dry c path disk l ≡ ok r
    → Among p r.1.removed_runtime_paths
      ↔ (Among p l.removed_runtime_paths ⊎ ((is_runtime c ≡ true) × (path ≡ p)))
settle_entry-Among dry p c path disk l r h =
    let now = settle_entry-removed dry c path disk l r h in
    let both = Among-append p l.removed_runtime_paths (path ∷ []) in
    elim (Bool-cases (is_runtime c)) [
      | inl t ↦
          let here : r.1.removed_runtime_paths ≡ l.removed_runtime_paths ++ path ∷ [] =
            now ∙ rw t refl in
          rw here (
            λ h. elim (both.0 h) [
              | inl a ↦ inl a
              | inr b ↦ elim b [ inl e ↦ inr (t, e) | inr f ↦ absurd f ]
            ],
            λ h. both.1 (elim h [ inl a ↦ inl a | inr b ↦ inr (inl b.1) ]),
          )
      | inr t ↦
          let here : r.1.removed_runtime_paths ≡ l.removed_runtime_paths = now ∙ rw t refl in
          rw here (λ h. inl h, λ h. elim h [ inl a ↦ a | inr b ↦ absurd (cc (b.0, t)) ])
    ]

settle_entries-removed :
    (dry : Bool) (p : Text) (es : List RunnerStateEntry) (disk : Disk) (l : Paths)
    (r : Disk × Paths)
    → settle_entries dry es disk l ≡ ok r
    → Among p r.1.removed_runtime_paths ↔ (Among p l.removed_runtime_paths ⊎ HasRuntime p es)
unfolding settle_entries
settle_entries-removed dry p [] disk l r h =
    let e : ◌≡◌ {A = Disk × Paths} (disk, l) r = ok-injective h in
    rw (← e) (λ h. inl h, λ h. elim h [ inl a ↦ a | inr f ↦ absurd f ])
settle_entries-removed dry p (e ∷ es) disk l r h =
    let (s, first, rest) = >>=-ok (settle_entry dry e.class e.path disk l) _ h in
    let ih = settle_entries-removed dry p es s.0 s.1 r rest in
    let one = settle_entry-Among dry p e.class e.path disk l s first in
    (
      λ h. elim (ih.0 h) [
        | inl a ↦ elim (one.0 a) [ inl b ↦ inl b | inr c ↦ inr (inl c) ]
        | inr f ↦ inr (inr f)
      ],
      λ h. ih.1 (elim h [
        | inl a ↦ inl (one.1 (inl a))
        | inr f ↦ elim f [ inl c ↦ inl (one.1 (inr c)) | inr g ↦ inr g ]
      ]),
    )

audit-entries :
    (disk : Disk) (listing : Listing) (active : List Text) (strict : Bool)
    (slots : RunnerStateSlots) (paths : List Text) (r : RunnerStateAuditReport)
    → candidate_paths disk listing ≡ ok paths
    → audit_runner_state disk listing active strict slots ≡ ok r
    → (found : List RunnerStateEntry × List (Text × ℕ)) × (audit_entries disk slots [] paths
        ≡ ok found)
      × (r.entries ≡ sort_entries found.0)
unfolding audit_runner_state report_on
audit-entries disk listing active strict slots paths r listed h =
    let (found, here, last) = >>=-ok (audit_entries disk slots [] paths) _ (rw listed at h) in
    let made : report_on strict active found.0 found.1 ≡ r = ok-injective last in
    (found, here, ap (λ (r : RunnerStateAuditReport). r.entries) (sym made))

-- A normalization that ends well lists as removed exactly the candidates of its slots that are paths
-- of the task ledger, stored evidence included, or of its cache or workspaces, and not sensitive.
pub removed_exact :
    (sys : System) (disk : Disk) (dry : Bool) (slots : RunnerStateSlots) (paths : List Text)
    (after : Disk) (r : RunnerStateNormalizeReport)
    → candidate_paths disk (sys.listing disk) ≡ ok paths
    → normalize_runner_state sys disk dry slots ≡ ok (after, r)
    → (p : Text)
    → Among p r.paths.removed_runtime_paths
      ↔ (Among p paths × (matches_path slots p ≡ true) × (is_ledger_path p ≡ true))
unfolding normalize_runner_state
removed_exact sys disk dry slots paths after r listed h p =
    let (before, audited, h1) =
      >>=-ok (audit_runner_state disk (sys.listing disk) (sys.active disk) false slots) _ h in
    let (q, settled, h2) = >>=-ok (settle_entries dry before.entries disk no_paths) _ h1 in
    let (later, _, last) =
      >>=-ok (audit_runner_state q.0 (sys.listing q.0) (sys.active q.0) false slots) _ h2 in
    let (found, here, sorted) =
      audit-entries disk (sys.listing disk) (sys.active disk) false slots paths before listed
        audited in
    let lists : q.1 ≡ r.paths =
      ap (λ (x : Disk × RunnerStateNormalizeReport). x.1.paths) (ok-injective last) in
    let gone = settle_entries-removed dry p before.entries disk no_paths q settled in
    let kinds = audit_entries-HasRuntime disk slots p [] paths found here in
    let order = sort_entries-HasRuntime p found.0 in
    let moved : HasRuntime p before.entries ↔ HasRuntime p found.0 = rw sorted order in
    rw (← lists) (
      λ h. elim (gone.0 h) [ inl f ↦ absurd f | inr e ↦ kinds.0 (moved.0 e) ],
      λ h. gone.1 (inr (moved.1 (kinds.1 h))),
    )
