-- ===== src/RunnerState/Runtime.antt =====
-- Which entries of an audit are runtime state of the task ledger
-- (crates/runner-cli/src/runner_state.rs).
use flexnetos_runner.Shared.{
  ℕ, ap, sym, ◌≡◌, refl, ◌∙◌, ◌↔◌, ◌⊎◌, inl, inr, Bool, true, false, not, ◌&&◌, ◌||◌, List, [], ◌∷◌,
  ◌++◌, arith, Bool-cases, Among, ok, ok-injective, >>=-ok, Text, codes, text_eq, text_eq_iff,
  starts_with, to_ascii_lowercase, contains, one_of, split,
}
use flexnetos_runner.Shared.Order.{list_order, ℕ_order}
use flexnetos_runner.RunnerState.Disk.{Disk, gitignore, gitignore_hides_work}
use flexnetos_runner.RunnerState.Class.{
  RunnerStateClass, config_churn, git_kb_runtime, RunnerStateEntry, RunnerStateSlots, entry,
  classify_path, matches_path, is_sensitive, is_denied_sensitive_path, file_name_of,
}
use flexnetos_runner.RunnerState.Audit.{duplicates_in, audit_candidate, audit_entry, audit_entries}

abbrev pub is_runtime : RunnerStateClass → Bool
is_runtime c = elim c [ git_kb_runtime ↦ true | _ ↦ false ]

-- A path of the task ledger, of its cache or of a workspace, that is not sensitive.
abbrev pub is_ledger_path : Text → Bool
is_ledger_path path =
    not (is_sensitive path)
    && (starts_with (codes ".kb/store") path
        || starts_with (codes ".kb/.cache") path
        || starts_with (codes ".kb/workspaces") path)

-- Some entry of the class is for the path.
abbrev pub HasRuntime : Text → List RunnerStateEntry → Type 0
HasRuntime p [] = ⊥
HasRuntime p (e ∷ es) = ((is_runtime e.class ≡ true) × (e.path ≡ p)) ⊎ HasRuntime p es

classify_path_lem :
    (disk : Disk) (path : Text) (e : RunnerStateEntry)
    → classify_path disk path ≡ ok e
    → (e.path ≡ path) × (is_runtime e.class ≡ is_ledger_path path)
unfolding classify_path
classify_path_lem disk path e h = ground arith

gitignore_is_no_ledger : is_ledger_path gitignore ≡ false
unfolding is_denied_sensitive_path starts_with codes to_ascii_lowercase contains one_of file_name_of
    text_eq split
gitignore_is_no_ledger = refl

audit_entry_lem :
    (disk : Disk) (path : Text) (e : RunnerStateEntry)
    → audit_entry disk path ≡ ok e
    → (e.path ≡ path) × (is_runtime e.class ≡ is_ledger_path path)
unfolding audit_entry
audit_entry_lem disk path e h = elim (Bool-cases (text_eq path gitignore)) [
  | inl g ↦
      let (hides, _, q) = >>=-ok (gitignore_hides_work disk) _ (rw g at h) in
      elim (Bool-cases hides) [
        | inl t ↦
            let no : is_ledger_path path ≡ false =
              ap (λ s. is_ledger_path s) ((text_eq_iff path gitignore).0 g)
              ∙ gitignore_is_no_ledger in
            let made : entry path config_churn
                  (codes "broad _work ignore hides preserved runner state") true true
                ≡ e =
              ok-injective (rw t at q) in
            (
              ap (λ (e : RunnerStateEntry). e.path) (sym made),
              ap (λ (e : RunnerStateEntry). is_runtime e.class) (sym made) ∙ sym no,
            )
        | inr f ↦ classify_path_lem disk path e (rw f at q)
      ]
  | inr g ↦ classify_path_lem disk path e (rw g at h)
]

-- The paths of the entries that are runtime are those of the candidates that are ledger paths.
pub audit_entries-HasRuntime :
    (disk : Disk) (slots : RunnerStateSlots) (p : Text) (found : List (Text × ℕ))
    (paths : List Text) (r : List RunnerStateEntry × List (Text × ℕ))
    → audit_entries disk slots found paths ≡ ok r
    → HasRuntime p r.0 ↔ (Among p paths × (matches_path slots p ≡ true) × (is_ledger_path p ≡ true))
unfolding audit_entries audit_candidate
audit_entries-HasRuntime disk slots p found [] r h =
    let e : ◌≡◌ {A = List RunnerStateEntry × List (Text × ℕ)} ([], found) r = ok-injective h in
    rw (← e) (λ h. absurd h, λ h. absurd h.0)
audit_entries-HasRuntime disk slots p found (q ∷ paths) r h =
    let (x, first, more) = >>=-ok (audit_candidate disk slots found q) _ h in
    let (rest, later, last) = >>=-ok (audit_entries disk slots x.1 paths) _ more in
    let whole : x.0 ++ rest.0 ≡ r.0 =
      ap (λ (r : List RunnerStateEntry × List (Text × ℕ)). r.0) (ok-injective last) in
    let ih = audit_entries-HasRuntime disk slots p x.1 paths rest later in
    elim (Bool-cases (matches_path slots q)) [
      | inl m ↦
          let (e, here, next) = >>=-ok (audit_entry disk q) _ (rw m at first) in
          let (ds, _, both) = >>=-ok (duplicates_in disk e found) _ next in
          let one : e ∷ [] ≡ x.0 =
            ap (λ (r : List RunnerStateEntry × List (Text × ℕ)). r.0) (ok-injective both) in
          let made : e ∷ rest.0 ≡ r.0 = ap (λ es. es ++ rest.0) one ∙ whole in
          let a = audit_entry_lem disk q e here in
          rw (← made) (
            λ h. elim h [
              | inl i ↦
                  let qp : q ≡ p = sym a.0 ∙ i.1 in (inl qp, rw (← qp) m, rw (← qp) (sym a.1 ∙ i.0))
              | inr f ↦ let w = ih.0 f in (inr w.0, w.1, w.2)
            ],
            λ h. elim h.0 [
              | inl qp ↦ inl (a.1 ∙ rw qp h.2, a.0 ∙ qp)
              | inr f ↦ inr (ih.1 (f, h.1, h.2))
            ],
          )
      | inr m ↦
          let none : ◌≡◌ {A = List RunnerStateEntry} [] x.0 =
            ap (λ (r : List RunnerStateEntry × List (Text × ℕ)). r.0)
              (ok-injective (rw m at first)) in
          let made : rest.0 ≡ r.0 = ap (λ es. es ++ rest.0) none ∙ whole in
          rw (← made) (
            λ h. let w = ih.0 h in (inr w.0, w.1, w.2),
            λ h. elim h.0 [
              | inl qp ↦ absurd (cc (ap (matches_path slots) qp, m, h.1))
              | inr f ↦ ih.1 (f, h.1, h.2)
            ],
          )
    ]
