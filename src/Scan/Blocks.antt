-- ===== src/Scan/Blocks.antt =====
-- When the content scan blocks a job (crates/runner-core/src/scan.rs).
use flexnetos_runner.Shared.{
  ℕ, ◌≤◌, ◌≡◌, refl, sym, ap, ◌∙◌, ◌↔◌, ◌⊎◌, inl, inr, true, false, List, [], ◌∷◌, ◌++◌, arith,
  Bool-cases, Text, Among, leb→le, le→leb,
}
use flexnetos_runner.Job.{JobSpec}
use flexnetos_runner.Scan
use flexnetos_runner.Scan.{
  Severity, Finding, Pattern, ScanPolicy, rank, max_from, max_severity, bank, scan_bank, scan_value,
  scan_fields, fields_of, scan, blocks, blocks_on,
}

worse_iff : (t : ℕ) (a b : Severity) → (t ≤ rank (Scan.worse a b)) ↔ ((t ≤ rank a) ⊎ (t ≤ rank b))
worse_iff t a b = ground arith

max_from_iff :
    (t : ℕ) (worst : Severity) (fs : List Finding)
    → (t ≤ rank (max_from worst fs))
      ↔ ((t ≤ rank worst) ⊎ ((f : Finding) × Among f fs × (t ≤ rank f.severity)))
unfolding max_from
max_from_iff t worst [] = (λ h. inl h, λ x. elim x [ inl h ↦ h | inr w ↦ absurd w.1 ])
max_from_iff t worst (g ∷ fs) =
    let ih = max_from_iff t (Scan.worse worst g.severity) fs in
    let two = worse_iff t worst g.severity in
    (
      λ h. elim (ih.0 h) [
        | inl w ↦ elim (two.0 w) [ inl x ↦ inl x | inr y ↦ inr (g, inl refl, y) ]
        | inr (f, i, l) ↦ inr (f, inr i, l)
      ],
      λ x. ih.1 (elim x [
        | inl a ↦ inl (two.1 (inl a))
        | inr (f, inl p, l) ↦ inl (two.1 (inr (rw p l)))
        | inr (f, inr i, l) ↦ inr (f, i, l)
      ]),
    )

abbrev finding_for : Text → Pattern → Finding
finding_for field p = record { field = field; pattern_name = p.name; severity = p.severity }

-- A pattern of the list matches the value, with a severity of at least `t`.
abbrev Hit : ℕ → Text → List Pattern → Type 0
Hit t value ps = (p : Pattern) × Among p ps × (p.matches value ≡ true) × (t ≤ rank p.severity)

abbrev Worst : ℕ → List Finding → Type 0
Worst t fs = (f : Finding) × Among f fs × (t ≤ rank f.severity)

scan_bank_iff :
    (t : ℕ) (field value : Text) (ps : List Pattern)
    → Worst t (scan_bank ps field value) ↔ Hit t value ps
unfolding scan_bank
scan_bank_iff t field value [] = (λ w. absurd w.1, λ w. absurd w.1)
scan_bank_iff t field value (p ∷ ps) =
    let ih = scan_bank_iff t field value ps in
    elim (Bool-cases (p.matches value)) [
      | inl m ↦ rw m (
        λ (f, i, l). elim i [
          | inl e ↦ (p, inl refl, m, rw (ap (λ (x : Finding). x.severity) e) l)
          | inr i ↦ (let (q, j, n, k) = ih.0 (f, i, l) in (q, inr j, n, k))
        ],
        λ (q, j, n, l). elim j [
          | inl e ↦ (finding_for field p, inl refl, rw e l)
          | inr j ↦ (let (f, i, k) = ih.1 (q, j, n, l) in (f, inr i, k))
        ],
      )
      | inr m ↦ rw m (
        λ w. (let (q, j, n, k) = ih.0 w in (q, inr j, n, k)),
        λ (q, j, n, l). elim j [
          | inl e ↦
              (let bad : true ≡ false = sym n ∙ ap (λ (x : Pattern). x.matches value) (sym e) ∙ m in
                cc)
          | inr j ↦ ih.1 (q, j, n, l)
        ],
      )
    ]

Among-append :
    {A : Type 0} (a : A) (xs ys : List A) → Among a (xs ++ ys) ↔ (Among a xs ⊎ Among a ys)
Among-append a [] ys = (λ i. inr i, λ x. elim x [ inl i ↦ absurd i | inr i ↦ i ])
Among-append a (x ∷ xs) ys =
    let ih = Among-append a xs ys in
    (
      λ i. elim i [
        | inl e ↦ inl (inl e)
        | inr j ↦ elim (ih.0 j) [ inl k ↦ inl (inr k) | inr k ↦ inr k ]
      ],
      λ i. elim i [
        | inl (inl e) ↦ inl e
        | inl (inr k) ↦ inr (ih.1 (inl k))
        | inr k ↦ inr (ih.1 (inr k))
      ],
    )

-- A field's value is hit.
abbrev FieldHit : ℕ → List (Text × Text) → Type 0
FieldHit t fields = (field value : Text) × Among (field, value) fields × Hit t value bank

scan_fields_iff :
    (t : ℕ) (fields : List (Text × Text)) → Worst t (scan_fields fields) ↔ FieldHit t fields
unfolding scan_fields scan_value
scan_fields_iff t [] = (λ w. absurd w.1, λ w. absurd w.2)
scan_fields_iff t ((field, value) ∷ rest) =
    let ih = scan_fields_iff t rest in
    let here = scan_bank_iff t field value bank in
    (
      λ (f, i, l). elim ((Among-append f (scan_bank bank field value) (scan_fields rest)).0 i) [
        | inl j ↦ (field, value, inl refl, here.0 (f, j, l))
        | inr j ↦ (let (g, v, k, h) = ih.0 (f, j, l) in (g, v, inr k, h))
      ],
      λ (g, v, k, h). elim k [
        | inl e ↦
            (let (f, i, l) = here.1 (rw (ap (λ x. x.1) e) h) in
              (f, (Among-append f (scan_bank bank field value) (scan_fields rest)).1 (inl i), l))
        | inr k ↦
            (let (f, i, l) = ih.1 (g, v, k, h) in
              (f, (Among-append f (scan_bank bank field value) (scan_fields rest)).1 (inr i), l))
      ],
    )

positive : (s : Severity) → Scan.is_none s ≡ false → 1 ≤ rank s
unfolding Scan.is_none
positive s h = ground arith

-- With a threshold above none, the scan blocks a job exactly when a pattern of the bank whose severity
-- is at least the threshold matches one of the job's free-text fields.
pub blocks_exact :
    (threshold : Severity) (job : JobSpec)
    → Scan.is_none threshold ≡ false
    → (blocks (Scan.block_at threshold) (scan job) ≡ true) ↔ (
        (field value : Text) × Among (field, value) (fields_of job)
        × ((p : Pattern) × Among p bank
            × (p.matches value ≡ true)
            × (rank threshold ≤ rank p.severity)))
unfolding blocks Scan.block_at scan max_severity
blocks_exact threshold job active =
    let t : ℕ = rank threshold in
    let fs : List Finding = scan_fields (fields_of job) in
    let worst = max_from_iff t Severity.none fs in
    let hits = scan_fields_iff t (fields_of job) in
    let one : 1 ≤ t = positive threshold active in
    rw active (
      λ h. hits.0 (elim (worst.0 (leb→le t (rank (max_from Severity.none fs)) h)) [
        | inl z ↦ absurd (omega arith)
        | inr w ↦ w
      ]),
      λ w. le→leb t (rank (max_from Severity.none fs)) (worst.1 (inr (hits.1 w))),
    )
