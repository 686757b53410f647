-- ===== src/ForgeLoop/Schema/Missing.antt =====
-- What the schema audit reports (crates/runner-cli/src/forge_loop.rs).
use flexnetos_runner.Shared.{
  ap, sym, ◌∙◌, ◌≡◌, ◌≢◌, refl, ◌↔◌, ◌⊎◌, inl, inr, Bool, true, false, List, [], ◌∷◌, arith,
  Bool-cases, Among, Text, one_of, one_of_iff, is_empty,
}
use flexnetos_runner.ForgeLoop.Schema.{Json}
use flexnetos_runner.ForgeLoop.Schema.Keys.{
  json_schema_requires_key, present_of, without, required_output_schema_fields,
  output_schema_audit_report,
}

-- A name before the names for which a test gives `b`, where it gives `b` too, or does not.
kept_iff :
    {K N : Type 0} (test : Text → Bool) (b : Bool) (n name : Text)
    → test n ≡ b
    → (K ↔ (N × (test name ≡ b)))
    → ((n ≡ name) ⊎ K) ↔ (((n ≡ name) ⊎ N) × (test name ≡ b))
kept_iff test b n name e ih = (
  λ h. elim h [
    | inl same ↦ (inl same, ap test (sym same) ∙ e)
    | inr k ↦ let (among, passes) = ih.0 k in (inr among, passes)
  ],
  λ h. elim h.0 [ inl same ↦ inl same | inr among ↦ inr (ih.1 (among, h.1)) ],
)

dropped_iff :
    {K N : Type 0} (test : Text → Bool) (b : Bool) (n name : Text)
    → test n ≢ b
    → (K ↔ (N × (test name ≡ b)))
    → K ↔ (((n ≡ name) ⊎ N) × (test name ≡ b))
dropped_iff test b n name e ih = (
  λ k. let (among, passes) = ih.0 k in (inr among, passes),
  λ h. elim h.0 [ inl same ↦ absurd (e (ap test same ∙ h.1)) | inr among ↦ ih.1 (among, h.1) ],
)

present_of-Among :
    (schema : Json) (name : Text) (names : List Text)
    → Among name (present_of schema names)
      ↔ (Among name names × (json_schema_requires_key schema name ≡ true))
unfolding present_of
present_of-Among schema name [] = (λ h. absurd h, λ h. absurd h.0)
present_of-Among schema name (n ∷ names) =
    let test = json_schema_requires_key schema in
    let ih = present_of-Among schema name names in
    elim (Bool-cases (test n)) [
      | inl e ↦ rw e (kept_iff test true n name e ih)
      | inr e ↦ rw e (dropped_iff test true n name (ground (arith, e)) ih)
    ]

without-Among :
    (present : List Text) (name : Text) (names : List Text)
    → Among name (without present names) ↔ (Among name names × (one_of name present ≡ false))
unfolding without
without-Among present name [] = (λ h. absurd h, λ h. absurd h.0)
without-Among present name (n ∷ names) =
    let test : Text → Bool = λ s. one_of s present in
    let ih = without-Among present name names in
    elim (Bool-cases (one_of n present)) [
      | inl e ↦ rw e (dropped_iff test false n name (ground (arith, e)) ih)
      | inr e ↦ rw e (kept_iff test false n name e ih)
    ]

nothing_iff : (names : List Text) → (is_empty names ≡ true) ↔ ((name : Text) → ¬ Among name names)
nothing_iff [] = (λ h name i. i, λ h. refl)
nothing_iff (n ∷ names) = (λ h. cc, λ h. absurd (h n (inl refl)))

clash : (b : Bool) → b ≡ true → b ≡ false → ⊥
clash b h k = cc

module _ (schema : Json) (names : List Text) where
  missing_iff :
      (name : Text)
      → Among name (without (present_of schema names) names)
        ↔ (Among name names × (json_schema_requires_key schema name ≡ false))
  missing_iff name =
      let (to, back) = without-Among (present_of schema names) name names in
      let (seen, listed) = one_of_iff name (present_of schema names) in
      let (kept, keep) = present_of-Among schema name names in
      (
        λ h.
            let (among, absent) = to h in
            (
              among,
              elim (Bool-cases (json_schema_requires_key schema name)) [
                | inl e ↦ absurd (clash _ (listed (keep (among, e))) absent)
                | inr e ↦ e
              ],
            ),
        λ h. back (
          h.0,
          elim (Bool-cases (one_of name (present_of schema names))) [
            | inl e ↦ absurd (clash _ (kept (seen e)).1 h.1)
            | inr e ↦ e
          ],
        ),
      )

  ready_iff :
      (is_empty (without (present_of schema names) names) ≡ true)
      ↔ ((name : Text) → Among name names → json_schema_requires_key schema name ≡ true)
  ready_iff =
      let (none_left, empty) = nothing_iff (without (present_of schema names) names) in
      (
        λ h name among. elim (Bool-cases (json_schema_requires_key schema name)) [
          | inl e ↦ e
          | inr e ↦ absurd (none_left h name ((missing_iff name).1 (among, e)))
        ],
        λ found. empty (λ name i.
            let (among, lacks) = (missing_iff name).0 i in clash _ (found name among) lacks),
      )

-- The report shares out the required fields: it lists a name as present exactly if it is one and the
-- schema has it, as missing exactly if it is one and the schema does not, and it is ready exactly if
-- the schema has all of them.
report_exact :
    (schema : Json)
    → let r = output_schema_audit_report schema in
      ((name : Text)
        → Among name r.present_fields ↔ (
            Among name required_output_schema_fields
            × (json_schema_requires_key schema name ≡ true)))
      × ((name : Text)
          → Among name r.missing_fields ↔ (
              Among name required_output_schema_fields
              × (json_schema_requires_key schema name ≡ false)))
      × ((r.structured_output_ready ≡ true) ↔ (
          (name : Text)
          → Among name required_output_schema_fields
          → json_schema_requires_key schema name ≡ true))
unfolding output_schema_audit_report
report_exact schema =
    let names = required_output_schema_fields in
    (
      λ name. present_of-Among schema name names,
      λ name. missing_iff schema names name,
      ready_iff schema names,
    )
