-- ===== src/Redact/Secrets.antt =====
-- Which secrets are registered, and in which order (crates/runner-core/src/redact.rs).
use flexnetos_runner.Shared.{
  ℕ, ◌≤◌, ◌≡◌, refl, sym, ◌∙◌, ◌↔◌, ◌⊎◌, inl, inr, true, false, List, [], ◌∷◌, arith, ltb, any,
  Bool-cases, text_eq_iff, Text, text_eq, contains, Among, ltb→lt,
}
use mathlib.Core.Path.{subst}
use flexnetos_runner.Redact.{
  Redactor, byte_len, min_secret_len, insert_longest, qualifies, register, register_all,
  from_secrets, no_secrets, redact, redact_each,
}

-- The longer ones come first, and each stands there once.
abbrev pub IsLongestFirst : List Text → Type 0
IsLongestFirst [] = Unit {0}
IsLongestFirst (t ∷ ts) =
    ((x : Text) → Among x ts → (byte_len x ≤ byte_len t) × (t ≡ x → ⊥)) × IsLongestFirst ts

insert_longest_iff :
    (s x : Text) (l : List Text) → Among x (insert_longest s l) ↔ ((s ≡ x) ⊎ Among x l)
unfolding insert_longest
insert_longest_iff s x [] = (λ i. i, λ i. i)
insert_longest_iff s x (t ∷ ts) =
    let ih = insert_longest_iff s x ts in
    elim (Bool-cases (ltb (byte_len t) (byte_len s))) [
      | inl h ↦ rw h (λ i. i, λ i. i)
      | inr h ↦ rw h (
        λ i. elim i [
          | inl e ↦ inr (inl e)
          | inr j ↦ elim (ih.0 j) [ inl e ↦ inl e | inr k ↦ inr (inr k) ]
        ],
        λ i. elim i [
          | inl e ↦ inr (ih.1 (inl e))
          | inr (inl e) ↦ inl e
          | inr (inr k) ↦ inr (ih.1 (inr k))
        ],
      )
    ]

not_ltb : (a b : ℕ) → ltb a b ≡ false → b ≤ a
not_ltb a b h = ground arith

insert_longest-IsLongestFirst :
    (s : Text) (l : List Text)
    → (Among s l → ⊥)
    → IsLongestFirst l
    → IsLongestFirst (insert_longest s l)
unfolding insert_longest
insert_longest-IsLongestFirst s [] fresh h = (λ x i. absurd i, tt)
insert_longest-IsLongestFirst s (t ∷ ts) fresh (first, rest) =
    elim (Bool-cases (ltb (byte_len t) (byte_len s))) [
      | inl shorter ↦ rw shorter (
        λ x i. (
          elim i [
            | inl e ↦ (let lt = ltb→lt (byte_len t) (byte_len s) shorter in rw (← e) (omega arith))
            | inr j ↦
                (let le = (first x j).0 in
                  let lt = ltb→lt (byte_len t) (byte_len s) shorter in omega arith)
          ],
          λ e. fresh (subst (λ y. Among y (t ∷ ts)) (sym e) i),
        ),
        (first, rest),
      )
      | inr longer ↦ rw longer (
        λ x i. elim ((insert_longest_iff s x ts).0 i) [
          | inl e ↦ (
            rw (← e) (not_ltb (byte_len t) (byte_len s) longer),
            λ same. fresh (inl (same ∙ sym e)),
          )
          | inr j ↦ first x j
        ],
        insert_longest-IsLongestFirst s ts (λ i. fresh (inr i)) rest,
      )
    ]

any_iff : (s : Text) (l : List Text) → (any (λ t. text_eq t s) l ≡ true) ↔ Among s l
any_iff s [] = (λ e. cc, λ i. absurd i)
any_iff s (t ∷ ts) =
    let ih = any_iff s ts in
    let here = text_eq_iff t s in
    elim (Bool-cases (text_eq t s)) [
      | inl e ↦ rw e (λ h. inl (here.0 e), λ i. refl)
      | inr e ↦ rw e (
        λ h. inr (ih.0 h),
        λ i. elim i [
          | inl same ↦ (let bad : true ≡ false = sym (here.1 same) ∙ e in cc)
          | inr j ↦ ih.1 j
        ],
      )
    ]

-- What a redactor has after a registration.
abbrev Has : Redactor → Text → Type 0
Has r x = Among x r.secrets

register_lem :
    (r : Redactor) (s : Text)
    → IsLongestFirst r.secrets
    → IsLongestFirst (register r s).0.secrets
      × ((x : Text)
          → Has (register r s).0 x ↔ (Has r x ⊎ ((s ≡ x) × (min_secret_len ≤ byte_len s))))
unfolding register qualifies
register_lem r s h = elim (Bool-cases (ltb (byte_len s) min_secret_len)) [
  | inl short ↦ rw short (
    h,
    λ x. (
      λ i. inl i,
      λ i. elim i [
        | inl j ↦ j
        | inr w ↦
            (let lt = ltb→lt (byte_len s) min_secret_len short in
              let le = w.1 in absurd (omega arith))
      ],
    ),
  )
  | inr long ↦ elim (Bool-cases (any (λ t. text_eq t s) r.secrets)) [
    | inl present ↦
        rw (long, present)
          (
            h,
            λ x. (
              λ i. inl i,
              λ i. elim i [ inl j ↦ j | inr w ↦ rw (← w.0) ((any_iff s r.secrets).0 present) ],
            ),
          )
    | inr absent ↦
        rw (long, absent)
          (
            insert_longest-IsLongestFirst s r.secrets
                (λ i. (let bad : true ≡ false = sym ((any_iff s r.secrets).1 i) ∙ absent in cc)) h,
            λ x. (
              λ i. elim ((insert_longest_iff s x r.secrets).0 i) [
                | inl e ↦ inr (e, not_ltb (byte_len s) min_secret_len long)
                | inr j ↦ inl j
              ],
              λ i. elim i [
                | inl j ↦ (insert_longest_iff s x r.secrets).1 (inr j)
                | inr w ↦ (insert_longest_iff s x r.secrets).1 (inl w.0)
              ],
            ),
          )
  ]
]

register_all_lem :
    (r : Redactor) (ss : List Text)
    → IsLongestFirst r.secrets
    → IsLongestFirst (register_all r ss).secrets
      × ((x : Text)
          → Has (register_all r ss) x ↔ (Has r x ⊎ (Among x ss × (min_secret_len ≤ byte_len x))))
unfolding register_all
register_all_lem r [] h = (h, λ x. (λ i. inl i, λ i. elim i [ inl j ↦ j | inr w ↦ absurd w.0 ]))
register_all_lem r (s ∷ ss) h =
    let (sorted, one) = register_lem r s h in
    let (all_sorted, more) = register_all_lem (register r s).0 ss sorted in
    (
      all_sorted,
      λ x. (
        λ i. elim ((more x).0 i) [
          | inl j ↦ elim ((one x).0 j) [ inl k ↦ inl k | inr w ↦ inr (inl w.0, rw (← w.0) w.1) ]
          | inr w ↦ inr (inr w.0, w.1)
        ],
        λ i. elim i [
          | inl k ↦ (more x).1 (inl ((one x).1 (inl k)))
          | inr w ↦
              (let (a, long) = w in
                elim a [
                  | inl e ↦ (more x).1 (inl ((one x).1 (inr (e, rw e long))))
                  | inr k ↦ (more x).1 (inr (k, long))
                ])
        ],
      ),
    )

redact_each-clean :
    (l : List Text) (text : Text)
    → ((x : Text) → Among x l → contains x text ≡ false)
    → redact_each l text ≡ text
unfolding redact_each
redact_each-clean [] text h = refl
redact_each-clean (s ∷ ss) text h =
    rw (h s (inl refl)) (redact_each-clean ss text (λ x i. h x (inr i)))

-- A redactor for some candidates has exactly those of at least four bytes, each once and none before a
-- longer one, and leaves a text that contains none of them as it is.
pub from_secrets_exact :
    (candidates : List Text)
    → ((x : Text)
        → Among x (from_secrets candidates).secrets
          ↔ (Among x candidates × (min_secret_len ≤ byte_len x)))
      × IsLongestFirst (from_secrets candidates).secrets
      × ((text : Text)
          → ((x : Text) → Among x (from_secrets candidates).secrets → contains x text ≡ false)
          → redact (from_secrets candidates) text ≡ text)
unfolding from_secrets no_secrets redact
from_secrets_exact candidates =
    let (sorted, has) = register_all_lem no_secrets candidates tt in
    (
      λ x. (λ i. elim ((has x).0 i) [ inl j ↦ absurd j | inr w ↦ w ], λ w. (has x).1 (inr w)),
      sorted,
      λ text h. redact_each-clean (register_all no_secrets candidates).secrets text h,
    )
