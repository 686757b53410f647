-- ===== src/ForgeLoop/Publish/Quoting.antt =====
-- Which of the paths that git has quoted are read back (crates/runner-cli/src/forge_loop.rs). How git
-- spells each character is a parameter.
use mathlib.Core.List.{reverse-append}
use flexnetos_runner.Shared.{
  ℕ, ◌+◌, ◌/◌, ◌%◌, ◌≤◌, ◌≡◌, refl, sym, ap, ◌∙◌, ◌↔◌, true, false, ◌&&◌, ◌||◌, List, [], ◌∷◌, ◌++◌,
  arith, ◌==◌, if◌then◌else◌, all, length, length-append, Text, starts_with, Bool-cases, inl, inr,
}
use flexnetos_runner.RunnerState.Class.{ends_with}
use flexnetos_runner.ForgeLoop.Publish.Git.{
  Spelling, verbatim, short, octal, octal_byte, octal_bytes, spelled, is_known, is_other, fits,
  IsGit, body, quote, is_plain,
}
use flexnetos_runner.ForgeLoop.Publish.{
  escaped, unescape, drop_last, is_quoted, normalize_git_porcelain_path,
}

read : ℕ → Spelling → Text
read c k = if is_plain c k then c ∷ [] else spelled c k

unescape-plain : (c : ℕ) (s : Text) → (c == 92) ≡ false → unescape (c ∷ s) ≡ c ∷ unescape s
unfolding unescape
unescape-plain c [] h = refl
unescape-plain c (d ∷ s) h = rw h refl

unescape-pair : (d : ℕ) (s : Text) → unescape (92 ∷ d ∷ s) ≡ escaped d ++ unescape s
unfolding unescape
unescape-pair d s = refl

digit≢backslash : (n : ℕ) → ((48 + n % 8) == 92) ≡ false
digit≢backslash n = ground arith

escaped-digit : (n : ℕ) → escaped (48 + n % 8) ≡ 92 ∷ (48 + n % 8) ∷ []
unfolding escaped
escaped-digit n = ground arith

unescape-octal_byte : (b : ℕ) (s : Text) → unescape (octal_byte b ++ s) ≡ octal_byte b ++ unescape s
unescape-octal_byte b s =
    unescape-pair (48 + (b / 64) % 8) ((48 + (b / 8) % 8) ∷ (48 + b % 8) ∷ s)
    ∙ rw
        (
          escaped-digit (b / 64),
          unescape-plain (48 + (b / 8) % 8) ((48 + b % 8) ∷ s) (digit≢backslash (b / 8)),
          unescape-plain (48 + b % 8) s (digit≢backslash b),
        )
        refl

unescape-octal_bytes :
    (bs : List ℕ) (s : Text) → unescape (octal_bytes bs ++ s) ≡ octal_bytes bs ++ unescape s
unescape-octal_bytes [] s = refl
unescape-octal_bytes (b ∷ bs) s =
    unescape-octal_byte b (octal_bytes bs ++ s)
    ∙ ap (λ t. octal_byte b ++ t) (unescape-octal_bytes bs s)

escaped-known : (c d : ℕ) → is_known c d ≡ true → escaped d ≡ c ∷ []
unfolding escaped
escaped-known c d h = ground arith

escaped-other : (c d : ℕ) → is_other c d ≡ true → escaped d ≡ 92 ∷ d ∷ []
unfolding escaped
escaped-other c d h = ground arith

escaped-read : (c d : ℕ) → (is_known c d || is_other c d) ≡ true → escaped d ≡ read c (short d)
unfolding read
escaped-read c d h = elim (Bool-cases (is_known c d)) [
  | inl k ↦ rw k (escaped-known c d k)
  | inr k ↦
      (let o : is_other c d ≡ true = sym (ap (λ t. t || is_other c d) k) ∙ h in
        rw k (escaped-other c d o))
]

-- One character of a quoted path is read as itself, or stays as git wrote it.
unescape-spelled :
    (c : ℕ) (k : Spelling) (s : Text)
    → fits c k ≡ true
    → unescape (spelled c k ++ s) ≡ read c k ++ unescape s
unfolding read
unescape-spelled c verbatim s h = unescape-plain c s (ground arith)
unescape-spelled c (short d) s h =
    unescape-pair d s ∙ ap (λ t. t ++ unescape s) (escaped-read c d h)
unescape-spelled c (octal b bs) s h = unescape-octal_bytes (b ∷ bs) s

read_body : (ℕ → Spelling) → Text → Text
read_body spelling [] = []
read_body spelling (c ∷ s) = read c (spelling c) ++ read_body spelling s

unescape-body :
    (spelling : ℕ → Spelling) (s : Text)
    → IsGit spelling
    → unescape (body spelling s) ≡ read_body spelling s
unfolding read_body
unescape-body spelling [] git = unfold unescape in refl
unescape-body spelling (c ∷ s) git =
    unescape-spelled c (spelling c) (body spelling s) (git c)
    ∙ ap (λ t. read c (spelling c) ++ t) (unescape-body spelling s git)

length-read : (c : ℕ) (k : Spelling) → is_plain c k ≡ false → 2 ≤ length (read c k)
unfolding read
length-read c verbatim h = cc
length-read c (short d) h = rw h (omega arith)
length-read c (octal b bs) h = omega arith

length-read_body : (spelling : ℕ → Spelling) (s : Text) → length s ≤ length (read_body spelling s)
unfolding read_body read
length-read_body spelling [] = omega arith
length-read_body spelling (c ∷ s) =
    let ih = length-read_body spelling s in
    elim (Bool-cases (is_plain c (spelling c))) [
      | inl p ↦ rw p (omega (arith, ih))
      | inr p ↦ omega (
        arith,
        ih,
        length-read c (spelling c) p,
        length-append (read c (spelling c)) (read_body spelling s),
      )
    ]

read_body_iff :
    (spelling : ℕ → Spelling) (s : Text)
    → (read_body spelling s ≡ s) ↔ (all (λ c. is_plain c (spelling c)) s ≡ true)
unfolding read_body read
read_body_iff spelling [] = (λ h. refl, λ h. refl)
read_body_iff spelling (c ∷ s) =
    let (to, back) = read_body_iff spelling s in
    elim (Bool-cases (is_plain c (spelling c))) [
      | inl p ↦
          rw p (λ h. to (let t : read_body spelling s ≡ s = cc in t), λ h. ap (λ t. c ∷ t) (back h))
      | inr p ↦ (
        λ h.
            (let same : length (read c (spelling c) ++ read_body spelling s) ≡ length (c ∷ s) =
                ap length h in
              absurd (
                omega (
                  arith,
                  same,
                  length-read c (spelling c) p,
                  length-read_body spelling s,
                  length-append (read c (spelling c)) (read_body spelling s),
                ))),
        λ h.
            (let bad : false ≡ true =
                sym (ap (λ t. t && all (λ c. is_plain c (spelling c)) s) p) ∙ h in
              cc),
      )
    ]

drop_last-append : (s : Text) (c : ℕ) → drop_last (s ++ c ∷ []) ≡ s
unfolding drop_last
drop_last-append [] c = refl
drop_last-append (a ∷ []) c = refl
drop_last-append (a ∷ b ∷ s) c = ap (λ t. a ∷ t) (drop_last-append (b ∷ s) c)

ends_with-append : (s : Text) (c : ℕ) → ends_with (c ∷ []) (s ++ c ∷ []) ≡ true
unfolding ends_with starts_with
ends_with-append s c = rw (reverse-append s (c ∷ [])) (ground arith)

is_quoted-quotes : (s : Text) → is_quoted (34 ∷ (s ++ 34 ∷ [])) ≡ true
unfolding is_quoted starts_with
is_quoted-quotes s =
    let last : ends_with (34 ∷ []) (34 ∷ (s ++ 34 ∷ [])) ≡ true = ends_with-append (34 ∷ s) 34 in
    ground (arith, last, length-append s (34 ∷ []))

normalize-quotes : (s : Text) → normalize_git_porcelain_path (34 ∷ (s ++ 34 ∷ [])) ≡ unescape s
unfolding normalize_git_porcelain_path
normalize-quotes s = rw (is_quoted-quotes s, drop_last-append s 34) refl

-- For every documented way in which git spells the characters of a quoted path: the path is read back
-- as it is exactly when each of its characters is spelled as it is or as \", \\, \n or \t.
pub normalize-quote :
    (spelling : ℕ → Spelling) (path : Text)
    → IsGit spelling
    → (normalize_git_porcelain_path (quote spelling path) ≡ path)
      ↔ (all (λ c. is_plain c (spelling c)) path ≡ true)
normalize-quote spelling path git =
    rw (normalize-quotes (body spelling path), unescape-body spelling path git)
      (read_body_iff spelling path)
