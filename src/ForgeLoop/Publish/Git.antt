-- ===== src/ForgeLoop/Publish/Git.antt =====
-- How git writes a path in quotes, as its manual says (core.quotePath of git-config): what
-- normalize_git_porcelain_path of crates/runner-cli/src/forge_loop.rs is given.
use flexnetos_runner.Shared.{
  ℕ, ◌+◌, ◌/◌, ◌%◌, ◌≡◌, Bool, true, false, not, ◌&&◌, ◌||◌, List, [], ◌∷◌, ◌++◌, ◌==◌, Text,
}

-- A character in a quoted path of git: as it is, a backslash and one character, or the bytes of its
-- encoding, each a backslash and three octal digits.
pub data Spelling : Type 0 where
  verbatim : Spelling
  short : ℕ → Spelling
  octal : ℕ → List ℕ → Spelling

abbrev pub octal_byte : ℕ → Text
octal_byte b = 92 ∷ (48 + (b / 64) % 8) ∷ (48 + (b / 8) % 8) ∷ (48 + b % 8) ∷ []

abbrev pub octal_bytes : List ℕ → Text
octal_bytes [] = []
octal_bytes (b ∷ bs) = octal_byte b ++ octal_bytes bs

abbrev pub spelled : ℕ → Spelling → Text
spelled c verbatim = c ∷ []
spelled c (short d) = 92 ∷ d ∷ []
spelled c (octal b bs) = octal_byte b ++ octal_bytes bs

-- The characters which the program's reading knows behind a backslash, as what they stand for.
abbrev pub is_known : ℕ → ℕ → Bool
is_known c d = c == 34 && d == 34 || c == 92 && d == 92 || c == 10 && d == 110 || c == 9 && d == 116

-- The other short escapes of C: \a, \b, \v, \f and \r.
abbrev pub is_other : ℕ → ℕ → Bool
is_other c d =
    c == 7 && d == 97
    || c == 8 && d == 98
    || c == 11 && d == 118
    || c == 12 && d == 102
    || c == 13 && d == 114

-- What git documents: quotes and backslashes are escaped, and a short escape is one of C's.
abbrev pub fits : ℕ → Spelling → Bool
fits c verbatim = not (c == 34) && not (c == 92)
fits c (short d) = is_known c d || is_other c d
fits c (octal b bs) = true

abbrev pub IsGit : (ℕ → Spelling) → Type 0
IsGit spelling = (c : ℕ) → fits c (spelling c) ≡ true

abbrev pub body : (ℕ → Spelling) → Text → Text
body spelling [] = []
body spelling (c ∷ s) = spelled c (spelling c) ++ body spelling s

abbrev pub quote : (ℕ → Spelling) → Text → Text
quote spelling path = 34 ∷ (body spelling path ++ 34 ∷ [])

-- As it is, or as \", \\, \n or \t.
abbrev pub is_plain : ℕ → Spelling → Bool
is_plain c verbatim = true
is_plain c (short d) = is_known c d
is_plain c (octal b bs) = false
