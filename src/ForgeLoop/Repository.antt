-- ===== src/ForgeLoop/Repository.antt =====
-- What the audits look up in the repository: all_terms_present and all_file_terms_present of
-- crates/runner-cli/src/forge_loop.rs.
use flexnetos_runner.Shared.{
  Bool, false, Option, none, some, List, [], ◌∷◌, all, Text, codes, contains, join,
}

-- The files below the root: the text of one that can be read, and which paths exist.
pub record Repository : Type 0 where
  pub read : Text → Option Text
  pub exists : Text → Bool

unfoldable pub texts_of : Repository → List Text → List Text
texts_of root [] = []
texts_of root (path ∷ paths) =
    let rest = texts_of root paths in
    elim (root.read path) [ none ↦ rest | some text ↦ text ∷ rest ]

unfoldable pub all_terms_present : Repository → List Text → List Text → Bool
all_terms_present root files terms =
    let text = join (codes "\n") (texts_of root files) in all (λ term. contains term text) terms

unfoldable pub file_term_present : Repository → Text × Text → Bool
file_term_present root (path, term) = elim (root.read path) [
  | none ↦ false
  | some text ↦ contains term text
]

unfoldable pub all_file_terms_present : Repository → List (Text × Text) → Bool
all_file_terms_present root terms = all (file_term_present root) terms
