-- ===== src/Redact.antt =====
-- The redaction of secrets (crates/runner-core/src/redact.rs).
pub mod Secrets
use flexnetos_runner.Shared.{
  ℕ, zero, suc, ◌-◌, Bool, true, false, not, ◌&&◌, Option, none, some, List, [], ◌∷◌, ◌++◌, ltb,
  if◌then◌else◌, length, is_empty, any, Text, codes, text_eq, starts_with, contains, as_bytes,
  Float,
}
use flexnetos_runner.Events.{DispatchEvent}

pub record Redactor : Type 0 where
  pub secrets : List Text

unfoldable pub no_secrets : Redactor
no_secrets = record { secrets = [] }

-- `secret.len()` counts bytes.
unfoldable pub byte_len : Text → ℕ
byte_len s = length (as_bytes s)

abbrev pub min_secret_len : ℕ
min_secret_len = 4

unfoldable pub placeholder : Text
placeholder = codes "«redacted»"

-- The stable sort after a `push` on a list that is sorted: behind the last one that is no shorter.
unfoldable pub insert_longest : Text → List Text → List Text
insert_longest s [] = s ∷ []
insert_longest s (t ∷ ts) =
    if ltb (byte_len t) (byte_len s) then s ∷ t ∷ ts else t ∷ insert_longest s ts

unfoldable pub qualifies : Redactor → Text → Bool
qualifies r secret =
    not (ltb (byte_len secret) min_secret_len) && not (any (λ s. text_eq s secret) r.secrets)

unfoldable pub register : Redactor → Text → Redactor × Bool
unfolding qualifies
register r secret =
    if qualifies r secret
    then (record { secrets = insert_longest secret r.secrets }, true)
    else (r, false)

unfoldable pub register_all : Redactor → List Text → Redactor
register_all r [] = r
register_all r (s ∷ ss) = register_all (register r s).0 ss

unfoldable pub from_secrets : List Text → Redactor
unfolding register_all
from_secrets ss = register_all no_secrets ss

unfoldable pub is_active : Redactor → Bool
is_active r = not (is_empty r.secrets)

-- `str::replace`: the leftmost matches that do not overlap. `skip` characters of the last match are
-- still to be passed over. Only a pattern with a character comes here.
unfoldable pub replace_from : ℕ → Text → Text → Text → Text
replace_from skip pattern by [] = []
replace_from (suc skip) pattern by (c ∷ s) = replace_from skip pattern by s
replace_from zero pattern by (c ∷ s) =
    let matched = by ++ replace_from (length pattern - 1) pattern by s in
    let on = c ∷ replace_from 0 pattern by s in if starts_with pattern (c ∷ s) then matched else on

unfoldable pub replace : Text → Text → Text → Text
unfolding replace_from
replace pattern by s = replace_from 0 pattern by s

unfoldable pub redact_each : List Text → Text → Text
redact_each [] out = out
redact_each (secret ∷ rest) out =
    redact_each rest (if contains secret out then replace secret placeholder out else out)

unfoldable pub redact : Redactor → Text → Text
unfolding redact_each
redact r text = redact_each r.secrets text

redact_detail : (fl : Float) → Redactor → Option Text → DispatchEvent fl → DispatchEvent fl
redact_detail fl r none e = e
redact_detail fl r (some detail) e = record e { detail = some (redact r detail) }

-- The event that `RedactingSink` forwards to its inner sink.
unfoldable pub redact_event : (fl : Float) → Redactor → DispatchEvent fl → DispatchEvent fl
unfolding redact_detail
redact_event fl r e = redact_detail fl r e.detail e
