-- ===== src/Quarantine.antt =====
-- Quarantine of work that keeps failing (crates/runner-core/src/quarantine.rs).
pub mod Latch
use flexnetos_runner.Shared.{
  ℕ, ◌+◌, Bool, true, false, not, ◌&&◌, [], ltb, leb, if◌then◌else◌, unwrap_or, is_some, length,
  Text, u32,
}
use flexnetos_runner.Shared.Dict
use flexnetos_runner.Shared.Dict.{Dict}

pub record QuarantinePolicy : Type 0 where
  pub threshold : ℕ  -- u32

unfoldable pub disabled : QuarantinePolicy
disabled = record { threshold = 0 }

unfoldable pub is_active : QuarantinePolicy → Bool
is_active p = ltb 0 p.threshold

-- Failure counts, and the set of latched fingerprints.
pub record QuarantineLedger : Type 0 where
  pub failures : Dict ℕ  -- u32
  pub quarantined : Dict (Unit {0})

unfoldable pub empty_ledger : QuarantineLedger
empty_ledger = record { failures = []; quarantined = [] }

unfoldable pub failures : QuarantineLedger → Text → ℕ
failures l fp = unwrap_or (Dict.get fp l.failures) 0

unfoldable pub record_failure : QuarantineLedger → Text → QuarantineLedger × ℕ
unfolding failures
record_failure l fp =
    let n = u32 (failures l fp + 1) in (record l { failures = Dict.insert fp n l.failures }, n)

unfoldable pub quarantine : QuarantineLedger → Text → QuarantineLedger
quarantine l fp = record l { quarantined = Dict.insert fp tt l.quarantined }

unfoldable pub is_quarantined : QuarantineLedger → Text → Bool
is_quarantined l fp = is_some (Dict.get fp l.quarantined)

unfoldable pub clear : QuarantineLedger → Text → QuarantineLedger
clear l fp = record {
  failures = Dict.remove fp l.failures;
  quarantined = Dict.remove fp l.quarantined;
}

-- The operator's re-arm.
unfoldable pub release_all : QuarantineLedger → QuarantineLedger
release_all l = record { failures = []; quarantined = [] }

unfoldable pub quarantined_count : QuarantineLedger → ℕ
quarantined_count l = length l.quarantined

latch : QuarantinePolicy → QuarantineLedger → Text → ℕ → QuarantineLedger × Bool
latch p l fp count =
    if leb p.threshold count && not (is_quarantined l fp)
    then (quarantine l fp, true)
    else (l, false)

-- A kernel failure; `true` if it is the one that latches the fingerprint.
unfoldable pub on_failure : QuarantinePolicy → QuarantineLedger → Text → QuarantineLedger × Bool
unfolding latch is_active
on_failure p l fp =
    if is_active p
    then (let (l', count) = record_failure l fp in latch p l' fp count)
    else (l, false)
