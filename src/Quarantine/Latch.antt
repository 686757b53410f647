-- ===== src/Quarantine/Latch.antt =====
-- When a fingerprint is quarantined, from the history of its outcomes
-- (crates/runner-core/src/quarantine.rs).
use flexnetos_runner.Shared.{
  ap, ◌==◌, refl, ℕ, ◌+◌, ◌<◌, ◌≡◌, refl, ap, ◌∙◌, inl, inr, Bool, false, ◌&&◌, ◌||◌, List, [], ◌∷◌,
  arith, ltb, leb, ◌==◌, if◌then◌else◌, is_some, length, ◌∙◌, ltb, ltb→lt, is_some, Bool-cases,
  text_eq_iff, Text, text_eq, u32,
}
use flexnetos_runner.Shared.Dict
use flexnetos_runner.Shared.Dict.Laws.{get-insert, get-remove}
use flexnetos_runner.Quarantine.{
  QuarantinePolicy, QuarantineLedger, on_failure, record_failure, quarantine, failures, is_active,
  is_quarantined, clear, empty_ledger,
}

-- What the dispatcher reports of a fingerprint: a failure at the kernel, or a clean delegation.
pub data Report : Type 0 where
  failure : Text → Report
  clean : Text → Report

pub after : QuarantinePolicy → QuarantineLedger → List Report → QuarantineLedger
after p l [] = l
after p l (failure fp ∷ rs) = after p (on_failure p l fp).0 rs
after p l (clean fp ∷ rs) = after p (clear l fp) rs

-- The failures of a fingerprint since its last clean delegation.
pub streak : Text → ℕ → List Report → ℕ
streak fp n [] = n
streak fp n (failure f ∷ rs) = streak fp (if text_eq f fp then n + 1 else n) rs
streak fp n (clean f ∷ rs) = streak fp (if text_eq f fp then 0 else n) rs

module _ (p : QuarantinePolicy) (active : 0 < p.threshold) where
  failures-on_failure :
      (l : QuarantineLedger) (f fp : Text)
      → failures (on_failure p l f).0 fp
        ≡ (if text_eq f fp then u32 (failures l f + 1) else failures l fp)
  unfolding on_failure record_failure quarantine failures
  failures-on_failure l f fp = ground (arith, get-insert f fp (u32 (failures l f + 1)) l.failures)

  quarantined-on_failure :
      (l : QuarantineLedger) (f fp : Text)
      → is_quarantined (on_failure p l f).0 fp
        ≡ (is_quarantined l fp || text_eq f fp && leb p.threshold (u32 (failures l f + 1)))
  unfolding on_failure record_failure quarantine is_quarantined
  quarantined-on_failure l f fp = ground (arith, get-insert f fp tt l.quarantined, text_eq_iff f fp)

failures-clear :
    (l : QuarantineLedger) (f fp : Text)
    → failures (clear l f) fp ≡ (if text_eq f fp then 0 else failures l fp)
unfolding clear failures
failures-clear l f fp = ground (arith, get-remove f fp l.failures)

quarantined-clear :
    (l : QuarantineLedger) (f fp : Text)
    → is_quarantined (clear l f) fp ≡ (if text_eq f fp then false else is_quarantined l fp)
unfolding clear is_quarantined
quarantined-clear l f fp = ground (arith, get-remove f fp l.quarantined)

-- The ledger counts the streak, and holds the fingerprint exactly from the threshold on.
pub record Counts (p : QuarantinePolicy) (l : QuarantineLedger) (fp : Text) (n : ℕ) : Type 0 where
  pub counted : failures l fp ≡ n
  pub held : is_quarantined l fp ≡ leb p.threshold n

fresh-Counts :
    (p : QuarantinePolicy) (active : 0 < p.threshold) (fp : Text) → Counts p empty_ledger fp 0
unfolding empty_ledger failures is_quarantined Dict.get
fresh-Counts p active fp = ground arith

active_and : (p : QuarantinePolicy) (b : Bool) → 0 < p.threshold → b ≡ (is_active p && b)
unfolding is_active
active_and p b active = ground arith

inactive_and :
    (p : QuarantinePolicy) (b : Bool) → ltb 0 p.threshold ≡ false → false ≡ (is_active p && b)
unfolding is_active
inactive_and p b off = ground arith

none-held :
    (p : QuarantinePolicy) (rs : List Report) (fp : Text) (l : QuarantineLedger)
    → ltb 0 p.threshold ≡ false
    → is_quarantined l fp ≡ false
    → is_quarantined (after p l rs) fp ≡ false
unfolding after on_failure
none-held p [] fp l off h = h
none-held p (failure f ∷ rs) fp l off h = rw off (none-held p rs fp l off h)
none-held p (clean f ∷ rs) fp l off h =
    none-held p rs fp (clear l f) off (ground (arith, quarantined-clear l f fp))

inactive-after :
    (p : QuarantinePolicy) (rs : List Report) (fp : Text)
    → ltb 0 p.threshold ≡ false
    → is_quarantined (after p empty_ledger rs) fp ≡ false
unfolding empty_ledger is_quarantined Dict.get
inactive-after p rs fp off = none-held p rs fp empty_ledger off refl

module _ (p : QuarantinePolicy) (active : 0 < p.threshold) (fp : Text) where
  Counts-failure :
      (l : QuarantineLedger) (f : Text) (n : ℕ)
      → n + 1 < 4294967296
      → Counts p l fp n
      → Counts p (on_failure p l f).0 fp (if text_eq f fp then n + 1 else n)
  Counts-failure l f n small c = record {
    counted = ground (
      arith,
      failures-on_failure p active l f fp,
      text_eq_iff f fp,
      c.counted,
      λ (e : f ≡ fp). ap (failures l) e,
    );
    held = ground (
      arith,
      quarantined-on_failure p active l f fp,
      text_eq_iff f fp,
      c.held,
      c.counted,
      λ (e : f ≡ fp). ap (failures l) e,
    );
  }

  Counts-clean :
      (l : QuarantineLedger) (f : Text) (n : ℕ)
      → Counts p l fp n
      → Counts p (clear l f) fp (if text_eq f fp then 0 else n)
  Counts-clean l f n c = record {
    counted = ground (arith, failures-clear l f fp, c.counted);
    held = ground (arith, quarantined-clear l f fp, c.held);
  }

  quarantined-from :
      (l : QuarantineLedger) (n : ℕ) (rs : List Report)
      → n + length rs < 4294967296
      → Counts p l fp n
      → is_quarantined (after p l rs) fp ≡ leb p.threshold (streak fp n rs)
  unfolding after streak
  quarantined-from l n [] small c = c.held
  quarantined-from l n (failure f ∷ rs) small c =
      quarantined-from (on_failure p l f).0 (if text_eq f fp then n + 1 else n) rs (ground arith)
        (Counts-failure l f n (omega arith) c)
  quarantined-from l n (clean f ∷ rs) small c =
      quarantined-from (clear l f) (if text_eq f fp then 0 else n) rs (ground arith)
        (Counts-clean l f n c)

-- From an empty ledger and after fewer than 2 ^ 32 reports, a fingerprint is quarantined exactly when
-- the gate is active and the fingerprint's failures since its last clean delegation are at least the
-- threshold.
pub quarantined_exact :
    (p : QuarantinePolicy) (rs : List Report) (fp : Text)
    → length rs < 4294967296
    → is_quarantined (after p empty_ledger rs) fp
      ≡ (is_active p && leb p.threshold (streak fp 0 rs))
quarantined_exact p rs fp small = elim (Bool-cases (ltb 0 p.threshold)) [
  | inl on ↦
      let active : 0 < p.threshold = ltb→lt _ _ on in
      quarantined-from p active fp empty_ledger 0 rs (omega arith) (fresh-Counts p active fp)
      ∙ active_and p (leb p.threshold (streak fp 0 rs)) active
  | inr off ↦ inactive-after p rs fp off ∙ inactive_and p (leb p.threshold (streak fp 0 rs)) off
]

-- On an active policy, after `n` counted failures of a fingerprint that is held exactly if `n` has
-- reached the threshold, the next failure reports `true` exactly if the count reaches the threshold
-- with it. The count stays below 2 ^ 32.
latching_edge :
    (p : QuarantinePolicy) (l : QuarantineLedger) (fp : Text) (n : ℕ)
    → 0 < p.threshold
    → n + 1 < 4294967296
    → Counts p l fp n
    → (on_failure p l fp).1 ≡ (n + 1 == p.threshold)
unfolding on_failure record_failure is_quarantined
latching_edge p l fp n active small c =
    let held : is_some (Dict.get fp l.quarantined) ≡ leb p.threshold n =
      unfold is_quarantined in c.held in
    ground (arith, c.counted, held)
