-- ===== src/Governor.antt =====
-- The dispatch budget governor (crates/runner-core/src/governor.rs).
pub mod Admit
pub mod Bounds
pub mod Tier
use flexnetos_runner.Shared.{
  ℕ, zero, suc, ◌+◌, Bool, true, false, ◌||◌, Option, none, some, ◌++◌, ltb, leb, ◌==◌,
  if◌then◌else◌, or_else, is_some, Text, codes, decimal, usize, Float,
}
use flexnetos_runner.Cost.{JobCost, zero_cost, add_cost, usd}

pub data Admission : Type 0 where
  admitted : Admission
  denied : Text → Admission

unfoldable pub is_denied : Admission → Bool
is_denied (denied _) = true
is_denied admitted = false

pub data SurvivalTier : Type 0 where
  full conserving distress halted : SurvivalTier

-- The order that `derive(PartialOrd)` gives: the place in the declaration.
abbrev pub rank : SurvivalTier → ℕ
rank full = 0
rank conserving = 1
rank distress = 2
rank halted = 3

unfoldable pub from_fraction : (fl : Float) → fl.F64 → SurvivalTier
from_fraction fl x =
    if fl.geb x (fl.literal 10 1)
    then halted
    else if fl.geb x (fl.literal 9 1)
    then distress
    else if fl.geb x (fl.literal 75 2)
    then conserving
    else full

unfoldable pub is_degraded : SurvivalTier → Bool
is_degraded full = false
is_degraded _ = true

unfoldable pub label : SurvivalTier → Text
label full = codes "full"
label conserving = codes "conserving"
label distress = codes "distress"
label halted = codes "halted"

pub record Budget : Type 0 where
  pub jobs : Option ℕ  -- usize
  pub tokens : Option ℕ  -- u64
  pub usd_micros : Option ℕ  -- u64
  pub grace : ℕ  -- usize

unfoldable pub is_capped : Budget → Bool
is_capped b = is_some b.jobs || is_some b.tokens || is_some b.usd_micros

pub record Spend : Type 0 where
  pub jobs : ℕ  -- usize
  pub cost : JobCost
  pub grace_used : ℕ  -- usize

abbrev pub no_spend : Spend
no_spend = record { jobs = 0; cost = zero_cost; grace_used = 0 }

pub record Governor : Type 0 where
  pub budget : Budget
  pub spent : Spend

unfoldable pub with_budget : Budget → Governor
with_budget b = record { budget = b; spent = no_spend }

unfoldable pub unlimited : Governor
unlimited = record {
  budget = record { jobs = none; tokens = none; usd_micros = none; grace = 0 };
  spent = no_spend;
}

unfoldable pub with_jobs : ℕ → Governor
with_jobs n = record {
  budget = record { jobs = some n; tokens = none; usd_micros = none; grace = 0 };
  spent = no_spend;
}

-- `(n != 0).then_some(n)`
abbrev nonzero : ℕ → Option ℕ
nonzero n = if n == 0 then none else some n

unfoldable pub from_env : ℕ → ℕ → ℕ → ℕ → Governor
unfolding with_budget
from_env jobs tokens usd_micros grace = with_budget (record {
  jobs = nonzero jobs;
  tokens = nonzero tokens;
  usd_micros = nonzero usd_micros;
  grace = grace;
})

-- The text of a dimension whose cap is met.
abbrev met : Option ℕ → ℕ → (ℕ → Text) → Option Text
met none used text = none
met (some cap) used text = if leb cap used then some (text cap) else none

jobs_text : ℕ → ℕ → Text
jobs_text used cap =
    codes "job budget exhausted: "
    ++ decimal used
    ++ codes "/"
    ++ decimal cap
    ++ codes " jobs this session"

tokens_text : ℕ → ℕ → Text
tokens_text used cap =
    codes "token budget exhausted: "
    ++ decimal used
    ++ codes "/"
    ++ decimal cap
    ++ codes " tokens this session"

usd_text : Float → JobCost → ℕ → Text
usd_text fl cost cap =
    codes "USD budget exhausted: $"
    ++ fl.fixed 4 (usd fl cost)
    ++ codes "/$"
    ++ fl.fixed 4 (usd fl (record { tokens = 0; usd_micros = cap }))
    ++ codes " this session"

unfoldable pub exhausted_reason : Float → Governor → Option Text
unfolding jobs_text tokens_text usd_text
exhausted_reason fl g = or_else (met g.budget.jobs g.spent.jobs (jobs_text g.spent.jobs)) (
    or_else (met g.budget.tokens g.spent.cost.tokens (tokens_text g.spent.cost.tokens))
      (met g.budget.usd_micros g.spent.cost.usd_micros (usd_text fl g.spent.cost)))

-- One more job reserved.
abbrev reserve : Governor → Governor
reserve g = record g { spent = record g.spent { jobs = usize (g.spent.jobs + 1) } }

abbrev admit_past : Governor → Text → Governor × Admission
admit_past g reason =
    if ltb g.spent.grace_used g.budget.grace
    then (
      record g {
        spent = record g.spent {
          grace_used = usize (g.spent.grace_used + 1);
          jobs = usize (g.spent.jobs + 1);
        };
      },
      admitted,
    )
    else (g, denied reason)

abbrev admit_on : Governor → Option Text → Governor × Admission
admit_on g (some reason) = admit_past g reason
admit_on g none = (reserve g, admitted)

-- The gate before a dispatch.
unfoldable pub admit : Float → Governor → Governor × Admission
admit fl g = admit_on g (exhausted_reason fl g)

-- `used / cap`, and 0 where there is no positive cap.
unfoldable pub fraction : (fl : Float) → ℕ → Option ℕ → fl.F64
fraction fl used none = fl.literal 0 0
fraction fl used (some zero) = fl.literal 0 0
fraction fl used (some (suc c)) = fl.div (fl.of_nat used) (fl.of_nat (suc c))

unfoldable pub tier : Float → Governor → SurvivalTier
unfolding from_fraction fraction
tier fl g = from_fraction fl (
    fl.fmax
      (fl.fmax (fraction fl g.spent.jobs g.budget.jobs)
        (fraction fl g.spent.cost.tokens g.budget.tokens))
      (fraction fl g.spent.cost.usd_micros g.budget.usd_micros))

-- After a dispatch: add what the kernel reported.
unfoldable pub charge : Governor → JobCost → Governor
unfolding add_cost
charge g cost = record g { spent = record g.spent { cost = add_cost g.spent.cost cost } }
