-- ===== src/Cost.antt =====
-- What a job cost, as its kernel reports it (crates/runner-core/src/cost.rs).
use flexnetos_runner.Shared.{ℕ, Bool, not, ◌||◌, ◌==◌, saturating_add, Float}

pub record JobCost : Type 0 where
  pub tokens : ℕ  -- u64
  pub usd_micros : ℕ  -- u64

abbrev pub zero_cost : JobCost
zero_cost = record { tokens = 0; usd_micros = 0 }

unfoldable pub is_measured : JobCost → Bool
is_measured c = not (c.tokens == 0) || not (c.usd_micros == 0)

-- `JobCost::saturating_add`
unfoldable pub add_cost : JobCost → JobCost → JobCost
add_cost a b = record {
  tokens = saturating_add a.tokens b.tokens;
  usd_micros = saturating_add a.usd_micros b.usd_micros;
}

unfoldable pub usd : (fl : Float) → JobCost → fl.F64
usd fl c = fl.div (fl.of_nat c.usd_micros) (fl.literal 1000000 0)
