-- ===== src/Risk.antt =====
-- The risk score from a fingerprint's history (crates/runner-core/src/risk.rs).
use flexnetos_runner.Shared.{
  ℕ, ◌+◌, Bool, true, false, not, ◌&&◌, Option, none, some, [], ◌∷◌, ◌++◌, ◌==◌, if◌then◌else◌,
  unwrap_or, Text, codes, trim, to_ascii_lowercase, decimal, one_of, u32, Float,
}
use flexnetos_runner.Shared.Dict
use flexnetos_runner.Shared.Dict.{Dict}

pub data RiskBand : Type 0 where
  low elevated high : RiskBand

unfoldable pub label : RiskBand → Text
label low = codes "low"
label elevated = codes "elevated"
label high = codes "high"

-- The history of each fingerprint: successes and failures.
pub record RiskLedger : Type 0 where
  pub history : Dict (ℕ × ℕ)  -- u32, u32

unfoldable pub empty_risk : RiskLedger
empty_risk = record { history = [] }

unfoldable pub history : RiskLedger → Text → ℕ × ℕ
history l fp = unwrap_or (Dict.get fp l.history) (0, 0)

count_outcome : Bool → ℕ × ℕ → ℕ × ℕ
count_outcome true (s, f) = (u32 (s + 1), f)
count_outcome false (s, f) = (s, u32 (f + 1))

unfoldable pub record_outcome : RiskLedger → Text → Bool → RiskLedger
unfolding count_outcome history
record_outcome l fp success = record l {
  history = Dict.insert fp (count_outcome success (history l fp)) l.history;
}

module _ (fl : Float) where
  open fl use {F64}

  pub record RiskScore : Type 0 where
    pub score : F64
    pub samples : ℕ  -- u32
    pub band : RiskBand

  pub record RiskModel : Type 0 where
    pub base_rate : F64
    pub prior_strength : F64

  -- `a < b`, which is false if one of them is not a number
  less : F64 → F64 → Bool
  less a b = fl.geb b a && not (fl.geb a b)

  -- `x.clamp(lo, hi)`
  clamp : F64 → F64 → F64 → F64
  unfolding less
  clamp lo hi x = let y = if less x lo then lo else x in if less hi y then hi else y

  -- `RiskModel::new`
  unfoldable pub new_model : F64 → F64 → RiskModel
  unfolding clamp
  new_model base_rate prior_strength = record {
    base_rate = clamp (fl.literal 0 0) (fl.literal 1 0) base_rate;
    prior_strength = fl.fmax prior_strength (fl.literal 0 0);
  }

  unfoldable pub standard : RiskModel
  unfolding new_model
  standard = new_model (fl.literal 1 1) (fl.literal 4 0)

  unfoldable pub band_for : F64 → RiskBand
  band_for score =
      if fl.geb score (fl.literal 5 1)
      then high
      else if fl.geb score (fl.literal 25 2)
      then elevated
      else low

  unfoldable pub assess_counts : RiskModel → ℕ → ℕ → RiskScore
  assess_counts m successes failures =
      let total = fl.add (fl.of_nat successes) (fl.of_nat failures) in
      let score =
        fl.div (fl.add (fl.of_nat failures) (fl.mul m.base_rate m.prior_strength))
          (fl.add total m.prior_strength) in
      record { score = score; samples = u32 (successes + failures); band = band_for score }

  unfoldable pub summary : RiskScore → Text
  summary r =
      codes "risk: "
      ++ label r.band
      ++ codes " ("
      ++ fl.fixed 2 r.score
      ++ codes ", "
      ++ decimal r.samples
      ++ codes " sample"
      ++ (if r.samples == 1 then [] else codes "s")
      ++ codes ")"

  pub record RiskPolicy : Type 0 where
    pub enabled : Bool
    pub model : RiskModel

  unfoldable pub disabled : RiskPolicy
  disabled = record { enabled = false; model = standard }

  unfoldable pub from_env : Text → RiskPolicy
  from_env flag =
      if one_of (to_ascii_lowercase (trim flag))
        (codes "1" ∷ codes "true" ∷ codes "yes" ∷ codes "on" ∷ [])
      then record { enabled = true; model = standard }
      else disabled

  unfoldable pub assess : RiskPolicy → RiskLedger → Text → Option RiskScore
  assess p l fp =
      let (s, f) = history l fp in if p.enabled then some (assess_counts p.model s f) else none
