-- ===== src/ForgeLoop/Processes/Ancestors.antt =====
-- The climb to a runner's worker ends, and finds each worker that is near enough
-- (crates/runner-cli/src/forge_loop.rs).
use flexnetos_runner.Shared.{
  ℕ, zero, suc, ◌<◌, ◌≡◌, ◌≢◌, ◌↔◌, Bool, true, some, List, codes, contains,
}
use flexnetos_runner.Shared.Order.{ℕ_order}
use flexnetos_runner.Shared.Sorted
use flexnetos_runner.ForgeLoop.Processes.{ProcInfo, climb}

-- `q` is `n` parents above `p`, and each process on the way is known.
pub data Ancestor (index : List (ℕ × ProcInfo)) : ℕ → ℕ → ℕ → Type 0 where
  self : (p : ℕ) → Ancestor index zero p p
  parent :
      (n p q : ℕ) (info : ProcInfo)
      → Sorted.get p index ≡ some info
      → info.ppid ≢ 0
      → info.ppid ≢ p
      → Ancestor index n info.ppid q
      → Ancestor index (suc n) p q

-- A worker process fewer than `bound` parents above `p`.
pub record WorkerWithin (index : List (ℕ × ProcInfo)) (bound p : ℕ) : Type 0 where
  pub steps : ℕ
  pub near : steps < bound
  pub worker : ℕ
  pub info : ProcInfo
  pub above : Ancestor index steps p worker
  pub known : Sorted.get worker index ≡ some info
  pub is_worker : contains (codes "Runner.Worker") info.cmdline ≡ true

module _ (index : List (ℕ × ProcInfo)) where
  -- The process itself, or one above its parent.
  abbrev From : ℕ → ℕ → ℕ → Type 0
  From zero p q = p ≡ q
  From (suc n) p q =
      (info : ProcInfo) × (Sorted.get p index ≡ some info)
      × (info.ppid ≢ 0)
      × (info.ppid ≢ p)
      × Ancestor index n info.ppid q

  -- With fuel for the rounds that are left, the climb ends with the right answer.
  abbrev Climbs : ℕ → ℕ → ℕ → ℕ → Type 0
  Climbs fuel p depth left =
      (r : Bool) × (climb fuel (some p) depth index ≡ some r)
      × ((r ≡ true) ↔ WorkerWithin index left p)
