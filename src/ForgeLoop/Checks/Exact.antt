-- ===== src/ForgeLoop/Checks/Exact.antt =====
-- Which checks the health report lists as what (crates/runner-cli/src/forge_loop.rs).
use mathlib.Core.Logic.Iff
use flexnetos_runner.Shared.{
  ap, ◌≡◌, ◌∙◌, ◌↔◌, ◌⊎◌, inl, inr, Bool, true, false, ◌&&◌, ◌||◌, Option, none, some, List, [],
  ◌∷◌, if◌then◌else◌, arith, Bool-cases, Among, Text, text_eq, text_eq_iff, same-text_eq,
  Option-cases, one_of_iff,
}
use flexnetos_runner.Shared.Order.{list_order, ℕ_order}
use flexnetos_runner.Shared.Sorted
use flexnetos_runner.Shared.Sorted.{modified, IsSorted, After, get-entry, entry-IsSorted}
use flexnetos_runner.ForgeLoop.Entries.{CheckRollupEntry}
use flexnetos_runner.ForgeLoop.Checks.{
  CheckState, pending, passed, failed, merged_with, check_state, is_local_runner_check,
  local_check_states, missing_checks, NamesByState, push_name, names_by_state,
  required_local_checks, classify_runner_health,
}

abbrev pub has_state : CheckState → CheckRollupEntry → Bool
has_state st c = elim (check_state c) [
  | pending ↦ elim st [ pending ↦ true | _ ↦ false ]
  | passed ↦ elim st [ passed ↦ true | _ ↦ false ]
  | failed ↦ elim st [ failed ↦ true | _ ↦ false ]
]

-- Some check of this name is in this state.
abbrev pub reported : Text → CheckState → List CheckRollupEntry → Bool
reported name st [] = false
reported name st (c ∷ cs) = text_eq c.name name && has_state st c || reported name st cs

-- Pending before passed before failed, over an earlier state.
merged : Text → List CheckRollupEntry → Option CheckState → Option CheckState
merged name cs o = if reported name pending cs then some pending else elim o [
  | none ↦
      if reported name passed cs
      then some passed
      else if reported name failed cs
      then some failed
      else none
  | some st ↦ elim st [
    | pending ↦ some pending
    | passed ↦ some passed
    | failed ↦ if reported name passed cs then some passed else some failed
  ]
]

merged-nil : (name : Text) (o : Option CheckState) → merged name [] o ≡ o
unfolding merged
merged-nil name o = ground arith

merged-cons :
    (name : Text) (c : CheckRollupEntry) (cs : List CheckRollupEntry) (o : Option CheckState)
    → merged name (c ∷ cs) o
      ≡ merged name cs (
          if text_eq c.name name
          then some (modified (λ st. merged_with st (check_state c)) (check_state c) o)
          else o)
unfolding merged_with merged
merged-cons name c cs o = ground arith

local_check_states-IsSorted :
    (cs : List CheckRollupEntry) (m : List (Text × CheckState))
    → IsSorted m
    → IsSorted (local_check_states cs m)
unfolding local_check_states
local_check_states-IsSorted [] m s = s
local_check_states-IsSorted (c ∷ cs) m s = elim (Bool-cases (is_local_runner_check c.name)) [
  | inl e ↦ rw e (local_check_states-IsSorted cs _ (entry-IsSorted c.name _ _ m s))
  | inr e ↦ rw e (local_check_states-IsSorted cs m s)
]

get-local_check_states :
    (name : Text) (cs : List CheckRollupEntry) (m : List (Text × CheckState))
    → IsSorted m
    → Sorted.get name (local_check_states cs m) ≡ (
        if is_local_runner_check name
        then merged name cs (Sorted.get name m)
        else Sorted.get name m)
unfolding local_check_states
get-local_check_states name [] m s = ground (arith, merged-nil name (Sorted.get name m))
get-local_check_states name (c ∷ cs) m s = elim (Bool-cases (is_local_runner_check c.name)) [
  | inl e ↦
      let f : CheckState → CheckState = λ st. merged_with st (check_state c) in
      let put : List (Text × CheckState) = Sorted.entry c.name f (check_state c) m in
      let later : Sorted.get name (local_check_states cs put) ≡ (
          if is_local_runner_check name
          then merged name cs (Sorted.get name put)
          else Sorted.get name put) =
        get-local_check_states name cs put (entry-IsSorted c.name f (check_state c) m s) in
      let found : Sorted.get name put ≡ (
          if text_eq c.name name
          then some (modified f (check_state c) (Sorted.get c.name m))
          else Sorted.get name m) =
        get-entry c.name f (check_state c) name m s
        ∙ ap
            (λ b.
              if b
              then some (modified f (check_state c) (Sorted.get c.name m))
              else Sorted.get name m)
            (same-text_eq c.name name) in
      rw e (
        later
        ∙ ground (arith, found, merged-cons name c cs (Sorted.get name m), text_eq_iff c.name name))
  | inr e ↦ rw e (
      get-local_check_states name cs m s
      ∙ ground (arith, merged-cons name c cs (Sorted.get name m), text_eq_iff c.name name))
]

-- The merged state of the checks of this name.
abbrev state_in : Text → List CheckRollupEntry → Option CheckState
state_in name cs = Sorted.get name (local_check_states cs [])

state_in-eq :
    (name : Text) (cs : List CheckRollupEntry)
    → state_in name cs ≡ (if is_local_runner_check name then merged name cs none else none)
unfolding Sorted.get
state_in-eq name cs = get-local_check_states name cs [] tt

names_of : CheckState → NamesByState → List Text
names_of pending l = l.pending_names
names_of passed l = l.passed_names
names_of failed l = l.failed_names

names_of-push_name :
    (name : Text) (st : CheckState) (n : Text) (s : CheckState) (l : NamesByState)
    → Among name (names_of st (push_name n s l))
      ↔ (◌≡◌ {A = Text × CheckState} (n, s) (name, st) ⊎ Among name (names_of st l))
unfolding names_of push_name
names_of-push_name name pending n pending l = grind (arith, inl, inr)
names_of-push_name name pending n passed l = grind (arith, inl, inr)
names_of-push_name name pending n failed l = grind (arith, inl, inr)
names_of-push_name name passed n pending l = grind (arith, inl, inr)
names_of-push_name name passed n passed l = grind (arith, inl, inr)
names_of-push_name name passed n failed l = grind (arith, inl, inr)
names_of-push_name name failed n pending l = grind (arith, inl, inr)
names_of-push_name name failed n passed l = grind (arith, inl, inr)
names_of-push_name name failed n failed l = grind (arith, inl, inr)

names_by_state-Among :
    (name : Text) (st : CheckState) (m : List (Text × CheckState))
    → Among name (names_of st (names_by_state m)) ↔ Among (name, st) m
unfolding names_by_state
names_by_state-Among name pending [] = unfold names_of in (λ h. h, λ h. h)
names_by_state-Among name passed [] = unfold names_of in (λ h. h, λ h. h)
names_by_state-Among name failed [] = unfold names_of in (λ h. h, λ h. h)
names_by_state-Among name st ((n, s) ∷ m) =
    let ih = names_by_state-Among name st m in
    let step = names_of-push_name name st n s (names_by_state m) in
    (
      λ h. elim (step.0 h) [ inl e ↦ inl e | inr i ↦ inr (ih.0 i) ],
      λ h. elim h [ inl e ↦ step.1 (inl e) | inr i ↦ step.1 (inr (ih.1 i)) ],
    )

-- A name is in the list of a state exactly if the checks of the name merge to that state.
listed_iff :
    (name : Text) (st : CheckState) (cs : List CheckRollupEntry)
    → Among name (names_of st (names_by_state (local_check_states cs [])))
      ↔ (state_in name cs ≡ some st)
listed_iff name st cs =
    let m = local_check_states cs [] in
    let here = names_by_state-Among name st m in
    let there = Sorted.Among-iff name st m (local_check_states-IsSorted cs [] tt) in
    (λ h. there.0 (here.0 h), λ h. here.1 (there.1 h))

missing_checks_iff :
    (name : Text) (names : List Text) (m : List (Text × CheckState))
    → Among name (missing_checks names m) ↔ (Among name names × (Sorted.get name m ≡ none))
unfolding missing_checks
missing_checks_iff name [] m = (λ h. absurd h, λ h. absurd h.0)
missing_checks_iff name (n ∷ names) m = elim (Option-cases (Sorted.get n m)) [
  | inl e ↦
      let (to, back) = missing_checks_iff name names m in
      rw e (
        λ h. elim h [ inl q ↦ (inl q, cc) | inr i ↦ (inr (to i).0, (to i).1) ],
        λ h. elim h.0 [ inl q ↦ inl q | inr i ↦ inr (back (i, h.1)) ],
      )
  | inr e ↦
      let (to, back) = missing_checks_iff name names m in
      rw e.1 (
        λ h. (inr (to h).0, (to h).1),
        λ h. elim h.0 [ inl q ↦ ground (arith, e.1) | inr i ↦ back (i, h.1) ],
      )
]

-- The state of a check by its name: pending if a run of it is, else passed if one has, else failed.
abbrev pub state_of_name : Text → List CheckRollupEntry → Option CheckState
state_of_name name cs =
    if reported name pending cs
    then some pending
    else if reported name passed cs
    then some passed
    else if reported name failed cs
    then some failed
    else none

state_in_iff :
    (name : Text) (cs : List CheckRollupEntry) (st : CheckState)
    → (state_in name cs ≡ some st)
      ↔ ((is_local_runner_check name ≡ true) × (state_of_name name cs ≡ some st))
unfolding merged
state_in_iff name cs st = rw (state_in-eq name cs) (ground arith)

missing_iff :
    (name : Text) (cs : List CheckRollupEntry)
    → (Among name required_local_checks × (state_in name cs ≡ none))
      ↔ ((is_local_runner_check name ≡ true) × (state_of_name name cs ≡ none))
unfolding merged is_local_runner_check
missing_iff name cs =
    let (to, back) = one_of_iff name required_local_checks in
    let e = state_in-eq name cs in
    (λ h. (back h.0, ground (arith, back h.0, h.1, e)), λ h. (to h.0, ground (arith, h.0, h.1, e)))

-- The report lists a name as pending, passed or failed exactly if it is a required check with runs,
-- of which one is pending, or else one has passed, or else none has; and as missing exactly if it is a
-- required check without a run.
pub classify_exact :
    (cs : List CheckRollupEntry) (name : Text)
    → let r = classify_runner_health cs in
      (Among name r.pending_local_checks
        ↔ ((is_local_runner_check name ≡ true) × (state_of_name name cs ≡ some pending)))
      × (Among name r.passed_local_checks
          ↔ ((is_local_runner_check name ≡ true) × (state_of_name name cs ≡ some passed)))
      × (Among name r.failed_local_checks
          ↔ ((is_local_runner_check name ≡ true) × (state_of_name name cs ≡ some failed)))
      × (Among name r.missing_local_checks
          ↔ ((is_local_runner_check name ≡ true) × (state_of_name name cs ≡ none)))
unfolding classify_runner_health names_of
classify_exact cs name = (
  Iff.trans (listed_iff name pending cs) (state_in_iff name cs pending),
  Iff.trans (listed_iff name passed cs) (state_in_iff name cs passed),
  Iff.trans (listed_iff name failed cs) (state_in_iff name cs failed),
  Iff.trans (missing_checks_iff name required_local_checks (local_check_states cs []))
      (missing_iff name cs),
)
