-- ===== src/Wizard.antt =====
-- frontend/src/flows/wizard/useWizard.ts: the state of a wizard and what its user and its request do to
-- it. The data is of a type `D`; a step is the test that lets the user go on. The calls of
-- `onComplete` are recorded with their data, newest first.
use fluxip.Base.{
  ◌≡◌, sym, ℕ, ◌+◌, ◌-◌, ◌<◌, String, Bool, true, false, not, ◌||◌, Option, none, some, List, [],
  ◌∷◌, length, get_elem?, ltb, nat_eq, if◌then◌else◌, arith, All, Bool-cases, inl, inr,
}

pub record WizardState (D : Type 0) : Type 0 where
  pub current_step_index : ℕ
  pub entered : D
  pub is_submitting : Bool
  pub submit_error : Option String
  pub completions : List D

-- `settle` is the end of the request that `submit` began, with its error if it fails.
pub data Move (D : Type 0) : Type 0 where
  update : (D → D) → Move D
  go_next go_back submit : Move D
  settle : Option String → Move D

abbrev pub lesser : ℕ → ℕ → ℕ
lesser a b = if ltb a b then a else b

module _ {D : Type 0} where
  abbrev pub new_wizard : D → WizardState D
  new_wizard d = record {
    current_step_index = 0;
    entered = d;
    is_submitting = false;
    submit_error = none;
    completions = [];
  }

  -- Without a step the code throws; the index is always one of a step.
  abbrev pub passes : Option (D → Bool) → D → Bool
  passes none d = false
  passes (some is_valid) d = is_valid d

  unfoldable pub can_go_next : List (D → Bool) → WizardState D → Bool
  can_go_next steps s = passes (get_elem? steps s.current_step_index) s.entered

  unfoldable pub is_last_step : List (D → Bool) → WizardState D → Bool
  is_last_step steps s = nat_eq s.current_step_index (length steps - 1)

  unfoldable pub wizard_step : List (D → Bool) → Move D → WizardState D → WizardState D
  unfolding can_go_next is_last_step
  wizard_step steps (update patch) s = record s { entered = patch s.entered }
  wizard_step steps go_next s =
      if not (can_go_next steps s)
      then s
      else record s { current_step_index = lesser (s.current_step_index + 1) (length steps - 1) }
  wizard_step steps go_back s =
      if not (ltb 0 s.current_step_index)
      then s
      else record s { current_step_index = s.current_step_index - 1 }
  wizard_step steps submit s =
      if not (is_last_step steps s) || not (can_go_next steps s) || s.is_submitting
      then s
      else record s {
        is_submitting = true;
        submit_error = none;
        completions = s.entered ∷ s.completions;
      }
  wizard_step steps (settle error) s =
      if s.is_submitting then record s { is_submitting = false; submit_error = error } else s

  unfoldable pub wizard_run : List (D → Bool) → List (Move D) → WizardState D → WizardState D
  unfolding wizard_step
  wizard_run steps [] s = s
  wizard_run steps (m ∷ ms) s = wizard_run steps ms (wizard_step steps m s)

  -- The index is one of the steps, and the last step's test passed whatever was completed.
  abbrev pub IsWellFormed : List (D → Bool) → WizardState D → Type 0
  IsWellFormed steps s =
      (s.current_step_index < length steps)
      × All (λ (d : D). passes (get_elem? steps (length steps - 1)) d ≡ true) s.completions

  wizard_step-IsWellFormed :
      (steps : List (D → Bool)) (m : Move D) (s : WizardState D)
      → IsWellFormed steps s
      → IsWellFormed steps (wizard_step steps m s)
  unfolding wizard_step can_go_next is_last_step
  wizard_step-IsWellFormed steps (update patch) s (i, c) = (i, c)
  wizard_step-IsWellFormed steps go_next s (i, c) = elim (Bool-cases (can_go_next steps s)) [
    | inl e ↦ rw e (ground arith, c)
    | inr e ↦ rw e (i, c)
  ]
  wizard_step-IsWellFormed steps go_back s (i, c) = elim (Bool-cases (ltb 0 s.current_step_index)) [
    | inl e ↦ rw e (omega arith, c)
    | inr e ↦ rw e (i, c)
  ]
  wizard_step-IsWellFormed steps submit s (i, c) =
      elim (Bool-cases
        (not (is_last_step steps s) || not (can_go_next steps s) || s.is_submitting)) [
          | inl e ↦ rw e (i, c)
          | inr e ↦
              let same : s.current_step_index ≡ length steps - 1 = ground arith in
              let passed : passes (get_elem? steps s.current_step_index) s.entered ≡ true =
                ground arith in
              rw e (i, (rw (sym same) passed, c))
        ]
  wizard_step-IsWellFormed steps (settle error) s (i, c) = elim (Bool-cases s.is_submitting) [
    | inl e ↦ rw e (i, c)
    | inr e ↦ rw e (i, c)
  ]

  -- Whatever a user and the requests do, in any order, from the first step of a wizard that has one:
  -- the index stays one of the steps, and the wizard is completed only with data that pass the test of
  -- the last step.
  pub wizard_run-IsWellFormed :
      (steps : List (D → Bool)) (d : D) (moves : List (Move D))
      → 0 < length steps
      → IsWellFormed steps (wizard_run steps moves (new_wizard d))
  unfolding wizard_run
  wizard_run-IsWellFormed steps d moves h = run_from moves (new_wizard d) (h, tt)
    where
      run_from :
          (ms : List (Move D)) (s : WizardState D)
          → IsWellFormed steps s
          → IsWellFormed steps (wizard_run steps ms s)
      run_from [] s i = i
      run_from (m ∷ ms) s i =
          run_from ms (wizard_step steps m s) (wizard_step-IsWellFormed steps m s i)
