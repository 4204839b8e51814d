-- ===== src/Tests/Wizard.antt =====
-- A wizard with two steps.
use fluxip.Base.{ℕ, Bool, true, List, [], ◌∷◌, ltb, none, arith}
use fluxip.Wizard.{
  Move, update, go_next, go_back, submit, settle, wizard_run, new_wizard, IsWellFormed,
  wizard_run-IsWellFormed,
}

abbrev steps : List (ℕ → Bool)
steps = (λ _. true) ∷ (λ n. ltb 0 n) ∷ []

abbrev moves : List (Move ℕ)
moves = go_next ∷ update (λ _. 7) ∷ submit ∷ settle none ∷ go_back ∷ []

wizard_run-IsWellFormed_example : IsWellFormed steps (wizard_run steps moves (new_wizard 0))
wizard_run-IsWellFormed_example = wizard_run-IsWellFormed steps 0 moves (omega arith)
