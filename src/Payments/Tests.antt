-- ===== src/Payments/Tests.antt =====
-- The matrix at concrete states, and its theorems there.
use payments_boilerplate.Base.{◌≡◌, refl, inl, false, List, [], ◌∷◌}
use payments_boilerplate.Payments.Status.{Status, AttemptStatus}
use payments_boilerplate.Payments.Transition.{
  Outcome, outcome_succeeded, outcome_pending, outcome_failed, outcome_expired, decide,
}
use payments_boilerplate.Payments.Matrix.{
  IsGuarded, View, arrive, count_applied, paid_view, decide-IsGuarded, arrive-paid_view,
}

abbrev opened : View
opened = record { payment = Status.pending; attempt = AttemptStatus.pending; paid = false }

abbrev failed_view : View
failed_view = record { payment = Status.failed; attempt = AttemptStatus.failed; paid = false }

abbrev shuffled : List Outcome
shuffled = outcome_failed ∷ outcome_pending ∷ outcome_expired ∷ outcome_succeeded ∷ []

-- Pix: the session closes first, the money arrives later.
pix : arrive opened (outcome_pending ∷ outcome_succeeded ∷ outcome_expired ∷ []) ≡ paid_view
unfolding arrive decide
pix = refl

two_applied : count_applied opened (outcome_pending ∷ outcome_succeeded ∷ outcome_failed ∷ []) ≡ 2
unfolding count_applied decide
two_applied = refl

decide-IsGuarded_example :
    IsGuarded Status.processing AttemptStatus.pending
      (decide outcome_succeeded Status.processing AttemptStatus.pending)
decide-IsGuarded_example =
    decide-IsGuarded outcome_succeeded Status.processing AttemptStatus.pending

arrive-paid_view_example : arrive opened (outcome_succeeded ∷ shuffled) ≡ paid_view
unfolding decide
arrive-paid_view_example = arrive-paid_view opened shuffled refl (inl refl)
