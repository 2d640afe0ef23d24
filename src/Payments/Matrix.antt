-- ===== src/Payments/Matrix.antt =====
-- What the transition matrix of internal/domain/payments/transition.go guarantees for any arrival
-- order of the provider's events.
use payments_boilerplate.Base.{
  ℕ, suc, ◌+◌, ◌≤◌, ◌≡◌, ◌≢◌, ◌↔◌, refl, ◌⊎◌, Bool, true, false, Option, none, some, List, [], ◌∷◌,
  arith, if◌then◌else◌,
}
use payments_boilerplate.Payments.Status.{
  Status, AttemptStatus, processing, partially_refunded, refunded, created, expired,
}
use payments_boilerplate.Payments.Transition.{
  Outcome, outcome_succeeded, outcome_pending, outcome_failed, outcome_expired, outcome_other,
  apply, no_op, conflict, Transition, attempt_settled, payment_settled, decide,
}

-- What a transition asks for is a move out of open states only.
pub record IsGuarded (payment : Status) (attempt : AttemptStatus) (t : Transition) : Type 0 where
  pub moves_payment : (s : Status) → t.payment ≡ some s → payment_settled payment ≡ false
  pub moves_attempt : (s : AttemptStatus) → t.attempt ≡ some s → attempt_settled attempt ≡ false
  pub pays : t.order_paid ≡ true → t.payment ≡ some Status.succeeded
  pub targets :
      (s : Status)
      → t.payment ≡ some s
      → (s ≡ processing) ⊎ ((s ≡ Status.failed) ⊎ ((s ≡ Status.succeeded) × (t.order_paid ≡ true)))
  pub idles : t.decision ≢ apply → (t.payment ≡ none) × (t.attempt ≡ none) × (t.order_paid ≡ false)
  pub works : t.decision ≡ apply → (t.payment ≢ none) ⊎ (t.attempt ≢ none)

-- Every answer of the matrix is guarded: it never moves a settled payment or attempt, marks an order
-- paid exactly together with a payment that succeeds, moves a payment to no other state than
-- processing, failed and succeeded, writes nothing unless it applies, and an answer that applies
-- moves a payment or an attempt.
pub decide-IsGuarded :
    (o : Outcome) (payment : Status) (attempt : AttemptStatus)
    → IsGuarded payment attempt (decide o payment attempt)
unfolding decide
decide-IsGuarded outcome_succeeded payment attempt = ground arith
decide-IsGuarded outcome_pending payment attempt = ground arith
decide-IsGuarded outcome_failed payment attempt = ground arith
decide-IsGuarded outcome_expired payment attempt = ground arith
decide-IsGuarded (outcome_other text) payment attempt = ground arith

-- The states of one payment, its attempt and its order's payment mark.
pub record View : Type 0 where
  pub payment : Status
  pub attempt : AttemptStatus
  pub paid : Bool

abbrev pub or_keep {ℓ} : {A : Type ℓ} → Option A → A → A
or_keep none a = a
or_keep (some b) a = b

-- The states after what a transition writes.
abbrev pub write : View → Transition → View
write v t = record {
  payment = or_keep t.payment v.payment;
  attempt = or_keep t.attempt v.attempt;
  paid = if t.order_paid then true else v.paid;
}

abbrev pub after : View → Outcome → View
after v o = write v (decide o v.payment v.attempt)

-- The states after a history of outcomes, the first of the list arriving first.
unfoldable pub arrive : View → List Outcome → View
arrive v [] = v
arrive v (o ∷ os) = arrive (after v o) os

-- The events of a history that the matrix applies.
unfoldable pub count_applied : View → List Outcome → ℕ
count_applied v [] = 0
count_applied v (o ∷ os) =
    let rest = count_applied (after v o) os in
    elim (decide o v.payment v.attempt).decision [ apply ↦ suc rest | _ ↦ rest ]

-- A redelivery of an applied event adds nothing: asked again about the states that the event left,
-- the matrix answers with a no-op.
pub decide-after_no_op :
    (o : Outcome) (v : View)
    → (decide o v.payment v.attempt).decision ≡ apply
    → (decide o (after v o).payment (after v o).attempt).decision ≡ no_op
unfolding decide
decide-after_no_op outcome_succeeded v h = ground arith
decide-after_no_op outcome_pending v h = ground arith
decide-after_no_op outcome_failed v h = ground arith
decide-after_no_op outcome_expired v h = ground arith
decide-after_no_op (outcome_other text) v h = ground arith

after_settled : (o : Outcome) (v : View) → payment_settled v.payment ≡ true → after v o ≡ v
unfolding decide
after_settled outcome_succeeded v h = ground arith
after_settled outcome_pending v h = ground arith
after_settled outcome_failed v h = ground arith
after_settled outcome_expired v h = ground arith
after_settled (outcome_other text) v h = ground arith

-- Once a payment is settled, no history of events in any order changes its state, its attempt's or
-- the order's payment mark.
pub arrive_settled :
    (os : List Outcome) (v : View) → payment_settled v.payment ≡ true → arrive v os ≡ v
unfolding arrive
arrive_settled [] v h = refl
arrive_settled (o ∷ os) v h = rw (after_settled o v h) (arrive_settled os v h)

-- How many moves are left to a payment and its attempt.
moves_left : View → ℕ
unfolding payment_settled attempt_settled
moves_left v =
    if payment_settled v.payment
    then 0
    else ((elim v.payment [ processing ↦ 1 | _ ↦ 2 ])
        + (if attempt_settled v.attempt then 0 else 1))

after-moves_left :
    (o : Outcome) (v : View)
    → (elim (decide o v.payment v.attempt).decision [ apply ↦ 1 | _ ↦ 0 ]) + moves_left (after v o)
      ≤ moves_left v
unfolding decide moves_left
after-moves_left outcome_succeeded v = ground arith
after-moves_left outcome_pending v = ground arith
after-moves_left outcome_failed v = ground arith
after-moves_left outcome_expired v = ground arith
after-moves_left (outcome_other text) v = ground arith

count_applied-le-moves_left : (os : List Outcome) (v : View) → count_applied v os ≤ moves_left v
unfolding count_applied
count_applied-le-moves_left [] v = omega arith
count_applied-le-moves_left (o ∷ os) v =
    ground (arith, after-moves_left o v, count_applied-le-moves_left os (after v o))

-- However many events arrive, in whatever order, at most three of them are applied.
pub count_applied-le-three : (os : List Outcome) (v : View) → count_applied v os ≤ 3
unfolding moves_left
count_applied-le-three os v = ground (arith, count_applied-le-moves_left os v)

-- The states that contradict a reported success: a payment that failed or was cancelled, a payment
-- that succeeded by another attempt, or an open payment whose attempt ended without success.
abbrev pub Contradicts : Status → AttemptStatus → Type 0
Contradicts payment attempt =
    (payment ≡ Status.failed)
    ⊎ ((payment ≡ Status.cancelled)
        ⊎ (((payment ≡ Status.succeeded) × (attempt ≢ AttemptStatus.succeeded))
            ⊎ (((payment ≡ Status.pending) ⊎ (payment ≡ processing))
                × ((attempt ≡ AttemptStatus.failed)
                    ⊎ ((attempt ≡ expired) ⊎ (attempt ≡ AttemptStatus.cancelled))))))

-- The only outcomes that are escalated: a success over states that contradict it, and a text that is
-- none of the four outcomes. A pending, failed or expired outcome is never a conflict.
abbrev pub Escalates : Outcome → Status → AttemptStatus → Type 0
Escalates outcome_succeeded payment attempt = Contradicts payment attempt
Escalates (outcome_other text) payment attempt = Unit
Escalates _ _ _ = ⊥

escalated_succeeded :
    (payment : Status) (attempt : AttemptStatus)
    → (decide outcome_succeeded payment attempt).decision ≡ conflict
    → Contradicts payment attempt
unfolding decide
escalated_succeeded Status.pending created h = ground arith
escalated_succeeded processing created h = ground arith
escalated_succeeded Status.succeeded created h = ground arith
escalated_succeeded Status.failed created h = ground arith
escalated_succeeded Status.cancelled created h = ground arith
escalated_succeeded partially_refunded created h = ground arith
escalated_succeeded refunded created h = ground arith
escalated_succeeded _ _ h = ground arith

escalated :
    (o : Outcome) (payment : Status) (attempt : AttemptStatus)
    → (decide o payment attempt).decision ≡ conflict
    → Escalates o payment attempt
unfolding decide
escalated outcome_succeeded payment attempt h = escalated_succeeded payment attempt h
escalated outcome_pending payment attempt h = ground arith
escalated outcome_failed payment attempt h = ground arith
escalated outcome_expired payment attempt h = ground arith
escalated (outcome_other text) payment attempt h = tt

escalates :
    (o : Outcome) (payment : Status) (attempt : AttemptStatus)
    → Escalates o payment attempt
    → (decide o payment attempt).decision ≡ conflict
unfolding decide
escalates outcome_succeeded payment attempt h = ground arith
escalates outcome_pending payment attempt h = elim h [ ]
escalates outcome_failed payment attempt h = elim h [ ]
escalates outcome_expired payment attempt h = elim h [ ]
escalates (outcome_other text) payment attempt h = refl

-- The matrix escalates exactly the contradictions: a conflict is answered if and only if the outcome
-- is a success over states that contradict it, or a text that is no known outcome.
pub decide-conflict_iff :
    (o : Outcome) (payment : Status) (attempt : AttemptStatus)
    → ((decide o payment attempt).decision ≡ conflict) ↔ Escalates o payment attempt
decide-conflict_iff o payment attempt = (escalated o payment attempt, escalates o payment attempt)

abbrev pub paid_view : View
paid_view = record { payment = Status.succeeded; attempt = AttemptStatus.succeeded; paid = true }

succeeded_after :
    (v : View)
    → payment_settled v.payment ≡ false
    → (attempt_settled v.attempt ≡ false) ⊎ (v.attempt ≡ AttemptStatus.succeeded)
    → after v outcome_succeeded ≡ paid_view
unfolding decide
succeeded_after v unsettled reached = ground arith

-- A success that arrives over an open payment whose attempt is open, or already succeeded, pays the
-- order for good, whatever is delivered after it and in whatever order.
pub arrive-paid_view :
    (v : View) (os : List Outcome)
    → payment_settled v.payment ≡ false
    → (attempt_settled v.attempt ≡ false) ⊎ (v.attempt ≡ AttemptStatus.succeeded)
    → arrive v (outcome_succeeded ∷ os) ≡ paid_view
unfolding arrive payment_settled
arrive-paid_view v os unsettled reached =
    rw (succeeded_after v unsettled reached) (arrive_settled os paid_view refl)
