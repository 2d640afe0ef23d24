-- ===== src/Consumer/Locked.antt =====
-- What the decider knows: the rows that are locked, the checks that passed, the moves it may ask for.
use payments_boilerplate.Base.{equal_fold}
use payments_boilerplate.Base.{
  ◌≡◌, ◌⊎◌, inl, inr, true, false, String, some, ok, Option-cases, arith, str_eq_iff,
}
use payments_boilerplate.Base.Int.{eqb_ℤ_iff}
use payments_boilerplate.Payments.Status as Payment
use payments_boilerplate.Payments.Transition.{Outcome, decide, payment_settled, attempt_settled}
use payments_boilerplate.Payments.Matrix.{decide-IsGuarded}
use payments_boilerplate.Consumer.Ports.{SessionOutcome, Aggregate, Reference, Effect}
use payments_boilerplate.Consumer.Store.{
  AttemptRow, PaymentRow, OrderRow, Db, payment_movable, attempt_movable, lock_payment_aggregate,
}
use payments_boilerplate.Consumer.Process.{Faults, or_empty, lock_aggregate}
use payments_boilerplate.Consumer.Process.Cases.{Reached}
use payments_boilerplate.Consumer.Deciding.{
  Interpreter, captured_none, decide_effect, effect_of, resolve_entry, decide_entry,
}
use payments_boilerplate.Consumer.Consistency.{is_charged}

-- The rows behind a locked aggregate.
pub record IsLocked (db : Db) (a : Aggregate) : Type 0 where
  pub attempt : AttemptRow
  pub payment : PaymentRow
  pub order : OrderRow
  pub at_attempt : db.attempts a.attempt_id ≡ some attempt
  pub at_payment : db.payments a.payment_id ≡ some payment
  pub at_order : db.orders a.order_id ≡ some order
  pub attempt_status : a.attempt_status ≡ attempt.status
  pub payment_status : a.payment_status ≡ payment.status
  pub of_payment : attempt.payment_id ≡ a.payment_id
  pub of_order : payment.order_id ≡ a.order_id
  pub amount : a.amount ≡ payment.amount
  pub currency : a.currency ≡ payment.currency
  pub provider : a.provider ≡ payment.provider
  pub session_id : a.session_id ≡ or_empty attempt.session_id

IsLocked-rows :
    (f : Faults) (db : Db) (ref : Reference) (a : Aggregate) (x : AttemptRow) (p : PaymentRow)
    (o : OrderRow)
    → db.attempts ref.attempt_id ≡ some x
    → db.payments ref.payment_id ≡ some p
    → db.orders ref.order_id ≡ some o
    → lock_aggregate f db ref ≡ ok a
    → IsLocked db a
unfolding lock_aggregate lock_payment_aggregate
IsLocked-rows f db ref a x p o at_x at_p at_o h = record {
  attempt = x;
  payment = p;
  order = o;
  at_attempt = ground arith;
  at_payment = ground arith;
  at_order = ground arith;
  attempt_status = ground arith;
  payment_status = ground arith;
  of_payment = ground (arith, str_eq_iff x.payment_id ref.payment_id);
  of_order = ground (arith, str_eq_iff p.order_id ref.order_id);
  amount = ground arith;
  currency = ground arith;
  provider = ground arith;
  session_id = ground arith;
}

pub lock_aggregate-IsLocked :
    (f : Faults) (db : Db) (ref : Reference) (a : Aggregate)
    → lock_aggregate f db ref ≡ ok a
    → IsLocked db a
unfolding lock_aggregate lock_payment_aggregate
lock_aggregate-IsLocked f db ref a h = elim (Option-cases (db.attempts ref.attempt_id)) [
  | inl gone ↦ absurd (ground arith)
  | inr (x, at_x) ↦ elim (Option-cases (db.payments ref.payment_id)) [
    | inl gone ↦ absurd (ground arith)
    | inr (p, at_p) ↦ elim (Option-cases (db.orders ref.order_id)) [
      | inl gone ↦ absurd (ground arith)
      | inr (o, at_o) ↦ IsLocked-rows f db ref a x p o at_x at_p at_o h
    ]
  ]
]

-- The rows that are locked are those that the event refers to.
pub lock_aggregate-reference :
    (f : Faults) (db : Db) (ref : Reference) (a : Aggregate)
    → lock_aggregate f db ref ≡ ok a
    → (a.attempt_id ≡ ref.attempt_id)
      × (a.payment_id ≡ ref.payment_id)
      × (a.order_id ≡ ref.order_id)
unfolding lock_aggregate
lock_aggregate-reference f db ref a h = ground arith

-- What an effect of the decider may ask for, given the locked aggregate.
pub record IsMeasured (a : Aggregate) (e : Effect) : Type 0 where
  pub open_payment :
      (s : Payment.Status) → e.payment_status ≡ some s → payment_movable a.payment_status ≡ true
  pub open_attempt :
      (s : Payment.AttemptStatus)
      → e.attempt_status ≡ some s
      → attempt_movable a.attempt_status ≡ true
  pub pays : e.order_paid ≡ true → e.payment_status ≡ some Payment.Status.succeeded
  pub targets :
      (s : Payment.Status)
      → e.payment_status ≡ some s
      → (is_charged s ≡ false) ⊎ ((s ≡ Payment.Status.succeeded) × (e.order_paid ≡ true))

movable_payment : (s : Payment.Status) → payment_settled s ≡ false → payment_movable s ≡ true
unfolding payment_settled
movable_payment s h = ground arith

movable_attempt : (s : Payment.AttemptStatus) → attempt_settled s ≡ false → attempt_movable s ≡ true
unfolding attempt_settled
movable_attempt s h = ground arith

pub effect_of-IsMeasured :
    (o : Outcome) (a : Aggregate) (e : Effect)
    → effect_of (decide o a.payment_status a.attempt_status) ≡ ok e
    → IsMeasured a e
unfolding effect_of
effect_of-IsMeasured o a e h =
    let g = decide-IsGuarded o a.payment_status a.attempt_status in
    record {
      open_payment = λ s m. movable_payment _ (ground (arith, g.moves_payment s));
      open_attempt = λ s m. movable_attempt _ (ground (arith, g.moves_attempt s));
      pays = λ paid. ground (arith, g.pays);
      targets = λ s m. ground (arith, g.targets s);
    }

-- An effect that passed the checks before the matrix.
pub record IsChecked (o : SessionOutcome) (a : Aggregate) (provider : String) (e : Effect)
    : Type 0 where
  pub same_provider : equal_fold a.provider provider ≡ true
  pub same_amount : o.amount ≡ a.amount
  pub same_currency : equal_fold o.currency a.currency ≡ true
  pub same_session : (a.session_id ≡ "") ⊎ ((o.session_id ≡ "") ⊎ (a.session_id ≡ o.session_id))
  pub decided : effect_of (decide o.outcome a.payment_status a.attempt_status) ≡ ok e

-- What is asked for passed the checks.
pub decide_effect-IsChecked :
    (o : SessionOutcome) (a : Aggregate) (provider : String) (e : Effect)
    → decide_effect o a provider ≡ ok e
    → IsChecked o a provider e
unfolding decide_effect
decide_effect-IsChecked o a provider e h = record {
  same_provider = ground arith;
  same_amount = ground (arith, eqb_ℤ_iff o.amount a.amount);
  same_currency = ground arith;
  same_session = ground (
    arith,
    str_eq_iff a.session_id "",
    str_eq_iff o.session_id "",
    str_eq_iff a.session_id o.session_id,
  );
  decided = ground arith;
}

-- The reached end of a transaction with the callbacks of `handle`.
abbrev pub Run : Interpreter → Faults → String → Db → Type 0
Run i f id db = Reached f id (resolve_entry i) (decide_entry i) captured_none db

pub Run-IsChecked :
    (i : Interpreter) (f : Faults) (id : String) (db : Db) (r : Run i f id db)
    → IsChecked r.middle.outcome r.aggregate i.provider r.effect
unfolding decide_entry
Run-IsChecked i f id db r = decide_effect-IsChecked _ _ _ _ (ground (arith, r.effect_decided))
