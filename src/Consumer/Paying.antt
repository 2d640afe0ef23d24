-- ===== src/Consumer/Paying.antt =====
-- What it takes to pay an order.
use payments_boilerplate.Base.{
  ◌≡◌, ◌≢◌, refl, sym, ap, ◌∙◌, inl, inr, true, String, some, Result, ok, Option-cases,
  Result-cases, Bool-cases, arith, ◌==◌, str_eq_iff, equal_fold,
}
use payments_boilerplate.Payments.Status as Payment
use payments_boilerplate.Payments.Transition.{
  Outcome, outcome_succeeded, outcome_pending, outcome_failed, outcome_expired, outcome_other,
  decide,
}
use payments_boilerplate.Orders
use payments_boilerplate.Consumer.Ports.{Error, InboxEntry, SessionOutcome, Reference, Effect}
use payments_boilerplate.Consumer.Store.{
  EventRow, PaymentRow, OrderRow, Db, payment_movable, order_movable,
}
use payments_boilerplate.Consumer.Process.{Faults, lock_entry, stored_event}
use payments_boilerplate.Consumer.Process.Writes.{Moved, Wrote}
use payments_boilerplate.Consumer.Deciding.{
  Interpreter, Captured, captured_none, resolve_entry, effect_of,
}
use payments_boilerplate.Consumer.Service.{Service, World, handle}
use payments_boilerplate.Consumer.Locked.{
  lock_aggregate-IsLocked, effect_of-IsMeasured, Run, Run-IsChecked,
}
use payments_boilerplate.Consumer.Safety.{handle-Changed}

-- The event that paid an order: a success, for the locked payment of that order, of the amount and
-- currency that the payment holds.
pub record IsPaidBy (db : Db) (order_id : String) (reader : String) (o : SessionOutcome)
    : Type 0 where
  pub payment_id : String
  pub payment : PaymentRow
  pub at_payment : db.payments payment_id ≡ some payment
  pub of_order : payment.order_id ≡ order_id
  pub succeeds : o.outcome ≡ outcome_succeeded
  pub open_payment : payment_movable payment.status ≡ true
  pub same_amount : o.amount ≡ payment.amount
  pub same_currency : equal_fold o.currency payment.currency ≡ true
  pub same_provider : equal_fold payment.provider reader ≡ true

pays_only_succeeded :
    (o : Outcome) (p : Payment.Status) (a : Payment.AttemptStatus) (e : Effect)
    → effect_of (decide o p a) ≡ ok e
    → e.order_paid ≡ true
    → o ≡ outcome_succeeded
unfolding decide effect_of
pays_only_succeeded outcome_succeeded p a e h paid = refl
pays_only_succeeded outcome_pending p a e h paid = absurd (ground arith)
pays_only_succeeded outcome_failed p a e h paid = absurd (ground arith)
pays_only_succeeded outcome_expired p a e h paid = absurd (ground arith)
pays_only_succeeded (outcome_other t) p a e h paid = absurd (ground arith)

entry_kept : (x y : InboxEntry) → Path (Result Error InboxEntry) (ok x) (ok y) → x ≡ y
entry_kept x y h = cc h

pub lock_entry_row :
    (f : Faults) (id : String) (db : Db) (entry : InboxEntry)
    → lock_entry f db id ≡ ok entry
    → (row : EventRow) × (db.events id ≡ some row) × (entry.event ≡ stored_event id row)
unfolding lock_entry
lock_entry_row f id db entry h = elim (Option-cases f.lock_event) [
  | inr (e, fails) ↦ absurd (cc (rw (lock_entry, fails) at h))
  | inl up ↦ elim (Option-cases (db.events id)) [
    | inl missing ↦ absurd (cc (rw (lock_entry, up, missing) at h))
    | inr (row, there) ↦
        let locked : Path (Result Error InboxEntry) (ok _) (ok entry) =
          rw (lock_entry, up, there) at h in
        (row, there, ap (λ (n : InboxEntry). n.event) (sym (entry_kept _ entry locked)))
  ]
]

pub resolve_entry_outcome :
    (i : Interpreter) (entry : InboxEntry) (c : Captured) (ref : Reference) (c' : Captured)
    → resolve_entry i entry c ≡ (ok ref, c')
    → i.interpret entry.event ≡ ok c'.outcome
unfolding resolve_entry
resolve_entry_outcome i entry c ref c' h = elim (Result-cases (i.interpret entry.event)) [
  | inl (o, e) ↦ rw e (ground arith)
  | inr (x, e) ↦ absurd (ground arith)
]

Run-interpreted :
    (i : Interpreter) (f : Faults) (id : String) (db : Db) (r : Run i f id db)
    → (row : EventRow) × (db.events id ≡ some row)
      × (i.interpret (stored_event id row) ≡ ok r.middle.outcome)
Run-interpreted i f id db r =
    let (row, there, same) = lock_entry_row f id db r.entry r.entry_locked in
    (
      row,
      there,
      rw same at
          (resolve_entry_outcome i r.entry captured_none r.reference r.middle r.entry_resolved),
    )

IsPaidBy-Run :
    (i : Interpreter) (f : Faults) (id : String) (db db' : Db) (r : Run i f id db) (k : String)
    (o o' : OrderRow)
    → Wrote r.aggregate r.effect db db'
    → db.orders k ≡ some o
    → o.status ≢ Orders.Status.paid
    → db'.orders k ≡ some o'
    → o'.status ≡ Orders.Status.paid
    → IsPaidBy db k i.provider r.middle.outcome
IsPaidBy-Run i f id db db' r k o o' wrote at_o unpaid at_o' paid = elim wrote.order [
  | inl (still, same) ↦ absurd (unpaid (ground arith))
  | inr (pays, moved) ↦
      let l = lock_aggregate-IsLocked f db r.reference r.aggregate r.aggregate_locked in
      let checked = Run-IsChecked i f id db r in
      let m = effect_of-IsMeasured _ r.aggregate r.effect checked.decided in
      let here : k ≡ r.aggregate.order_id = paid_here k o o' at_o unpaid at_o' paid moved in
      record {
        payment_id = r.aggregate.payment_id;
        payment = l.payment;
        at_payment = l.at_payment;
        of_order = l.of_order ∙ sym here;
        succeeds = pays_only_succeeded _ _ _ r.effect checked.decided pays;
        open_payment = rw l.payment_status at (m.open_payment _ (m.pays pays));
        same_amount = checked.same_amount ∙ l.amount;
        same_currency = rw l.currency at (checked.same_currency);
        same_provider = rw l.provider at (checked.same_provider);
      }
]
  where
    paid_here :
        (j : String) (x x' : OrderRow)
        → db.orders j ≡ some x
        → x.status ≢ Orders.Status.paid
        → db'.orders j ≡ some x'
        → x'.status ≡ Orders.Status.paid
        → Moved
            (λ y. order_movable y.status)
            db.orders
            db'.orders
            r.aggregate.order_id
            (λ y. record { status = Orders.Status.paid })
        → j ≡ r.aggregate.order_id
    paid_here j x x' at_x n at_x' p moved = elim (Bool-cases (j == r.aggregate.order_id)) [
      | inl same ↦ (str_eq_iff j r.aggregate.order_id).0 same
      | inr other ↦ absurd (n (ground (arith, (rw (moved.changed, other) at at_x'))))
    ]

-- A call makes an order paid only by the stored event that it was called for, and only if that event
-- reads as a success of the amount and currency of an open payment of that order, by the payment's own
-- provider.
pub handle_pays :
    (s : Service) (w : World) (id : String) (db : Db) (k : String) (o o' : OrderRow)
    → db.orders k ≡ some o
    → o.status ≢ Orders.Status.paid
    → (handle s w id db).db.orders k ≡ some o'
    → o'.status ≡ Orders.Status.paid
    → (row : EventRow) × (outcome : SessionOutcome) × (db.events id ≡ some row)
      × (s.interpreter.interpret (stored_event id row) ≡ ok outcome)
      × IsPaidBy db k s.interpreter.provider outcome
handle_pays s w id db k o o' at_o unpaid at_o' paid = elim (handle-Changed s w id db) [
  | inl (x, y, same) ↦ absurd (unpaid (ground arith))
  | inr (r, wrote) ↦
      let (row, own, read) = Run-interpreted s.interpreter w.faults id db r in
      (
        row,
        r.middle.outcome,
        own,
        read,
        IsPaidBy-Run s.interpreter w.faults id db _ r k o o' wrote at_o unpaid at_o' paid,
      )
]
