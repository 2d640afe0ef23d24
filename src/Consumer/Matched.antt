-- ===== src/Consumer/Matched.antt =====
-- Which rows a call of the consumer can touch, and what the event must agree with.
use payments_boilerplate.Base.{
  ◌≡◌, refl, ◌∙◌, ◌⊎◌, inl, inr, true, false, String, some, ok, arith, ◌==◌, str_eq_iff, equal_fold,
}
use payments_boilerplate.Consumer.Ports.{InboxEntry, SessionOutcome, Aggregate, Reference, Effect}
use payments_boilerplate.Consumer.Store.{Table, put, EventRow, AttemptRow, PaymentRow, Db}
use payments_boilerplate.Consumer.Process.{or_empty, stored_event}
use payments_boilerplate.Consumer.Process.Writes.{MovesAttempt, MovesPayment, MovesOrder, Wrote}
use payments_boilerplate.Consumer.Deciding.{Interpreter, Captured, captured_none, resolve_entry}
use payments_boilerplate.Consumer.Service.{Service, World, handle}
use payments_boilerplate.Consumer.Locked.{
  lock_aggregate-IsLocked, lock_aggregate-reference, Run, Run-IsChecked,
}
use payments_boilerplate.Consumer.Safety.{SameTables, handle-Changed}
use payments_boilerplate.Consumer.Paying.{lock_entry_row, resolve_entry_outcome}

-- Two tables that differ at one identifier at most.
abbrev pub DiffersAt : {R : Type 0} → Table R → Table R → String → Type 0
DiffersAt t t' id = (k : String) → (k == id) ≡ false → t' k ≡ t k

-- A stored event that agrees with the rows that it names, and a database that differs from another in
-- those rows alone.
pub record IsMatched (i : Interpreter) (id : String) (db db' : Db) : Type 0 where
  pub event : EventRow
  pub outcome : SessionOutcome
  pub attempt : AttemptRow
  pub payment : PaymentRow
  pub at_event : db.events id ≡ some event
  pub read : i.interpret (stored_event id event) ≡ ok outcome
  pub own_event : event.provider ≡ i.provider
  pub at_attempt : db.attempts outcome.attempt_id ≡ some attempt
  pub at_payment : db.payments outcome.payment_id ≡ some payment
  pub of_payment : attempt.payment_id ≡ outcome.payment_id
  pub of_order : payment.order_id ≡ outcome.order_id
  pub same_provider : equal_fold payment.provider i.provider ≡ true
  pub same_amount : outcome.amount ≡ payment.amount
  pub same_currency : equal_fold outcome.currency payment.currency ≡ true
  pub same_session :
      (or_empty attempt.session_id ≡ "")
      ⊎ ((outcome.session_id ≡ "") ⊎ (or_empty attempt.session_id ≡ outcome.session_id))
  pub attempts : DiffersAt db.attempts db'.attempts outcome.attempt_id
  pub payments : DiffersAt db.payments db'.payments outcome.payment_id
  pub orders : DiffersAt db.orders db'.orders outcome.order_id

put-DiffersAt :
    {R : Type 0} (t t' : Table R) (id : String) (r : R) → t' ≡ put t id r → DiffersAt t t' id
put-DiffersAt t t' id r h k other = rw (h, other) refl

attempt-DiffersAt :
    (a : Aggregate) (e : Effect) (t t' : Table AttemptRow)
    → MovesAttempt a e t t'
    → DiffersAt t t' a.attempt_id
attempt-DiffersAt a e t t' (inl (still, same)) = λ k other. rw same refl
attempt-DiffersAt a e t t' (inr (s, moves, m)) = put-DiffersAt t t' a.attempt_id _ m.changed

payment-DiffersAt :
    (a : Aggregate) (e : Effect) (t t' : Table PaymentRow)
    → MovesPayment a e t t'
    → DiffersAt t t' a.payment_id
payment-DiffersAt a e t t' (inl (still, same)) = λ k other. rw same refl
payment-DiffersAt a e t t' (inr (s, moves, m)) = put-DiffersAt t t' a.payment_id _ m.changed

order-DiffersAt :
    (a : Aggregate) (e : Effect) (db db' : Db)
    → MovesOrder a e db.orders db'.orders
    → DiffersAt db.orders db'.orders a.order_id
order-DiffersAt a e db db' (inl (still, same)) = λ k other. rw same refl
order-DiffersAt a e db db' (inr (pays, m)) =
    put-DiffersAt db.orders db'.orders a.order_id _ m.changed

resolve_entry_reference :
    (i : Interpreter) (entry : InboxEntry) (c : Captured) (ref : Reference) (c' : Captured)
    → resolve_entry i entry c ≡ (ok ref, c')
    → (entry.event.provider ≡ i.provider)
      × (ref.attempt_id ≡ c'.outcome.attempt_id)
      × (ref.payment_id ≡ c'.outcome.payment_id)
      × (ref.order_id ≡ c'.outcome.order_id)
unfolding resolve_entry
resolve_entry_reference i entry c ref c' h =
    ground (arith, str_eq_iff entry.event.provider i.provider)

Run-IsMatched :
    (i : Interpreter) (w : World) (id : String) (db db' : Db) (r : Run i w.faults id db)
    → Wrote r.aggregate r.effect db db'
    → IsMatched i id db db'
Run-IsMatched i w id db db' r wrote =
    let a = r.aggregate in
    let o = r.middle.outcome in
    let (event, there, stored) = lock_entry_row w.faults id db r.entry r.entry_locked in
    let (own, refers, refers', refers'') =
      resolve_entry_reference i r.entry captured_none r.reference r.middle r.entry_resolved in
    let (locks, locks', locks'') =
      lock_aggregate-reference w.faults db r.reference a r.aggregate_locked in
    let named : a.attempt_id ≡ o.attempt_id = locks ∙ refers in
    let paid : a.payment_id ≡ o.payment_id = locks' ∙ refers' in
    let ordered : a.order_id ≡ o.order_id = locks'' ∙ refers'' in
    let l = lock_aggregate-IsLocked w.faults db r.reference a r.aggregate_locked in
    let checked = Run-IsChecked i w.faults id db r in
    record {
      event = event;
      outcome = o;
      attempt = l.attempt;
      payment = l.payment;
      at_event = there;
      read =
          rw stored at
            (resolve_entry_outcome i r.entry captured_none r.reference r.middle r.entry_resolved);
      own_event = rw stored at own;
      at_attempt = rw named at (l.at_attempt);
      at_payment = rw paid at (l.at_payment);
      of_payment = l.of_payment ∙ paid;
      of_order = l.of_order ∙ ordered;
      same_provider = rw l.provider at (checked.same_provider);
      same_amount = checked.same_amount ∙ l.amount;
      same_currency = rw l.currency at (checked.same_currency);
      same_session = rw l.session_id at (checked.same_session);
      attempts = rw named at (attempt-DiffersAt a r.effect _ _ wrote.attempt);
      payments = rw paid at (payment-DiffersAt a r.effect _ _ wrote.payment);
      orders = rw ordered at (order-DiffersAt a r.effect db db' wrote.order);
    }

-- A call of the consumer touches no payment, attempt or order, or else the stored event that it was called
-- for agrees with rows that are there: it comes from the reader's provider and names an attempt, its
-- payment and that payment's order, it has the amount of the payment and, but for the case of letters, its
-- currency, the payment's provider is the reader's but for the case of letters, and it is of the attempt's
-- checkout session unless one of the two is unknown; and then no other row is touched. This holds for any
-- event, any reader of events and any faults of the database.
pub handle-IsMatched :
    (s : Service) (w : World) (id : String) (db : Db)
    → SameTables db (handle s w id db).db ⊎ IsMatched s.interpreter id db (handle s w id db).db
handle-IsMatched s w id db = elim (handle-Changed s w id db) [
  | inl same ↦ inl same
  | inr (r, wrote) ↦ inr (Run-IsMatched s.interpreter w id db _ r wrote)
]
