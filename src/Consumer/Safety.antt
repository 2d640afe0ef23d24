-- ===== src/Consumer/Safety.antt =====
-- What a call of the use case can do to payments, attempts and orders.
use mathlib.Core.Path.{subst₂}
use payments_boilerplate.Base.{
  ℕ, ◌≡◌, refl, subst, sym, ◌∙◌, ◌⊎◌, inl, inr, Bool, String, Result, ok, err, List, [], ◌∷◌, arith,
}
use payments_boilerplate.Consumer.Ports.{Error, Aggregate, Effect, Applied}
use payments_boilerplate.Consumer.Store.{Db}
use payments_boilerplate.Consumer.Process.{
  Commit, committed, refused, lost, process, finish, record_failure,
}
use payments_boilerplate.Consumer.Process.Writes.{
  MovesAttempt, MovesPayment, MovesOrder, Wrote, write-Wrote,
}
use payments_boilerplate.Consumer.Process.Cases.{process_cases}
use payments_boilerplate.Consumer.Deciding.{
  Captured, captured_none, resolve_entry, decide_entry, is_terminal,
}
use payments_boilerplate.Consumer.Service.{Service, World, classify, processed_answer, handle}
use payments_boilerplate.Consumer.Consistency.{IsConsistent}
use payments_boilerplate.Consumer.Locked.{
  lock_aggregate-IsLocked, IsMeasured, effect_of-IsMeasured, Run, Run-IsChecked,
}
use payments_boilerplate.Consumer.Preservation.{wrote-IsConsistent}

-- The run of `Process` that one call makes.
abbrev pub run_of : Service → World → String → Db → Result Error Applied × Captured × Db
run_of s w id db =
    process w.faults id (resolve_entry s.interpreter) (decide_entry s.interpreter) captured_none db

-- Two databases that differ in the inbox alone.
abbrev pub SameTables : Db → Db → Type 0
SameTables db db' =
    (db'.attempts ≡ db.attempts) × (db'.payments ≡ db.payments) × (db'.orders ≡ db.orders)

record_failure-SameTables :
    (k : Commit) (db : Db) (id : String) (e : Error) (b : Bool) (n : ℕ)
    → SameTables db (record_failure k db id e b n).1
unfolding record_failure
record_failure-SameTables committed db id e b n = ground arith
record_failure-SameTables (refused x) db id e b n = (refl, refl, refl)
record_failure-SameTables (lost x) db id e b n = ground arith

classify-SameTables :
    (s : Service) (w : World) (id : String) (e : Error) (db : Db)
    → SameTables db (classify s w id e db).db
unfolding classify
classify-SameTables s w id e db =
    ground (arith, record_failure-SameTables w.recording db id e (is_terminal e) s.max_attempts)

answer-SameTables :
    (s : Service) (w : World) (id : String) (t : Result Error Applied × Captured × Db)
    → SameTables t.2 (processed_answer s w id t).db
unfolding processed_answer
answer-SameTables s w id (err e, c, db) = classify-SameTables s w id e db
answer-SameTables s w id (ok r, c, db) = ground arith

handle-SameTables :
    (s : Service) (w : World) (id : String) (db : Db)
    → SameTables (run_of s w id db).2 (handle s w id db).db
unfolding handle
handle-SameTables s w id db = answer-SameTables s w id (run_of s w id db)

Wrote-SameTables :
    (a : Aggregate) (e : Effect) (db d₁ d₂ : Db)
    → SameTables d₁ d₂
    → Wrote a e db d₁
    → Wrote a e db d₂
Wrote-SameTables a e db d₁ d₂ (x, y, z) w = record {
  attempt = subst (MovesAttempt a e db.attempts) (sym x) w.attempt;
  payment = subst (MovesPayment a e db.payments) (sym y) w.payment;
  order = subst (MovesOrder a e db.orders) (sym z) w.order;
}

-- A call leaves the aggregate's tables alone, or writes what one run of the transaction reached.
abbrev pub Changed : Service → World → String → Db → Db → Type 0
Changed s w id db db' =
    SameTables db db' ⊎ ((r : Run s.interpreter w.faults id db) × Wrote r.aggregate r.effect db db')

finish-Changed :
    (s : Service) (w : World) (id : String) (db : Db) (k : Commit) (a : Applied) (c : Captured)
    (r : Run s.interpreter w.faults id db)
    → Changed s w id db (finish k a c db r.written).2
unfolding finish
finish-Changed s w id db committed a c r = inr (r, write-Wrote _ _ _ _ _ _ _ r.effect_written)
finish-Changed s w id db (refused e) a c r = inl (refl, refl, refl)
finish-Changed s w id db (lost e) a c r = inr (r, write-Wrote _ _ _ _ _ _ _ r.effect_written)

pub run-Changed :
    (s : Service) (w : World) (id : String) (db : Db) → Changed s w id db (run_of s w id db).2
run-Changed s w id db =
    process_cases w.faults id _ _ captured_none db (λ t. Changed s w id db t.2)
      (λ e c. inl (refl, refl, refl)) (λ entry l yet. inl (refl, refl, refl))
      (λ r. finish-Changed s w id db w.faults.commit _ r.last r)

pub handle-Changed :
    (s : Service) (w : World) (id : String) (db : Db) → Changed s w id db (handle s w id db).db
handle-Changed s w id db =
    let rest = handle-SameTables s w id db in
    elim (run-Changed s w id db) [
      | inl (x, y, z) ↦ inl (rest.0 ∙ x, rest.1 ∙ y, rest.2 ∙ z)
      | inr (r, wrote) ↦ inr (r, Wrote-SameTables r.aggregate r.effect db _ _ rest wrote)
    ]

module _ (s : Service) (w : World) (id : String) (db : Db) where
  pub Run-IsMeasured : (r : Run s.interpreter w.faults id db) → IsMeasured r.aggregate r.effect
  Run-IsMeasured r =
      effect_of-IsMeasured _ r.aggregate r.effect
        (Run-IsChecked s.interpreter w.faults id db r).decided

  -- Whatever the database answers and whatever the event says, a call keeps payments and orders
  -- consistent: an open payment's order is pending, an order has one live payment at most, and an
  -- order is paid exactly when it has a charged payment.
  pub handle-IsConsistent :
      IsConsistent db.payments db.orders
      → IsConsistent (handle s w id db).db.payments (handle s w id db).db.orders
  handle-IsConsistent inv = elim (handle-Changed s w id db) [
    | inl (_, same, same') ↦ subst₂ IsConsistent (sym same) (sym same') inv
    | inr (r, wrote) ↦
        wrote-IsConsistent r.aggregate r.effect db _
          (lock_aggregate-IsLocked w.faults db r.reference r.aggregate r.aggregate_locked)
          (Run-IsMeasured r) wrote inv
  ]

-- The database after a history of calls, for any events and any answers of the database.
unfoldable pub deliver : Service → List (World × String) → Db → Db
deliver s [] db = db
deliver s ((w, id) ∷ calls) db = deliver s calls (handle s w id db).db

-- After any history of deliveries, in any order and with any faults, payments and orders are
-- consistent.
pub deliver-IsConsistent :
    (s : Service) (calls : List (World × String)) (db : Db)
    → IsConsistent db.payments db.orders
    → IsConsistent (deliver s calls db).payments (deliver s calls db).orders
unfolding deliver
deliver-IsConsistent s [] db inv = inv
deliver-IsConsistent s ((w, id) ∷ calls) db inv =
    deliver-IsConsistent s calls (handle s w id db).db (handle-IsConsistent s w id db inv)
