-- ===== src/Consumer/Settled.antt =====
-- States that no event may leave.
use payments_boilerplate.Base.{
  ◌≡◌, inl, inr, Bool, false, String, some, List, [], ◌∷◌, Bool-cases, arith, ◌==◌, str_eq_iff,
}
use payments_boilerplate.Consumer.Ports.{Aggregate, Effect}
use payments_boilerplate.Consumer.Store.{
  Table, AttemptRow, PaymentRow, OrderRow, Db, payment_movable, attempt_movable, order_movable,
}
use payments_boilerplate.Consumer.Process.Writes.{Moved, Wrote}
use payments_boilerplate.Consumer.Service.{Service, World, handle}
use payments_boilerplate.Consumer.Safety.{handle-Changed, deliver}

-- A guarded statement leaves every row that may not move.
kept_by_move :
    {R : Type 0} (movable : R → Bool) (t t' : Table R) (id : String) (change : R → R) (k : String)
    (r : R)
    → Moved movable t t' id change
    → t k ≡ some r
    → movable r ≡ false
    → t' k ≡ some r
kept_by_move movable t t' id change k r m at_k settled =
    rw (m.changed) (elim (Bool-cases (k == id)) [
      | inl same ↦ absurd (ground (arith, str_eq_iff k id, m.found, m.free))
      | inr other ↦ rw other at_k
    ])

-- What is settled in one database stands unchanged in another.
pub record KeepsSettled (db db' : Db) : Type 0 where
  pub attempts :
      (k : String) (r : AttemptRow)
      → db.attempts k ≡ some r
      → attempt_movable r.status ≡ false
      → db'.attempts k ≡ some r
  pub payments :
      (k : String) (r : PaymentRow)
      → db.payments k ≡ some r
      → payment_movable r.status ≡ false
      → db'.payments k ≡ some r
  pub orders :
      (k : String) (r : OrderRow)
      → db.orders k ≡ some r
      → order_movable r.status ≡ false
      → db'.orders k ≡ some r

Wrote-KeepsSettled :
    (a : Aggregate) (e : Effect) (db db' : Db) → Wrote a e db db' → KeepsSettled db db'
Wrote-KeepsSettled a e db db' w = record {
  attempts = λ k r at_k s. elim w.attempt [
    | inl (still, same) ↦ rw same at_k
    | inr (x, at_x, m) ↦ kept_by_move _ db.attempts db'.attempts a.attempt_id _ k r m at_k s
  ];
  payments = λ k r at_k s. elim w.payment [
    | inl (still, same) ↦ rw same at_k
    | inr (x, at_x, m) ↦ kept_by_move _ db.payments db'.payments a.payment_id _ k r m at_k s
  ];
  orders = λ k r at_k s. elim w.order [
    | inl (still, same) ↦ rw same at_k
    | inr (paid, m) ↦ kept_by_move _ db.orders db'.orders a.order_id _ k r m at_k s
  ];
}

handle-KeepsSettled :
    (s : Service) (w : World) (id : String) (db : Db) → KeepsSettled db (handle s w id db).db
handle-KeepsSettled s w id db = elim (handle-Changed s w id db) [
  | inl (x, y, z) ↦ record {
    attempts = λ k r at_k _. rw x at_k;
    payments = λ k r at_k _. rw y at_k;
    orders = λ k r at_k _. rw z at_k;
  }
  | inr (r, wrote) ↦ Wrote-KeepsSettled r.aggregate r.effect db _ wrote
]

-- No history of deliveries, in any order and with any faults, changes a row of a settled payment, of
-- a settled attempt or of an order that is no longer pending.
pub deliver-KeepsSettled :
    (s : Service) (calls : List (World × String)) (db : Db) → KeepsSettled db (deliver s calls db)
unfolding deliver
deliver-KeepsSettled s [] db = record {
  attempts = λ k r at_k _. at_k;
  payments = λ k r at_k _. at_k;
  orders = λ k r at_k _. at_k;
}
deliver-KeepsSettled s ((w, id) ∷ calls) db =
    let first = handle-KeepsSettled s w id db in
    let rest = deliver-KeepsSettled s calls (handle s w id db).db in
    record {
      attempts = λ k r at_k settled. rest.attempts k r (first.attempts k r at_k settled) settled;
      payments = λ k r at_k settled. rest.payments k r (first.payments k r at_k settled) settled;
      orders = λ k r at_k settled. rest.orders k r (first.orders k r at_k settled) settled;
    }
