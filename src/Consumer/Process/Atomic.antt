-- ===== src/Consumer/Process/Atomic.antt =====
-- `Process` as a transaction: what an error leaves behind, and what a success has recorded.
use payments_boilerplate.Base.{
  ◌+◌, ◌≡◌, refl, inl, inr, Bool, String, Option, none, some, str_eq_refl, ok, err, Result-cases,
  Option-cases, arith, Bool-cases,
}
use payments_boilerplate.Webhooks
use payments_boilerplate.Consumer.Ports.{Error, Aggregate, InboxEntry, Effect, Applied}
use payments_boilerplate.Consumer.Store.{
  Remark, EventRow, Db, is_processed, mark_webhook_event_processed,
}
use payments_boilerplate.Consumer.Process.Cases.{Resolver, Decider, process_cases}
use payments_boilerplate.Consumer.Process.{
  Commit, committed, refused, lost, Faults, lock_entry, apply_effect, write, finish, nullable_text,
  locked, process, already_processed,
}

-- A commit that either holds or does not, and says which.
abbrev pub IsCertain : Commit → Type 0
IsCertain committed = Unit
IsCertain (refused e) = Unit
IsCertain (lost e) = ⊥

-- The inbox entry has been closed.
abbrev pub IsClosed : Db → String → Type 0
IsClosed db id =
    (row : EventRow) × (db.events id ≡ some row) × (row.status ≡ Webhooks.Status.processed)

pub apply_effect-events :
    (f : Faults) (aggregate : Aggregate) (effect : Effect) (db db' : Db) (b : Bool)
    → apply_effect f aggregate effect db ≡ ok (db', b)
    → db'.events ≡ db.events
unfolding apply_effect
apply_effect-events f aggregate effect db db' b h = ground arith

IsClosed-by_mark :
    (db : Db) (id : String) (row : EventRow) (remark : Option Remark)
    → db.events id ≡ some row
    → IsClosed (mark_webhook_event_processed db id remark) id
unfolding mark_webhook_event_processed
IsClosed-by_mark db id row remark h = elim (Bool-cases (is_processed row.status)) [
  | inl yet ↦ rw (h, yet, mark_webhook_event_processed) (row, h, ground arith)
  | inr not_yet ↦
      rw (h, not_yet, mark_webhook_event_processed)
        (
          record row {
            status = Webhooks.Status.processed;
            attempts = row.attempts + 1;
            last_error = remark;
          },
          rw (str_eq_refl id),
          refl,
        )
]

write-IsClosed :
    (f : Faults) (id : String) (a : Aggregate) (effect : Effect) (db db' : Db) (b : Bool)
    (row : EventRow)
    → db.events id ≡ some row
    → write f id a effect db ≡ ok (db', b)
    → IsClosed db' id
unfolding write
write-IsClosed f id a effect db db' b row h w = elim (Result-cases (apply_effect f a effect db)) [
  | inl ((mid, moved), e) ↦
      let same : mid.events id ≡ some row =
        ground (arith, apply_effect-events f a effect db mid moved) in
      let closed = IsClosed-by_mark mid id row (nullable_text effect.note) same in
      let marked : mark_webhook_event_processed mid id (nullable_text effect.note) ≡ db' =
        ground arith in
      rw (← marked) closed
  | inr (x, e) ↦ absurd (ground arith)
]

locked_row :
    (f : Faults) (db : Db) (id : String) (entry : InboxEntry)
    → lock_entry f db id ≡ ok entry
    → (row : EventRow) × (db.events id ≡ some row) × (entry.status ≡ row.status)
unfolding lock_entry
locked_row f db id entry h = elim (Option-cases (db.events id)) [
  | inl gone ↦ absurd (ground arith)
  | inr (row, e) ↦ (row, e, ground arith)
]

finish-after :
    {C : Type 0} (k : Commit) (a : Applied) (c : C) (before after : Db) (r : Applied)
    → (finish k a c before after).0 ≡ ok r
    → (finish k a c before after).2 ≡ after
unfolding finish
finish-after committed a c before after r h = refl
finish-after (refused e) a c before after r h = absurd (ground arith)
finish-after (lost e) a c before after r h = refl

module _ {C : Type 0} (f : Faults) (id : String) (resolve : Resolver C) (decide : Decider C) (c : C)
    (db : Db) where
  -- A transaction that reports an error has changed nothing, unless the commit itself went through
  -- and only its answer was lost.
  pub process-rollback :
      (e : Error)
      → IsCertain f.commit
      → (process f id resolve decide c db).0 ≡ err e
      → (process f id resolve decide c db).2 ≡ db
  unfolding finish
  process-rollback e certain =
      process_cases f id resolve decide c db (λ t. t.0 ≡ err e → t.2 ≡ db) (λ x c' h. refl)
        (λ entry l yet h. refl) (λ r h. ground arith)

  -- A transaction that succeeds leaves the inbox entry closed: the effect and the mark commit
  -- together.
  pub process-IsClosed :
      (r : Applied)
      → (process f id resolve decide c db).0 ≡ ok r
      → IsClosed (process f id resolve decide c db).2 id
  unfolding finish
  process-IsClosed r =
      process_cases f id resolve decide c db (λ t. t.0 ≡ ok r → IsClosed t.2 id)
        (λ x c' h. absurd (ground arith))
        (λ entry l yet h.
          (let (row, found, same) = locked_row f db id entry l in (row, found, ground arith)))
        (λ t h.
          (let (row, found, same) = locked_row f db id t.entry t.entry_locked in
            rw (finish-after f.commit _ t.last db t.written r h) (
              write-IsClosed f id t.aggregate t.effect db t.written t.moved row found
                t.effect_written)))

  -- An entry that is closed is not touched again: the callbacks are not called, nothing is written.
  pub process_closed :
      IsClosed db id
      → f.begin ≡ none
      → f.lock_event ≡ none
      → process f id resolve decide c db ≡ (ok already_processed, c, db)
  unfolding process locked lock_entry
  process_closed (row, found, closed) begun locks = rw (begun, process, found, locks, closed)
