-- ===== src/Outbox/Store.antt =====
-- The outbox table, the statements of db/queries/outbox.sql on it, and the repository of
-- internal/adapters/postgres/repositories/outbox.go. The table is a function of the primary key, with
-- the list of its keys. `now()` is an argument of each statement. An error is the list of the
-- identities in its chain; `last_error` holds the cause, whose sanitizing is not modelled here.
use payments_boilerplate.Base.{
  ℕ, ◌+◌, Bool, true, false, ◌&&◌, ◌||◌, not, String, List, [], ◌∷◌, Option, none, some, ltb, leb,
  eqb, ◌==◌, if◌then◌else◌, take, Result, ok, err,
}
use payments_boilerplate.Webhooks.{Message, MessageStatus}
use payments_boilerplate.Consumer.Store.{Table, put}

-- internal/application/outbox/errors.go, and errors of other packages.
pub data Link : Type 0 where
  not_confirmed not_routed lease_lost permanent : Link
  foreign : String → Link

abbrev pub Error : Type 0
Error = List Link

abbrev links_permanent : Link → Bool
links_permanent permanent = true
links_permanent _ = false

abbrev links_lease_lost : Link → Bool
links_lease_lost lease_lost = true
links_lease_lost _ = false

abbrev pub any_link : (Link → Bool) → Error → Bool
any_link p [] = false
any_link p (l ∷ ls) = p l || any_link p ls

-- `IsPermanent`.
abbrev pub is_permanent : Error → Bool
is_permanent e = any_link links_permanent e

-- `errors.Is(err, ErrLeaseLost)`.
abbrev pub is_lease_lost : Error → Bool
is_lease_lost e = any_link links_lease_lost e

pub record Row : Type 0 where
  pub message : Message
  pub status : MessageStatus
  pub attempts : ℕ
  pub next_attempt_at : ℕ
  pub locked_until : Option ℕ
  pub locked_by : Option String
  pub last_error : Option Error

pub record Db : Type 0 where
  pub rows : Table Row
  pub ids : List String

-- `locked_until <= now()`, which NULL does not satisfy.
abbrev pub has_passed : Option ℕ → ℕ → Bool
has_passed none now = false
has_passed (some t) now = leb t now

abbrev is_waiting : MessageStatus → Option ℕ → ℕ → Bool
is_waiting MessageStatus.pending until now = true
is_waiting MessageStatus.publishing until now = has_passed until now
is_waiting _ until now = false

-- The condition of `LeaseOutboxBatch`.
unfoldable pub is_due : ℕ → Row → Bool
is_due now r = leb r.next_attempt_at now && is_waiting r.status r.locked_until now

abbrev pub Picked : Type 0
Picked = List (String × Row)

-- `ORDER BY next_attempt_at`.
unfoldable pub insert_by_time : String × Row → Picked → Picked
insert_by_time x [] = x ∷ []
insert_by_time x (y ∷ ys) =
    let rest = insert_by_time x ys in
    if leb x.1.next_attempt_at y.1.next_attempt_at then x ∷ y ∷ ys else y ∷ rest

abbrev pub consider : ℕ → (String → Bool) → String → Option Row → Picked → Picked
consider now skipped id none rest = rest
consider now skipped id (some r) rest =
    if is_due now r && not (skipped id) then insert_by_time (id, r) rest else rest

-- The due rows that no other transaction has locked, in order.
unfoldable pub due_rows : Table Row → List String → ℕ → (String → Bool) → Picked
due_rows rows [] now skipped = []
due_rows rows (id ∷ ids) now skipped =
    consider now skipped id (rows id) (due_rows rows ids now skipped)

abbrev pub claimed : String → ℕ → Row → Row
claimed owner deadline r = record r {
  status = MessageStatus.publishing;
  locked_until = some deadline;
  locked_by = some owner;
}

unfoldable pub claim : String → ℕ → Picked → Table Row → Table Row
claim owner deadline [] rows = rows
claim owner deadline ((id, r) ∷ rest) rows =
    put (claim owner deadline rest rows) id (claimed owner deadline r)

-- `Lease`: a message, and what the relay needs of its row. `Expires`, which nothing reads, is left out.
pub record Lease : Type 0 where
  pub message : Message
  pub attempts : ℕ

-- `messageFromRow`.
abbrev message_from_row : Row → Message
message_from_row r = record (r.message) { status = MessageStatus.pending; created_at = 0 }

unfoldable pub leases_of : Picked → List Lease
leases_of [] = []
leases_of ((id, r) ∷ rest) =
    record { message = message_from_row r; attempts = r.attempts } ∷ leases_of rest

-- `LeaseOutboxBatch`. The rows that `SKIP LOCKED` passes over are an argument.
unfoldable pub lease_batch : Db → String → ℕ → ℕ → ℕ → (String → Bool) → Db × List Lease
unfolding claim leases_of due_rows
lease_batch db owner batch_size duration now skipped =
    let picked = take batch_size (due_rows db.rows db.ids now skipped) in
    (record db { rows = claim owner (now + duration) picked db.rows }, leases_of picked)

-- `locked_by = owner AND locked_until > now()`.
unfoldable pub holds : String → ℕ → Option String → Option ℕ → Bool
holds owner now none until = false
holds owner now (some by) none = false
holds owner now (some by) (some until) = (by == owner) && ltb now until

-- A settling statement: the row it changes, if the lease is still the owner's, and how many it changed.
unfoldable pub settle_row : Db → String → String → ℕ → (Row → Row) → Db × ℕ
settle_row db owner id now change = elim (db.rows id) [
  | none ↦ (db, 0)
  | some r ↦
      if holds owner now r.locked_by r.locked_until
      then (record db { rows = put db.rows id (change r) }, 1)
      else (db, 0)
]

abbrev released : MessageStatus → Option Error → Row → Row
released status cause r = record r {
  status = status;
  attempts = r.attempts + 1;
  last_error = cause;
  locked_until = none;
  locked_by = none;
}

-- `MarkOutboxPublished`, `MarkOutboxRetryable` and `MarkOutboxFailed`.
abbrev pub mark_published : Row → Row
mark_published r = released MessageStatus.published none r

abbrev pub mark_retryable : Error → ℕ → Row → Row
mark_retryable cause due r = record (released MessageStatus.pending (some cause) r) {
  next_attempt_at = due;
}

abbrev pub mark_failed : Error → Row → Row
mark_failed cause r = released MessageStatus.failed (some cause) r

-- What the database makes of a statement: it holds, is refused, or holds and its answer is lost.
pub data Fault : Type 0 where
  works : Fault
  refused lost : Error → Fault

-- `leaseOutcome` of the repository.
unfoldable pub affected_one : ℕ → Result Error (Unit {0})
affected_one affected = if eqb affected 0 then err (lease_lost ∷ []) else ok tt

-- `Published`, `Retry` and `Failed`, around their statement.
unfoldable pub record_outcome : Fault → Db → Db × ℕ → Result Error (Unit {0}) × Db
record_outcome works db (db', affected) = (affected_one affected, db')
record_outcome (refused e) db (db', affected) = (err e, db)
record_outcome (lost e) db (db', affected) = (err e, db')
