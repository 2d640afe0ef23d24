-- ===== src/Outbox/Relay.antt =====
-- internal/application/outbox/service.go: the relay's cycle. The broker, the hook before a settlement,
-- the database's faults, the clock and the random draw are arguments, each for a lease; metrics'
-- durations are left out. `Run`, which repeats the cycle on a timer, is not modelled.
use payments_boilerplate.Base.{
  ℕ, ◌+◌, Bool, true, false, String, List, [], ◌∷◌, ◌++◌, Option, none, some, leb, if◌then◌else◌,
  length, Result, ok, err,
}
use payments_boilerplate.Outbox.Backoff.{Backoff, delay}
use payments_boilerplate.Outbox.Store.{
  Error, is_permanent, is_lease_lost, Db, Lease, lease_batch, settle_row, mark_published,
  mark_retryable, mark_failed, Fault, works, refused, lost, record_outcome,
}

pub data Outcome : Type 0 where
  outcome_published outcome_retrying outcome_failed outcome_lease_lost : Outcome

-- What the observers are told: `Stuck`, `Abandoned`, `LeaseLost` and `PublicationSettled`.
pub data Notice : Type 0 where
  stuck abandoned : String → ℕ → Error → Notice
  lease_lost : String → Error → Notice
  publication_settled : Outcome → ℕ → Option Error → Notice

pub record Config : Type 0 where
  pub batch_size : ℕ
  pub lease_duration : ℕ
  pub backoff : Backoff
  pub alert_after_attempts : ℕ

pub record Service : Type 0 where
  pub owner : String
  pub config : Config

-- What one publication meets: the broker's answer (none for a confirm), the hook's error, the fault
-- of the settling statement, the database's clock at it, and the draw of the jitter.
pub record Meets : Type 0 where
  pub publish : Option Error
  pub before_settlement : Option Error
  pub fault : Fault
  pub now : ℕ
  pub draw : ℕ → ℕ

-- An outcome with its cause, or the error that ends the cycle; the database; and the notices.
pub record Settled : Type 0 where
  pub outcome : Result Error (Outcome × Option Error)
  pub db : Db
  pub notices : List Notice

-- `leaseOutcome`.
unfoldable pub lease_outcome : Lease → Error → Db → Settled
lease_outcome l e db =
    if is_lease_lost e
    then record {
      outcome = ok (outcome_lease_lost, some e);
      db = db;
      notices = lease_lost l.message.id e ∷ [];
    }
    else record { outcome = err e; db = db; notices = [] }

abbrev pub settled_by :
    Lease → Outcome → Option Error → List Notice → Result Error (Unit {0}) × Db → Settled
settled_by l outcome cause notices (ok u, db) = record {
  outcome = ok (outcome, cause);
  db = db;
  notices = notices;
}
settled_by l outcome cause notices (err e, db) = lease_outcome l e db

abbrev pub stuck_if : Bool → String → ℕ → Error → List Notice
stuck_if true id attempts cause = stuck id attempts cause ∷ []
stuck_if false id attempts cause = []

-- The three branches of `settle`.
unfoldable pub settle_published : Service → Lease → Meets → Db → Settled
settle_published s l m db = elim m.before_settlement [
  | some e ↦ record { outcome = err e; db = db; notices = [] }
  | none ↦
      settled_by l outcome_published none []
        (record_outcome m.fault db (settle_row db s.owner l.message.id m.now mark_published))
]

unfoldable pub settle_failed : Service → Lease → Meets → ℕ → Error → Db → Settled
settle_failed s l m attempts cause db =
    settled_by l outcome_failed (some cause) (abandoned l.message.id attempts cause ∷ [])
      (record_outcome m.fault db (settle_row db s.owner l.message.id m.now (mark_failed cause)))

unfoldable pub settle_retrying : Service → Lease → Meets → ℕ → Error → Db → Settled
settle_retrying s l m attempts cause db =
    let due = m.now + delay m.draw s.config.backoff l.attempts in
    settled_by l outcome_retrying (some cause)
      (stuck_if (leb s.config.alert_after_attempts attempts) l.message.id attempts cause)
      (record_outcome m.fault db
        (settle_row db s.owner l.message.id m.now (mark_retryable cause due)))

-- `settle`.
unfoldable pub settle : Service → Lease → Meets → ℕ → Db → Settled
unfolding settle_published settle_failed settle_retrying
settle s l m attempts db = elim m.publish [
  | none ↦ settle_published s l m db
  | some e ↦
      if is_permanent e
      then settle_failed s l m attempts e db
      else settle_retrying s l m attempts e db
]

abbrev settled_notice : ℕ → Result Error (Outcome × Option Error) → List Notice
settled_notice attempts (ok (o, cause)) = publication_settled o attempts cause ∷ []
settled_notice attempts (err e) = []

-- `publishOne`.
unfoldable pub publish_one : Service → Lease → Meets → Db → Settled
unfolding settle
publish_one s l m db =
    let r = settle s l m (l.attempts + 1) db in
    record r { notices = r.notices ++ settled_notice (l.attempts + 1) r.outcome }

-- `Result`.
pub record Counts : Type 0 where
  pub leased : ℕ
  pub published : ℕ
  pub retrying : ℕ
  pub failed : ℕ
  pub leases_lost : ℕ

abbrev pub count : Outcome → Counts → Counts
count outcome_published c = record c { published = c.published + 1 }
count outcome_retrying c = record c { retrying = c.retrying + 1 }
count outcome_failed c = record c { failed = c.failed + 1 }
count outcome_lease_lost c = record c { leases_lost = c.leases_lost + 1 }

pub data Stage : Type 0 where
  stage_lease stage_settlement : Stage

-- What `runOnce` returns, with the database and the notices.
pub record Cycle : Type 0 where
  pub counts : Counts
  pub failure : Option (Stage × Error)
  pub db : Db
  pub notices : List Notice

-- What one cycle meets: the fault, the clock and the locked rows of the claim, and for each lease
-- whether a context has ended before it and what its publication meets.
pub record World : Type 0 where
  pub lease_fault : Fault
  pub lease_now : ℕ
  pub skipped : String → Bool
  pub ended : Lease → Bool
  pub meets : Lease → Meets

-- The loop of `runOnce` over the batch.
unfoldable pub relay : Service → World → List Lease → Counts → Db → Cycle
relay s w [] c db = record { counts = c; failure = none; db = db; notices = [] }
relay s w (l ∷ ls) c db =
    if w.ended l
    then record { counts = c; failure = none; db = db; notices = [] }
    else (let r = publish_one s l (w.meets l) db in
        elim r.outcome [
          | err e ↦ record {
            counts = c;
            failure = some (stage_settlement, e);
            db = r.db;
            notices = r.notices;
          }
          | ok (o, cause) ↦
              let rest = relay s w ls (count o c) r.db in
              record rest { notices = r.notices ++ rest.notices }
        ])

abbrev pub none_yet : ℕ → Counts
none_yet n = record { leased = n; published = 0; retrying = 0; failed = 0; leases_lost = 0 }

abbrev pub lease_failure : Error → Db → Cycle
lease_failure e db = record {
  counts = none_yet 0;
  failure = some (stage_lease, e);
  db = db;
  notices = [];
}

abbrev pub claim_batch : Service → World → Db → Db × List Lease
claim_batch s w db =
    lease_batch db s.owner s.config.batch_size s.config.lease_duration w.lease_now w.skipped

-- `runOnce`.
unfoldable pub run_once : Service → World → Db → Cycle
unfolding relay
run_once s w db =
    let (claimed, leases) = claim_batch s w db in
    elim w.lease_fault [
      | works ↦ relay s w leases (none_yet (length leases)) claimed
      | refused e ↦ lease_failure e db
      | lost e ↦ lease_failure e claimed
    ]
