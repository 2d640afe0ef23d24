-- ===== src/Outbox/Tests.antt =====
-- A cycle over two messages, one confirmed and one that cannot be encoded, and the theorems at it.
use payments_boilerplate.Base.{
  ℕ, ◌≡◌, refl, ◌⊎◌, if◌then◌else◌, true, false, String, [], ◌∷◌, none, some, arith, ok, ◌==◌,
}
use payments_boilerplate.Webhooks.{Message, MessageStatus, checkout_completed}
use payments_boilerplate.Outbox.Backoff.{Backoff}
use payments_boilerplate.Outbox.Store.{
  Error, permanent, is_permanent, Row, Db, Lease, is_due, insert_by_time, due_rows, claim, claimed,
  leases_of, lease_batch, holds, settle_row, mark_published, mark_failed, works, record_outcome,
  affected_one,
}
use payments_boilerplate.Outbox.Relay.{
  Service, Meets, World, outcome_published, settle_published, settle_failed, settle, publish_one,
  lease_outcome, relay, run_once, claim_batch,
}
use payments_boilerplate.Outbox.Fenced.{lease_batch-exclusive}
use payments_boilerplate.Outbox.Confirmed.{In}
use payments_boilerplate.Outbox.Cycle.{run_once-abandoned}

abbrev message : String → Message
message id = record {
  id = id;
  event_id = "evt_1";
  kind = checkout_completed;
  version = 1;
  routing_key = "payment.webhook.checkout.completed";
  correlation_id = "";
  occurred_at = 5;
  status = MessageStatus.pending;
  created_at = 0;
}

abbrev waiting : String → ℕ → Row
waiting id due = record {
  message = message id;
  status = MessageStatus.pending;
  attempts = 0;
  next_attempt_at = due;
  locked_until = none;
  locked_by = none;
  last_error = none;
}

abbrev two_waiting : Db
two_waiting = record {
  rows = λ k.
      if k == "m1"
      then some (waiting "m1" 20)
      else (if k == "m2" then some (waiting "m2" 10) else none);
  ids = "m1" ∷ "m2" ∷ [];
}

abbrev relay_one : Service
relay_one = record {
  owner = "relay-1";
  config = record {
    batch_size = 20;
    lease_duration = 100;
    backoff = record { base = 2000000000; max = 300000000000 };
    alert_after_attempts = 10;
  };
}

abbrev confirming : Meets
confirming = record {
  publish = none;
  before_settlement = none;
  fault = works;
  now = 60;
  draw = λ n. 0;
}

abbrev not_encoded : Error
not_encoded = permanent ∷ []

abbrev good_day : World
good_day = record {
  lease_fault = works;
  lease_now = 50;
  skipped = λ id. false;
  ended = λ l. false;
  meets = λ l.
      if l.message.id == "m1" then confirming else record confirming { publish = some not_encoded };
}

abbrev first_published : Row
first_published = mark_published (claimed "relay-1" 150 (waiting "m1" 20))

first_is_published : (run_once relay_one good_day two_waiting).db.rows "m1" ≡ some first_published
unfolding run_once relay lease_batch due_rows insert_by_time is_due claim leases_of publish_one
    settle settle_published settle_failed record_outcome affected_one settle_row holds lease_outcome
    ◌==◌
first_is_published = refl

second_is_failed :
    (run_once relay_one good_day two_waiting).db.rows "m2"
    ≡ some (mark_failed not_encoded (claimed "relay-1" 150 (waiting "m2" 10)))
unfolding run_once relay lease_batch due_rows insert_by_time is_due claim leases_of publish_one
    settle settle_published settle_failed record_outcome affected_one settle_row holds lease_outcome
    ◌==◌
second_is_failed = refl

run_once-abandoned_example :
    (two_waiting.rows "m2"
      ≡ some (mark_failed not_encoded (claimed "relay-1" 150 (waiting "m2" 10))))
    ⊎ ((l : Lease) × In l (claim_batch relay_one good_day two_waiting).1
        × (◌≡◌ {A = String} "m2" l.message.id)
        × ((e : Error) × ((good_day.meets l).publish ≡ some e) × (is_permanent e ≡ true)))
run_once-abandoned_example =
    run_once-abandoned relay_one good_day two_waiting "m2" _ second_is_failed refl

abbrev first_lease : Lease
first_lease = record { message = message "m1"; attempts = 0 }

abbrev held : Db
held = record {
  rows = λ k. if k == "m1" then some (claimed "relay-1" 150 (waiting "m1" 20)) else none;
  ids = "m1" ∷ [];
}

m1_held : held.rows "m1" ≡ some (claimed "relay-1" 150 (waiting "m1" 20))
unfolding ◌==◌
m1_held = refl

lease_batch-exclusive_example :
    (lease_batch held "relay-2" 20 100 90 (λ id. false)).0.rows "m1"
    ≡ some (claimed "relay-1" 150 (waiting "m1" 20))
lease_batch-exclusive_example =
    lease_batch-exclusive held "relay-1" "relay-2" 20 100 150 90 (λ id. false) "m1"
      (waiting "m1" 20) m1_held (omega arith)

reported :
    (publish_one relay_one first_lease confirming held).outcome ≡ ok (outcome_published, none)
unfolding publish_one settle settle_published record_outcome affected_one settle_row holds
    lease_outcome ◌==◌
reported = refl

abbrev defaults : Backoff
defaults = record { base = 0; max = 0 }
