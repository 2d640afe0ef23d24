-- ===== src/Outbox/Reported.antt =====
-- What the relay reports of a publication, against what it recorded.
use payments_boilerplate.Base.{
  ℕ, ◌+◌, ◌≤◌, ◌≡◌, refl, ap, ◌⊎◌, inl, inr, Bool, true, false, List, [], Option, none, some, arith,
  Bool-cases, Option-cases, str_eq_refl, Result, ok, err,
}
use payments_boilerplate.Outbox.Store.{
  Error, is_permanent, Row, Db, Lease, holds, settle_row, mark_published, Fault, works, refused,
  lost, record_outcome, affected_one,
}
use payments_boilerplate.Outbox.Relay.{
  Service, Meets, Outcome, Notice, outcome_published, outcome_failed, outcome_retrying,
  outcome_lease_lost, settle, settle_published, settle_failed, settle_retrying, publish_one,
  lease_outcome, settled_by, Settled,
}
use payments_boilerplate.Outbox.Confirmed.{settled_by-db}

abbrev is_published : Outcome → Bool
is_published outcome_published = true
is_published _ = false

-- The row was the owner's, and the database has the change.
abbrev pub Recorded : Service → Lease → Meets → (Row → Row) → Db → Db → Type 0
Recorded s l m change db db' =
    (r : Row) × (db.rows l.message.id ≡ some r)
    × (holds s.owner m.now r.locked_by r.locked_until ≡ true)
    × (db'.rows l.message.id ≡ some (change r))

settled_by-outcome :
    (l : Lease) (o o' : Outcome) (cause cause' : Option Error) (notices : List Notice)
    (r : Result Error (Unit {0}) × Db)
    → (settled_by l o cause notices r).outcome ≡ ok (o', cause')
    → ((r.0 ≡ ok tt) × (o' ≡ o)) ⊎ (o' ≡ outcome_lease_lost)
unfolding lease_outcome
settled_by-outcome l o o' cause cause' notices (ok u, db) h = ground arith
settled_by-outcome l o o' cause cause' notices (err e, db) h = ground arith

answered :
    (f : Fault) (db db' : Db) (n : ℕ)
    → (record_outcome f db (db', n)).0 ≡ ok tt
    → ((record_outcome f db (db', n)).1 ≡ db') × (1 ≤ n)
unfolding record_outcome affected_one
answered works db db' n h = (refl, ground arith)
answered (refused e) db db' n h = ground arith
answered (lost e) db db' n h = ground arith

changed_one :
    (s : Service) (l : Lease) (m : Meets) (change : Row → Row) (db : Db)
    → let (db', n) = settle_row db s.owner l.message.id m.now change in
      1 ≤ n → Recorded s l m change db db'
unfolding settle_row
changed_one s l m change db h = elim (Option-cases (db.rows l.message.id)) [
  | inl missing ↦
      let none_changed : (settle_row db s.owner l.message.id m.now change).1 ≡ 0 =
        rw (settle_row, missing) refl in
      absurd (omega (arith, h, none_changed))
  | inr (r, there) ↦ elim (Bool-cases (holds s.owner m.now r.locked_by r.locked_until)) [
    | inl held ↦ (r, there, held, rw (settle_row, there, held, str_eq_refl) refl)
    | inr gone ↦
        let none_changed : (settle_row db s.owner l.message.id m.now change).1 ≡ 0 =
          rw (settle_row, there, gone) refl in
        absurd (omega (arith, h, none_changed))
  ]
]

Recorded-one :
    (s : Service) (l : Lease) (m : Meets) (change : Row → Row) (db : Db)
    → (record_outcome m.fault db (settle_row db s.owner l.message.id m.now change)).0 ≡ ok tt
    → Recorded s l m change db
        (record_outcome m.fault db (settle_row db s.owner l.message.id m.now change)).1
Recorded-one s l m change db h =
    let (db', n) = settle_row db s.owner l.message.id m.now change in
    let (same, some_row) = answered m.fault db db' n h in
    rw same (changed_one s l m change db some_row)

not_published :
    (l : Lease) (o : Outcome) (cause cause' : Option Error) (notices : List Notice)
    (r : Result Error (Unit {0}) × Db)
    → is_published o ≡ false
    → (settled_by l o cause notices r).outcome ≡ ok (outcome_published, cause')
    → ⊥
not_published l o cause cause' notices r other h =
    elim (settled_by-outcome l o outcome_published cause cause' notices r h) [
      | inl (_, same) ↦ cc (ap is_published same, other)
      | inr lost_lease ↦ cc lost_lease
    ]

abbrev confirming : Service → Lease → Meets → Db → Settled
confirming s l m db =
    settled_by l outcome_published none []
      (record_outcome m.fault db (settle_row db s.owner l.message.id m.now mark_published))

settle-confirmed :
    (s : Service) (l : Lease) (m : Meets) (db : Db)
    → m.publish ≡ none
    → m.before_settlement ≡ none
    → settle s l m (l.attempts + 1) db ≡ confirming s l m db
unfolding settle settle_published
settle-confirmed s l m db confirm quiet = rw (confirm, quiet) refl

Recorded-confirm :
    (s : Service) (l : Lease) (m : Meets) (db : Db) (cause : Option Error)
    → (confirming s l m db).outcome ≡ ok (outcome_published, cause)
    → Recorded s l m mark_published db (confirming s l m db).db
Recorded-confirm s l m db cause h =
    let r = record_outcome m.fault db (settle_row db s.owner l.message.id m.now mark_published) in
    elim (settled_by-outcome l outcome_published outcome_published none cause [] r h) [
      | inl (fine, _) ↦
          rw (settled_by-db l outcome_published none [] r)
            (Recorded-one s l m mark_published db fine)
      | inr lost_lease ↦ absurd (cc lost_lease)
    ]

settle-stopped :
    (s : Service) (l : Lease) (m : Meets) (db : Db) (e : Error)
    → m.publish ≡ none
    → m.before_settlement ≡ some e
    → (settle s l m (l.attempts + 1) db).outcome ≡ err e
unfolding settle settle_published
settle-stopped s l m db e confirm stops = rw (confirm, stops) refl

-- A refused publication is not reported as published.
settle-refused :
    (s : Service) (l : Lease) (m : Meets) (db : Db) (e : Error) (cause : Option Error)
    → m.publish ≡ some e
    → (settle s l m (l.attempts + 1) db).outcome ≡ ok (outcome_published, cause)
    → ⊥
unfolding settle settle_failed settle_retrying
settle-refused s l m db e cause refusal h = elim (Bool-cases (is_permanent e)) [
  | inl for_good ↦
      not_published l outcome_failed (some e) cause _ _ refl (rw (refusal, for_good) at h)
  | inr for_now ↦
      not_published l outcome_retrying (some e) cause _ _ refl (rw (refusal, for_now) at h)
]

-- A publication that is reported as published is recorded: the row was under the owner's running lease
-- when it was settled, and the database has it as published. A lost lease is never reported as a
-- success.
pub publish_one-Recorded :
    (s : Service) (l : Lease) (m : Meets) (db : Db) (cause : Option Error)
    → (publish_one s l m db).outcome ≡ ok (outcome_published, cause)
    → Recorded s l m mark_published db (publish_one s l m db).db
unfolding publish_one
publish_one-Recorded s l m db cause h = elim (Option-cases m.publish) [
  | inl confirm ↦ elim (Option-cases m.before_settlement) [
    | inl quiet ↦
        let eq = settle-confirmed s l m db confirm quiet in
        rw eq (Recorded-confirm s l m db cause (rw (← eq) h))
    | inr (e, stops) ↦ absurd (cc (settle-stopped s l m db e confirm stops, h))
  ]
  | inr (e, refusal) ↦ absurd (settle-refused s l m db e cause refusal h)
]
