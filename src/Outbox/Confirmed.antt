-- ===== src/Outbox/Confirmed.antt =====
-- What a cycle may record of a message, and on what grounds.
use payments_boilerplate.Base.{
  ℕ, ◌+◌, ◌≡◌, refl, ◌⊎◌, inl, inr, true, false, String, List, [], ◌∷◌, Option, none, some, ◌==◌,
  arith, leb, Bool-cases, Option-cases, str_eq_iff, Result-cases, Result, ok, err,
}
use payments_boilerplate.Consumer.Store.{Table}
use payments_boilerplate.Outbox.Store.{
  Error, is_permanent, Row, Db, Lease, holds, settle_row, mark_published, mark_retryable,
  mark_failed, Fault, works, refused, lost, record_outcome,
}
use payments_boilerplate.Outbox.Relay.{
  Service, Meets, World, Counts, Outcome, outcome_published, outcome_failed, outcome_retrying,
  Notice, abandoned, stuck_if, settle, settle_published, settle_failed, settle_retrying,
  publish_one, count, relay, lease_outcome, settled_by,
}
use payments_boilerplate.Outbox.Backoff.{delay}

-- A settlement leaves a row as it is, or changes the row that the owner's running lease holds.
abbrev pub Settles : String → ℕ → String → (Row → Row) → Db → Db → String → Type 0
Settles owner now id change db db' key =
    (db'.rows key ≡ db.rows key)
    ⊎ ((r : Row) × (key ≡ id)
        × (db.rows key ≡ some r)
        × (holds owner now r.locked_by r.locked_until ≡ true)
        × (db'.rows key ≡ some (change r)))

settle_row-Settles :
    (db : Db) (owner id : String) (now : ℕ) (change : Row → Row) (key : String)
    → Settles owner now id change db (settle_row db owner id now change).0 key
unfolding settle_row
settle_row-Settles db owner id now change key = elim (Option-cases (db.rows id)) [
  | inl missing ↦ rw (settle_row, missing) (inl refl)
  | inr (r, there) ↦ elim (Bool-cases (holds owner now r.locked_by r.locked_until)) [
    | inl held ↦ elim (Bool-cases (key == id)) [
      | inl same ↦
          let is_id = (str_eq_iff key id).0 same in
          rw (settle_row, there, held, same) (inr (r, is_id, rw is_id there, held, refl))
      | inr other ↦ rw (settle_row, there, held, other) (inl refl)
    ]
    | inr gone ↦ rw (settle_row, there, gone) (inl refl)
  ]
]

record_outcome-cases :
    (f : Fault) (db db' : Db) (n : ℕ)
    → ((record_outcome f db (db', n)).1 ≡ db) ⊎ ((record_outcome f db (db', n)).1 ≡ db')
unfolding record_outcome
record_outcome-cases works db db' n = inr refl
record_outcome-cases (refused e) db db' n = inl refl
record_outcome-cases (lost e) db db' n = inr refl

pub settled_by-db :
    (l : Lease) (o : Outcome) (cause : Option Error) (notices : List Notice)
    (r : Result Error (Unit {0}) × Db)
    → (settled_by l o cause notices r).db ≡ r.1
unfolding lease_outcome
settled_by-db l o cause notices (ok u, db) = refl
settled_by-db l o cause notices (err e, db) = ground arith

recorded-Settles :
    (l : Lease) (o : Outcome) (cause : Option Error) (notices : List Notice) (f : Fault) (db : Db)
    (owner id : String) (now : ℕ) (change : Row → Row) (key : String)
    → Settles owner now id change db
        (settled_by l o cause notices (record_outcome f db (settle_row db owner id now change))).db
        key
recorded-Settles l o cause notices f db owner id now change key =
    let (db', n) = settle_row db owner id now change in
    rw (settled_by-db l o cause notices (record_outcome f db (settle_row db owner id now change)))
      (elim (record_outcome-cases f db db' n) [
        | inl kept ↦ rw kept (inl refl)
        | inr written ↦ rw written (settle_row-Settles db owner id now change key)
      ])

-- The grounds of a settlement: a confirm publishes, a permanent error abandons, any other error puts
-- back.
pub data Justified (m : Meets) : (Row → Row) → Type 0 where
  confirmed : m.publish ≡ none → m.before_settlement ≡ none → Justified m mark_published
  given_up : {e : Error} → m.publish ≡ some e → is_permanent e ≡ true → Justified m (mark_failed e)
  put_back :
      {e : Error} {due : ℕ}
      → m.publish ≡ some e
      → is_permanent e ≡ false
      → Justified m (mark_retryable e due)

module _ (s : Service) (l : Lease) (m : Meets) (db : Db) where
  -- What the settling statement for one change makes of the database.
  abbrev recorded : (Row → Row) → Outcome → Option Error → List Notice → Db
  recorded change o cause notices =
      (settled_by l o cause notices
        (record_outcome m.fault db (settle_row db s.owner l.message.id m.now change))).db

  publish_one-confirmed :
      m.publish ≡ none
      → m.before_settlement ≡ none
      → (publish_one s l m db).db ≡ recorded mark_published outcome_published none []
  unfolding publish_one settle settle_published
  publish_one-confirmed confirm quiet = rw (confirm, quiet) refl

  publish_one-permanent :
      (e : Error)
      → m.publish ≡ some e
      → is_permanent e ≡ true
      → (publish_one s l m db).db
        ≡ recorded
            (mark_failed e)
            outcome_failed
            (some e)
            (abandoned l.message.id (l.attempts + 1) e ∷ [])
  unfolding publish_one settle settle_failed
  publish_one-permanent e refusal for_good = rw (refusal, for_good) refl

  publish_one-transient :
      (e : Error)
      → m.publish ≡ some e
      → is_permanent e ≡ false
      → (publish_one s l m db).db
        ≡ recorded
            (mark_retryable e (m.now + delay m.draw s.config.backoff l.attempts))
            outcome_retrying
            (some e)
            (stuck_if
              (leb s.config.alert_after_attempts (l.attempts + 1))
              l.message.id
              (l.attempts + 1)
              e)
  unfolding publish_one settle settle_retrying
  publish_one-transient e refusal for_now = rw (refusal, for_now) refl

  publish_one-stopped :
      (e : Error) → m.publish ≡ none → m.before_settlement ≡ some e → (publish_one s l m db).db ≡ db
  unfolding publish_one settle settle_published
  publish_one-stopped e confirm stops = rw (confirm, stops) refl

  recorded-row :
      (change : Row → Row) (o : Outcome) (cause : Option Error) (notices : List Notice)
      (key : String)
      → Settles s.owner m.now l.message.id change db (recorded change o cause notices) key
  recorded-row change o cause notices key =
      recorded-Settles l o cause notices m.fault db s.owner l.message.id m.now change key

  -- A publication changes no row but its own message's, and that one only under the owner's running
  -- lease and on the grounds of the broker's answer.
  pub publish_one-Justified :
      (key : String)
      → let db' = (publish_one s l m db).db in
        (db'.rows key ≡ db.rows key)
        ⊎ ((change : Row → Row) × Justified m change
            × Settles s.owner m.now l.message.id change db db' key)
  publish_one-Justified key = elim (Option-cases m.publish) [
    | inl confirm ↦ elim (Option-cases m.before_settlement) [
      | inl quiet ↦
          rw (publish_one-confirmed confirm quiet)
            (inr (_, Justified.confirmed confirm quiet, recorded-row mark_published _ _ _ key))
      | inr (e, stops) ↦ rw (publish_one-stopped e confirm stops) (inl refl)
    ]
    | inr (e, refusal) ↦ elim (Bool-cases (is_permanent e)) [
      | inl for_good ↦
          rw (publish_one-permanent e refusal for_good)
            (inr (_, Justified.given_up refusal for_good, recorded-row (mark_failed e) _ _ _ key))
      | inr for_now ↦
          rw (publish_one-transient e refusal for_now) (
            inr
              (_, Justified.put_back refusal for_now, recorded-row (mark_retryable e _) _ _ _ key))
    ]
  ]

-- A lease of a batch.
abbrev pub In : Lease → List Lease → Type 0
In l [] = ⊥
In l (x ∷ xs) = (l ≡ x) ⊎ In l xs

-- The last settlement of a message in a batch, if there was one.
abbrev pub Traced : World → List Lease → Table Row → Table Row → String → Type 0
Traced w ls rows rows' key =
    (rows' key ≡ rows key)
    ⊎ ((l : Lease) × (r : Row) × (change : Row → Row) × In l ls
        × (key ≡ l.message.id)
        × Justified (w.meets l) change
        × (rows' key ≡ some (change r)))

Traced-one :
    (s : Service) (w : World) (l : Lease) (ls : List Lease) (db : Db) (key : String)
    → Traced w (l ∷ ls) db.rows (publish_one s l (w.meets l) db).db.rows key
Traced-one s w l ls db key = elim (publish_one-Justified s l (w.meets l) db key) [
  | inl same ↦ inl same
  | inr (change, grounds, inl same) ↦ inl same
  | inr (change, grounds, inr (r, is_id, _, _, written)) ↦
      inr (l, r, change, inl refl, is_id, grounds, written)
]

then-Traced :
    (w : World) (l : Lease) (ls : List Lease) (key : String) (a b c : Table Row)
    → Traced w (l ∷ ls) a b key
    → Traced w ls b c key
    → Traced w (l ∷ ls) a c key
then-Traced w l ls key a b c h (inl same) = rw same h
then-Traced w l ls key a b c h (inr (l', r, change, later, is_id, grounds, written)) =
    inr (l', r, change, inr later, is_id, grounds, written)

pub relay-Traced :
    (s : Service) (w : World) (ls : List Lease) (c : Counts) (db : Db) (key : String)
    → Traced w ls db.rows (relay s w ls c db).db.rows key
unfolding relay
relay-Traced s w [] c db key = inl refl
relay-Traced s w (l ∷ ls) c db key = elim (Bool-cases (w.ended l)) [
  | inl stops ↦ rw (relay, stops) (inl refl)
  | inr goes ↦
      let step = Traced-one s w l ls db key in
      elim (Result-cases (publish_one s l (w.meets l) db).outcome) [
        | inl ((o, cause), fine) ↦
            rw (relay, goes, fine)
              (then-Traced w l ls key db.rows (publish_one s l (w.meets l) db).db.rows
                (relay s w ls (count o c) (publish_one s l (w.meets l) db).db).db.rows step
                (relay-Traced s w ls (count o c) (publish_one s l (w.meets l) db).db key))
        | inr (e, fails) ↦ rw (relay, goes, fails) step
      ]
]
