-- ===== src/Consumer/Budget.antt =====
-- The retry budget: how often one event can be sent back to wait.
use payments_boilerplate.Base.{◌&&◌}
use payments_boilerplate.Consumer.Store.{Remark, Table}
use payments_boilerplate.Base.{
  ℕ, ◌+◌, ◌-◌, ◌≤◌, ◌<◌, ◌≡◌, ◌≢◌, refl, ap, inl, inr, Bool, true, false, String, Option, none,
  some, Result, ok, err, List, [], ◌∷◌, Option-cases, Result-cases, ◌∙◌, Bool-cases, arith, ◌==◌,
  str_eq_iff, str_eq_refl, if◌then◌else◌,
}
use payments_boilerplate.Consumer.Ports.{Error, Aggregate, Effect, Applied}
use payments_boilerplate.Consumer.Store.{EventRow, Db, mark_webhook_event_processed}
use payments_boilerplate.Consumer.Process.{
  Commit, committed, refused, lost, Faults, apply_effect, nullable_text, write, finish,
  record_failure,
}
use payments_boilerplate.Consumer.Process.Atomic.{apply_effect-events}
use payments_boilerplate.Consumer.Process.Cases.{process_cases}
use payments_boilerplate.Consumer.Deciding.{Captured, captured_none, is_terminal}
use payments_boilerplate.Consumer.Service.{
  retry, Service, World, Answer, classified, classify, processed_answer, handle,
}
use payments_boilerplate.Consumer.Safety.{run_of}

abbrev pub attempts_of : Db → String → ℕ
attempts_of db id = elim (db.events id) [ none ↦ 0 | some row ↦ row.attempts ]

abbrev pub is_retry : Answer → Bool
is_retry a = elim a.handling [
  | err e ↦ false
  | ok h ↦ elim h.disposition [ retry ↦ true | _ ↦ false ]
]

-- The calls of a history, for one event, that answer that it is to be retried.
unfoldable pub count_retries : Service → String → List (World × String) → Db → ℕ
count_retries s k [] db = 0
count_retries s k ((w, id) ∷ calls) db =
    (if (id == k) && is_retry (handle s w id db) then 1 else 0)
    + count_retries s k calls (handle s w id db).db

-- Failures and effects touch no other entry, and never take an attempt back.
abbrev Counts : String → Db → Db → Type 0
Counts id db db' =
    (attempts_of db id ≤ attempts_of db' id) × ((k : String) → k ≢ id → db'.events k ≡ db.events k)

record_failure-Counts :
    (k : Commit) (db : Db) (id : String) (e : Error) (b : Bool) (n : ℕ)
    → Counts id db (record_failure k db id e b n).1
unfolding record_failure
record_failure-Counts committed db id e b n =
    (ground (arith, str_eq_refl id), λ j other. ground (arith, str_eq_iff j id))
record_failure-Counts (refused x) db id e b n = (omega arith, λ j other. refl)
record_failure-Counts (lost x) db id e b n =
    (ground (arith, str_eq_refl id), λ j other. ground (arith, str_eq_iff j id))

mark-Counts :
    (db : Db) (id : String) (r : Option Remark)
    → Counts id db (mark_webhook_event_processed db id r)
unfolding mark_webhook_event_processed
mark-Counts db id r = (ground (arith, str_eq_refl id), λ j other. ground (arith, str_eq_iff j id))

write-Counts :
    (f : Faults) (id : String) (a : Aggregate) (e : Effect) (db db' : Db) (b : Bool)
    → write f id a e db ≡ ok (db', b)
    → Counts id db db'
unfolding write
write-Counts f id a e db db' b h = elim (Result-cases (apply_effect f a e db)) [
  | inr (x, fails) ↦ absurd (ground arith)
  | inl ((mid, moved), h₁) ↦
      let same = apply_effect-events f a e db mid moved h₁ in
      let last : mark_webhook_event_processed mid id (nullable_text e.note) ≡ db' = ground arith in
      let (grows, others) = mark-Counts mid id (nullable_text e.note) in
      let at_id : mid.events id ≡ db.events id = ap (λ (t : Table EventRow). t id) same in
      rw (← last)
        (ground (arith, grows), λ j other. others j other ∙ ap (λ (t : Table EventRow). t j) same)
]

finish-Counts :
    (k : Commit) (a : Applied) (c : Captured) (id : String) (db db' : Db)
    → Counts id db db'
    → Counts id db (finish k a c db db').2
unfolding finish
finish-Counts committed a c id db db' h = h
finish-Counts (refused e) a c id db db' h = (omega arith, λ j other. refl)
finish-Counts (lost e) a c id db db' h = h

run-Counts : (s : Service) (w : World) (id : String) (db : Db) → Counts id db (run_of s w id db).2
run-Counts s w id db =
    process_cases w.faults id _ _ captured_none db (λ t. Counts id db t.2)
      (λ e c. (omega arith, λ j other. refl)) (λ entry l yet. (omega arith, λ j other. refl))
      (λ r.
        finish-Counts w.faults.commit _ r.last id db r.written
          (write-Counts w.faults id r.aggregate r.effect db r.written r.moved r.effect_written))

classified-db :
    (id : String) (e : Error) (r : Result Error (ℕ × Bool) × Db) → (classified id e r).db ≡ r.1
unfolding classified
classified-db id e (err x, db) = refl
classified-db id e (ok (n, b), db) = ground arith

answer-Counts :
    (s : Service) (w : World) (id : String) (db : Db) (t : Result Error Applied × Captured × Db)
    → Counts id db t.2
    → Counts id db (processed_answer s w id t).db
unfolding processed_answer classify
answer-Counts s w id db (err e, c, db₁) (grows, others) =
    let r = record_failure w.recording db₁ id e (is_terminal e) s.max_attempts in
    let (grows', others') =
      record_failure-Counts w.recording db₁ id e (is_terminal e) s.max_attempts in
    rw (classified-db id e r) (omega arith, λ j other. others' j other ∙ others j other)
answer-Counts s w id db (ok r, c, db₁) h = elim (Option-cases (s.after_commit id r)) [
  | inl quiet ↦ rw (quiet, processed_answer) h
  | inr (e, stops) ↦ rw (stops, processed_answer) h
]

handle-Counts :
    (s : Service) (w : World) (id : String) (db : Db) → Counts id db (handle s w id db).db
unfolding handle
handle-Counts s w id db = answer-Counts s w id db (run_of s w id db) (run-Counts s w id db)

classified-retry :
    (k : Commit) (db : Db) (id : String) (e : Error) (b : Bool) (n : ℕ)
    → let a = classified id e (record_failure k db id e b n) in
      is_retry a ≡ true → (attempts_of db id + 1 ≤ attempts_of a.db id) × (attempts_of a.db id < n)
unfolding classified record_failure
classified-retry committed db id e b n h = elim (Option-cases (db.events id)) [
  | inl gone ↦ absurd (ground arith)
  | inr (row, found) ↦ ground (arith, str_eq_refl id)
]
classified-retry (refused x) db id e b n h = absurd (ground arith)
classified-retry (lost x) db id e b n h = absurd (ground arith)

answer-retry :
    (s : Service) (w : World) (id : String) (db : Db) (t : Result Error Applied × Captured × Db)
    → attempts_of db id ≤ attempts_of t.2 id
    → let a = processed_answer s w id t in
      is_retry a ≡ true
      → (attempts_of db id + 1 ≤ attempts_of a.db id) × (attempts_of a.db id < s.max_attempts)
unfolding processed_answer classify
answer-retry s w id db (err e, c, db₁) grows h =
    let (more, below) = classified-retry w.recording db₁ id e (is_terminal e) s.max_attempts h in
    (omega arith, below)
answer-retry s w id db (ok r, c, db₁) grows h = absurd (ground arith)

-- An answer to retry was counted durably, and the count is still below the limit.
handle-retry :
    (s : Service) (w : World) (id : String) (db : Db)
    → let a = handle s w id db in
      is_retry a ≡ true
      → (attempts_of db id + 1 ≤ attempts_of a.db id) × (attempts_of a.db id < s.max_attempts)
unfolding handle
handle-retry s w id db = answer-retry s w id db (run_of s w id db) (run-Counts s w id db).0

kept-attempts_of :
    (s : Service) (w : World) (id k : String) (db : Db)
    → attempts_of db k ≤ attempts_of (handle s w id db).db k
kept-attempts_of s w id k db =
    let (grows, others) = handle-Counts s w id db in
    elim (Bool-cases (id == k)) [
      | inl same ↦ rw (← (str_eq_iff id k).0 same) grows
      | inr other ↦ ground (arith, others k, str_eq_iff id k)
    ]

-- Over any history of deliveries, with any faults, an event is sent back to wait fewer times than the
-- limit of attempts, less the attempts already counted: no event is retried forever.
pub count_retries-le :
    (s : Service) (k : String) (calls : List (World × String)) (db : Db)
    → count_retries s k calls db ≤ s.max_attempts - 1 - attempts_of db k
unfolding count_retries
count_retries-le s k [] db = omega arith
count_retries-le s k ((w, id) ∷ calls) db =
    let rest = count_retries-le s k calls (handle s w id db).db in
    let kept = kept-attempts_of s w id k db in
    elim (Bool-cases (id == k)) [
      | inr other ↦ rw other (omega arith)
      | inl same ↦ elim (Bool-cases (is_retry (handle s w id db))) [
        | inr final ↦ rw (same, final) (omega arith)
        | inl again ↦
            let (more, below) = handle-retry s w id db again in
            let e = (str_eq_iff id k).0 same in
            rw (same, again)
              (omega (arith, ap (attempts_of db) e, ap (attempts_of (handle s w id db).db) e))
      ]
    ]
