-- ===== src/Consumer/Redelivery.antt =====
-- A redelivered message: the effect of an event is applied once.
use payments_boilerplate.Consumer.Safety.{run_of}
use payments_boilerplate.Base.{
  ℕ, ◌≡◌, ◌≢◌, refl, inl, inr, Bool, false, String, none, Result, ok, err, Option-cases, arith,
}
use payments_boilerplate.Consumer.Ports.{Error, Applied}
use payments_boilerplate.Consumer.Store.{Db}
use payments_boilerplate.Consumer.Process.{already_processed, record_failure}
use payments_boilerplate.Consumer.Process.Atomic.{IsClosed, process-IsClosed, process_closed}
use payments_boilerplate.Consumer.Deciding.{
  Captured, captured_none, resolve_entry, decide_entry, is_terminal,
}
use payments_boilerplate.Consumer.Service.{
  done, Handling, Service, World, classified, classify, processed_answer, handle,
}

classified_not_done :
    (id : String) (e : Error) (r : Result Error (ℕ × Bool) × Db) (h : Handling)
    → (classified id e r).handling ≡ ok h
    → h.disposition ≢ done
unfolding classified
classified_not_done id e (err x, db) h p d = ground arith
classified_not_done id e (ok (n, b), db) h p d = ground arith

answer-IsClosed :
    (s : Service) (w : World) (id : String) (t : Result Error Applied × Captured × Db)
    (h : Handling)
    → ((r : Applied) → t.0 ≡ ok r → IsClosed t.2 id)
    → (processed_answer s w id t).handling ≡ ok h
    → h.disposition ≡ done
    → IsClosed (processed_answer s w id t).db id
unfolding processed_answer classify
answer-IsClosed s w id (err e, c, db) h closes p d = absurd (
    classified_not_done id e (record_failure w.recording db id e (is_terminal e) s.max_attempts) h p
      d)
answer-IsClosed s w id (ok r, c, db) h closes p d = elim (Option-cases (s.after_commit id r)) [
  | inl quiet ↦ rw (quiet, processed_answer) (closes r refl)
  | inr (e, stops) ↦ rw (stops, processed_answer) (closes r refl)
]

pub handle-IsClosed :
    (s : Service) (w : World) (id : String) (db : Db) (h : Handling)
    → (handle s w id db).handling ≡ ok h
    → h.disposition ≡ done
    → IsClosed (handle s w id db).db id
unfolding handle
handle-IsClosed s w id db h = answer-IsClosed s w id (run_of s w id db) h (
    process-IsClosed w.faults id (resolve_entry s.interpreter) (decide_entry s.interpreter)
      captured_none db)

-- What a closed entry is answered with.
abbrev pub nothing_to_do : Handling
nothing_to_do = record {
  disposition = done;
  attempts = 0;
  cause = none;
  note = "event was already processed";
  applied = false;
}

handle_closed :
    (s : Service) (w : World) (id : String) (db : Db)
    → IsClosed db id
    → w.faults.begin ≡ none
    → w.faults.lock_event ≡ none
    → s.after_commit id already_processed ≡ none
    → ((handle s w id db).handling ≡ ok nothing_to_do) × ((handle s w id db).db ≡ db)
unfolding handle processed_answer
handle_closed s w id db closed begun locks quiet =
    let e =
      process_closed w.faults id (resolve_entry s.interpreter) (decide_entry s.interpreter)
        captured_none db closed begun locks in
    (rw (e, processed_answer, quiet), rw (e, processed_answer, quiet))

-- A message that was acknowledged as done can come back: it is answered as done again, nothing is
-- applied and the database does not change. The second call needs a database that begins the
-- transaction and locks the entry, and no hook that stops it.
pub handle_once :
    (s : Service) (w w' : World) (id : String) (db : Db) (h : Handling)
    → (handle s w id db).handling ≡ ok h
    → h.disposition ≡ done
    → w'.faults.begin ≡ none
    → w'.faults.lock_event ≡ none
    → s.after_commit id already_processed ≡ none
    → let first = handle s w id db in
      let second = handle s w' id first.db in
      (second.handling ≡ ok nothing_to_do) × (second.db ≡ first.db)
handle_once s w w' id db h p d begun locks quiet =
    handle_closed s w' id _ (handle-IsClosed s w id db h p d) begun locks quiet
