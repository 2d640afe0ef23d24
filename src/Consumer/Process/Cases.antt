-- ===== src/Consumer/Process/Cases.antt =====
-- The ways in which `Process` ends, as one rule that every proof about it uses.
use payments_boilerplate.Base.{
  ◌≡◌, refl, inl, inr, Bool, true, false, String, Result, ok, err, Result-cases, Option-cases,
  Bool-cases,
}
use payments_boilerplate.Consumer.Ports.{Error, Aggregate, InboxEntry, Reference, Effect, Applied}
use payments_boilerplate.Consumer.Store.{Db, is_processed}
use payments_boilerplate.Consumer.Process.{
  Faults, lock_entry, lock_aggregate, write, finish, decided, resolved, locked, process,
  already_processed,
}

abbrev pub Resolver : Type 0 → Type 0
Resolver C = InboxEntry → C → Result Error Reference × C

abbrev pub Decider : Type 0 → Type 0
Decider C = InboxEntry → Aggregate → C → Result Error Effect × C

-- A transaction that reached its commit: what it read, what the callbacks answered, what it wrote.
pub record Reached {C : Type 0} (f : Faults) (id : String) (resolve : Resolver C)
    (decide : Decider C) (c : C) (db : Db) : Type 0 where
  pub entry : InboxEntry
  pub reference : Reference
  pub aggregate : Aggregate
  pub effect : Effect
  pub middle : C
  pub last : C
  pub written : Db
  pub moved : Bool
  pub entry_locked : lock_entry f db id ≡ ok entry
  pub unprocessed : is_processed entry.status ≡ false
  pub entry_resolved : resolve entry c ≡ (ok reference, middle)
  pub aggregate_locked : lock_aggregate f db reference ≡ ok aggregate
  pub effect_decided : decide entry aggregate middle ≡ (ok effect, last)
  pub effect_written : write f id aggregate effect db ≡ ok (written, moved)

module _ {C : Type 0} (f : Faults) (id : String) (resolve : Resolver C) (decide : Decider C) (c : C)
    (db : Db) where
  abbrev ended : Reached f id resolve decide c db → Result Error Applied × C × Db
  ended r = finish f.commit (record { applied = r.moved; note = r.effect.note }) r.last db r.written

  module _ {ℓ} (P : Result Error Applied × C × Db → Type ℓ)
      (failed : (e : Error) (c' : C) → P (err e, c', db))
      (closed : (entry : InboxEntry)
        → lock_entry f db id ≡ ok entry
        → is_processed entry.status ≡ true
        → P (ok already_processed, c, db))
      (reached : (r : Reached f id resolve decide c db) → P (ended r)) where
    decided_cases :
        (entry : InboxEntry) (ref : Reference) (a : Aggregate) (c₁ : C)
        (d : Result Error Effect × C)
        → lock_entry f db id ≡ ok entry
        → is_processed entry.status ≡ false
        → resolve entry c ≡ (ok ref, c₁)
        → lock_aggregate f db ref ≡ ok a
        → decide entry a c₁ ≡ d
        → P (decided f id a db d)
    unfolding decided
    decided_cases entry ref a c₁ (err e, c₂) h₁ h₂ h₃ h₄ h₅ = failed e c₂
    decided_cases entry ref a c₁ (ok effect, c₂) h₁ h₂ h₃ h₄ h₅ =
        elim (Result-cases (write f id a effect db)) [
          | inl ((db', b), w) ↦
              rw (w, decided)
                (reached (record {
                  entry = entry;
                  reference = ref;
                  aggregate = a;
                  effect = effect;
                  middle = c₁;
                  last = c₂;
                  written = db';
                  moved = b;
                  entry_locked = h₁;
                  unprocessed = h₂;
                  entry_resolved = h₃;
                  aggregate_locked = h₄;
                  effect_decided = h₅;
                  effect_written = w;
                }))
          | inr (e, w) ↦ rw (w, decided) (failed e c₂)
        ]

    resolved_cases :
        (entry : InboxEntry) (r : Result Error Reference × C)
        → lock_entry f db id ≡ ok entry
        → is_processed entry.status ≡ false
        → resolve entry c ≡ r
        → P (resolved f id (decide entry) db r)
    unfolding resolved
    resolved_cases entry (err e, c₁) h₁ h₂ h₃ = failed e c₁
    resolved_cases entry (ok ref, c₁) h₁ h₂ h₃ = elim (Result-cases (lock_aggregate f db ref)) [
      | inl (a, l) ↦
          rw (l, resolved) (decided_cases entry ref a c₁ (decide entry a c₁) h₁ h₂ h₃ l refl)
      | inr (e, l) ↦ rw (l, resolved) (failed e c₁)
    ]

    locked_cases :
        (l : Result Error InboxEntry)
        → lock_entry f db id ≡ l
        → P (locked f id resolve decide c db l)
    unfolding locked
    locked_cases (err e) h = failed e c
    locked_cases (ok entry) h = elim (Bool-cases (is_processed entry.status)) [
      | inl yet ↦ rw yet (closed entry h yet)
      | inr not_yet ↦ rw not_yet (resolved_cases entry (resolve entry c) h not_yet refl)
    ]

    -- A run of `Process` fails and rolls back, finds the entry closed, or reaches its commit.
    pub process_cases : P (process f id resolve decide c db)
    unfolding process
    process_cases = elim (Option-cases f.begin) [
      | inl begun ↦ rw (begun, process) (locked_cases (lock_entry f db id) refl)
      | inr (e, stuck) ↦ rw (stuck, process) (failed e c)
    ]
