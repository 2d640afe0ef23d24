-- ===== src/Outbox/Cycle.antt =====
-- What one cycle of the relay guarantees: of each message, and of its counts.
use payments_boilerplate.Base.{
  ℕ, ◌+◌, ◌≤◌, ◌≡◌, refl, sym, ◌∙◌, ◌⊎◌, inl, inr, true, String, List, [], ◌∷◌, Option, none, some,
  length, arith, Bool-cases, Result-cases,
}
use payments_boilerplate.Webhooks.{MessageStatus}
use payments_boilerplate.Outbox.Store.{
  Error, is_permanent, Row, Db, Lease, claimed, works, refused, lost, Fault,
}
use payments_boilerplate.Outbox.Relay.{
  Service, Meets, World, Counts, Outcome, outcome_published, outcome_retrying, outcome_failed,
  outcome_lease_lost, count, relay, run_once, publish_one, none_yet, claim_batch,
}
use payments_boilerplate.Outbox.Fenced.{lease_batch-Claims}
use payments_boilerplate.Outbox.Confirmed.{Justified, In, relay-Traced}

-- The outcomes that a cycle counts.
abbrev pub settled_count : Counts → ℕ
settled_count c = c.published + c.retrying + c.failed + c.leases_lost

count-settled_count : (o : Outcome) (c : Counts) → settled_count (count o c) ≡ settled_count c + 1
count-settled_count outcome_published c = omega arith
count-settled_count outcome_retrying c = omega arith
count-settled_count outcome_failed c = omega arith
count-settled_count outcome_lease_lost c = omega arith

count-leased : (o : Outcome) (c : Counts) → (count o c).leased ≡ c.leased
count-leased outcome_published c = refl
count-leased outcome_retrying c = refl
count-leased outcome_failed c = refl
count-leased outcome_lease_lost c = refl

-- The loop counts every lease that it settles, once.
relay_counts :
    (s : Service) (w : World) (ls : List Lease) (c : Counts) (db : Db)
    → settled_count c + length ls ≤ c.leased
    → let r = relay s w ls c db in
      (settled_count r.counts ≤ r.counts.leased) × (r.counts.leased ≡ c.leased)
unfolding relay
relay_counts s w [] c db h = (omega arith, refl)
relay_counts s w (l ∷ ls) c db h = elim (Bool-cases (w.ended l)) [
  | inl stops ↦ rw (relay, stops) (omega arith, refl)
  | inr goes ↦ elim (Result-cases (publish_one s l (w.meets l) db).outcome) [
    | inl ((o, cause), fine) ↦
        let (within, same) =
          relay_counts s w ls (count o c) (publish_one s l (w.meets l) db).db
            (omega (arith, h, count-settled_count o c, count-leased o c)) in
        rw (relay, goes, fine) (within, omega (arith, same, count-leased o c))
    | inr (e, fails) ↦ rw (relay, goes, fails) (omega arith, refl)
  ]
]

Fault-cases : (f : Fault) → (f ≡ works) ⊎ ((e : Error) × ((f ≡ refused e) ⊎ (f ≡ lost e)))
Fault-cases works = inl refl
Fault-cases (refused e) = inr (e, inl refl)
Fault-cases (lost e) = inr (e, inr refl)

-- However a cycle goes, the outcomes that it counts are no more than the leases that it claimed.
pub run_once-counts :
    (s : Service) (w : World) (db : Db)
    → let c = (run_once s w db).counts in settled_count c ≤ c.leased
unfolding run_once
run_once-counts s w db =
    let (claimed, leases) = claim_batch s w db in
    elim (Fault-cases w.lease_fault) [
      | inl fine ↦
          rw (run_once, fine)
            ((relay_counts s w leases (none_yet (length leases)) claimed (omega arith)).0)
      | inr (e, inl refusal) ↦ rw (run_once, refusal) (omega arith)
      | inr (e, inr loss) ↦ rw (run_once, loss) (omega arith)
    ]

-- What a cycle leaves of a row: the row itself, the row claimed, or its message's last settlement.
abbrev Left : Service → World → Db → Db → String → Type 0
Left s w db db' key =
    (db'.rows key ≡ db.rows key)
    ⊎ ((r : Row) × (db'.rows key
          ≡ some (claimed s.owner (w.lease_now + s.config.lease_duration) r)))
    ⊎ ((l : Lease) × (r : Row) × (change : Row → Row) × In l (claim_batch s w db).1
        × (key ≡ l.message.id)
        × Justified (w.meets l) change
        × (db'.rows key ≡ some (change r)))

claim_batch-Left :
    (s : Service) (w : World) (db : Db) (key : String) → Left s w db (claim_batch s w db).0 key
claim_batch-Left s w db key =
    elim (lease_batch-Claims db s.owner s.config.batch_size s.config.lease_duration w.lease_now
      w.skipped key) [ inl same ↦ inl same | inr (r, _, _, claimed) ↦ inr (inl (r, claimed)) ]

run_once-Left :
    (s : Service) (w : World) (db : Db) (key : String) → Left s w db (run_once s w db).db key
unfolding run_once
run_once-Left s w db key =
    let (claimed, leases) = claim_batch s w db in
    elim (Fault-cases w.lease_fault) [
      | inl fine ↦ elim (relay-Traced s w leases (none_yet (length leases)) claimed key) [
        | inl same ↦ rw (run_once, fine, same) (claim_batch-Left s w db key)
        | inr last ↦ rw (run_once, fine) (inr (inr last))
      ]
      | inr (e, inl refusal) ↦ rw (run_once, refusal) (inl refl)
      | inr (e, inr loss) ↦ rw (run_once, loss) (claim_batch-Left s w db key)
    ]

Justified-confirmed :
    (m : Meets) (change : Row → Row) (r : Row)
    → Justified m change
    → (change r).status ≡ MessageStatus.published
    → m.publish ≡ none
Justified-confirmed m change r (Justified.confirmed confirm quiet) h = confirm
Justified-confirmed m change r (Justified.given_up refusal for_good) h = ground arith
Justified-confirmed m change r (Justified.put_back refusal for_now) h = ground arith

Justified-permanent :
    (m : Meets) (change : Row → Row) (r : Row)
    → Justified m change
    → (change r).status ≡ MessageStatus.failed
    → (e : Error) × (m.publish ≡ some e) × (is_permanent e ≡ true)
Justified-permanent m change r (Justified.confirmed confirm quiet) h = ground arith
Justified-permanent m change r (Justified.given_up {e} refusal for_good) h = (e, refusal, for_good)
Justified-permanent m change r (Justified.put_back refusal for_now) h = ground arith

-- Two readings of one row have one status.
same_status : (o : Option Row) (a b : Row) → o ≡ some a → o ≡ some b → a.status ≡ b.status
same_status none a b h k = ground arith
same_status (some x) a b h k = cc

-- A message that a cycle leaves published was published before it, or this cycle leased it and
-- the broker confirmed it.
pub run_once-confirmed :
    (s : Service) (w : World) (db : Db) (key : String) (r : Row)
    → (run_once s w db).db.rows key ≡ some r
    → r.status ≡ MessageStatus.published
    → (db.rows key ≡ some r)
      ⊎ ((l : Lease) × In l (claim_batch s w db).1
          × (key ≡ l.message.id)
          × ((w.meets l).publish ≡ none))
run_once-confirmed s w db key r there h = elim (run_once-Left s w db key) [
  | inl same ↦ inl (rw (sym same) there)
  | inr (inl (r', held)) ↦ absurd (cc (same_status _ _ r held there, h))
  | inr (inr (l, r', change, leased, is_id, grounds, written)) ↦ inr (
    l,
    leased,
    is_id,
    Justified-confirmed (w.meets l) change r' grounds
        (same_status _ (change r') r written there ∙ h),
  )
]

-- A message that a cycle leaves failed was failed before it, or this cycle leased it and its
-- publication ended in an error that is classified as permanent: no other error ever abandons a message.
pub run_once-abandoned :
    (s : Service) (w : World) (db : Db) (key : String) (r : Row)
    → (run_once s w db).db.rows key ≡ some r
    → r.status ≡ MessageStatus.failed
    → (db.rows key ≡ some r)
      ⊎ ((l : Lease) × In l (claim_batch s w db).1
          × (key ≡ l.message.id)
          × ((e : Error) × ((w.meets l).publish ≡ some e) × (is_permanent e ≡ true)))
run_once-abandoned s w db key r there h = elim (run_once-Left s w db key) [
  | inl same ↦ inl (rw (sym same) there)
  | inr (inl (r', held)) ↦ absurd (cc (same_status _ _ r held there, h))
  | inr (inr (l, r', change, leased, is_id, grounds, written)) ↦ inr (
    l,
    leased,
    is_id,
    Justified-permanent (w.meets l) change r' grounds
        (same_status _ (change r') r written there ∙ h),
  )
]
