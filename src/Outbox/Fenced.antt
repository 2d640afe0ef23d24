-- ===== src/Outbox/Fenced.antt =====
-- The lease as a fence: who may change a row of the outbox, and when.
use payments_boilerplate.Base.{
  ℕ, ◌+◌, ◌≡◌, ◌<◌, refl, ◌⊎◌, inl, inr, Bool, true, false, String, List, [], ◌∷◌, Option, none,
  some, zero, suc, leb, ◌==◌, take, All, arith, Bool-cases, str_eq_iff,
}
use payments_boilerplate.Consumer.Store.{Table}
use payments_boilerplate.Outbox.Store.{
  Row, Db, is_due, Picked, insert_by_time, consider, due_rows, claimed, claim, lease_batch,
}

-- A claim leaves a row as it is, or claims a row that was there and due.
abbrev pub Claims : Table Row → ℕ → String → ℕ → Table Row → String → Type 0
Claims rows now owner deadline rows' key =
    (rows' key ≡ rows key)
    ⊎ ((r : Row) × (rows key ≡ some r)
        × (is_due now r ≡ true)
        × (rows' key ≡ some (claimed owner deadline r)))

-- What is picked is in the table and due.
abbrev Genuine : Table Row → ℕ → Picked → Type 0
Genuine rows now = All (λ (x : String × Row). (rows x.0 ≡ some x.1) × (is_due now x.1 ≡ true))

module _ (rows : Table Row) (now : ℕ) where
  insert_by_time-Genuine :
      (x : String × Row) (xs : Picked)
      → (rows x.0 ≡ some x.1) × (is_due now x.1 ≡ true)
      → Genuine rows now xs
      → Genuine rows now (insert_by_time x xs)
  unfolding insert_by_time
  insert_by_time-Genuine x [] h hs = (h, hs)
  insert_by_time-Genuine x (y ∷ ys) h (first, rest) =
      elim (Bool-cases (leb x.1.next_attempt_at y.1.next_attempt_at)) [
        | inl before ↦ rw before (h, (first, rest))
        | inr after ↦ rw after (first, insert_by_time-Genuine x ys h rest)
      ]

  consider-Genuine :
      (skipped : String → Bool) (id : String) (o : Option Row) (rest : Picked)
      → rows id ≡ o
      → Genuine rows now rest
      → Genuine rows now (consider now skipped id o rest)
  consider-Genuine skipped id none rest h hs = hs
  consider-Genuine skipped id (some r) rest h hs = elim (Bool-cases (is_due now r)) [
    | inl due ↦ elim (Bool-cases (skipped id)) [
      | inl over ↦ rw (due, over) hs
      | inr free ↦ rw (due, free) (insert_by_time-Genuine (id, r) rest (h, due) hs)
    ]
    | inr early ↦ rw early hs
  ]

  due_rows-Genuine :
      (ids : List String) (skipped : String → Bool)
      → Genuine rows now (due_rows rows ids now skipped)
  unfolding due_rows
  due_rows-Genuine [] skipped = tt
  due_rows-Genuine (id ∷ ids) skipped =
      consider-Genuine skipped id (rows id) _ refl (due_rows-Genuine ids skipped)

  take-Genuine : (n : ℕ) (xs : Picked) → Genuine rows now xs → Genuine rows now (take n xs)
  take-Genuine zero xs h = tt
  take-Genuine (suc n) [] h = tt
  take-Genuine (suc n) (x ∷ xs) (first, rest) = (first, take-Genuine n xs rest)

  claim-Claims :
      (owner : String) (deadline : ℕ) (picked : Picked) (key : String)
      → Genuine rows now picked
      → Claims rows now owner deadline (claim owner deadline picked rows) key
  unfolding claim
  claim-Claims owner deadline [] key h = inl refl
  claim-Claims owner deadline ((id, r) ∷ rest) key ((there, due), hs) =
      elim (Bool-cases (key == id)) [
        | inl same ↦ rw same (inr (r, rw ((str_eq_iff key id).0 same) there, due, refl))
        | inr other ↦ rw other (claim-Claims owner deadline rest key hs)
      ]

-- A claim of a batch touches due rows alone.
pub lease_batch-Claims :
    (db : Db) (owner : String) (n duration now : ℕ) (skipped : String → Bool) (key : String)
    → Claims db.rows now owner
        (now + duration)
        (lease_batch db owner n duration now skipped).0.rows
        key
unfolding lease_batch
lease_batch-Claims db owner n duration now skipped key =
    claim-Claims db.rows now owner (now + duration) _ key
      (take-Genuine db.rows now n _ (due_rows-Genuine db.rows now db.ids skipped))

-- A relay never claims a row that is not due, so neither a settled message nor one whose lease still
-- runs, whoever holds it: the row is as it was.
pub lease_batch-fenced :
    (db : Db) (owner : String) (n duration now : ℕ) (skipped : String → Bool) (key : String)
    (r : Row)
    → db.rows key ≡ some r
    → is_due now r ≡ false
    → (lease_batch db owner n duration now skipped).0.rows key ≡ some r
lease_batch-fenced db owner n duration now skipped key r there early =
    elim (lease_batch-Claims db owner n duration now skipped key) [
      | inl same ↦ rw same there
      | inr (r', there', due, _) ↦ absurd (cc)
    ]

claimed_not_due :
    (owner : String) (deadline now : ℕ) (r : Row)
    → now < deadline
    → is_due now (claimed owner deadline r) ≡ false
unfolding is_due
claimed_not_due owner deadline now r h = ground arith

-- Two relays never hold one message at a time: a row that one has claimed is not touched by any other
-- claim before the deadline.
pub lease_batch-exclusive :
    (db : Db) (owner other : String) (n duration deadline now : ℕ) (skipped : String → Bool)
    (key : String) (r : Row)
    → db.rows key ≡ some (claimed owner deadline r)
    → now < deadline
    → (lease_batch db other n duration now skipped).0.rows key ≡ some (claimed owner deadline r)
lease_batch-exclusive db owner other n duration deadline now skipped key r there h =
    lease_batch-fenced db other n duration now skipped key (claimed owner deadline r) there
      (claimed_not_due owner deadline now r h)
