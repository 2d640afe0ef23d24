-- ===== src/Ordering/Replayed.antt =====
-- An order that is asked for again with the same key.
use payments_boilerplate.Base.{
  ℕ, ◌≡◌, refl, sym, ap, ◌∙◌, ◌⊎◌, inl, inr, Bool, true, false, ◌&&◌, not, String, List, [], ◌∷◌,
  Option, none, some, ◌==◌, if◌then◌else◌, Bool-cases, Option-cases, str_eq_refl, Result,
  Result-cases, ok, err, map_error, map_error-ok, bind-ok, guard, trim_space,
}
use payments_boilerplate.Base.Int.{ℤ, eqb_ℤ}
use payments_boilerplate.Orders.{
  Product, Order, validate_product, validate_product_id, validate_quantity,
  validate_idempotency_key, multiply, missing_id,
}
use payments_boilerplate.Orders as Domain
use payments_boilerplate.Receiver.Inbox.{Cause, Commit, committed, refused, lost}
use payments_boilerplate.Checkout.Tables.{any, find}
use payments_boilerplate.Checkout.Rows.{find-append, find-clashless}
use payments_boilerplate.Ordering.Models.{
  Row, from_domain, to_domain, in_columns, at_column_times, order_row_kept,
}
use payments_boilerplate.Ordering.Service.{
  Error, idempotency_key_conflict, CreateInput, World, has_key, has_id, stored, existing,
  create_or_get, validate, build, answer, create,
}

ok_kept :
    (new o : Order)
    → Path (Result Domain.Error Order) (ok new) (ok o)
    → (o.idempotency_key ≡ new.idempotency_key) × (o.quantity ≡ new.quantity)
ok_kept new o h = let same : new ≡ o = cc (h) in rw (sym same) (refl, refl)

-- What `New` puts in an order.
new_fields :
    (id : String) (p : Product) (quantity : ℤ) (key : String) (now : ℕ) (o : Order)
    → Domain.new id p quantity key now ≡ ok o
    → (o.idempotency_key ≡ key) × (o.quantity ≡ quantity) × (validate_quantity quantity ≡ ok tt)
unfolding Domain.new
new_fields id p quantity key now o h =
    let (_, _, h1) = bind-ok (guard (not (trim_space id == "")) missing_id) _ o h in
    let (_, _, h2) = bind-ok (validate_product p) _ o h1 in
    let (u, valid, h3) = bind-ok (validate_quantity quantity) _ o h2 in
    let (_, _, h4) = bind-ok (validate_idempotency_key key) _ o h3 in
    let (amount, _, h5) = bind-ok (multiply p.unit_amount quantity) _ o h4 in
    let (kept_key, kept_quantity) = ok_kept _ o h5 in (kept_key, kept_quantity, valid)

build_fields :
    (w : World) (input : CreateInput) (o : Order)
    → build w input ≡ ok o
    → (o.idempotency_key ≡ input.idempotency_key) × (validate_quantity o.quantity ≡ ok tt)
unfolding build
build_fields w input o h =
    let (_, _, h1) = bind-ok (map_error Error.invalid (validate input)) _ o h in
    let (p, _, h2) = bind-ok (map_error Error.not_resolved (w.catalog input.product_id)) _ o h1 in
    let (id, _, h3) = bind-ok (map_error Error.no_identifier w.new_id) _ o h2 in
    let (key, quantity, valid) =
      new_fields id p input.quantity input.idempotency_key w.now o
        (map_error-ok Error.invalid _ o h3) in
    (key, rw quantity valid)

-- The row of a key.
pub Keeps : List Row → String → Order → Type 0
Keeps rows key o = (r : Row) × (find (has_key key) rows ≡ some r) × (to_domain r ≡ o)

-- An order that was answered, as its row has it: as it is, or with the times that the columns keep.
abbrev pub IsKept : (ℕ → ℕ) → Order → Order → Type 0
IsKept column o kept = (kept ≡ o) ⊎ (kept ≡ at_column_times column o)

-- The row of a key, for an order that was answered.
abbrev pub Kept : (ℕ → ℕ) → List Row → String → Order → Type 0
Kept column rows key o = (kept : Order) × IsKept column o kept × Keeps rows key kept

any-find : (p : Row → Bool) (rows : List Row) (r : Row) → find p rows ≡ some r → any p rows ≡ true
any-find p [] r h = absurd (cc h)
any-find p (q ∷ rows) r h = elim (Bool-cases (p q)) [
  | inl here ↦ rw here refl
  | inr other ↦ rw other (any-find p rows r (rw other at h))
]

existing-Keeps :
    (fault : Option Cause) (rows : List Row) (key : String) (o : Order) (created : Bool)
    → existing fault (find (has_key key) rows) ≡ ok (o, created)
    → Keeps rows key o
unfolding Keeps
existing-Keeps fault rows key o created h = elim (Option-cases fault) [
  | inr (e, fails) ↦ absurd (cc (rw fails at h))
  | inl up ↦ elim (Option-cases (find (has_key key) rows)) [
    | inl missing ↦ absurd (cc (rw (up, missing) at h))
    | inr (r, there) ↦ (r, there, cc (rw (up, there) at h))
  ]
]

stored-Keeps :
    (column : ℕ → ℕ) (k : Commit) (rows : List Row) (new o : Order) (created : Bool)
    → any (has_key new.idempotency_key) rows ≡ false
    → validate_quantity new.quantity ≡ ok tt
    → (stored column k rows new).0 ≡ ok (o, created)
    → Kept column (stored column k rows new).1 new.idempotency_key o
unfolding Keeps
stored-Keeps column committed rows new o created free valid h =
    let key = new.idempotency_key in
    let missing = find-clashless (has_key key) (has_key key) rows (λ r apart. apart) free in
    let row = in_columns column (from_domain new) in
    let is_o : new ≡ o = cc (h) in
    (
      at_column_times column new,
      inr (ap (at_column_times column) is_o),
      (
        row,
        find-append (has_key key) rows row missing (str_eq_refl key),
        order_row_kept column new valid,
      ),
    )
stored-Keeps column (refused e) rows new o created free valid h = absurd (cc h)
stored-Keeps column (lost e) rows new o created free valid h = absurd (cc h)

create_or_get-Keeps :
    (w : World) (rows : List Row) (new o : Order) (created : Bool)
    → validate_quantity new.quantity ≡ ok tt
    → (create_or_get w rows new).0 ≡ ok (o, created)
    → Kept w.column (create_or_get w rows new).1 new.idempotency_key o
unfolding create_or_get
create_or_get-Keeps w rows new o created valid h =
    elim (Bool-cases (any (has_key new.idempotency_key) rows)) [
      | inl known ↦
          rw (create_or_get, known)
            (
              o,
              inl refl,
              existing-Keeps w.find (w.others rows) new.idempotency_key o created
                  (rw (create_or_get, known) at h),
            )
      | inr free ↦ elim (Bool-cases (any (has_id new.id) rows)) [
        | inl taken ↦ absurd (cc (rw (create_or_get, free, taken) at h))
        | inr fresh ↦
            rw (create_or_get, free, fresh)
              (stored-Keeps w.column w.insert rows new o created free valid
                (rw (create_or_get, free, fresh) at h))
      ]
    ]

-- The same product and quantity.
abbrev pub asks_for : CreateInput → Order → Bool
asks_for input o = (o.product_id == input.product_id) && eqb_ℤ o.quantity input.quantity

answer-replay :
    (input : CreateInput) (o : Order)
    → answer input (ok (o, false))
      ≡ (if asks_for input o then ok o else err idempotency_key_conflict)
answer-replay input o = elim (Bool-cases (o.product_id == input.product_id)) [
  | inr other ↦ rw other refl
  | inl same ↦ elim (Bool-cases (eqb_ℤ o.quantity input.quantity)) [
    | inr more ↦ rw (same, more) refl
    | inl equal ↦ rw (same, equal) refl
  ]
]

pub answer-ok :
    (input : CreateInput) (r : Result Cause (Order × Bool)) (o : Order)
    → answer input r ≡ ok o
    → (created : Bool) × (r ≡ ok (o, created))
answer-ok input (err e) o h = absurd (cc h)
answer-ok input (ok (p, true)) o h = (true, cc (h))
answer-ok input (ok (p, false)) o h = elim (Bool-cases (asks_for input p)) [
  | inl wanted ↦ (false, cc (rw wanted at (sym (answer-replay input p) ∙ h)))
  | inr other ↦ absurd (cc (rw other at (sym (answer-replay input p) ∙ h)))
]

pub create-Keeps :
    (w : World) (input : CreateInput) (rows : List Row) (o : Order)
    → (create w input rows).0 ≡ ok o
    → Kept w.column (create w input rows).1 input.idempotency_key o
unfolding create
create-Keeps w input rows o h = elim (Result-cases (build w input)) [
  | inr (e, fails) ↦ absurd (cc (rw (create, fails) at h))
  | inl (new, built) ↦
      let (key, valid) = build_fields w input new built in
      let (created, made) =
        answer-ok input (create_or_get w rows new).0 o (rw (create, built) at h) in
      rw (create, built, sym key) (create_or_get-Keeps w rows new o created valid made)
]

create-known :
    (w : World) (input : CreateInput) (rows : List Row) (new o : Order) (r : Row)
    → build w input ≡ ok new
    → find (has_key new.idempotency_key) rows ≡ some r
    → find (has_key new.idempotency_key) (w.others rows) ≡ some r
    → w.find ≡ none
    → to_domain r ≡ o
    → create w input rows
      ≡ (if asks_for input o then ok o else err idempotency_key_conflict, w.others rows)
unfolding create create_or_get
create-known w input rows new o r built there still up is_o =
    let known = any-find (has_key new.idempotency_key) rows r there in
    rw (sym is_o) (
      rw (create, built, create_or_get, known, up, still)
        (ap (λ (z : Result Error Order). (z, w.others rows)) (answer-replay input (to_domain r))))

same_request :
    (column : ℕ → ℕ) (input : CreateInput) (o kept : Order)
    → IsKept column o kept
    → asks_for input kept ≡ asks_for input o
same_request column input o kept (inl same) = rw same refl
same_request column input o kept (inr same) = rw same refl

-- An order is created once for a key: after a request that was answered with an order, a second one
-- with its key for which an order can be built, at any time and prices, is answered with that order if it
-- is for the same product and quantity, and is a conflict if it is not; it writes nothing, if the database
-- answers and no other transaction touches the row. The second answer has the times of the first, or what
-- the columns keep of them, and is otherwise the same.
pub create_again :
    (w w' : World) (first second : CreateInput) (rows : List Row) (o new : Order)
    → (create w first rows).0 ≡ ok o
    → second.idempotency_key ≡ first.idempotency_key
    → build w' second ≡ ok new
    → w'.find ≡ none
    → let rows' = (create w first rows).1 in
      (find (has_key first.idempotency_key) (w'.others rows')
        ≡ find (has_key first.idempotency_key) rows')
      → (kept : Order) × IsKept w.column o kept
        × (create w' second rows' ≡ (
          if asks_for second o then ok kept else err idempotency_key_conflict,
          w'.others rows',
        ))
unfolding Keeps
create_again w w' first second rows o new h same built up kept =
    let (kept_order, same_order, (r, there, is_o)) = create-Keeps w first rows o h in
    let (key, _) = build_fields w' second new built in
    (
      kept_order,
      same_order,
      rw (sym (same_request w.column second o kept_order same_order)) (
          create-known w' second (create w first rows).1 new kept_order r built
            (rw (key, same) there) (rw (key, same) (kept ∙ there)) up is_o),
    )
