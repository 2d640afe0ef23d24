-- ===== src/Ordering/Service.antt =====
-- internal/application/orders/service.go over internal/adapters/postgres/repositories/orders.go. The
-- generator of identifiers, the clock and every fault of the database are arguments; so is the
-- catalogue, which may change from call to call. The observer is left out.
use payments_boilerplate.Base.{
  ℕ, Bool, true, false, ◌&&◌, ◌||◌, not, String, List, [], ◌∷◌, ◌++◌, Option, none, some, ◌==◌,
  if◌then◌else◌, Result, ok, err, ◌>>=◌, ◌>>◌, map_error,
}
use payments_boilerplate.Base.Int.{ℤ, eqb_ℤ}
use payments_boilerplate.Ids.{validate_id}
use payments_boilerplate.Orders.{
  Product, Order, validate_product_id, validate_quantity, validate_idempotency_key,
}
use payments_boilerplate.Orders as Domain
use payments_boilerplate.Receiver.Inbox.{Cause, Commit, committed, refused, lost, unique_violation}
use payments_boilerplate.Ordering.Models.{Row, in_columns, from_domain, to_domain}
use payments_boilerplate.Checkout.Tables.{any, find}

-- Why a catalogue has no product to give.
pub data Unresolved : Type 0 where
  product_not_found : Unresolved
  catalog_failed : Cause → Unresolved

pub data Error : Type 0 where
  invalid : Domain.Error → Error
  idempotency_key_conflict order_not_found : Error
  not_resolved : Unresolved → Error
  no_identifier not_persisted not_read : Cause → Error

pub record CreateInput : Type 0 where
  pub product_id : String
  pub quantity : ℤ
  pub idempotency_key : String

-- What one call meets; `others` is what other transactions write between two statements, and `column`
-- what a column keeps of a time.
pub record World : Type 0 where
  pub catalog : String → Result Unresolved Product
  pub new_id : Result Cause String
  pub now : ℕ
  pub column : ℕ → ℕ
  pub insert : Commit
  pub find : Option Cause
  pub others : List Row → List Row

abbrev pub has_key : String → Row → Bool
has_key key r = r.idempotency_key == key

abbrev pub has_id : String → Row → Bool
has_id id r = r.id == id

-- One statement, which is its own transaction. The row has the times that its columns keep; the answer is
-- the order as it was made.
abbrev pub stored : (ℕ → ℕ) → Commit → List Row → Order → Result Cause (Order × Bool) × List Row
stored column committed rows o = (ok (o, true), rows ++ (in_columns column (from_domain o) ∷ []))
stored column (refused e) rows o = (err e, rows)
stored column (lost e) rows o = (err e, rows ++ (in_columns column (from_domain o) ∷ []))

abbrev pub existing : Option Cause → Option Row → Result Cause (Order × Bool)
existing (some e) r = err e
existing none none = err "record not found"
existing none (some r) = ok (to_domain r, false)

-- `CreateOrGet`.
unfoldable pub create_or_get : World → List Row → Order → Result Cause (Order × Bool) × List Row
create_or_get w rows o =
    if any (has_key o.idempotency_key) rows
    then (existing w.find (find (has_key o.idempotency_key) (w.others rows)), w.others rows)
    else (if any (has_id o.id) rows
        then (err unique_violation, rows)
        else stored w.column w.insert rows o)

-- `CreateInput.Validate`.
unfoldable pub validate : CreateInput → Result Domain.Error (Unit {0})
validate input = do
  validate_product_id input.product_id
  validate_quantity input.quantity
  validate_idempotency_key input.idempotency_key

-- The order that is persisted unless its key is known.
unfoldable pub build : World → CreateInput → Result Error Order
unfolding validate
build w input = do
  map_error invalid (validate input)
  product ← map_error not_resolved (w.catalog input.product_id)
  id ← map_error no_identifier w.new_id
  map_error invalid (Domain.new id product input.quantity input.idempotency_key w.now)

-- A known key is a replay only of the same request.
abbrev pub answer : CreateInput → Result Cause (Order × Bool) → Result Error Order
answer input (err e) = err (not_persisted e)
answer input (ok (o, created)) =
    if not created
      && (not (o.product_id == input.product_id) || not (eqb_ℤ o.quantity input.quantity))
    then err idempotency_key_conflict
    else ok o

-- `Create`: the answer, and the rows after it.
unfoldable pub create : World → CreateInput → List Row → Result Error Order × List Row
unfolding build create_or_get
create w input rows = elim (build w input) [
  | err e ↦ (err e, rows)
  | ok o ↦ let r = create_or_get w rows o in (answer input r.0, r.1)
]

abbrev found : Option Cause → Option Row → Result Error Order
found (some e) r = err (not_read e)
found none none = err order_not_found
found none (some r) = ok (to_domain r)

-- `Get`.
unfoldable pub get : Option Cause → String → List Row → Result Error Order
get fault id rows = do
  map_error (λ e. order_not_found) (validate_id "ord_" id)
  found fault (find (has_id id) rows)
