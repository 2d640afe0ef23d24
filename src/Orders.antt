-- ===== src/Orders.antt =====
-- internal/domain/orders/order.go: products, orders and their validation.
pub mod Pricing
mod Tests
use Prim.Native.Char.{Char, code}
use Prim.Native.String.{len}
use payments_boilerplate.Base.{
  ℕ, ◌≡◌, refl, Bool, true, false, ◌&&◌, ◌||◌, not, String, ltb, leb, ◌==◌, if◌then◌else◌,
  trim_space, Result, ok, err, ◌>>=◌, ◌>>◌, guard,
}
use payments_boilerplate.Base.Int.{ℤ, pos, negsuc, is_positive, ltb_ℤ, max_int64, mul64, div64}

pub data Status : Type 0 where
  pending paid cancelled expired : Status

abbrev pub max_quantity : ℕ
max_quantity = 1000

abbrev pub max_idempotency_key_length : ℕ
max_idempotency_key_length = 255

abbrev pub max_product_id_length : ℕ
max_product_id_length = 128

-- The package's errors. `divide_by_zero` is the run-time panic of a division.
pub data Error : Type 0 where
  missing_id invalid_product_id invalid_quantity invalid_idempotency_key : Error
  invalid_product amount_overflow divide_by_zero : Error

is_upper : Char → Bool
is_upper c = leb b'A' (code c) && leb (code c) b'Z'

-- `Currency.Valid`: the pattern `^[A-Z]{3}$`.
unfoldable pub valid_currency : String → Bool
unfolding is_upper
valid_currency (String.◌∷◌ a (String.◌∷◌ b (String.◌∷◌ c String.[]))) =
    is_upper a && (is_upper b && is_upper c)
valid_currency _ = false

pub record Product : Type 0 where
  pub id : String
  pub name : String
  pub unit_amount : ℤ
  pub currency : String

-- Times are numbers of nanoseconds from the zero time.
pub record Order : Type 0 where
  pub id : String
  pub status : Status
  pub amount : ℤ
  pub currency : String
  pub product_id : String
  pub quantity : ℤ
  pub idempotency_key : String
  pub created_at : ℕ
  pub updated_at : ℕ

unfoldable pub valid_product_id : String → Bool
valid_product_id id =
    not (id == "") && (leb (len id) max_product_id_length && (trim_space id == id))

-- `Product.Validate`.
unfoldable pub validate_product : Product → Result Error (Unit {0})
validate_product p = do
  guard (valid_product_id p.id) invalid_product_id
  guard (is_positive p.unit_amount && valid_currency p.currency) invalid_product

unfoldable pub validate_product_id : String → Result Error (Unit {0})
validate_product_id id = guard (valid_product_id id) invalid_product_id

unfoldable pub validate_quantity : ℤ → Result Error (Unit {0})
validate_quantity quantity =
    guard (not (ltb_ℤ quantity (pos 1) || ltb_ℤ (pos max_quantity) quantity)) invalid_quantity

unfoldable pub validate_idempotency_key : String → Result Error (Unit {0})
validate_idempotency_key key =
    guard
      (not
        ((key == "") || (ltb max_idempotency_key_length (len key) || not (trim_space key == key))))
      invalid_idempotency_key

unfoldable pub multiply : ℤ → ℤ → Result Error ℤ
multiply unit_amount quantity = elim quantity [
  | pos n ↦
      if leb n 0
      then err divide_by_zero
      else (if ltb_ℤ (div64 max_int64 (pos n)) unit_amount
          then err amount_overflow
          else ok (mul64 unit_amount (pos n)))
  | negsuc n ↦
      if ltb_ℤ (div64 max_int64 (negsuc n)) unit_amount
      then err amount_overflow
      else ok (mul64 unit_amount (negsuc n))
]

-- `New`.
unfoldable pub new : String → Product → ℤ → String → ℕ → Result Error Order
new id product quantity idempotency_key now = do
  guard (not (trim_space id == "")) missing_id
  validate_product product
  validate_quantity quantity
  validate_idempotency_key idempotency_key
  amount ← multiply product.unit_amount quantity
  ok (record {
    id = id;
    status = pending;
    amount = amount;
    currency = product.currency;
    product_id = product.id;
    quantity = quantity;
    idempotency_key = idempotency_key;
    created_at = now;
    updated_at = now;
  })

-- `o.Status != StatusPending`.
abbrev is_pending : Status → Bool
is_pending pending = true
is_pending _ = false

-- `Order.Settled`.
unfoldable pub settled : Order → Bool
settled o = not (is_pending o.status)

-- `Order.MarkPaid`.
unfoldable pub mark_paid : Order → ℕ → Order × Bool
mark_paid o now =
    if not (is_pending o.status)
    then (o, false)
    else (record o { status = paid; updated_at = now }, true)
