-- ===== src/Ordering/Models.antt =====
-- internal/adapters/postgres/models/order.go: the rows of `orders`. The column of the quantity is an
-- int32, the entity's an int.
use payments_boilerplate.Base.{ℕ, ◌≡◌, refl, ◌^◌, ◌%◌, ◌-◌, ltb, if◌then◌else◌, String, arith, ok}
use payments_boilerplate.Base.Int.{ℤ, pos, negsuc, neg}
use payments_boilerplate.Orders.{Status, Order, validate_quantity}

pub record Row : Type 0 where
  pub id : String
  pub status : Status
  pub amount : ℤ
  pub currency : String
  pub product_id : String
  pub quantity : ℤ
  pub idempotency_key : String
  pub created_at : ℕ
  pub updated_at : ℕ

-- The number between -2^31 and 2^31 - 1 that has a residue modulo 2^32.
abbrev signed32 : ℕ → ℤ
signed32 n = if ltb n (2 ^ 31) then pos n else neg (2 ^ 32 - n)

-- `int32(n)`.
unfoldable pub int32 : ℤ → ℤ
int32 (pos n) = signed32 (n % 2 ^ 32)
int32 (negsuc n) = signed32 (2 ^ 32 - 1 - n % 2 ^ 32)

-- `OrderFromDomain`.
abbrev pub from_domain : Order → Row
from_domain o = record {
  id = o.id;
  status = o.status;
  amount = o.amount;
  currency = o.currency;
  product_id = o.product_id;
  quantity = int32 o.quantity;
  idempotency_key = o.idempotency_key;
  created_at = o.created_at;
  updated_at = o.updated_at;
}

-- `Order.ToDomain`.
abbrev pub to_domain : Row → Order
to_domain r = record {
  id = r.id;
  status = r.status;
  amount = r.amount;
  currency = r.currency;
  product_id = r.product_id;
  quantity = r.quantity;
  idempotency_key = r.idempotency_key;
  created_at = r.created_at;
  updated_at = r.updated_at;
}

int32-valid : (n : ℤ) → validate_quantity n ≡ ok tt → int32 n ≡ n
unfolding int32 validate_quantity
int32-valid (pos n) h = ground arith
int32-valid (negsuc n) h = ground arith

-- What the columns keep of a row: a TIMESTAMPTZ has no nanoseconds, so a time is kept as `column` of it.
abbrev pub in_columns : (ℕ → ℕ) → Row → Row
in_columns column r = record r {
  created_at = column r.created_at;
  updated_at = column r.updated_at;
}

-- An order with the times that the columns keep.
abbrev pub at_column_times : (ℕ → ℕ) → Order → Order
at_column_times column o = record o {
  created_at = column o.created_at;
  updated_at = column o.updated_at;
}

-- An order with a valid quantity is read back as it was written, but for its times.
pub order_row_kept :
    (column : ℕ → ℕ) (o : Order)
    → validate_quantity o.quantity ≡ ok tt
    → to_domain (in_columns column (from_domain o)) ≡ at_column_times column o
order_row_kept column o h = rw (int32-valid o.quantity h) refl
