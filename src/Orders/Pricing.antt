-- ===== src/Orders/Pricing.antt =====
-- The price of an order: exact, positive and inside int64.
use native.Mathlib.Nat.{le-div_iff_mul-le, div-lt_iff_lt-mul}
use native.Mathlib.Decide.{dec_le}
use payments_boilerplate.Base.{
  ℕ, ◌*◌, ◌≤◌, ◌<◌, ◌/◌, ◌≡◌, ◌↔◌, refl, ap, ◌⊎◌, inl, inr, true, false, String, ◌==◌, trim_space,
  ok, err, is_ok, arith,
}
use payments_boilerplate.Base.Int.{ℤ, pos, negsuc, is_positive, max_int64, mul64, div64}
use payments_boilerplate.Orders.{
  Status, amount_overflow, Product, Order, max_quantity, valid_product_id, valid_currency,
  validate_product, validate_quantity, validate_idempotency_key, multiply, new,
}

-- A product with a valid id, a positive price and a currency code.
abbrev pub IsSellable : Product → Type 0
IsSellable p =
    (valid_product_id p.id ≡ true)
    × (is_positive p.unit_amount ≡ true)
    × (valid_currency p.currency ≡ true)

multiply-exact : (u n : ℕ) → 0 < n → u * n ≤ max_int64 → multiply (pos u) (pos n) ≡ ok (pos (u * n))
unfolding multiply mul64 div64
multiply-exact u n h k = let q : u ≤ max_int64 / n = (le-div_iff_mul-le h).1 k in ground arith

multiply-overflow :
    (u n : ℕ) → 0 < n → max_int64 < u * n → multiply (pos u) (pos n) ≡ err amount_overflow
unfolding multiply mul64 div64
multiply-overflow u n h k = let q : max_int64 / n < u = (div-lt_iff_lt-mul h).1 k in ground arith

-- The price of a quantity of a product.
pub record IsPriced (p : Product) (quantity : ℤ) (o : Order) : Type 0 where
  pub unit : ℕ
  pub count : ℕ
  pub unit_price : p.unit_amount ≡ pos unit
  pub units : quantity ≡ pos count
  pub some_units : 1 ≤ count
  pub few_units : count ≤ max_quantity
  pub amount : o.amount ≡ pos (unit * count)
  pub positive : 0 < unit * count
  pub in_range : unit * count ≤ max_int64
  pub starts_pending : o.status ≡ Status.pending
  pub currency : o.currency ≡ p.currency

new-parts :
    (id : String) (p : Product) (u n : ℕ) (key : String) (now : ℕ) (o : Order)
    → p.unit_amount ≡ pos u
    → new id p (pos n) key now ≡ ok o
    → (0 < u)
      × (1 ≤ n)
      × (n ≤ max_quantity)
      × (multiply p.unit_amount (pos n) ≡ ok o.amount)
      × (o.status ≡ Status.pending)
      × (o.currency ≡ p.currency)
unfolding new validate_product validate_quantity validate_idempotency_key
new-parts id p u n key now o e h = ground arith

multiply-cases :
    (u n : ℕ)
    → 0 < n
    → ((u * n ≤ max_int64) × (multiply (pos u) (pos n) ≡ ok (pos (u * n))))
      ⊎ ((max_int64 < u * n) × (multiply (pos u) (pos n) ≡ err amount_overflow))
multiply-cases u n h = elim (dec_le (u * n) max_int64) [
  | yes p ↦ inl (p, multiply-exact u n h p)
  | no p ↦ inr (omega arith, multiply-overflow u n h (omega arith))
]

new_of_parts :
    (id : String) (p : Product) (u n : ℕ) (key : String) (now : ℕ) (o : Order)
    → p.unit_amount ≡ pos u
    → new id p (pos n) key now ≡ ok o
    → IsPriced p (pos n) o
new_of_parts id p u n key now o e h =
    let (positive, some_units, few_units, priced, starts_pending, currency) =
      new-parts id p u n key now o e h in
    let in_range : (u * n ≤ max_int64) × (o.amount ≡ pos (u * n)) =
      let priced' : multiply (pos u) (pos n) ≡ ok o.amount = rw (← e) priced in
      elim (multiply-cases u n (omega arith)) [
        | inl (fits, exact) ↦ (fits, cc)
        | inr (over, fails) ↦ absurd (cc)
      ] in
    record {
      unit = u;
      count = n;
      unit_price = e;
      units = refl;
      some_units = some_units;
      few_units = few_units;
      amount = in_range.1;
      positive = grind arith;
      in_range = in_range.0;
      starts_pending = starts_pending;
      currency = currency;
    }

not_new_negative_price :
    (id : String) (p : Product) (u : ℕ) (quantity : ℤ) (key : String) (now : ℕ)
    → p.unit_amount ≡ negsuc u
    → is_ok (new id p quantity key now) ≡ false
unfolding new validate_product
not_new_negative_price id p u quantity key now e = ground arith

not_new_negative_quantity :
    (id : String) (p : Product) (n : ℕ) (key : String) (now : ℕ)
    → is_ok (new id p (negsuc n) key now) ≡ false
unfolding new validate_product validate_quantity
not_new_negative_quantity id p n key now = ground arith

new_at :
    (id : String) (p : Product) (unit quantity : ℤ) (key : String) (now : ℕ) (o : Order)
    → p.unit_amount ≡ unit
    → new id p quantity key now ≡ ok o
    → IsPriced p quantity o
new_at id p (pos u) (pos n) key now o e h = new_of_parts id p u n key now o e h
new_at id p (negsuc u) quantity key now o e h =
    absurd (cc (ap is_ok h, not_new_negative_price id p u quantity key now e))
new_at id p unit (negsuc n) key now o e h =
    absurd (cc (ap is_ok h, not_new_negative_quantity id p n key now))

-- Every order that `New` makes is priced exactly: its amount is the product's unit amount times the
-- quantity, with no wrap-around, at least 1 and at most the largest int64, its quantity lies between
-- 1 and 1000, it starts pending, and it is in the product's currency.
pub new-IsPriced :
    (id : String) (p : Product) (quantity : ℤ) (key : String) (now : ℕ) (o : Order)
    → new id p quantity key now ≡ ok o
    → IsPriced p quantity o
new-IsPriced id p quantity key now o h = new_at id p p.unit_amount quantity key now o refl h

-- What a client and the catalogue must supply for an order.
pub record IsOrderable (id : String) (p : Product) (u n : ℕ) (key : String) : Type 0 where
  pub named : (trim_space id == "") ≡ false
  pub sellable : IsSellable p
  pub some_units : 1 ≤ n
  pub few_units : n ≤ max_quantity
  pub keyed : validate_idempotency_key key ≡ ok tt
  pub fits : u * n ≤ max_int64

accepts :
    (id : String) (p : Product) (u n : ℕ) (key : String) (now : ℕ)
    → p.unit_amount ≡ pos u
    → IsOrderable id p u n key
    → is_ok (new id p (pos n) key now) ≡ true
unfolding new validate_product validate_quantity
accepts id p u n key now e h = ground (arith, multiply-exact u n h.some_units h.fits)

accepted :
    (id : String) (p : Product) (u n : ℕ) (key : String) (now : ℕ)
    → p.unit_amount ≡ pos u
    → is_ok (new id p (pos n) key now) ≡ true
    → IsOrderable id p u n key
unfolding new validate_product validate_quantity validate_idempotency_key
accepted id p u n key now e h = ground (arith, multiply-cases u n)

-- An order that a client and the catalogue can have, of whatever whole numbers.
pub record IsAcceptable (id : String) (p : Product) (quantity : ℤ) (key : String) : Type 0 where
  pub unit : ℕ
  pub count : ℕ
  pub unit_price : p.unit_amount ≡ pos unit
  pub units : quantity ≡ pos count
  pub orderable : IsOrderable id p unit count key

accepted_at :
    (id : String) (p : Product) (unit quantity : ℤ) (key : String) (now : ℕ)
    → p.unit_amount ≡ unit
    → is_ok (new id p quantity key now) ≡ true
    → IsAcceptable id p quantity key
accepted_at id p (pos u) (pos n) key now e h = record {
  unit = u;
  count = n;
  unit_price = e;
  units = refl;
  orderable = accepted id p u n key now e h;
}
accepted_at id p (negsuc u) quantity key now e h =
    absurd (cc (h, not_new_negative_price id p u quantity key now e))
accepted_at id p unit (negsuc n) key now e h =
    absurd (cc (h, not_new_negative_quantity id p n key now))

-- `New` accepts an order of any whole quantity, negative ones included, exactly when its id is not blank,
-- the product has a valid id, a positive price and a currency code, the quantity lies between 1 and 1000,
-- the idempotency key is valid, and the amount fits an int64.
pub new-accepts_iff :
    (id : String) (p : Product) (quantity : ℤ) (key : String) (now : ℕ)
    → (is_ok (new id p quantity key now) ≡ true) ↔ IsAcceptable id p quantity key
new-accepts_iff id p quantity key now = (
  accepted_at id p p.unit_amount quantity key now refl,
  λ h. rw h.units (accepts id p h.unit h.count key now h.unit_price h.orderable),
)
