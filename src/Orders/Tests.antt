-- ===== src/Orders/Tests.antt =====
-- Orders at concrete inputs.
use payments_boilerplate.Base.{◌≡◌, ◌↔◌, refl, trim_space, ◌==◌, true, is_ok, ok}
use payments_boilerplate.Base.Int.{pos, mul64, div64}
use payments_boilerplate.Orders.{
  Status, Product, Order, new, validate_product, validate_quantity, validate_idempotency_key,
  multiply, valid_product_id, valid_currency,
}
use payments_boilerplate.Orders.Pricing.{IsPriced, IsAcceptable, new-IsPriced, new-accepts_iff}

abbrev shirt : Product
shirt = record { id = "shirt"; name = "Shirt"; unit_amount = pos 4990; currency = "BRL" }

abbrev three_shirts : Order
three_shirts = record {
  id = "ord_1";
  status = Status.pending;
  amount = pos 14970;
  currency = "BRL";
  product_id = "shirt";
  quantity = pos 3;
  idempotency_key = "key-1";
  created_at = 7;
  updated_at = 7;
}

new_shirts : new "ord_1" shirt (pos 3) "key-1" 7 ≡ ok three_shirts
unfolding new validate_product validate_quantity validate_idempotency_key multiply valid_product_id
    valid_currency trim_space ◌==◌ mul64 div64
new_shirts = refl

new-IsPriced_example : IsPriced shirt (pos 3) three_shirts
new-IsPriced_example = new-IsPriced "ord_1" shirt (pos 3) "key-1" 7 three_shirts new_shirts

new-accepts_iff_example :
    (is_ok (new "ord_1" shirt (pos 3) "key-1" 7) ≡ true)
    ↔ IsAcceptable "ord_1" shirt (pos 3) "key-1"
new-accepts_iff_example = new-accepts_iff "ord_1" shirt (pos 3) "key-1" 7
