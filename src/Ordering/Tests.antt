-- ===== src/Ordering/Tests.antt =====
-- One order that is asked for twice, at two prices, and the theorems at it.
use payments_boilerplate.Base.{
  ◌-◌, ◌%◌, ◌≡◌, refl, String, [], ◌∷◌, none, ok, err, ◌==◌, trim_space, List,
}
use payments_boilerplate.Base.Int.{pos, div64, mul64}
use payments_boilerplate.Orders.{
  Product, Order, pending, valid_product_id, valid_currency, validate_product, validate_product_id,
  validate_quantity, validate_idempotency_key, multiply,
}
use payments_boilerplate.Orders as Domain
use payments_boilerplate.Receiver.Inbox.{committed}
use payments_boilerplate.Ordering.Models.{Row, int32}
use payments_boilerplate.Ordering.Catalog.{add_all, new_static, product}
use payments_boilerplate.Ordering.Service.{
  idempotency_key_conflict, CreateInput, World, create_or_get, validate, build, create,
}
use payments_boilerplate.Ordering.Replayed.{create_again, IsKept}
use payments_boilerplate.Http.Responses.{status}

abbrev course : Product
course = record { id = "course"; name = "A course"; unit_amount = pos 10000; currency = "BRL" }

abbrev world : Product → String → World
world p id = record {
  catalog = λ i. ok p;
  new_id = ok id;
  now = 5678;
  column = λ t. t - t % 1000;
  insert = committed;
  find = none;
  others = λ rows. rows;
}

abbrev input : CreateInput
input = record { product_id = "course"; quantity = pos 2; idempotency_key = "key_1" }

abbrev order : Order
order = record {
  id = "ord_1";
  status = pending;
  amount = pos 20000;
  currency = "BRL";
  product_id = "course";
  quantity = pos 2;
  idempotency_key = "key_1";
  created_at = 5678;
  updated_at = 5678;
}

program : Unit {0}
unfolding create build create_or_get validate Domain.new valid_product_id valid_currency
    validate_product validate_product_id validate_quantity validate_idempotency_key multiply mul64
    div64 int32 trim_space ◌==◌ new_static add_all product
program = tt

first : (create (world course "ord_1") input []).0 ≡ ok order
unfolding program
first = refl

abbrev rows : List Row
rows = (create (world course "ord_1") input []).1

-- The price has changed.
abbrev dearer : Product
dearer = record course { unit_amount = pos 12000 }

abbrev repriced : Order
repriced = record order { id = "ord_2"; amount = pos 24000 }

built : build (world dearer "ord_2") input ≡ ok repriced
unfolding program
built = refl

-- The second answer has what the columns kept of the times.
create_again_example :
    (kept : Order) × IsKept (world course "ord_1").column order kept
    × (create (world dearer "ord_2") input rows ≡ (ok kept, rows))
unfolding program
create_again_example =
    create_again (world course "ord_1") (world dearer "ord_2") input input [] order repriced first
      refl built refl refl

-- Another quantity under the same key is a conflict.
conflict :
    create (world course "ord_3") (record input { quantity = pos 3 }) rows
    ≡ (err idempotency_key_conflict, rows)
unfolding program
conflict = refl

-- A catalogue that resolves its product.
resolves : product (course ∷ []) "course" ≡ ok course
unfolding program
resolves = refl
