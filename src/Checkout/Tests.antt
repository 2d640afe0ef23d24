-- ===== src/Checkout/Tests.antt =====
-- One order that is paid for in two calls, and the theorems at it.
use payments_boilerplate.Base.{
  ◌<◌, ◌⊎◌, arith, ◌≡◌, refl, false, String, [], ◌∷◌, Option, none, some, ok, err, ◌==◌,
  if◌then◌else◌, trim_space,
}
use payments_boilerplate.Base.Int.{pos, div64, div64_ℤ}
use payments_boilerplate.Ids.{validate_id, after_prefix, decode_string, digit_value}
use payments_boilerplate.Orders.{
  Order, pending, valid_currency, validate_quantity, validate_idempotency_key,
}
use payments_boilerplate.Payments.Status.{Status, AttemptStatus, eq_attempt}
use payments_boilerplate.Payments.Entity.{
  Payment, Attempt, Session, Url, attach_session, has_session, is_https,
}
use payments_boilerplate.Payments.Entity as Entity
use payments_boilerplate.Receiver.Inbox.{committed, lost}
use payments_boilerplate.Checkout.Models.{nullable, nullable_time}
use payments_boilerplate.Checkout.Tables.{
  Db, clashes_payment, clashes_attempt, insert_payment, insert_attempt,
}
use payments_boilerplate.Checkout.Store.{
  Faults, recover, create_or_get_active_payment, look_again, reserve, prepare_checkout,
  save_session,
}
use payments_boilerplate.Checkout.Service.{
  ProviderRequest, CreateInput, Checkout, Service, World, provider_unavailable, attach, ask, build,
  load_order, check, create_checkout,
}
use payments_boilerplate.Checkout.Rows.{IsUnique}
use payments_boilerplate.Checkout.Reserved.{IsSound}
use payments_boilerplate.Checkout.Single.{IsSingle, prepare_checkout-IsSingle}
use payments_boilerplate.Checkout.Replayed.{IsReady}
use payments_boilerplate.Checkout.Repeated.{create_checkout-resumed}
use payments_boilerplate.Checkout.Idempotent.{create_checkout-repeated}
use payments_boilerplate.Http.Responses.{answers, status, respond}
use payments_boilerplate.Http.Checkouts.{post_checkout}
use payments_boilerplate.Http.Asked.{post_checkout-asks}

abbrev order_id : String
order_id = "ord_000110ffabcd095a0007804021fe640c"

abbrev order : Order
order = record {
  id = order_id;
  status = pending;
  amount = pos 4990;
  currency = "BRL";
  product_id = "course";
  quantity = pos 2;
  idempotency_key = "order_1";
  created_at = 1;
  updated_at = 1;
}

abbrev empty : Db
empty = record {
  orders = λ id. if id == order_id then some order else none;
  payments = [];
  attempts = [];
}

abbrev parse : String → Option Url
parse s =
    if s == "https://pay.test/cs_1"
    then some (record { scheme = "https"; host = "pay.test" })
    else none

abbrev session : Session
session = record {
  id = "cs_1";
  payment_intent_id = "";
  url = "https://pay.test/cs_1";
  expires_at = 90;
}

abbrev up : Service
up = record { create_checkout = λ request. ok session; parse = parse }

abbrev down : Service
down = record up { create_checkout = λ request. err "connection refused" }

abbrev quiet : Faults
quiet = record {
  begin = none;
  find_key = none;
  find_owner = none;
  insert_payment = none;
  find_active = none;
  insert_attempt = none;
  find_again = none;
  commit = committed;
}

abbrev world : String → String → World
world payment_id attempt_id = record {
  load = none;
  new_payment_id = ok payment_id;
  new_attempt_id = ok attempt_id;
  now = 5;
  later = 6;
  others = λ x. x;
  meanwhile = λ x. x;
  prepare = quiet;
  save = record { update = committed; find = none };
}

abbrev input : CreateInput
input = record { order_id = order_id; idempotency_key = "key_1" }

abbrev payment : String → Payment
payment id = record {
  id = id;
  order_id = order_id;
  provider = "stripe";
  status = Status.pending;
  amount = pos 4990;
  currency = "BRL";
  created_at = 5;
  updated_at = 5;
}

abbrev attempt : String → String → Attempt
attempt payment_id id = record {
  id = id;
  payment_id = payment_id;
  provider = "stripe";
  status = AttemptStatus.created;
  idempotency_key = "key_1";
  provider_session_id = "";
  provider_payment_intent_id = "";
  checkout_url = "";
  expires_at = 0;
  created_at = 5;
  updated_at = 5;
}

empty-IsSound : IsSound empty
unfolding IsUnique
empty-IsSound = record { payments = tt; attempts = tt }

empty-IsSingle : IsSingle empty
empty-IsSingle = record {
  live = λ k. omega arith;
  opened = λ k. omega arith;
  keys = λ k. omega arith;
  sessions = λ k i. omega arith;
  payments = λ k. omega arith;
  attempts = λ k. omega arith;
}

-- The commit that reserves the attempt is not answered.
prepare_checkout-IsSingle_example :
    IsSingle
      (prepare_checkout
        (record quiet { commit = lost "timeout" })
        (λ x. x)
        empty
        (payment "pay_1")
        (attempt "pay_1" "pat_1")).1
prepare_checkout-IsSingle_example =
    prepare_checkout-IsSingle (record quiet { commit = lost "timeout" }) (λ x. x) empty
      (payment "pay_1") (attempt "pay_1" "pat_1") empty-IsSingle empty-IsSingle

program : Unit {0}
unfolding create_checkout check build load_order prepare_checkout reserve look_again
    create_or_get_active_payment insert_payment insert_attempt recover clashes_payment
    clashes_attempt ask attach save_session attach_session has_session Entity.new nullable
    nullable_time eq_attempt validate_id after_prefix decode_string digit_value valid_currency
    validate_quantity validate_idempotency_key trim_space ◌==◌ div64 div64_ℤ
program = tt

abbrev request : ProviderRequest
request = record {
  order_id = order_id;
  payment_id = "pay_1";
  attempt_id = "pat_1";
  product_id = "course";
  unit_amount = pos 2495;
  quantity = pos 2;
  currency = "BRL";
  idempotency_key = "key_1";
}

checked :
    check (world "pay_1" "pat_1") input empty
    ≡ ok (order, (payment "pay_1", attempt "pay_1" "pat_1"))
unfolding program
checked = refl

-- The tables after a call that the provider refused.
abbrev refused : Db
refused = (create_checkout down (world "pay_1" "pat_1") input empty).db

asked : (create_checkout down (world "pay_1" "pat_1") input empty).calls ≡ request ∷ []
unfolding program
asked = refl

was_down :
    (create_checkout down (world "pay_1" "pat_1") input empty).result
    ≡ err (provider_unavailable "connection refused")
unfolding program
was_down = refl

refused-IsReady : IsReady (world "pay_2" "pat_2") input refused order
unfolding program
refused-IsReady = record {
  payment = payment "pay_2";
  attempt = attempt "pay_2" "pat_2";
  checked = refl;
  begun = refl;
  searched = refl;
  owned = refl;
  commits = refl;
}

create_checkout-resumed_example :
    (create_checkout down (world "pay_2" "pat_2") input refused).calls ≡ request ∷ []
create_checkout-resumed_example =
    create_checkout-resumed down (world "pay_1" "pat_1") (world "pay_2" "pat_2") input empty order
      (payment "pay_1", attempt "pay_1" "pat_1") request "connection refused" empty-IsSound checked
      asked was_down refused-IsReady

abbrev served : Db
served = (create_checkout up (world "pay_1" "pat_1") input empty).db

abbrev checkout : Checkout
checkout = record { url = "https://pay.test/cs_1"; expires_at = 90 }

was_served : (create_checkout up (world "pay_1" "pat_1") input empty).result ≡ ok checkout
unfolding program
was_served = refl

served-IsReady : IsReady (world "pay_2" "pat_2") input served order
unfolding program
served-IsReady = record {
  payment = payment "pay_2";
  attempt = attempt "pay_2" "pat_2";
  checked = refl;
  begun = refl;
  searched = refl;
  owned = refl;
  commits = refl;
}

no_url : is_https (parse "") ≡ false
unfolding ◌==◌
no_url = refl

create_checkout-repeated_example :
    create_checkout up (world "pay_2" "pat_2") input served
    ≡ record { result = ok checkout; calls = []; db = served }
create_checkout-repeated_example =
    create_checkout-repeated up (world "pay_1" "pat_1") no_url (λ y. refl) (world "pay_2" "pat_2")
      input empty order (payment "pay_1", attempt "pay_1" "pat_1") checkout empty-IsSound refl refl
      checked was_served served-IsReady

was_opened :
    status (respond (post_checkout (some (up, world "pay_1" "pat_1")) input empty).result) < 500
unfolding program post_checkout respond
was_opened = omega arith

post_checkout-asks_example :
    let r = post_checkout (some (up, world "pay_1" "pat_1")) input empty in
    (r.calls ≡ []) ⊎ ((c : Checkout) × (respond r.result ≡ answers 201 c))
post_checkout-asks_example = post_checkout-asks up (world "pay_1" "pat_1") input empty was_opened
