-- ===== src/Http/Orders.antt =====
-- internal/transport/http/handlers.go: POST /v1/orders and GET /v1/orders/{id}, over the rows of orders.
use payments_boilerplate.Base.{String, List, Option, none, some, Result, ok, err}
use payments_boilerplate.Base.Int.{ℤ}
use payments_boilerplate.Orders.{Order, Status}
use payments_boilerplate.Orders as Domain
use payments_boilerplate.Receiver.Inbox.{Cause}
use payments_boilerplate.Ordering.Models.{Row}
use payments_boilerplate.Ordering.Service.{World, CreateInput, Error, create, get}
use payments_boilerplate.Ordering.Service as Ordering
use payments_boilerplate.Http.Responses.{
  Code, Response, answers, refuses, Failure, not_served, unexpected, invalid_request,
}

-- `openapi.Order`.
pub record Body : Type 0 where
  pub id : String
  pub status : Status
  pub amount : ℤ
  pub currency : String

-- `orderResponse`.
unfoldable pub order_response : Order → Body
order_response o = record { id = o.id; status = o.status; amount = o.amount; currency = o.currency }

abbrev pub invalid_order : Domain.Error → Result Failure (Response Body)
invalid_order Domain.invalid_product_id = ok (refuses 400 invalid_request)
invalid_order Domain.invalid_quantity = ok (refuses 400 invalid_request)
invalid_order Domain.invalid_idempotency_key = ok (refuses 400 invalid_request)
invalid_order _ = err unexpected

-- `createOrderError`.
unfoldable pub create_order_error : Error → Result Failure (Response Body)
create_order_error (Ordering.invalid e) = invalid_order e
create_order_error (Ordering.not_resolved Ordering.product_not_found) =
    ok (refuses 404 Code.product_not_found)
create_order_error Ordering.idempotency_key_conflict =
    ok (refuses 409 Code.idempotency_key_conflict)
create_order_error _ = err unexpected

abbrev pub created : Result Error Order → Result Failure (Response Body)
created (err e) = create_order_error e
created (ok o) = ok (answers 201 (order_response o))

-- `CreateOrder`, where the process has the use case or not and the request a body or not: the answer, and
-- the rows after it.
unfoldable pub create_order :
    Option World → Option CreateInput → List Row → Result Failure (Response Body) × List Row
unfolding create create_order_error order_response
create_order none body rows = (err not_served, rows)
create_order (some w) none rows = (ok (refuses 400 invalid_request), rows)
create_order (some w) (some input) rows = let r = create w input rows in (created r.0, r.1)

abbrev pub read : Result Error Order → Result Failure (Response Body)
read (ok o) = ok (answers 200 (order_response o))
read (err Ordering.order_not_found) = ok (refuses 404 Code.order_not_found)
read (err _) = err unexpected

-- `GetOrder`; a use case is known by the faults of its database.
unfoldable pub get_order :
    Option (Option Cause) → String → List Row → Result Failure (Response Body)
unfolding get order_response
get_order none id rows = err not_served
get_order (some fault) id rows = read (get fault id rows)
