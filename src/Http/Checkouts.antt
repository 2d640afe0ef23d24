-- ===== src/Http/Checkouts.antt =====
-- internal/transport/http/handlers.go: POST /v1/orders/{id}/checkout, over the tables of the checkout.
use payments_boilerplate.Base.{List, [], Option, none, some, Result, ok, err}
use payments_boilerplate.Checkout.Tables.{Db}
use payments_boilerplate.Checkout.Tables as Tables
use payments_boilerplate.Checkout.Service.{
  Service, World, CreateInput, Checkout, Error, ProviderRequest, create_checkout,
}
use payments_boilerplate.Checkout.Service as Checkouts
use payments_boilerplate.Http.Responses.{
  Code, Response, answers, refuses, Failure, not_served, unexpected, invalid_request,
}

abbrev pub table_error : Tables.Error → Result Failure (Response Checkout)
table_error Tables.idempotency_key_conflict = ok (refuses 409 Code.idempotency_key_conflict)
table_error Tables.checkout_in_progress = ok (refuses 409 Code.checkout_in_progress)
table_error (Tables.failed cause) = err unexpected

-- `createCheckoutError`; a session that is not valid is an answer of the provider that is not
-- available.
unfoldable pub create_checkout_error : Error → Result Failure (Response Checkout)
create_checkout_error (Checkouts.invalid_key e) = ok (refuses 400 invalid_request)
create_checkout_error Checkouts.order_not_found = ok (refuses 404 Code.order_not_found)
create_checkout_error (Checkouts.not_prepared e) = table_error e
create_checkout_error (Checkouts.not_persisted e) = table_error e
create_checkout_error Checkouts.order_not_payable = ok (refuses 409 Code.order_not_payable)
create_checkout_error (Checkouts.provider_unavailable cause) =
    ok (refuses 502 Code.provider_unavailable)
create_checkout_error (Checkouts.invalid_session e) = ok (refuses 502 Code.provider_unavailable)
create_checkout_error _ = err unexpected

abbrev pub opened : Result Error Checkout → Result Failure (Response Checkout)
opened (err e) = create_checkout_error e
opened (ok c) = ok (answers 201 c)

-- What an operation returns, the requests that the provider gets, and the tables it leaves.
pub record Exchange : Type 0 where
  pub result : Result Failure (Response Checkout)
  pub calls : List ProviderRequest
  pub db : Db

-- `CreateCheckout`, where the process has the use case or not.
unfoldable pub post_checkout : Option (Service × World) → CreateInput → Db → Exchange
unfolding create_checkout create_checkout_error
post_checkout none input x = record { result = err not_served; calls = []; db = x }
post_checkout (some (s, w)) input x =
    let r = create_checkout s w input x in
    record { result = opened r.result; calls = r.calls; db = r.db }
