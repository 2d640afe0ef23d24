-- ===== src/Http/Responses.antt =====
-- internal/transport/http/errors.go and the error handlers of server.go: the answers of the API. A body is
-- what its operation makes of it; the messages of an error and the headers but Retry-After are left out.
use payments_boilerplate.RateLimit.Bucket.{second}
use payments_boilerplate.Base.{ℕ, ◌/◌, leb, String, ◌==◌, if◌then◌else◌, Result, ok, err}

-- The stable error codes.
pub data Code : Type 0 where
  invalid_request unauthorized invalid_signature product_not_found order_not_found : Code
  idempotency_key_conflict checkout_in_progress order_not_payable provider_unavailable : Code
  webhook_event_not_found webhook_event_not_replayable : Code
  rate_limited not_implemented internal_error : Code

-- What a client gets: a status with a body or a code, or a refusal with its Retry-After in seconds.
pub data Response (B : Type 0) : Type 0 where
  answers : ℕ → B → Response B
  refuses : ℕ → Code → Response B
  limits : ℕ → Response B

abbrev pub status : {B : Type 0} → Response B → ℕ
status (answers n b) = n
status (refuses n c) = n
status (limits seconds) = 429

-- The errors that an operation hands to the server; `ErrUnauthorized`, `ErrNotServed`, a
-- `rateLimitedError` with its wait in nanoseconds, and all the others.
pub data Failure : Type 0 where
  not_authenticated not_served unexpected : Failure
  over_limit : ℕ → Failure

-- `writeRateLimited`: the seconds of Retry-After.
unfoldable pub retry_after_seconds : ℕ → ℕ
retry_after_seconds retry_after = (if leb retry_after 0 then second else retry_after) / second

-- `responseErrorHandler`.
unfoldable pub response_error : {B : Type 0} → Failure → Response B
unfolding retry_after_seconds
response_error (over_limit retry_after) = limits (retry_after_seconds retry_after)
response_error not_authenticated = refuses 401 unauthorized
response_error not_served = refuses 501 not_implemented
response_error unexpected = refuses 500 internal_error

-- What the generated server makes of an operation's result.
unfoldable pub respond : {B : Type 0} → Result Failure (Response B) → Response B
unfolding response_error
respond (ok r) = r
respond (err e) = response_error e

-- What comes before an operation: a body over its limit, or any other request that cannot be read.
pub data RequestError : Type 0 where
  too_large malformed : RequestError

-- `requestErrorHandler`.
unfoldable pub request_error : {B : Type 0} → RequestError → Response B
request_error too_large = refuses 413 invalid_request
request_error malformed = refuses 400 invalid_request

abbrev pub webhook_path : String
webhook_path = "/v1/webhooks/stripe"

abbrev pub health_path : String
health_path = "/health"

abbrev pub max_body_bytes : ℕ
max_body_bytes = 65536

abbrev pub webhook_max_body_bytes : ℕ
webhook_max_body_bytes = 524288

-- `bodyLimitFor`.
unfoldable pub body_limit_for : String → ℕ
body_limit_for path = if path == webhook_path then webhook_max_body_bytes else max_body_bytes
