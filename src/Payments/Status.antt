-- ===== src/Payments/Status.antt =====
-- internal/domain/payments/payment.go: the states of a payment and of an attempt. The database's
-- CHECK constraints (db/migrations/00002_payments.sql) admit no other text in a status column.
use payments_boilerplate.Base.{Bool, true, false, String}

pub data Status : Type 0 where
  pending processing succeeded failed cancelled partially_refunded refunded : Status

pub data AttemptStatus : Type 0 where
  created pending succeeded failed expired cancelled : AttemptStatus

-- `string(status)`.
abbrev pub status_text : Status → String
status_text Status.pending = "pending"
status_text processing = "processing"
status_text Status.succeeded = "succeeded"
status_text Status.failed = "failed"
status_text Status.cancelled = "cancelled"
status_text partially_refunded = "partially_refunded"
status_text refunded = "refunded"

abbrev pub attempt_text : AttemptStatus → String
attempt_text created = "created"
attempt_text AttemptStatus.pending = "pending"
attempt_text AttemptStatus.succeeded = "succeeded"
attempt_text AttemptStatus.failed = "failed"
attempt_text expired = "expired"
attempt_text AttemptStatus.cancelled = "cancelled"

-- `==` on statuses.
unfoldable pub eq_status : Status → Status → Bool
eq_status Status.pending Status.pending = true
eq_status processing processing = true
eq_status Status.succeeded Status.succeeded = true
eq_status Status.failed Status.failed = true
eq_status Status.cancelled Status.cancelled = true
eq_status partially_refunded partially_refunded = true
eq_status refunded refunded = true
eq_status _ _ = false

unfoldable pub eq_attempt : AttemptStatus → AttemptStatus → Bool
eq_attempt created created = true
eq_attempt AttemptStatus.pending AttemptStatus.pending = true
eq_attempt AttemptStatus.succeeded AttemptStatus.succeeded = true
eq_attempt AttemptStatus.failed AttemptStatus.failed = true
eq_attempt expired expired = true
eq_attempt AttemptStatus.cancelled AttemptStatus.cancelled = true
eq_attempt _ _ = false
