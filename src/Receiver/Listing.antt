-- ===== src/Receiver/Listing.antt =====
-- internal/application/webhooks/operations.go: `List`. The page of rows that `ListWebhookEvents` reads is an
-- argument; a status is a text, the empty one no filter.
use payments_boilerplate.Base.{
  Bool, ◌&&◌, ◌||◌, not, String, List, ◌==◌, if◌then◌else◌, Result, ◌>>◌, guard, map_error,
}
use payments_boilerplate.Base.Int.{ℤ, pos, eqb_ℤ, ltb_ℤ}
use payments_boilerplate.Receiver.Inbox.{Cause}
use payments_boilerplate.Receiver.Replay.{EventInspection}

pub data ListError : Type 0 where
  invalid_status invalid_limit : ListError
  not_listed : Cause → ListError

abbrev pub default_inspection_limit : ℤ
default_inspection_limit = pos 50

abbrev pub max_inspection_limit : ℤ
max_inspection_limit = pos 100

-- `validInspectionStatus`.
unfoldable pub valid_inspection_status : String → Bool
valid_inspection_status s =
    (s == "pending")
    || ((s == "processing") || ((s == "processed") || ((s == "failed") || (s == "skipped"))))

abbrev pub or_default : ℤ → ℤ
or_default limit = if eqb_ℤ limit (pos 0) then default_inspection_limit else limit

-- `OperationsService.List`.
unfoldable pub list_events :
    (String → ℤ → Result Cause (List EventInspection))
    → String
    → ℤ
    → Result ListError (List EventInspection)
unfolding valid_inspection_status
list_events page status limit = do
  guard (not (not (status == "") && not (valid_inspection_status status))) invalid_status
  guard (not (ltb_ℤ (or_default limit) (pos 1) || ltb_ℤ max_inspection_limit (or_default limit)))
      invalid_limit
  map_error not_listed (page status (or_default limit))
