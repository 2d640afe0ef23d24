-- ===== src/Receiver/Histories.antt =====
-- What the inbox keeps over any calls of the receiver and of its operators.
use payments_boilerplate.Base.{String, List, [], ◌∷◌}
use payments_boilerplate.Receiver.Inbox.{Inbox}
use payments_boilerplate.Receiver.Service.{Service, World, ReceiveInput, receive}
use payments_boilerplate.Receiver.Replay.{ReplayFaults, reprocess}
use payments_boilerplate.Receiver.Paired.{IsPaired}
use payments_boilerplate.Receiver.Preserved.{receive-IsPaired}
use payments_boilerplate.Receiver.Reset.{reprocess-IsPaired}

-- One call, with all that it meets.
pub data Call : Type 0 where
  receives : World → ReceiveInput → Call
  replays : ReplayFaults → String → Call

-- The inbox that a call leaves.
abbrev pub step : Service → Inbox → Call → Inbox
step s x (receives w input) = (receive s w input x).inbox
step s x (replays f id) = (reprocess f x id).1

unfoldable pub steps : Service → Inbox → List Call → Inbox
steps s x [] = x
steps s x (c ∷ cs) = steps s (step s x c) cs

-- Whatever is received and replayed, in any order, with any faults of the database: the inbox has at most
-- one row for an event of a provider, every row that is to be handled has exactly one message in the
-- outbox, and every message in the outbox is that of a row.
pub steps-IsPaired :
    (s : Service) (x : Inbox) (cs : List Call) → IsPaired x → IsPaired (steps s x cs)
unfolding steps
steps-IsPaired s x [] h = h
steps-IsPaired s x (receives w input ∷ cs) h =
    steps-IsPaired s (receive s w input x).inbox cs (receive-IsPaired s w input x h)
steps-IsPaired s x (replays f id ∷ cs) h =
    steps-IsPaired s (reprocess f x id).1 cs (reprocess-IsPaired f x id h)
