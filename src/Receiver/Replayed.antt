-- ===== src/Receiver/Replayed.antt =====
-- What a replay does, and what a second one does after it.
use payments_boilerplate.Base.{
  arith, ℕ, ◌≡◌, ◌≢◌, false, refl, sym, ap, inl, inr, true, ◌||◌, String, Option, none, some,
  Bool-cases, Option-cases, Result-cases, ok, err,
}
use payments_boilerplate.Ids.{validate_id}
use payments_boilerplate.Webhooks.{Status, MessageStatus}
use payments_boilerplate.Consumer.Store.{EventRow}
use payments_boilerplate.Outbox.Store as Outbox
use payments_boilerplate.Receiver.Inbox.{Inbox, Commit, committed, refused, lost}
use payments_boilerplate.Receiver.Paired.{put_same}
use payments_boilerplate.Receiver.Replay.{
  event_not_replayable, EventInspection, ReplayFaults, message_of, lock_for_replay, event_failed,
  event_pending, message_resettable, is_replayable, reset_row, with_reset, reset_event, requeued,
  with_requeued, reset_message, finish, read_back, reset_both, replay_locked, replay, reprocess,
}

is_pending : (s : Status) → event_pending s ≡ true → s ≡ Status.pending
is_pending s h = ground arith

reset_pending :
    (e : EventRow)
    → (event_pending e.status || event_failed e.status) ≡ true
    → (reset_row e).status ≡ Status.pending
reset_pending e h = elim (Bool-cases (event_failed e.status)) [
  | inl failed ↦ rw failed refl
  | inr other ↦ elim (Bool-cases (event_pending e.status)) [
    | inl waiting ↦ rw other (is_pending e.status waiting)
    | inr neither ↦ absurd (cc (rw (neither, other) at h))
  ]
]

-- What a reset changes.
event_reset :
    (x x' : Inbox) (id : String)
    → reset_event x id ≡ (x', true)
    → (e : EventRow) × (x'.events id ≡ some e)
      × (e.status ≡ Status.pending)
      × (x'.by_event ≡ x.by_event)
unfolding reset_event
event_reset x x' id h = elim (Option-cases (x.events id)) [
  | inl missing ↦ absurd (cc (rw (reset_event, missing) at h))
  | inr (e, there) ↦ elim (Bool-cases (event_pending e.status || event_failed e.status)) [
    | inr other ↦ absurd (cc (rw (reset_event, there, other) at h))
    | inl ready ↦
        let is_x : with_reset x id e ≡ x' = cc (rw (reset_event, there, ready) at h) in
        rw (sym is_x) (reset_row e, put_same x.events id (reset_row e), reset_pending e ready, refl)
  ]
]

message_reset :
    (x x' : Inbox) (id : String) (now : ℕ)
    → reset_message x id now ≡ (x', true)
    → (m : Outbox.Row) × (message_of x' id ≡ some m)
      × (m.status ≡ MessageStatus.pending)
      × (x'.events ≡ x.events)
unfolding reset_message
message_reset x x' id now h = elim (Option-cases (x.by_event id)) [
  | inl missing ↦ absurd (cc (rw (reset_message, missing) at h))
  | inr (mid, back) ↦ elim (Option-cases (x.messages.rows mid)) [
    | inl missing ↦ absurd (cc (rw (reset_message, back, missing) at h))
    | inr (m, there) ↦ elim (Bool-cases (message_resettable m.status)) [
      | inr other ↦ absurd (cc (rw (reset_message, back, there, other) at h))
      | inl ready ↦
          let is_x : with_requeued x mid m now ≡ x' =
            cc (rw (reset_message, back, there, ready) at h) in
          rw (sym is_x)
            (requeued m now, rw back (put_same x.messages.rows mid (requeued m now)), refl, refl)
    ]
  ]
]

finish-kept :
    (k : Commit) (x x' y : Inbox) (i j : EventInspection) → finish k x x' i ≡ (ok j, y) → x' ≡ y
finish-kept committed x x' y i j h = cc h
finish-kept (refused e) x x' y i j h = absurd (cc h)
finish-kept (lost e) x x' y i j h = absurd (cc h)

read_back-kept :
    (f : ReplayFaults) (x x' y : Inbox) (id : String) (r : Option EventRow) (j : EventInspection)
    → read_back f x x' id r ≡ (ok j, y)
    → x' ≡ y
read_back-kept f x x' y id none j h = absurd (cc h)
read_back-kept f x x' y id (some e) j h = elim (Option-cases f.read) [
  | inr (cause, fails) ↦ absurd (cc (rw fails at h))
  | inl up ↦ finish-kept f.commit x x' y _ j (rw up at h)
]

-- After a replay both rows wait.
reset_both-waits :
    (f : ReplayFaults) (x x' : Inbox) (id : String) (i : EventInspection)
    → reset_both f x id ≡ (ok i, x')
    → lock_for_replay x' id ≡ some (Status.pending, MessageStatus.pending)
unfolding reset_both lock_for_replay
reset_both-waits f x x' id i h = elim (Option-cases f.reset_event) [
  | inr (cause, fails) ↦ absurd (cc (rw (reset_both, fails) at h))
  | inl one ↦ elim (Option-cases f.reset_message) [
    | inr (cause, fails) ↦ absurd (cc (rw (reset_both, one, fails) at h))
    | inl two ↦
        let x1 = (reset_event x id).0 in
        let x2 = (reset_message x1 id f.now).0 in
        elim (Bool-cases (reset_event x id).1) [
          | inr same ↦ absurd (cc (rw (reset_both, one, two, same) at h))
          | inl changed ↦ elim (Bool-cases (reset_message x1 id f.now).1) [
            | inr same ↦ absurd (cc (rw (reset_both, one, two, changed, same) at h))
            | inl moved ↦
                let kept : x2 ≡ x' =
                  read_back-kept f x x2 x' id (x2.events id) i
                    (rw (reset_both, one, two, changed, moved) at h) in
                let (e, there, waiting, _) = event_reset x x1 id (ap (λ b. (x1, b)) changed) in
                let (m, found, idle, same) =
                  message_reset x1 x2 id f.now (ap (λ b. (x2, b)) moved) in
                rw (sym kept) (rw (lock_for_replay, same, there, found, waiting, idle) refl)
          ]
        ]
  ]
]

pub locked-waits :
    (f : ReplayFaults) (x x' : Inbox) (id : String) (r : Option (Status × MessageStatus))
    (i : EventInspection)
    → replay_locked f x id r ≡ (ok i, x')
    → lock_for_replay x' id ≡ some (Status.pending, MessageStatus.pending)
locked-waits f x x' id none i h = absurd (cc h)
locked-waits f x x' id (some (e, m)) i h = elim (Bool-cases (is_replayable e m)) [
  | inr other ↦ absurd (cc (rw other at h))
  | inl ready ↦ reset_both-waits f x x' id i (rw ready at h)
]

not_replayable :
    (e : Status) (m : MessageStatus)
    → e ≢ Status.failed
    → m ≢ MessageStatus.failed
    → is_replayable e m ≡ false
not_replayable e m unfailed idle = ground arith

-- Failed work is queued once: after a replay that was answered, the event and its message wait to be
-- published and processed; and in whatever state the two are found later, a replay is refused and changes
-- nothing while neither has failed, if the database can be reached.
pub reprocess_once :
    (f f' : ReplayFaults) (x x' y : Inbox) (id : String) (i : EventInspection) (e : Status)
    (m : MessageStatus)
    → reprocess f x id ≡ (ok i, x')
    → f'.begin ≡ none
    → f'.lock ≡ none
    → lock_for_replay y id ≡ some (e, m)
    → e ≢ Status.failed
    → m ≢ MessageStatus.failed
    → (lock_for_replay x' id ≡ some (Status.pending, MessageStatus.pending))
      × (reprocess f' y id ≡ (err event_not_replayable, y))
unfolding reprocess replay
reprocess_once f f' x x' y id i e m h begun locks at_y unfailed idle =
    elim (Result-cases (validate_id "evt_" id)) [
      | inr (_, invalid) ↦ absurd (cc (rw (reprocess, invalid) at h))
      | inl (u, valid) ↦ elim (Option-cases f.begin) [
        | inr (cause, fails) ↦ absurd (cc (rw (reprocess, valid, replay, fails) at h))
        | inl one ↦ elim (Option-cases f.lock) [
          | inr (cause, fails) ↦ absurd (cc (rw (reprocess, valid, replay, one, fails) at h))
          | inl two ↦
              let waits =
                locked-waits f x x' id (lock_for_replay x id) i
                  (rw (reprocess, valid, replay, one, two) at h) in
              (
                waits,
                rw (reprocess, valid, replay, begun, locks, at_y, not_replayable e m unfailed idle)
                    refl,
              )
        ]
      ]
    ]
