-- ===== src/Receiver/Reset.antt =====
-- A replay keeps what the receiver keeps.
use payments_boilerplate.Base.{
  ℕ, arith, ◌≡◌, refl, sym, ap, ◌∙◌, ◌⊎◌, inl, inr, true, false, ◌&&◌, ◌||◌, String, Option, none,
  some, ◌==◌, Bool-cases, Option-cases, str_eq_iff, Result-cases,
}
use payments_boilerplate.Ids.{validate_id}
use payments_boilerplate.Webhooks.{Status, MessageStatus}
use payments_boilerplate.Consumer.Store.{Table, put, EventRow}
use payments_boilerplate.Outbox.Store as Outbox
use payments_boilerplate.Receiver.Inbox.{Inbox, Commit, committed, refused, lost}
use payments_boilerplate.Receiver.Paired.{put_found, is_skipped, IsIndexed, IsQueued, IsPaired}
use payments_boilerplate.Receiver.Replay.{
  ReplayFaults, EventInspection, lock_for_replay, event_failed, event_pending, message_resettable,
  is_replayable, reset_row, reset_event, requeued, reset_message, finish, read_back, reset_both,
  replay_locked, replay, reprocess, inspect,
}

-- A row that is changed is found where it was.
put_at :
    {R : Type 0} (t : Table R) (k j : String) (r r' q : R)
    → t k ≡ some r
    → t j ≡ some q
    → ((j ≡ k) × (r ≡ q) × (put t k r' j ≡ some r')) ⊎ (put t k r' j ≡ some q)
put_at t k j r r' q there found = elim (Bool-cases (j == k)) [
  | inl same ↦
      let is_k = (str_eq_iff j k).0 same in inl (is_k, cc (there, rw is_k at found), rw same refl)
  | inr other ↦ inr (rw other found)
]

-- A row that keeps its event and that is still to be handled, or still not.
record Keeps (e e' : EventRow) : Type 0 where
  provider : e'.provider ≡ e.provider
  provider_event_id : e'.provider_event_id ≡ e.provider_event_id
  skipped : is_skipped e'.status ≡ is_skipped e.status

module _ (x : Inbox) (id : String) (e e' : EventRow) (there : x.events id ≡ some e)
    (k : Keeps e e') where
  changed-IsIndexed :
      IsIndexed x.events x.by_provider → IsIndexed (put x.events id e') x.by_provider
  changed-IsIndexed h = record {
    row_of = λ p i j found.
        let (r, here, one, two) = h.row_of p i j found in
        elim (put_at x.events id j e e' r there here) [
          | inl (is_id, same, now) ↦ (
            e',
            now,
            k.provider ∙ (ap (λ (y : EventRow). y.provider) same ∙ one),
            k.provider_event_id ∙ (ap (λ (y : EventRow). y.provider_event_id) same ∙ two),
          )
          | inr now ↦ (r, now, one, two)
        ];
    index_of = λ j r found. elim (put_found x.events id j e' r found) [
      | inl (is_id, same) ↦
          rw (is_id, sym same, k.provider, k.provider_event_id) (h.index_of id e there)
      | inr before ↦ h.index_of j r before
    ];
  }

  changed-IsQueued :
      (rows : Table Outbox.Row) (by_event : Table String)
      → IsQueued x.events rows by_event
      → IsQueued (put x.events id e') rows by_event
  changed-IsQueued rows by_event h = record {
    message_of = λ j r found live. elim (put_found x.events id j e' r found) [
      | inl (is_id, same) ↦ rw is_id (h.message_of id e there (sym k.skipped ∙ (rw same live)))
      | inr before ↦ h.message_of j r before live
    ];
    event_of = λ mid m found.
        let (r, here, live, back) = h.event_of mid m found in
        elim (put_at x.events id m.message.event_id e e' r there here) [
          | inl (is_id, same, now) ↦ (e', now, k.skipped ∙ rw same live, back)
          | inr now ↦ (r, now, live, back)
        ];
  }

-- A message that is queued again.
requeued-IsQueued :
    (events : Table EventRow) (rows : Table Outbox.Row) (by_event : Table String) (mid : String)
    (m m' : Outbox.Row)
    → rows mid ≡ some m
    → m'.message ≡ m.message
    → IsQueued events rows by_event
    → IsQueued events (put rows mid m') by_event
requeued-IsQueued events rows by_event mid m m' there same h = record {
  message_of = λ j r found live.
      let (mid0, m0, back, here, own) = h.message_of j r found live in
      elim (put_at rows mid mid0 m m' m0 there here) [
        | inl (is_mid, is_m, now) ↦ (
          mid0,
          m',
          back,
          now,
          ap (λ y. y.event_id) (same ∙ ap (λ (y : Outbox.Row). y.message) is_m) ∙ own,
        )
        | inr now ↦ (mid0, m0, back, now, own)
      ];
  event_of = λ mid0 m0 found. elim (put_found rows mid mid0 m' m0 found) [
    | inl (is_mid, is_m) ↦ rw (is_mid, sym is_m, same) (h.event_of mid m there)
    | inr before ↦ h.event_of mid0 m0 before
  ];
}

failed_unskipped : (s : Status) → event_failed s ≡ true → is_skipped s ≡ false
failed_unskipped s h = ground arith

reset_row-Keeps : (e : EventRow) → Keeps e (reset_row e)
reset_row-Keeps e = elim (Bool-cases (event_failed e.status)) [
  | inl failed ↦ rw failed (record {
    provider = refl;
    provider_event_id = refl;
    skipped = sym (failed_unskipped e.status failed);
  })
  | inr other ↦ rw other (record { provider = refl; provider_event_id = refl; skipped = refl })
]

reset_event-IsPaired : (x : Inbox) (id : String) → IsPaired x → IsPaired (reset_event x id).0
unfolding reset_event
reset_event-IsPaired x id h = elim (Option-cases (x.events id)) [
  | inl missing ↦ rw (reset_event, missing) h
  | inr (e, there) ↦ elim (Bool-cases (event_pending e.status || event_failed e.status)) [
    | inr other ↦ rw (reset_event, there, other) h
    | inl ready ↦
        let k = reset_row-Keeps e in
        rw (reset_event, there, ready)
          (record {
            indexed = changed-IsIndexed x id e (reset_row e) there k h.indexed;
            queued =
                changed-IsQueued x id e (reset_row e) there k x.messages.rows x.by_event h.queued;
          })
  ]
]

reset_message-IsPaired :
    (x : Inbox) (id : String) (now : ℕ) → IsPaired x → IsPaired (reset_message x id now).0
unfolding reset_message
reset_message-IsPaired x id now h = elim (Option-cases (x.by_event id)) [
  | inl missing ↦ rw (reset_message, missing) h
  | inr (mid, back) ↦ elim (Option-cases (x.messages.rows mid)) [
    | inl missing ↦ rw (reset_message, back, missing) h
    | inr (m, there) ↦ elim (Bool-cases (message_resettable m.status)) [
      | inr other ↦ rw (reset_message, back, there, other) h
      | inl ready ↦
          rw (reset_message, back, there, ready)
            (record {
              indexed = h.indexed;
              queued =
                  requeued-IsQueued x.events x.messages.rows x.by_event mid m (requeued m now) there
                    refl h.queued;
            })
    ]
  ]
]

finish-IsPaired :
    (k : Commit) (before after : Inbox) (i : EventInspection)
    → IsPaired before
    → IsPaired after
    → IsPaired (finish k before after i).1
finish-IsPaired committed before after i h h' = h'
finish-IsPaired (refused e) before after i h h' = h
finish-IsPaired (lost e) before after i h h' = h'

read_back-IsPaired :
    (f : ReplayFaults) (before after : Inbox) (id : String) (o : Option EventRow)
    → IsPaired before
    → IsPaired after
    → IsPaired (read_back f before after id o).1
read_back-IsPaired f before after id none h h' = h
read_back-IsPaired f before after id (some e) h h' = elim (Option-cases f.read) [
  | inl up ↦ rw up (finish-IsPaired f.commit before after (inspect after id e) h h')
  | inr (cause, fails) ↦ rw fails h
]

reset_both-IsPaired :
    (f : ReplayFaults) (x : Inbox) (id : String) → IsPaired x → IsPaired (reset_both f x id).1
unfolding reset_both
reset_both-IsPaired f x id h = elim (Option-cases f.reset_event) [
  | inr (cause, fails) ↦ rw (reset_both, fails) h
  | inl one ↦ elim (Option-cases f.reset_message) [
    | inr (cause, fails) ↦ rw (reset_both, one, fails) h
    | inl two ↦
        let x1 = (reset_event x id).0 in
        let x2 = (reset_message x1 id f.now).0 in
        let h2 = reset_message-IsPaired x1 id f.now (reset_event-IsPaired x id h) in
        elim (Bool-cases ((reset_event x id).1 && (reset_message x1 id f.now).1)) [
          | inl both ↦
              rw (reset_both, one, two, both) (read_back-IsPaired f x x2 id (x2.events id) h h2)
          | inr neither ↦ rw (reset_both, one, two, neither) h
        ]
  ]
]

replay_locked-IsPaired :
    (f : ReplayFaults) (x : Inbox) (id : String) (o : Option (Status × MessageStatus))
    → IsPaired x
    → IsPaired (replay_locked f x id o).1
replay_locked-IsPaired f x id none h = h
replay_locked-IsPaired f x id (some (e, m)) h = elim (Bool-cases (is_replayable e m)) [
  | inl ready ↦ rw ready (reset_both-IsPaired f x id h)
  | inr other ↦ rw other h
]

pub reprocess-IsPaired :
    (f : ReplayFaults) (x : Inbox) (id : String) → IsPaired x → IsPaired (reprocess f x id).1
unfolding reprocess replay
reprocess-IsPaired f x id h = elim (Result-cases (validate_id "evt_" id)) [
  | inr (e, invalid) ↦ rw (reprocess, invalid) h
  | inl (u, valid) ↦ elim (Option-cases f.begin) [
    | inr (cause, fails) ↦ rw (reprocess, valid, replay, fails) h
    | inl one ↦ elim (Option-cases f.lock) [
      | inr (cause, fails) ↦ rw (reprocess, valid, replay, one, fails) h
      | inl two ↦
          rw (reprocess, valid, replay, one, two)
            (replay_locked-IsPaired f x id (lock_for_replay x id) h)
    ]
  ]
]
