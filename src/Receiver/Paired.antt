-- ===== src/Receiver/Paired.antt =====
-- The invariant that the receiver keeps: one row for a provider's event, and one message for a row that
-- is to be handled.
use payments_boilerplate.Base.{
  ℕ, ◌≡◌, refl, sym, ◌⊎◌, inl, inr, Bool, true, false, ◌&&◌, String, Option, none, some, ◌==◌,
  if◌then◌else◌, Bool-cases, str_eq_iff, str_eq_refl,
}
use payments_boilerplate.Webhooks.{Event, Message}
use payments_boilerplate.Webhooks
use payments_boilerplate.Consumer.Store.{Table, put, EventRow}
use payments_boilerplate.Outbox.Store as Outbox
use payments_boilerplate.Receiver.Inbox.{Inbox, event_row, with_event, message_row, with_message}

pub put_same : {R : Type 0} (t : Table R) (k : String) (r : R) → put t k r k ≡ some r
put_same t k r = rw (str_eq_refl k) refl

-- A new row leaves the others.
put_fresh :
    {R : Type 0} (t : Table R) (k j : String) (r q : R)
    → t k ≡ none
    → t j ≡ some q
    → put t k r j ≡ some q
put_fresh t k j r q missing there = elim (Bool-cases (j == k)) [
  | inl same ↦ absurd (cc ((str_eq_iff j k).0 same, missing, there))
  | inr other ↦ rw other there
]

some-injective : {R : Type 0} (r q : R) → some r ≡ some q → r ≡ q
some-injective r q h = cc

pub put_found :
    {R : Type 0} (t : Table R) (k j : String) (r q : R)
    → put t k r j ≡ some q
    → ((j ≡ k) × (r ≡ q)) ⊎ (t j ≡ some q)
put_found t k j r q there = elim (Bool-cases (j == k)) [
  | inl same ↦ inl ((str_eq_iff j k).0 same, some-injective r q (rw same at there))
  | inr other ↦ inr (rw other at there)
]

abbrev pub is_skipped : Webhooks.Status → Bool
is_skipped Webhooks.Status.skipped = true
is_skipped _ = false

pair_found :
    (p a i b : String) (k id : String) (o : Option String)
    → (if (p == a) && (i == b) then some k else o) ≡ some id
    → ((p ≡ a) × (i ≡ b) × (k ≡ id)) ⊎ (o ≡ some id)
pair_found p a i b k id o h = elim (Bool-cases (p == a)) [
  | inl one ↦ elim (Bool-cases (i == b)) [
    | inl two ↦
        inl
          ((str_eq_iff p a).0 one, (str_eq_iff i b).0 two, some-injective k id (rw (one, two) at h))
    | inr two ↦ inr (rw (one, two) at h)
  ]
  | inr one ↦ inr (rw one at h)
]

-- A pair that is in the index already is not the new one.
pair_kept :
    (by : String → String → Option String) (p a i b : String) (k id : String)
    → by a b ≡ none
    → by p i ≡ some id
    → (if (p == a) && (i == b) then some k else by p i) ≡ some id
pair_kept by p a i b k id missing there = elim (Bool-cases (p == a)) [
  | inl one ↦ elim (Bool-cases (i == b)) [
    | inl two ↦ absurd (cc ((str_eq_iff p a).0 one, (str_eq_iff i b).0 two, missing, there))
    | inr two ↦ rw (one, two) there
  ]
  | inr one ↦ rw one there
]

-- The index on (provider, provider_event_id) is the inbox's: at most one row for an event.
pub record IsIndexed (events : Table EventRow) (by_provider : String → String → Option String)
    : Type 0 where
  pub row_of :
      (p i id : String)
      → by_provider p i ≡ some id
      → (r : EventRow) × (events id ≡ some r) × (r.provider ≡ p) × (r.provider_event_id ≡ i)
  pub index_of :
      (id : String) (r : EventRow)
      → events id ≡ some r
      → by_provider r.provider r.provider_event_id ≡ some id

-- Every row that is not skipped has exactly one message, and every message is a row's.
pub record IsQueued (events : Table EventRow) (rows : Table Outbox.Row) (by_event : Table String)
    : Type 0 where
  pub message_of :
      (id : String) (r : EventRow)
      → events id ≡ some r
      → is_skipped r.status ≡ false
      → (mid : String) × (m : Outbox.Row) × (by_event id ≡ some mid)
        × (rows mid ≡ some m)
        × (m.message.event_id ≡ id)
  pub event_of :
      (mid : String) (m : Outbox.Row)
      → rows mid ≡ some m
      → (r : EventRow) × (events m.message.event_id ≡ some r)
        × (is_skipped r.status ≡ false)
        × (by_event m.message.event_id ≡ some mid)

pub record IsPaired (x : Inbox) : Type 0 where
  pub indexed : IsIndexed x.events x.by_provider
  pub queued : IsQueued x.events x.messages.rows x.by_event

module _ (x : Inbox) (e : Event) (new_key : x.events e.id ≡ none)
    (new_event : x.by_provider e.provider e.provider_event_id ≡ none) where
  pub with_event-IsIndexed :
      IsIndexed x.events x.by_provider
      → IsIndexed (with_event x e).events (with_event x e).by_provider
  with_event-IsIndexed h = record {
    row_of = λ p i id found. elim (pair_found p e.provider i e.provider_event_id e.id id _ found) [
      | inl (one, two, is_id) ↦
          (event_row e, rw (sym is_id) (put_same x.events e.id (event_row e)), sym one, sym two)
      | inr before ↦
          let (r, there, one, two) = h.row_of p i id before in
          (r, put_fresh x.events e.id id (event_row e) r new_key there, one, two)
    ];
    index_of = λ id r there. elim (put_found x.events e.id id (event_row e) r there) [
      | inl (is_id, is_row) ↦
          rw (sym is_row, is_id, str_eq_refl e.provider, str_eq_refl e.provider_event_id) refl
      | inr before ↦
          pair_kept x.by_provider r.provider e.provider r.provider_event_id e.provider_event_id e.id
            id new_event (h.index_of id r before)
    ];
  }

  -- A skipped event needs no message.
  pub with_event-IsQueued :
      is_skipped e.status ≡ true
      → IsQueued x.events x.messages.rows x.by_event
      → IsQueued (with_event x e).events x.messages.rows x.by_event
  with_event-IsQueued skipped h = record {
    message_of = λ id r there live. elim (put_found x.events e.id id (event_row e) r there) [
      | inl (is_id, is_row) ↦ absurd (cc (skipped, live, is_row))
      | inr before ↦ h.message_of id r before live
    ];
    event_of = λ mid m there.
        let (r, found, live, back) = h.event_of mid m there in
        (r, put_fresh x.events e.id m.message.event_id (event_row e) r new_key found, live, back);
  }

  -- An event and its message come together.
  pub with_message-IsQueued :
      (m : Message) (now : ℕ)
      → x.messages.rows m.id ≡ none
      → x.by_event m.event_id ≡ none
      → m.event_id ≡ e.id
      → is_skipped e.status ≡ false
      → IsQueued x.events x.messages.rows x.by_event
      → let x' = with_message (with_event x e) m now in
        IsQueued x'.events x'.messages.rows x'.by_event
  with_message-IsQueued m now new_message new_pair same live h = record {
    message_of = λ id r there live'. elim (put_found x.events e.id id (event_row e) r there) [
      | inl (is_id, is_row) ↦ (
        m.id,
        message_row m now,
        rw (is_id, sym same) (put_same x.by_event m.event_id m.id),
        put_same x.messages.rows m.id (message_row m now),
        rw is_id same,
      )
      | inr before ↦
          let (mid, row, back, found, is_mine) = h.message_of id r before live' in
          (
            mid,
            row,
            put_fresh x.by_event m.event_id id m.id mid new_pair back,
            put_fresh x.messages.rows m.id mid (message_row m now) row new_message found,
            is_mine,
          )
    ];
    event_of = λ mid row there.
        elim (put_found x.messages.rows m.id mid (message_row m now) row there) [
          | inl (is_mid, is_row) ↦ rw (sym is_row) (
            event_row e,
            rw same (put_same x.events e.id (event_row e)),
            live,
            rw is_mid (put_same x.by_event m.event_id m.id),
          )
          | inr before ↦
              let (r, found, live', back) = h.event_of mid row before in
              (
                r,
                put_fresh x.events e.id row.message.event_id (event_row e) r new_key found,
                live',
                put_fresh x.by_event m.event_id row.message.event_id m.id mid new_pair back,
              )
        ];
  }
