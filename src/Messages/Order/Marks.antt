-- ===== src/Messages/Order/Marks.antt =====
-- Pins and read markers of backend/app/services/message_service.py against the order of a channel.
use messaging_system.Base.{
  ℕ, ◌≤◌, ◌≡◌, refl, sym, subst, ap, ◌∙◌, inl, inr, Bool, true, false, Option, none, some, ltb, leb,
  ok, Bool-cases, Option-cases, Result-cases, arith,
}
use messaging_system.Base.Table.{nat_key, pair_key, lookup, put, remove}
use messaging_system.Store.{Channel, Payload, Aggregate}
use messaging_system.Topology.{enqueue_channel_event_outbox}
use messaging_system.Messages.{
  Message, MessageDb, Change, UserChannelState, live_channel, in_core, assert_can_read,
  is_moderator,
}
use messaging_system.Messages.Change.{message_in, save_message, pin_message, unpin_message}
use messaging_system.Messages.Seen.{
  SeenRequest, requested_marker, move_marker, marker_state, mark_seen, or_zero,
}
use messaging_system.Messages.Effects.{event_outbox-eq}
use messaging_system.Messages.Steps.{Later, Step, quiet, advanced}
use messaging_system.Messages.Order.Calls.{live_channel-there, message_in-there}
use messaging_system.Messages.Order.Serves.{nothing, save_message-Step}

ok_inj : {A : Type 0} {x y : A × MessageDb} → ◌≡◌ {A = Change A} (ok x) (ok y) → x ≡ y
ok_inj h = cc

module _ (k : ℕ) where
  pinned-Later : (b : Bool) (m : Message) → Later m (record m { is_pinned = b })
  pinned-Later b m = record {
    same_channel = refl;
    same_seq = refl;
    same_sender = refl;
    same_client = refl;
    still_deleted = λ z. refl;
    same_text = λ z. refl;
    same_json = λ z. refl;
  }

  pub pin-Step :
      (c id u : ℕ) (db db' : MessageDb) (x : Message)
      → pin_message k c id u db ≡ ok (x, db')
      → Step db db'
  unfolding pin_message
  pin-Step c id u db db' x h = elim (Result-cases (assert_can_read c u db)) [
    | inr (y, p) ↦ absurd (cc (rw (p, pin_message) at h))
    | inl (role, p) ↦ elim (Bool-cases (is_moderator role)) [
      | inr t ↦ absurd (cc (rw (p, t, pin_message) at h))
      | inl t ↦ elim (Result-cases (message_in c id db)) [
        | inr (y, q) ↦ absurd (cc (rw (p, q, t, pin_message) at h))
        | inl (m, q) ↦
            save_message-Step k c id m (record m { is_pinned = true }) x db _ db'
              (message_in-there c id db m q) (pinned-Later true m) refl refl refl refl
              (rw (p, q, t, pin_message) at h)
      ]
    ]
  ]

  pub unpin-Step :
      (c id u : ℕ) (db db' : MessageDb) (x : Option Message)
      → unpin_message k c id u db ≡ ok (x, db')
      → Step db db'
  unfolding unpin_message
  unpin-Step c id u db db' x h = elim (Result-cases (assert_can_read c u db)) [
    | inr (y, p) ↦ absurd (cc (rw (p, unpin_message) at h))
    | inl (role, p) ↦ elim (Bool-cases (is_moderator role)) [
      | inr t ↦ absurd (cc (rw (p, t, unpin_message) at h))
      | inl t ↦ elim (Result-cases (message_in c id db)) [
        | inr (y, q) ↦
            let r = ap (λ z. z.1) (let v = rw (p, q, t, unpin_message) at h in ok_inj v) in
            quiet (sym (ap (λ z. z.messages) r)) (sym (ap (λ z. z.core.channels) r))
              (sym (ap (λ z. z.states) r)) (sym (ap (λ z. z.next_id) r))
        | inl (m, q) ↦
            let unpinned = record db { pins = remove (c, id) db.pins } in
            elim (Result-cases (save_message k c id (record m { is_pinned = false }) unpinned)) [
              | inr (y, r) ↦ absurd (cc (rw (p, q, t, r, unpin_message) at h))
              | inl ((y, d), r) ↦
                  let v : d ≡ db' = cc (rw (p, q, t, r, unpin_message) at h) in
                  subst (λ z. Step db z) v
                    (save_message-Step k c id m (record m { is_pinned = false }) y db unpinned d
                      (message_in-there c id db m q) (pinned-Later false m) refl refl refl refl r)
            ]
      ]
    ]
  ]

  move_marker-Step :
      (now c u : ℕ) (id : Option ℕ) (n : ℕ) (req : SeenRequest) (db db' : MessageDb) (ch : Channel)
      (x : UserChannelState)
      → lookup c db.core.channels ≡ some ch
      → n ≤ ch.last_seq_id
      → ((old : UserChannelState)
          → lookup (c, u) db.states ≡ some old
          → or_zero old.last_seen_seq_id ≤ n)
      → move_marker k now c u id n req db ≡ ok (x, db')
      → Step db db'
  unfolding move_marker
  move_marker-Step now c u id n req db db' ch x at le up h =
      let state = marker_state now c n id req db in
      let payload = Payload.seen u n state.unread_count in
      let marked = record db { states = put (c, u) state db.states } in
      elim (Result-cases
        (in_core (enqueue_channel_event_outbox k Aggregate.seen c payload) marked)) [
          | inr (y, p) ↦ absurd (cc (rw (p, move_marker) at h))
          | inl ((y, d), p) ↦
              let (rows, q) = event_outbox-eq k c Aggregate.seen payload marked d y p in
              let r : d ≡ db' = cc (rw (p, move_marker) at h) in
              let t = sym r ∙ q in
              advanced c u state ch at le up (ap (λ z. z.messages) t) (ap (λ z. z.core.channels) t)
                (ap (λ z. z.states) t) (ap (λ z. z.next_id) t)
        ]

  pub seen-Step :
      (now c u : ℕ) (req : SeenRequest) (db db' : MessageDb) (x : UserChannelState)
      → mark_seen k now c u req db ≡ ok (x, db')
      → Step db db'
  unfolding mark_seen
  seen-Step now c u req db db' x h = elim (Result-cases (assert_can_read c u db)) [
    | inr (y, p) ↦ absurd (cc (rw (p, mark_seen) at h))
    | inl (role, p) ↦ elim (Result-cases (live_channel c db)) [
      | inr (y, q) ↦ absurd (cc (rw (p, q, mark_seen) at h))
      | inl (ch, q) ↦ elim (Result-cases (requested_marker c req db)) [
        | inr (y, r) ↦ absurd (cc (rw (p, q, r, mark_seen) at h))
        | inl ((none, id), r) ↦ absurd (cc (rw (p, q, r, mark_seen) at h))
        | inl ((some n, id), r) ↦ elim (Bool-cases (ltb ch.last_seq_id n)) [
          | inl t ↦ absurd (cc (rw (p, q, r, t, mark_seen) at h))
          | inr t ↦
              let move =
                move_marker-Step now c u id n req db db' ch x (live_channel-there c db ch q)
                  (ground arith) in
              elim (Option-cases (lookup (c, u) db.states)) [
                | inl v ↦ move (λ old there. absurd (cc)) (rw (p, q, r, t, v, mark_seen) at h)
                | inr (state, v) ↦ elim (Bool-cases (leb n (or_zero state.last_seen_seq_id))) [
                  | inl b ↦
                      let z : db ≡ db' = cc (rw (p, q, r, t, v, b, mark_seen) at h) in
                      subst (λ y. Step db y) z (nothing db)
                  | inr b ↦
                      move
                        (λ old there.
                          let e : state ≡ old = cc in
                          let f = ap (λ y. or_zero y.last_seen_seq_id) e in ground arith)
                        (rw (p, q, r, t, v, b, mark_seen) at h)
                ]
              ]
        ]
      ]
    ]
  ]
