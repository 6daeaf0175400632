-- ===== src/Messages/Seen.antt =====
-- backend/app/services/message_service.py: mark_seen.
use messaging_system.Base.{
  ℕ, ◌+◌, ◌&&◌, Option, none, some, [], ◌∷◌, leb, ltb, ◌==◌, if◌then◌else◌, is_none, Result, ok,
  err, ◌>>=◌,
}
use messaging_system.Base.Table.{nat_key, pair_key, Table, lookup, put}
use messaging_system.Store.{Payload, Aggregate}
use messaging_system.Topology.{enqueue_channel_event_outbox}
use messaging_system.Messages.{
  Message, MessageDb, MessageError, Change, UserChannelState, assert_can_read, live_channel,
  in_core,
}
use messaging_system.Messages.Change.{message_in}

pub record SeenRequest : Type 0 where
  pub last_seen_message_id : Option ℕ
  pub last_seen_seq_id : Option ℕ
  pub last_seen_at : Option ℕ

abbrev pub or_zero : Option ℕ → ℕ
or_zero none = 0
or_zero (some n) = n

abbrev pub otherwise : Option ℕ → ℕ → ℕ
otherwise none n = n
otherwise (some m) n = m

-- The sequence number that is asked for, with the message that it was asked by.
unfoldable pub requested_marker :
    ℕ → SeenRequest → MessageDb → Result MessageError (Option ℕ × Option ℕ)
requested_marker channel_id req db = elim req.last_seen_message_id [
  | none ↦ ok (req.last_seen_seq_id, none)
  | some id ↦ message_in channel_id id db >>= λ m. elim req.last_seen_seq_id [
    | none ↦ ok (some m.seq_id, some id)
    | some n ↦ ok (some n, none)
  ]
]

-- The messages after a marker that count as unread: replies and deleted ones do not.
unfoldable pub unread : ℕ → ℕ → Table ℕ Message → ℕ
unread channel_id seen_seq [] = 0
unread channel_id seen_seq ((id, m) ∷ rows) =
    (if m.channel_id == channel_id
        && is_none m.deleted_at
        && ltb seen_seq m.seq_id
        && is_none m.reply_to_message_id
        && is_none m.reply_to_seq_id
      then 1
      else 0)
    + unread channel_id seen_seq rows

abbrev pub marker_state : ℕ → ℕ → ℕ → Option ℕ → SeenRequest → MessageDb → UserChannelState
marker_state now channel_id seq_id message_id req db = record {
  last_seen_message_id = message_id;
  last_seen_seq_id = some seq_id;
  last_seen_at = some (otherwise req.last_seen_at now);
  unread_count = unread channel_id seq_id db.messages;
}

module _ (outbox_max_attempts : ℕ) where
  -- A marker that moves forward.
  unfoldable pub move_marker :
      ℕ → ℕ → ℕ → Option ℕ → ℕ → SeenRequest → MessageDb → Change UserChannelState
  move_marker now channel_id user_id message_id seq_id req db = do
    let state = marker_state now channel_id seq_id message_id req db
    (_, db') ←
        in_core
          (enqueue_channel_event_outbox outbox_max_attempts Aggregate.seen channel_id
            (Payload.seen user_id seq_id state.unread_count))
          (record db { states = put (channel_id, user_id) state db.states })
    ok (state, db')

  unfoldable pub mark_seen : ℕ → ℕ → ℕ → SeenRequest → MessageDb → Change UserChannelState
  mark_seen now channel_id user_id req db = do
    role ← assert_can_read channel_id user_id db
    channel ← live_channel channel_id db
    (seq, message_id) ← requested_marker channel_id req db
    elim seq [
      | none ↦ err MessageError.seen_required
      | some n ↦
          if ltb channel.last_seq_id n
          then err MessageError.seen_out_of_range
          else elim (lookup (channel_id, user_id) db.states) [
            | none ↦ move_marker now channel_id user_id message_id n req db
            | some state ↦
                if leb n (or_zero state.last_seen_seq_id)
                then ok (state, db)
                else move_marker now channel_id user_id message_id n req db
          ]
    ]
