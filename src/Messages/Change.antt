-- ===== src/Messages/Change.antt =====
-- backend/app/services/message_service.py: the edit, deletion and pin of a message.
use messaging_system.Base.{
  ℕ, ◌+◌, Bool, true, false, ◌||◌, Option, none, some, ◌==◌, if◌then◌else◌, is_none, Result, ok,
  err, ◌>>=◌, ◌>>◌, guard,
}
use messaging_system.Base.Text.{Text}
use messaging_system.Base.Table.{nat_key, pair_key, lookup, put, remove}
use messaging_system.Rbac.{Role}
use messaging_system.Store.{Payload}
use messaging_system.Topology.{enqueue_message_outbox}
use messaging_system.Messages.{
  ContentType, Message, MessageDb, MessageError, Change, Encryption, encrypt_payload,
  assert_can_read, is_moderator, in_core, set_message,
}

-- The message of the channel.
unfoldable pub message_in : ℕ → ℕ → MessageDb → Result MessageError Message
message_in channel_id message_id db = elim (lookup message_id db.messages) [
  | none ↦ err MessageError.message_not_found
  | some m ↦ if m.channel_id == channel_id then ok m else err MessageError.message_not_found
]

-- `message.sender_user_id != actor_user_id and role not in {owner, admin}` refuses.
abbrev pub may_change : Option Role → ℕ → Message → Bool
may_change role actor_user_id m = (m.sender_user_id == actor_user_id) || is_moderator role

abbrev pub edited : ℕ → Option Text → Option Text → Option Text → Message → Message
edited now plain_text text json m = record m {
  content_type = elim plain_text [ none ↦ ContentType.json | some _ ↦ ContentType.text ];
  content_text = text;
  content_json = json;
  edited_at = some now;
  updated_at = now;
}

-- The tombstone: the content goes, the place in the channel stays.
abbrev pub tombstone : ℕ → Message → Message
tombstone now m = record m {
  deleted_at = some now;
  updated_at = now;
  content_text = none;
  content_json = none;
}

module _ (outbox_max_attempts : ℕ) where
  -- The new row of a message, announced to the channel.
  unfoldable pub save_message : ℕ → ℕ → Message → MessageDb → Change Message
  save_message channel_id message_id m db = do
    (_, db') ←
        in_core
          (enqueue_message_outbox outbox_max_attempts channel_id
            (Payload.message_updated message_id m.seq_id))
          (set_message message_id m db)
    ok (m, db')

  unfoldable pub edit_message :
      Encryption → ℕ → ℕ → ℕ → ℕ → Option Text → Option Text → MessageDb → Change Message
  edit_message encryption now channel_id actor_user_id message_id content_text content_json db = do
    role ← assert_can_read channel_id actor_user_id db
    m ← message_in channel_id message_id db
    guard (is_none m.deleted_at) MessageError.message_not_found
    guard (may_change role actor_user_id m) MessageError.forbidden
    (text, json) ← encrypt_payload encryption db.next_random content_text content_json
    save_message channel_id message_id (edited now content_text text json m)
        (record db { next_random = db.next_random + 1 })

  unfoldable pub delete_message : ℕ → ℕ → ℕ → ℕ → MessageDb → Change Message
  delete_message now channel_id actor_user_id message_id db = do
    role ← assert_can_read channel_id actor_user_id db
    m ← message_in channel_id message_id db
    guard (may_change role actor_user_id m) MessageError.forbidden
    elim m.deleted_at [
      | some _ ↦ ok (m, db)
      | none ↦ save_message channel_id message_id (tombstone now m) db
    ]

  unfoldable pub pin_message : ℕ → ℕ → ℕ → MessageDb → Change Message
  pin_message channel_id message_id actor_user_id db = do
    role ← assert_can_read channel_id actor_user_id db
    guard (is_moderator role) MessageError.forbidden
    m ← message_in channel_id message_id db
    save_message channel_id message_id (record m { is_pinned = true })
        (record db {
          pins = elim (lookup (channel_id, message_id) db.pins) [
            | none ↦ put (channel_id, message_id) actor_user_id db.pins
            | some _ ↦ db.pins
          ];
        })

  -- A message that is missing, or in another channel, is left alone.
  unfoldable pub unpin_message : ℕ → ℕ → ℕ → MessageDb → Change (Option Message)
  unpin_message channel_id message_id actor_user_id db = do
    role ← assert_can_read channel_id actor_user_id db
    guard (is_moderator role) MessageError.forbidden
    let unpinned = record db { pins = remove (channel_id, message_id) db.pins }
    elim (message_in channel_id message_id db) [
      | err _ ↦ ok (none, unpinned)
      | ok m ↦
          save_message channel_id message_id (record m { is_pinned = false }) unpinned >>= λ saved.
          ok (some saved.0, saved.1)
    ]
