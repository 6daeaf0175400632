-- ===== src/Messages/Publish.antt =====
-- backend/app/services/message_service.py: publish_message with its attachments and its reply target.
-- A transaction runs alone, so its commit meets no conflict with another one.
use messaging_system.Base.{
  ℕ, ◌+◌, Bool, true, false, ◌&&◌, ◌||◌, Option, none, some, List, [], ◌∷◌, ◌++◌, ltb, ◌==◌,
  if◌then◌else◌, is_none, is_some, Result, ok, err, ◌>>=◌, ◌>>◌, guard, length, map,
}
use messaging_system.Base.Text.{Text}
use messaging_system.Base.Table.{nat_key, pair_key, Table, lookup, put}
use messaging_system.Rbac.{Role, member, RawPermissions, can_publish}
use messaging_system.Store.{Channel, Membership, EventType, Payload}
use messaging_system.Topology.{role_of, enqueue_message_outbox}
use messaging_system.Messages.{
  ContentType, AttachmentReference, no_file_id, invalid_file_id, file, Attachment, Message,
  MessageDb, MessageError, Change, PublishRequest, Encryption, encrypt_payload, live_channel,
  membership_in, in_core, log_event,
}

abbrev pub has_number : ℕ → List ℕ → Bool
has_number n [] = false
has_number n (x ∷ xs) = (x == n) || has_number n xs

abbrev pub is_empty : Option Text → Bool
is_empty none = true
is_empty (some []) = true
is_empty (some (c ∷ s)) = false

-- One item of the loop of `_normalize_attachments`, on the ids that were seen before.
unfoldable pub normalize_attachment :
    MessageDb → ℕ → List ℕ → AttachmentReference → Result MessageError Attachment
normalize_attachment db actor_user_id seen no_file_id = err MessageError.file_id_required
normalize_attachment db actor_user_id seen invalid_file_id = err MessageError.invalid_attachment
normalize_attachment db actor_user_id seen (file id) =
    if has_number id seen
    then err MessageError.duplicate_attachment
    else elim (lookup id db.uploads) [
      | none ↦ err MessageError.attachment_not_found
      | some upload ↦
          if upload.owner_user_id == actor_user_id
          then if is_empty upload.public_url
            then err MessageError.attachment_not_uploaded
            else ok (record {
              file_id = id;
              content_type = upload.content_type;
              filename = upload.filename;
              size_bytes = upload.size_bytes;
            })
          else err MessageError.forbidden_attachment
    ]

unfoldable pub normalize_items :
    MessageDb → ℕ → List ℕ → List AttachmentReference → Result MessageError (List Attachment)
normalize_items db actor_user_id seen [] = ok []
normalize_items db actor_user_id seen (item ∷ items) = do
  attachment ← normalize_attachment db actor_user_id seen item
  rest ← normalize_items db actor_user_id (attachment.file_id ∷ seen) items
  ok (attachment ∷ rest)

-- `_normalize_attachments`
unfoldable pub normalize_attachments :
    MessageDb
    → ℕ
    → Option (List AttachmentReference)
    → Result MessageError (Option (List Attachment))
normalize_attachments db actor_user_id none = ok none
normalize_attachments db actor_user_id (some []) = ok (some [])
normalize_attachments db actor_user_id (some (item ∷ items)) =
    if ltb 10 (length (item ∷ items))
    then err MessageError.too_many_attachments
    else normalize_items db actor_user_id [] (item ∷ items) >>= λ normalized. ok (some normalized)

-- The live message of the channel with the sequence number.
unfoldable pub find_seq : ℕ → ℕ → Table ℕ Message → Option (ℕ × Message)
find_seq channel_id seq_id [] = none
find_seq channel_id seq_id ((id, m) ∷ rows) =
    if m.channel_id == channel_id && (m.seq_id == seq_id) && is_none m.deleted_at
    then some (id, m)
    else find_seq channel_id seq_id rows

-- `_resolve_reply_target`
unfoldable pub resolve_reply_target :
    MessageDb → ℕ → Option ℕ → Option ℕ → Result MessageError (Option ℕ × Option ℕ)
resolve_reply_target db channel_id none none = ok (none, none)
resolve_reply_target db channel_id (some id) seq = elim (lookup id db.messages) [
  | none ↦ err MessageError.reply_target_not_found
  | some m ↦
      if m.channel_id == channel_id && is_none m.deleted_at
      then elim seq [
        | none ↦ ok (some id, some m.seq_id)
        | some n ↦
            if m.seq_id == n
            then ok (some id, some m.seq_id)
            else err MessageError.reply_target_mismatch
      ]
      else err MessageError.reply_target_not_found
]
resolve_reply_target db channel_id none (some n) = elim (find_seq channel_id n db.messages) [
  | none ↦ err MessageError.reply_target_not_found
  | some (id, m) ↦ ok (some id, some m.seq_id)
]

abbrev pub is_member : Option Role → Bool
is_member (some member) = true
is_member _ = false

abbrev pub permissions_of : Option Membership → Option RawPermissions
permissions_of none = none
permissions_of (some m) = m.admin_permissions

-- Who may write: a publisher, or a member who replies.
unfoldable pub may_publish : Option Membership → PublishRequest → Bool
may_publish membership req =
    can_publish (role_of membership) (permissions_of membership)
    || (is_member (role_of membership)
        && (is_some req.reply_to_message_id || is_some req.reply_to_seq_id))

abbrev pub is_client : Option ℕ → ℕ → Bool
is_client none n = false
is_client (some k) n = k == n

-- The message that the sender already published under the client's id.
unfoldable pub find_client : ℕ → ℕ → ℕ → Table ℕ Message → Option (ℕ × Message)
find_client channel_id sender_id client [] = none
find_client channel_id sender_id client ((id, m) ∷ rows) =
    if m.channel_id == channel_id
      && (m.sender_user_id == sender_id)
      && is_client m.client_msg_id client
    then some (id, m)
    else find_client channel_id sender_id client rows

abbrev pub existing_message : ℕ → ℕ → PublishRequest → MessageDb → Option (ℕ × Message)
existing_message channel_id sender_id req db = elim req.client_msg_id [
  | none ↦ none
  | some client ↦ find_client channel_id sender_id client db.messages
]

abbrev pub listed : Option (List Attachment) → List Attachment
listed none = []
listed (some l) = l

-- The rows that a new message writes, before its outbox row.
unfoldable pub add_message : ℕ → Channel → Message → MessageDb → MessageDb
add_message channel_id channel m db = record db {
  core = record db.core {
    channels = put channel_id (record channel { last_seq_id = m.seq_id }) db.core.channels;
  };
  messages = db.messages ++ (db.next_id, m) ∷ [];
  message_attachments =
      db.message_attachments ++ map (λ a. (db.next_id, a.file_id)) (listed m.attachments);
  next_id = db.next_id + 1;
  next_random = db.next_random + 1;
}

abbrev pub content_type_of : PublishRequest → ContentType
content_type_of req = elim req.content_json [ none ↦ ContentType.text | some _ ↦ ContentType.json ]

unfoldable pub new_message :
    ℕ
    → ℕ
    → ℕ
    → ℕ
    → PublishRequest
    → Option (List Attachment)
    → Option ℕ × Option ℕ
    → Option Text × Option Text
    → Message
new_message now channel_id seq_id sender_id req attachments reply content = record {
  channel_id = channel_id;
  sender_user_id = sender_id;
  seq_id = seq_id;
  content_type = content_type_of req;
  content_text = content.0;
  content_json = content.1;
  reply_to_message_id = reply.0;
  reply_to_seq_id = reply.1;
  attachments = attachments;
  is_pinned = false;
  client_msg_id = req.client_msg_id;
  edited_at = none;
  updated_at = now;
  deleted_at = none;
}

module _ (outbox_max_attempts : ℕ) (encryption : Encryption) where
  -- The rows of the message, its outbox row and its event.
  unfoldable pub save_new : ℕ → Channel → Message → MessageDb → Change (ℕ × Message)
  save_new channel_id channel m db = do
    (_, db') ←
        in_core
          (enqueue_message_outbox outbox_max_attempts channel_id
            (Payload.message db.next_id m.seq_id))
          (add_message channel_id channel m db)
    ok (
      (db.next_id, m),
      record db' {
        core = log_event EventType.message_published channel_id m.sender_user_id db'.core;
      },
    )

  -- The part of `publish_message` after the look for an earlier message of the client.
  unfoldable pub publish_new :
      ℕ → ℕ → Channel → ℕ → PublishRequest → MessageDb → Change (ℕ × Message)
  publish_new now channel_id channel sender_id req db = do
    attachments ← normalize_attachments db sender_id req.attachments
    reply ← resolve_reply_target db channel_id req.reply_to_message_id req.reply_to_seq_id
    content ← encrypt_payload encryption db.next_random req.content_text req.content_json
    save_new channel_id channel
        (new_message now channel_id (channel.last_seq_id + 1) sender_id req attachments reply
          content)
        db

  unfoldable pub publish_message : ℕ → ℕ → ℕ → PublishRequest → MessageDb → Change (ℕ × Message)
  publish_message now channel_id sender_id req db = do
    channel ← live_channel channel_id db
    guard (may_publish (membership_in channel_id sender_id db) req)
        (MessageError.denied EventType.unauthorized_publish channel_id sender_id)
    elim (existing_message channel_id sender_id req db) [
      | some found ↦ ok (found, db)
      | none ↦ publish_new now channel_id channel sender_id req db
    ]
