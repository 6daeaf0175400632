-- ===== src/Messages.antt =====
-- backend/app/services/message_service.py: messages, their order in a channel, and read markers. A call
-- is a transaction on the rows of the core and of the messages: an error keeps nothing, but for the
-- security event of a refused reader or writer, which is committed before the error is raised.
pub mod Publish
pub mod Change
pub mod Seen
pub mod React
pub mod Effects
pub mod Requests
pub mod Steps
pub mod Order
pub mod Retry
pub mod Read
pub mod Tests
use messaging_system.Base.{
  ℕ, ◌+◌, Bool, true, false, ◌&&◌, ◌||◌, not, Option, none, some, List, [], ◌∷◌, ◌++◌, leb, ltb,
  ◌==◌, if◌then◌else◌, is_none, is_some, Result, ok, err, ◌>>=◌, ◌>>◌, guard, or_raise,
}
use messaging_system.Base.Text.{Text}
use messaging_system.Base.Table.{nat_key, pair_key, Table, lookup, put}
use messaging_system.Rbac.{Role, owner, admin, member, pending, can_read}
use messaging_system.Store.{Db, Channel, Membership, Audit, EventType, AppError, Action, Payload}
use messaging_system.Topology.{role_of, enqueue_message_outbox}

pub data ContentType : Type 0 where
  text json : ContentType

-- An attachment of a request, and one as it is stored.
pub data AttachmentReference : Type 0 where
  no_file_id invalid_file_id : AttachmentReference
  file : ℕ → AttachmentReference

pub record Attachment : Type 0 where
  pub file_id : ℕ
  pub content_type : Text
  pub filename : Text
  pub size_bytes : ℕ

pub record Message : Type 0 where
  pub channel_id : ℕ
  pub sender_user_id : ℕ
  pub seq_id : ℕ
  pub content_type : ContentType
  pub content_text : Option Text
  pub content_json : Option Text
  pub reply_to_message_id : Option ℕ
  pub reply_to_seq_id : Option ℕ
  pub attachments : Option (List Attachment)
  pub is_pinned : Bool
  pub client_msg_id : Option ℕ
  pub edited_at : Option ℕ
  pub updated_at : ℕ
  pub deleted_at : Option ℕ

pub record Upload : Type 0 where
  pub owner_user_id : ℕ
  pub filename : Text
  pub content_type : Text
  pub size_bytes : ℕ
  pub public_url : Option Text

pub record Reaction : Type 0 where
  pub message_id : ℕ
  pub user_id : ℕ
  pub emoji : Text

pub record UserChannelState : Type 0 where
  pub last_seen_message_id : Option ℕ
  pub last_seen_seq_id : Option ℕ
  pub last_seen_at : Option ℕ
  pub unread_count : ℕ

-- The rows of channels, members, the outbox and the audit log are those of Store; the rows of a
-- message's attachments are pairs of a message and an upload.
pub record MessageDb : Type 0 where
  pub core : Db
  pub messages : Table ℕ Message
  pub message_attachments : List (ℕ × ℕ)
  pub uploads : Table ℕ Upload
  pub states : Table (ℕ × ℕ) UserChannelState
  pub pins : Table (ℕ × ℕ) ℕ
  pub reactions : List Reaction
  pub next_id : ℕ
  pub next_random : ℕ

pub data MessageError : Type 0 where
  channel_not_found forbidden message_not_found reply_target_not_found : MessageError
  reply_target_mismatch too_many_attachments file_id_required invalid_attachment : MessageError
  duplicate_attachment attachment_not_found forbidden_attachment : MessageError
  attachment_not_uploaded encryption_failed seen_out_of_range seen_required : MessageError
  invalid_order invalid_reaction reaction_quota_exceeded : MessageError
  service : AppError → MessageError
  denied : EventType → ℕ → ℕ → MessageError

abbrev pub Change : Type 0 → Type 0
Change A = Result MessageError (A × MessageDb)

pub record PublishRequest : Type 0 where
  pub content_text : Option Text
  pub content_json : Option Text
  pub reply_to_message_id : Option ℕ
  pub reply_to_seq_id : Option ℕ
  pub attachments : Option (List AttachmentReference)
  pub client_msg_id : Option ℕ

-- backend/app/core/encryption.py: an envelope takes fresh random numbers; JSON is kept as its text.
pub record Encryption : Type 0 where
  pub encrypt_message : ℕ → Text → Option Text
  pub decrypt_message : Text → Option Text
  pub encrypt_json_payload : ℕ → Text → Option Text
  pub decrypt_json_payload : Text → Option Text

-- `_encrypt_payload`
unfoldable pub encrypt_payload :
    Encryption → ℕ → Option Text → Option Text → Result MessageError (Option Text × Option Text)
encrypt_payload e random (some t) _ = elim (e.encrypt_message random t) [
  | none ↦ err MessageError.encryption_failed
  | some c ↦ ok (some c, none)
]
encrypt_payload e random none (some j) = elim (e.encrypt_json_payload random j) [
  | none ↦ err MessageError.encryption_failed
  | some c ↦ ok (none, some c)
]
encrypt_payload e random none none = ok (none, none)

-- `_decrypt_message_content`; the outer option is a failed decryption.
unfoldable pub decrypt_message_content : Encryption → Message → Option (Option Text × Option Text)
decrypt_message_content e m = elim m.content_type [
  | text ↦ elim m.content_text [
    | none ↦ some (none, none)
    | some c ↦ elim (e.decrypt_message c) [ none ↦ none | some t ↦ some (some t, none) ]
  ]
  | json ↦ elim m.content_json [
    | none ↦ some (none, none)
    | some c ↦ elim (e.decrypt_json_payload c) [ none ↦ none | some t ↦ some (none, some t) ]
  ]
]

-- A channel that is not deleted.
unfoldable pub live_channel : ℕ → MessageDb → Result MessageError Channel
live_channel channel_id db = elim (lookup channel_id db.core.channels) [
  | none ↦ err MessageError.channel_not_found
  | some channel ↦
      if is_none channel.deleted_at then ok channel else err MessageError.channel_not_found
]

abbrev pub membership_in : ℕ → ℕ → MessageDb → Option Membership
membership_in channel_id user_id db = lookup (channel_id, user_id) db.core.memberships

-- `_assert_can_read`
unfoldable pub assert_can_read : ℕ → ℕ → MessageDb → Result MessageError (Option Role)
assert_can_read channel_id user_id db = live_channel channel_id db >>= λ channel.
    let role = role_of (membership_in channel_id user_id db) in
    if can_read role
    then ok role
    else err (MessageError.denied EventType.unauthorized_read channel_id user_id)

-- `role in {owner, admin}`
abbrev pub is_moderator : Option Role → Bool
is_moderator (some owner) = true
is_moderator (some admin) = true
is_moderator _ = false

-- A call of the outbox service inside the transaction.
unfoldable pub in_core : Action (Unit {0}) → MessageDb → Change (Unit {0})
in_core action db = elim (action db.core) [
  | err e ↦ err (MessageError.service e)
  | ok (_, core) ↦ ok (tt, record db { core = core })
]

abbrev pub log_event : EventType → ℕ → ℕ → Db → Db
log_event event_type channel_id actor core = record core {
  events =
      core.events
      ++ record { event_type = event_type; channel_id = channel_id; actor_user_id = actor } ∷ [];
}

abbrev pub set_message : ℕ → Message → MessageDb → MessageDb
set_message id m db = record db { messages = put id m db.messages }

-- The database after a call: what it wrote, or the security event of its refusal.
unfoldable pub settled : {A : Type 0} → Change A → MessageDb → MessageDb
settled (ok (a, db')) db = db'
settled (err e) db = elim e [
  | denied event channel_id actor ↦ record db { core = log_event event channel_id actor db.core }
  | _ ↦ db
]
