-- ===== src/Messages/Steps.antt =====
-- The changes that a call of backend/app/services/message_service.py makes to messages and markers.
use messaging_system.Base.{
  ℕ, ◌+◌, ◌≤◌, ◌≡◌, refl, sym, subst, ◌∙◌, true, some, [], ◌∷◌, ◌++◌, is_some,
}
use messaging_system.Base.Table.{nat_key, pair_key, lookup, put}
use messaging_system.Store.{Channel}
use messaging_system.Messages.{Message, MessageDb, UserChannelState}
use messaging_system.Messages.Seen.{or_zero}

-- What a message may become: its place and its author stay, and once it is deleted its content stays
-- as it was left.
pub record Later (m m' : Message) : Type 0 where
  pub same_channel : m'.channel_id ≡ m.channel_id
  pub same_seq : m'.seq_id ≡ m.seq_id
  pub same_sender : m'.sender_user_id ≡ m.sender_user_id
  pub same_client : m'.client_msg_id ≡ m.client_msg_id
  pub still_deleted : is_some m.deleted_at ≡ true → m'.deleted_at ≡ m.deleted_at
  pub same_text : is_some m.deleted_at ≡ true → m'.content_text ≡ m.content_text
  pub same_json : is_some m.deleted_at ≡ true → m'.content_json ≡ m.content_json

pub Later-refl : (m : Message) → Later m m
Later-refl m = record {
  same_channel = refl;
  same_seq = refl;
  same_sender = refl;
  same_client = refl;
  still_deleted = λ h. refl;
  same_text = λ h. refl;
  same_json = λ h. refl;
}

pub Later-trans : (a b c : Message) → Later a b → Later b c → Later a c
Later-trans a b c p q =
    let later : is_some a.deleted_at ≡ true → is_some b.deleted_at ≡ true =
      λ h. subst (λ x. is_some x ≡ true) (sym (p.still_deleted h)) h in
    record {
      same_channel = q.same_channel ∙ p.same_channel;
      same_seq = q.same_seq ∙ p.same_seq;
      same_sender = q.same_sender ∙ p.same_sender;
      same_client = q.same_client ∙ p.same_client;
      still_deleted = λ h. q.still_deleted (later h) ∙ p.still_deleted h;
      same_text = λ h. q.same_text (later h) ∙ p.same_text h;
      same_json = λ h. q.same_json (later h) ∙ p.same_json h;
    }

-- One change of the messages, of a channel's last number, or of a read marker.
pub data Step (db db' : MessageDb) : Type 0 where
  quiet :
      db'.messages ≡ db.messages
      → db'.core.channels ≡ db.core.channels
      → db'.states ≡ db.states
      → db'.next_id ≡ db.next_id
      → Step db db'
  published :
      (m : Message) (ch : Channel)
      → lookup m.channel_id db.core.channels ≡ some ch
      → m.seq_id ≡ ch.last_seq_id + 1
      → db'.messages ≡ db.messages ++ (db.next_id, m) ∷ []
      → db'.core.channels ≡ put m.channel_id (record ch { last_seq_id = m.seq_id }) db.core.channels
      → db'.states ≡ db.states
      → db'.next_id ≡ db.next_id + 1
      → Step db db'
  changed :
      (id : ℕ) (m m' : Message)
      → lookup id db.messages ≡ some m
      → Later m m'
      → db'.messages ≡ put id m' db.messages
      → db'.core.channels ≡ db.core.channels
      → db'.states ≡ db.states
      → db'.next_id ≡ db.next_id
      → Step db db'
  advanced :
      (c u : ℕ) (s : UserChannelState) (ch : Channel)
      → lookup c db.core.channels ≡ some ch
      → or_zero s.last_seen_seq_id ≤ ch.last_seq_id
      → ((old : UserChannelState)
          → lookup (c, u) db.states ≡ some old
          → or_zero old.last_seen_seq_id ≤ or_zero s.last_seen_seq_id)
      → db'.messages ≡ db.messages
      → db'.core.channels ≡ db.core.channels
      → db'.states ≡ put (c, u) s db.states
      → db'.next_id ≡ db.next_id
      → Step db db'
