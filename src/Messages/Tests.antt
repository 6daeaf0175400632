-- ===== src/Messages/Tests.antt =====
-- Two messages and a read marker in the channel of the membership tests.
use messaging_system.Base.{ℕ, ◌≡◌, refl, false, Option, none, some, List, [], ◌∷◌, ok, err, arith}
use messaging_system.Base.Text.{codes, text_eq}
use messaging_system.Base.Table.{nat_key, lookup, put}
use messaging_system.Identifier.{
  normalize_channel_slug, normalize_identifier, strip, lstrip, rstrip, keep, is_space, lower,
  is_safe_identifier, is_safe_char,
}
use messaging_system.Rbac.{
  Role, can_publish, can_read, build_permissions, normalize_admin_permissions,
}
use messaging_system.Store.{◌>>=◌}
use messaging_system.Topology.{
  get_channel, get_channel_delivery_state, enqueue, enqueue_message_outbox,
}
use messaging_system.Membership.Tests.{office}
use messaging_system.Messages.{
  ContentType, Message, MessageDb, Change, PublishRequest, Encryption, encrypt_payload,
  live_channel, assert_can_read, in_core,
}
use messaging_system.Messages.Publish.{
  normalize_attachments, resolve_reply_target, may_publish, find_client, add_message, new_message,
  save_new, publish_new, publish_message,
}
use messaging_system.Messages.Requests.{MessageRequest, MessageSettings, Timed, run}
use messaging_system.Messages.Order.{Sequenced, Lasting}
use messaging_system.Messages.Order.Runs.{run-Sequenced, run-Lasting}
use messaging_system.Messages.Retry.{publish_retry}
use messaging_system.Messages.Read.{by_seq, insert_row, visible}
use messaging_system.Messages.Read.Paging.{read_all}
use messaging_system.Messages.Read.Whole.{read_all_total}

abbrev start : MessageDb
start = record {
  core = office;
  messages = [];
  message_attachments = [];
  uploads = [];
  states = [];
  pins = [];
  reactions = [];
  next_id = 1;
  next_random = 1;
}

start-Sequenced : Sequenced start
unfolding lookup
start-Sequenced = record {
  known = λ id m h. absurd (cc);
  positive = λ id m h. absurd (cc);
  placed = λ id m h. absurd (cc);
  distinct = λ id j m n h k e f. absurd (cc);
  marked = λ c u s h. absurd (cc);
}

abbrev plain : Encryption
plain = record {
  encrypt_message = λ random t. some t;
  decrypt_message = λ c. some c;
  encrypt_json_payload = λ random t. some t;
  decrypt_json_payload = λ c. some c;
}

abbrev settings : MessageSettings
settings = record {
  outbox_max_attempts = 5;
  max_distinct_reactions_per_message = 20;
  encryption = plain;
  sort_emoji = λ l. l;
  is_other = λ c. false;
}

abbrev hello : PublishRequest
hello = record {
  content_text = some (codes "hello");
  content_json = none;
  reply_to_message_id = none;
  reply_to_seq_id = none;
  attachments = none;
  client_msg_id = some 77;
}

abbrev first_requests : List Timed
first_requests =
    (5, 10, 1, MessageRequest.publish hello)
    ∷ (6, 10, 2, MessageRequest.publish (record hello { client_msg_id = none }))
    ∷ []

abbrev later_requests : List Timed
later_requests =
    (7, 10, 1, MessageRequest.edit 2 (some (codes "hi")) none)
    ∷ (8, 10, 3, MessageRequest.remove_one 1)
    ∷ (8, 10, 3, MessageRequest.react 1 (128077 ∷ []))
    ∷ (9, 10, 1, MessageRequest.remove_one 1)
    ∷ (
      9,
      10,
      3,
      MessageRequest.see
          (record { last_seen_message_id = none; last_seen_seq_id = some 2; last_seen_at = none }),
    )
    ∷ []

run-Sequenced_example : Sequenced (run settings first_requests start)
run-Sequenced_example = run-Sequenced settings first_requests start start-Sequenced

run-Lasting_example :
    Lasting
      (run settings first_requests start)
      (run settings later_requests (run settings first_requests start))
run-Lasting_example =
    run-Lasting settings later_requests (run settings first_requests start)
      (run-Sequenced settings first_requests start start-Sequenced)

abbrev row : ℕ → Option ℕ → Message
row seq client = record {
  channel_id = 10;
  sender_user_id = 1;
  seq_id = seq;
  content_type = ContentType.text;
  content_text = some (codes "hello");
  content_json = none;
  reply_to_message_id = none;
  reply_to_seq_id = none;
  attachments = none;
  is_pinned = false;
  client_msg_id = client;
  edited_at = none;
  updated_at = 5;
  deleted_at = none;
}

abbrev two : MessageDb
two = record start { messages = (2, row 4 none) ∷ (1, row 3 (some 77)) ∷ []; next_id = 3 }

read_all_total_example :
    read_all 3 10 3 1 none two ≡ some ((1, row 3 (some 77)) ∷ (2, row 4 none) ∷ [])
unfolding lookup can_read live_channel assert_can_read by_seq insert_row visible
read_all_total_example =
    read_all_total 10 3 two (some Role.member) refl ((λ h. omega arith, tt), (tt, tt)) 3 0 none
      (omega arith)

abbrev state_of : Change (ℕ × Message) → MessageDb
state_of (ok (a, db)) = db
state_of (err e) = start

publish_retry_example :
    publish_message 5 plain 9 10 1 hello (state_of (publish_message 5 plain 5 10 1 hello start))
    ≡ ok ((1, row 1 (some 77)), state_of (publish_message 5 plain 5 10 1 hello start))
unfolding lookup put text_eq normalize_channel_slug normalize_identifier strip lstrip rstrip keep
    is_space lower is_safe_identifier is_safe_char can_publish build_permissions
    normalize_admin_permissions get_channel get_channel_delivery_state enqueue
    enqueue_message_outbox ◌>>=◌ encrypt_payload live_channel in_core normalize_attachments
    resolve_reply_target may_publish find_client add_message new_message save_new publish_new
    publish_message
publish_retry_example =
    publish_retry 5 plain 5 9 10 1 77 hello start
      (state_of (publish_message 5 plain 5 10 1 hello start)) 1 (row 1 (some 77)) refl refl
