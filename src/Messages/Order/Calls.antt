-- ===== src/Messages/Order/Calls.antt =====
-- The calls of backend/app/services/message_service.py as changes of messages and markers.
use messaging_system.Base.{
  ℕ, ◌+◌, ◌≡◌, refl, sym, subst, ap, ◌∙◌, inl, inr, none, some, List, [], ◌∷◌, ◌++◌, ◌==◌, is_none,
  ok, Bool-cases, Option-cases, Result-cases,
}
use messaging_system.Base.Table.{nat_key, pair_key, lookup, put}
use messaging_system.Store.{Channel, Payload, EventType, Outbox}
use messaging_system.Topology.{enqueue_message_outbox}
use messaging_system.Messages.{
  Message, MessageDb, PublishRequest, Encryption, live_channel, encrypt_payload, in_core, log_event,
}
use messaging_system.Messages.Publish.{
  add_message, normalize_attachments, resolve_reply_target, publish_new, save_new, new_message,
  content_type_of,
}
use messaging_system.Messages.Change.{message_in}
use messaging_system.Messages.Effects.{with_outbox, message_outbox-eq}

pub live_channel-there :
    (c : ℕ) (db : MessageDb) (ch : Channel)
    → live_channel c db ≡ ok ch
    → lookup c db.core.channels ≡ some ch
unfolding live_channel
live_channel-there c db ch h = elim (Option-cases (lookup c db.core.channels)) [
  | inl e ↦ absurd (cc (rw (e, live_channel) at h))
  | inr (x, e) ↦ elim (Bool-cases (is_none x.deleted_at)) [
    | inl f ↦ (let q = rw (e, f, live_channel) at h in cc)
    | inr f ↦ absurd (cc (rw (e, f, live_channel) at h))
  ]
]

pub message_in-there :
    (c id : ℕ) (db : MessageDb) (m : Message)
    → message_in c id db ≡ ok m
    → lookup id db.messages ≡ some m
unfolding message_in
message_in-there c id db m h = elim (Option-cases (lookup id db.messages)) [
  | inl e ↦ absurd (cc (rw (e, message_in) at h))
  | inr (x, e) ↦ elim (Bool-cases (x.channel_id == c)) [
    | inl f ↦ (let q = rw (e, f, message_in) at h in cc)
    | inr f ↦ absurd (cc (rw (e, f, message_in) at h))
  ]
]

-- The message that a call publishes, and what it adds.
pub record New (encryption : Encryption) (now c u : ℕ) (ch : Channel) (req : PublishRequest)
    (db db' : MessageDb) (id : ℕ) (m : Message) : Type 0 where
  pub new_id : id ≡ db.next_id
  pub in_channel : m.channel_id ≡ c
  pub by_sender : m.sender_user_id ≡ u
  pub next_seq : m.seq_id ≡ ch.last_seq_id + 1
  pub client : m.client_msg_id ≡ req.client_msg_id
  pub live : m.deleted_at ≡ none
  pub content_type : m.content_type ≡ content_type_of req
  pub content :
      encrypt_payload encryption db.next_random req.content_text req.content_json
      ≡ ok (m.content_text, m.content_json)
  pub rows : db'.messages ≡ db.messages ++ (db.next_id, m) ∷ []
  pub channels : db'.core.channels ≡ put c (record ch { last_seq_id = m.seq_id }) db.core.channels
  pub members : db'.core.memberships ≡ db.core.memberships
  pub states : db'.states ≡ db.states
  pub next : db'.next_id ≡ db.next_id + 1

module _ (k : ℕ) (encryption : Encryption) where
  save_new-rows :
      (c : ℕ) (ch : Channel) (m m' : Message) (db db' : MessageDb) (id : ℕ)
      → save_new k encryption c ch m db ≡ ok ((id, m'), db')
      → (rows : List Outbox) × (id ≡ db.next_id)
        × (m' ≡ m)
        × (db' ≡ (
            let added = with_outbox rows (add_message c ch m db) in
            record added {
              core = log_event EventType.message_published c m.sender_user_id added.core;
            }))
  unfolding save_new
  save_new-rows c ch m m' db db' id h =
      elim (Result-cases (
        in_core (enqueue_message_outbox k c (Payload.message db.next_id m.seq_id))
          (add_message c ch m db))) [
            | inr (x, e) ↦ absurd (cc (rw (e, save_new) at h))
            | inl ((x, d), e) ↦
                let (rows, p) =
                  message_outbox-eq k c (Payload.message db.next_id m.seq_id)
                    (add_message c ch m db) d x e in
                let q = rw (e, save_new) at h in
                let logged : MessageDb → MessageDb = λ y. record y {
                  core = log_event EventType.message_published c m.sender_user_id y.core;
                } in
                (rows, cc, cc, (let r : logged d ≡ db' = cc in sym r ∙ ap logged p))
          ]

  pub publish_new-New :
      (now c u : ℕ) (ch : Channel) (req : PublishRequest) (db db' : MessageDb) (id : ℕ)
      (m : Message)
      → publish_new k encryption now c ch u req db ≡ ok ((id, m), db')
      → New encryption now c u ch req db db' id m
  unfolding publish_new add_message new_message
  publish_new-New now c u ch req db db' id m h =
      elim (Result-cases (normalize_attachments db u req.attachments)) [
        | inr (x, e) ↦ absurd (cc (rw (e, publish_new) at h))
        | inl (attachments, e) ↦
            elim (Result-cases
              (resolve_reply_target db c req.reply_to_message_id req.reply_to_seq_id)) [
                | inr (x, f) ↦ absurd (cc (rw (e, f, publish_new) at h))
                | inl (reply, f) ↦
                    elim (Result-cases (
                      encrypt_payload encryption db.next_random req.content_text
                        req.content_json)) [
                          | inr (x, g) ↦ absurd (cc (rw (e, f, g, publish_new) at h))
                          | inl (content, g) ↦
                              let new =
                                new_message now c (ch.last_seq_id + 1) u req attachments reply
                                  content in
                              let (rows, p, q, r) =
                                save_new-rows c ch new m db db' id
                                  (rw (e, f, g, publish_new) at h) in
                              subst (λ z. New encryption now c u ch req db db' id z) (sym q)
                                (record {
                                  new_id = p;
                                  in_channel = refl;
                                  by_sender = refl;
                                  next_seq = refl;
                                  client = refl;
                                  live = refl;
                                  content_type = refl;
                                  content = g;
                                  rows = ap (λ z. z.messages) r;
                                  channels = ap (λ z. z.core.channels) r;
                                  members = ap (λ z. z.core.memberships) r;
                                  states = ap (λ z. z.states) r;
                                  next = ap (λ z. z.next_id) r;
                                })
                        ]
              ]
      ]
