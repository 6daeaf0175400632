-- ===== src/Messages/Order/Serves.antt =====
-- The requests of backend/app/services/message_service.py as changes of messages and markers.
use messaging_system.Base.{
  ℕ, ◌+◌, ◌≡◌, refl, sym, subst, ap, ◌∙◌, inl, inr, Option, some, is_none, ok, err, Bool-cases,
  Option-cases, Result-cases, arith,
}
use messaging_system.Base.Text.{Text}
use messaging_system.Base.Table.{nat_key, pair_key, lookup, put}
use messaging_system.Store.{Payload}
use messaging_system.Topology.{enqueue_message_outbox}
use messaging_system.Messages.{
  Message, MessageDb, MessageError, Change, PublishRequest, Encryption, settled, live_channel,
  membership_in, encrypt_payload, in_core, assert_can_read, set_message,
}
use messaging_system.Messages.Publish.{may_publish, existing_message, publish_message}
use messaging_system.Messages.Change.{
  message_in, may_change, edited, tombstone, save_message, edit_message, delete_message,
}
use messaging_system.Messages.Effects.{message_outbox-eq}
use messaging_system.Messages.Steps.{Later, Step, quiet, published, changed}
use messaging_system.Messages.Order.Calls.{live_channel-there, message_in-there, publish_new-New}

pub nothing : (db : MessageDb) → Step db db
nothing db = quiet refl refl refl refl

-- A call, seen through what it leaves in the database.
pub settled-Step :
    {A : Type 0} (r : Change A) (db : MessageDb)
    → ((a : A) (db' : MessageDb) → r ≡ ok (a, db') → Step db db')
    → Step db (settled r db)
unfolding settled
settled-Step (ok (a, db')) db h = h a db' refl
settled-Step (err (MessageError.denied event c u)) db h = quiet refl refl refl refl
settled-Step (err _) db h = nothing db

module _ (k : ℕ) where
  -- The row of a message that is saved from a database with the same messages.
  pub save_message-Step :
      (c id : ℕ) (m m' x : Message) (db db2 db' : MessageDb)
      → lookup id db.messages ≡ some m
      → Later m m'
      → db2.messages ≡ db.messages
      → db2.core.channels ≡ db.core.channels
      → db2.states ≡ db.states
      → db2.next_id ≡ db.next_id
      → save_message k c id m' db2 ≡ ok (x, db')
      → Step db db'
  unfolding save_message
  save_message-Step c id m m' x db db2 db' at l e f g n h =
      elim (Result-cases (
        in_core (enqueue_message_outbox k c (Payload.message_updated id m'.seq_id))
          (set_message id m' db2))) [
            | inr (y, p) ↦ absurd (cc (rw (p, save_message) at h))
            | inl ((y, d), p) ↦
                let (rows, q) =
                  message_outbox-eq k c (Payload.message_updated id m'.seq_id)
                    (set_message id m' db2) d y p in
                let r : d ≡ db' = cc (rw (p, save_message) at h) in
                let t = sym r ∙ q in
                changed id m m' at l (ap (λ z. z.messages) t ∙ ap (put id m') e)
                  (ap (λ z. z.core.channels) t ∙ f) (ap (λ z. z.states) t ∙ g)
                  (ap (λ z. z.next_id) t ∙ n)
          ]

  pub publish-Step :
      (e : Encryption) (now c u : ℕ) (req : PublishRequest) (db db' : MessageDb) (r : ℕ × Message)
      → publish_message k e now c u req db ≡ ok (r, db')
      → Step db db'
  unfolding publish_message
  publish-Step e now c u req db db' (id, m) h = elim (Result-cases (live_channel c db)) [
    | inr (x, p) ↦ absurd (cc (rw (p, publish_message) at h))
    | inl (ch, p) ↦ elim (Bool-cases (may_publish (membership_in c u db) req)) [
      | inr q ↦ absurd (cc (rw (p, q, publish_message) at h))
      | inl q ↦ elim (Option-cases (existing_message c u req db)) [
        | inr (found, r) ↦
            let t : db ≡ db' = cc (rw (p, q, r, publish_message) at h) in
            subst (λ z. Step db z) t (nothing db)
        | inl r ↦
            let new =
              publish_new-New k e now c u ch req db db' id m (rw (p, q, r, publish_message) at h) in
            published m ch (rw new.in_channel (live_channel-there c db ch p)) new.next_seq new.rows
              (subst
                (λ z.
                  db'.core.channels ≡ put z (record ch { last_seq_id = m.seq_id }) db.core.channels)
                (sym new.in_channel) new.channels)
              new.states new.next
      ]
    ]
  ]

  pub edit-Step :
      (e : Encryption) (now c u id : ℕ) (text json : Option Text) (db db' : MessageDb) (x : Message)
      → edit_message k e now c u id text json db ≡ ok (x, db')
      → Step db db'
  unfolding edit_message
  edit-Step e now c u id text json db db' x h = elim (Result-cases (assert_can_read c u db)) [
    | inr (y, p) ↦ absurd (cc (rw (p, edit_message) at h))
    | inl (role, p) ↦ elim (Result-cases (message_in c id db)) [
      | inr (y, q) ↦ absurd (cc (rw (p, q, edit_message) at h))
      | inl (m, q) ↦ elim (Bool-cases (is_none m.deleted_at)) [
        | inr r ↦ absurd (cc (rw (p, q, r, edit_message) at h))
        | inl r ↦ elim (Bool-cases (may_change role u m)) [
          | inr t ↦ absurd (cc (rw (p, q, r, t, edit_message) at h))
          | inl t ↦ elim (Result-cases (encrypt_payload e db.next_random text json)) [
            | inr (y, v) ↦ absurd (cc (rw (p, q, r, t, v, edit_message) at h))
            | inl (content, v) ↦
                save_message-Step c id m (edited now text content.0 content.1 m) x db
                  (record db { next_random = db.next_random + 1 }) db'
                  (message_in-there c id db m q)
                  (record {
                    same_channel = refl;
                    same_seq = refl;
                    same_sender = refl;
                    same_client = refl;
                    still_deleted = λ z. refl;
                    same_text = λ z. absurd (ground arith);
                    same_json = λ z. absurd (ground arith);
                  })
                  refl refl refl refl (rw (p, q, r, t, v, edit_message) at h)
          ]
        ]
      ]
    ]
  ]

  pub delete-Step :
      (now c u id : ℕ) (db db' : MessageDb) (x : Message)
      → delete_message k now c u id db ≡ ok (x, db')
      → Step db db'
  unfolding delete_message
  delete-Step now c u id db db' x h = elim (Result-cases (assert_can_read c u db)) [
    | inr (y, p) ↦ absurd (cc (rw (p, delete_message) at h))
    | inl (role, p) ↦ elim (Result-cases (message_in c id db)) [
      | inr (y, q) ↦ absurd (cc (rw (p, q, delete_message) at h))
      | inl (m, q) ↦ elim (Bool-cases (may_change role u m)) [
        | inr t ↦ absurd (cc (rw (p, q, t, delete_message) at h))
        | inl t ↦ elim (Option-cases m.deleted_at) [
          | inr (d, r) ↦
              let v : db ≡ db' = cc (rw (p, q, t, r, delete_message) at h) in
              subst (λ z. Step db z) v (nothing db)
          | inl r ↦
              save_message-Step c id m (tombstone now m) x db db db' (message_in-there c id db m q)
                (record {
                  same_channel = refl;
                  same_seq = refl;
                  same_sender = refl;
                  same_client = refl;
                  still_deleted = λ z. absurd (ground arith);
                  same_text = λ z. absurd (ground arith);
                  same_json = λ z. absurd (ground arith);
                })
                refl refl refl refl (rw (p, q, t, r, delete_message) at h)
        ]
      ]
    ]
  ]
