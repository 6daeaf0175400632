-- ===== src/Messages/Effects.antt =====
-- What the calls of the outbox service change, for backend/app/services/message_service.py.
use messaging_system.Base.{
  ℕ, ◌≡◌, refl, sym, ap, ◌∙◌, inl, inr, List, [], ◌∷◌, ◌++◌, ok, Result-cases,
}
use messaging_system.Base.Text.{Text}
use messaging_system.Store.{Db, Outbox, OutboxStatus, Payload, Aggregate, Action}
use messaging_system.Store.Leads.{Leads, Reads, reads_rules, Leads-read, Leads-modify}
use messaging_system.Topology.{
  get_channel, get_channel_delivery_state, enqueue, enqueue_message_outbox,
  enqueue_channel_event_outbox,
}
use messaging_system.Messages.{MessageDb, in_core}

-- The rows of a database with others in its outbox.
abbrev pub OnlyOutbox : Db → Db → Type 0
OnlyOutbox before db = (rows : List Outbox) × (db ≡ record before { outbox = rows })

Reads-channel : (c : ℕ) → Reads (get_channel c)
unfolding get_channel
Reads-channel c = search reads_rules

Reads-delivery : (c : ℕ) → Reads (get_channel_delivery_state c)
unfolding get_channel_delivery_state
Reads-delivery c = search (reads_rules, Reads-channel)

module _ (k : ℕ) (before : Db) where
  enqueue-OnlyOutbox :
      (a : Aggregate) (c : ℕ) (payload : Payload) (key : Text)
      → Leads (OnlyOutbox before) (enqueue k a c payload key) (OnlyOutbox before)
  unfolding enqueue
  enqueue-OnlyOutbox a c payload key = Leads-modify _ λ db p.
      let rows =
        db.outbox
        ++ record {
          aggregate_type = a;
          channel_id = c;
          payload = payload;
          routing_key = key;
          status = OutboxStatus.pending;
          attempts = 0;
          max_attempts = k;
        }
          ∷ [] in
      let put_rows : Db → Db = λ x. record x { outbox = rows } in (rows, ap put_rows p.1)

  event-OnlyOutbox :
      (a : Aggregate) (c : ℕ) (payload : ℕ → Payload)
      → Leads (OnlyOutbox before) (enqueue_channel_event_outbox k a c payload) (OnlyOutbox before)
  unfolding enqueue_channel_event_outbox
  event-OnlyOutbox a c payload = Leads-read (Reads-delivery c) λ state. enqueue-OnlyOutbox a c _ _

  message-OnlyOutbox :
      (c : ℕ) (payload : ℕ → Payload)
      → Leads (OnlyOutbox before) (enqueue_message_outbox k c payload) (OnlyOutbox before)
  unfolding enqueue_message_outbox
  message-OnlyOutbox c payload = Leads-read (Reads-delivery c) λ state. enqueue-OnlyOutbox _ c _ _

-- The database of the messages with other rows in the outbox.
abbrev pub with_outbox : List Outbox → MessageDb → MessageDb
with_outbox rows db = record db { core = record db.core { outbox = rows } }

in_core-with_outbox :
    (action : Action (Unit {0})) (db db' : MessageDb) (x : Unit {0})
    → Leads (OnlyOutbox db.core) action (OnlyOutbox db.core)
    → in_core action db ≡ ok (x, db')
    → (rows : List Outbox) × (db' ≡ with_outbox rows db)
unfolding in_core
in_core-with_outbox action db db' x leads h = elim (Result-cases (action db.core)) [
  | inr (e, f) ↦ absurd (cc (rw (f, in_core) at h))
  | inl ((y, core), f) ↦
      let (rows, p) = leads.at db.core core y (db.core.outbox, refl) f in
      let q : record db { core = core } ≡ db' = cc (rw (f, in_core) at h) in
      (rows, sym q ∙ ap (λ z. record db { core = z }) p)
]

pub message_outbox-eq :
    (k c : ℕ) (payload : ℕ → Payload) (db db' : MessageDb) (x : Unit {0})
    → in_core (enqueue_message_outbox k c payload) db ≡ ok (x, db')
    → (rows : List Outbox) × (db' ≡ with_outbox rows db)
message_outbox-eq k c payload db db' x h =
    in_core-with_outbox (enqueue_message_outbox k c payload) db db' x
      (message-OnlyOutbox k db.core c payload) h

pub event_outbox-eq :
    (k c : ℕ) (a : Aggregate) (payload : ℕ → Payload) (db db' : MessageDb) (x : Unit {0})
    → in_core (enqueue_channel_event_outbox k a c payload) db ≡ ok (x, db')
    → (rows : List Outbox) × (db' ≡ with_outbox rows db)
event_outbox-eq k c a payload db db' x h =
    in_core-with_outbox (enqueue_channel_event_outbox k a c payload) db db' x
      (event-OnlyOutbox k db.core a c payload) h
