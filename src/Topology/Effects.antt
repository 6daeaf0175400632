-- ===== src/Topology/Effects.antt =====
-- What the notification of a membership change leaves in the database.
use messaging_system.Base.{ℕ, ◌+◌, ◌≡◌, ◌∙◌, Option, some, [], ◌∷◌, ◌++◌, ok, ==_refl}
use messaging_system.Base.Text.{Text, codes}
use messaging_system.Base.Table.{nat_key, pair_key, lookup, put, lookup-put}
use messaging_system.Identifier.{normalize_channel_slug, normalize_username}
use messaging_system.Rbac.{Role}
use messaging_system.Store.{
  Db, Channel, User, Outbox, OutboxStatus, Payload, Aggregate, UpdateReason, ◌>>=◌, pure, gets,
  modify, lift,
}
use messaging_system.Store.Leads.{>>=-step}
use messaging_system.Topology.{
  channel_key, user_key, get_channel, get_channel_delivery_state, get_username, enqueue,
  enqueue_channel_event_outbox, enqueue_user_event_outbox, enqueue_broker_binding_snapshot,
  enqueue_broker_binding_outbox, bump_channel_membership_generation, enqueue_membership_update,
  projected,
}

-- What the notification reads of the database: it is refused unless all of this is there.
pub record Known (c u : ℕ) (db : Db) : Type 0 where
  pub channel : Channel
  pub has_channel : lookup c db.channels ≡ some channel
  pub slug : Text
  pub has_slug : normalize_channel_slug channel.channel_slug ≡ ok slug
  pub user : User
  pub has_user : lookup u db.users ≡ some user
  pub username : Text
  pub has_username : normalize_username user.username ≡ ok username

abbrev pub bumped : Channel → Channel
bumped channel = record channel { membership_generation = channel.membership_generation + 1 }

-- The parts of the notification, each with what it needs.
pub get_channel-eq :
    (c : ℕ) (db : Db) {channel : Channel}
    → lookup c db.channels ≡ some channel
    → get_channel c db ≡ ok (channel, db)
unfolding get_channel ◌>>=◌
get_channel-eq c db h = rw h

pub get_channel_delivery_state-eq :
    (c : ℕ) (db : Db) {channel : Channel} {slug : Text}
    → lookup c db.channels ≡ some channel
    → normalize_channel_slug channel.channel_slug ≡ ok slug
    → get_channel_delivery_state c db ≡ ok ((slug, channel.membership_generation), db)
unfolding get_channel_delivery_state lift pure
get_channel_delivery_state-eq c db {channel} {slug} h k =
    >>=-step (get_channel c) _ (get_channel-eq c db h)
    ∙ >>=-step (lift (normalize_channel_slug channel.channel_slug) _) _ (rw k)

pub get_username-eq :
    (u : ℕ) (db : Db) {user : User} {name : Text}
    → lookup u db.users ≡ some user
    → normalize_username user.username ≡ ok name
    → get_username u db ≡ ok (name, db)
unfolding get_username ◌>>=◌
get_username-eq u db h k = rw (h, k)

pub bump_channel_membership_generation-eq :
    (c : ℕ) (db : Db) {channel : Channel}
    → lookup c db.channels ≡ some channel
    → bump_channel_membership_generation c db
      ≡ ok (
        channel.membership_generation + 1,
        record db { channels = put c (bumped channel) db.channels },
      )
unfolding bump_channel_membership_generation modify pure ◌>>=◌
bump_channel_membership_generation-eq c db h = >>=-step (get_channel c) _ (get_channel-eq c db h)

module _ (max_attempts : ℕ) where
  abbrev pub queued : Aggregate → ℕ → Payload → Text → Outbox
  queued a c p key = record {
    aggregate_type = a;
    channel_id = c;
    payload = p;
    routing_key = key;
    status = OutboxStatus.pending;
    attempts = 0;
    max_attempts = max_attempts;
  }

  -- The database after the notification.
  abbrev pub announced : (c u : ℕ) → Option Role → UpdateReason → (db : Db) → Known c u db → Db
  announced c u r why db k =
      let channel = bumped k.channel in
      let g = channel.membership_generation in
      let state = projected channel k.slug c u db in
      record db {
        channels = put c channel db.channels;
        bindings = put (c, u) state db.bindings;
        outbox =
            ((db.outbox
                ++ queued Aggregate.membership_update c (Payload.membership_update c u r why g)
                    (channel_key k.slug)
                  ∷ [])
              ++ queued Aggregate.membership_update_target c (Payload.membership_update c u r why g)
                  (user_key k.username)
                ∷ [])
            ++ queued Aggregate.broker_binding c (Payload.broker_binding state.generation u c)
                (codes "broker.binding")
              ∷ [];
      }

  pub lookup-bumped :
      (c : ℕ) (channel : Channel) (db : Db) → lookup c (put c channel db.channels) ≡ some channel
  lookup-bumped c channel db = rw (lookup-put c c channel db.channels, ==_refl c)

  pub enqueue_channel_event_outbox-eq :
      (a : Aggregate) (c : ℕ) (p : ℕ → Payload) (db : Db) {channel : Channel} {slug : Text}
      → lookup c db.channels ≡ some channel
      → normalize_channel_slug channel.channel_slug ≡ ok slug
      → enqueue_channel_event_outbox max_attempts a c p db
        ≡ ok (
          tt,
          record db {
            outbox =
                db.outbox ++ queued a c (p channel.membership_generation) (channel_key slug) ∷ [];
          },
        )
  unfolding enqueue_channel_event_outbox enqueue modify
  enqueue_channel_event_outbox-eq a c p db h k =
      >>=-step (get_channel_delivery_state c) _ (get_channel_delivery_state-eq c db h k)

  pub enqueue_user_event_outbox-eq :
      (a : Aggregate) (c u : ℕ) (p : ℕ → Payload) (db : Db) {channel : Channel} {slug : Text}
      {user : User} {name : Text}
      → lookup c db.channels ≡ some channel
      → normalize_channel_slug channel.channel_slug ≡ ok slug
      → lookup u db.users ≡ some user
      → normalize_username user.username ≡ ok name
      → enqueue_user_event_outbox max_attempts a c u p db
        ≡ ok (
          tt,
          record db {
            outbox = db.outbox ++ queued a c (p channel.membership_generation) (user_key name) ∷ [];
          },
        )
  unfolding enqueue_user_event_outbox enqueue modify
  enqueue_user_event_outbox-eq a c u p db h k h' k' =
      >>=-step (get_username u) _ (get_username-eq u db h' k')
      ∙ >>=-step (get_channel_delivery_state c) _ (get_channel_delivery_state-eq c db h k)

  enqueue_broker_binding_outbox-eq :
      (c u : ℕ) (db : Db) {channel : Channel} {slug : Text}
      → lookup c db.channels ≡ some channel
      → normalize_channel_slug channel.channel_slug ≡ ok slug
      → enqueue_broker_binding_outbox max_attempts c u db
        ≡ ok (
          tt,
          record db {
            bindings = put (c, u) (projected channel slug c u db) db.bindings;
            outbox =
                db.outbox
                ++ queued Aggregate.broker_binding c
                    (Payload.broker_binding (projected channel slug c u db).generation u c)
                    (codes "broker.binding")
                  ∷ [];
          },
        )
  unfolding enqueue_broker_binding_outbox enqueue_broker_binding_snapshot enqueue modify gets lift
      ◌>>=◌
  enqueue_broker_binding_outbox-eq c u db {channel} {slug} h k =
      >>=-step (get_channel c) _ (get_channel-eq c db h)
      ∙ >>=-step (lift (normalize_channel_slug channel.channel_slug) _) _ (rw k)

  pub enqueue_membership_update-eq :
      (c u : ℕ) (r : Option Role) (why : UpdateReason) (db : Db) (k : Known c u db)
      → enqueue_membership_update max_attempts c u r why db ≡ ok (tt, announced c u r why db k)
  unfolding enqueue_membership_update
  enqueue_membership_update-eq c u r why db k =
      >>=-step (bump_channel_membership_generation c) _
        (bump_channel_membership_generation-eq c db k.has_channel)
      ∙ >>=-step (enqueue_channel_event_outbox max_attempts _ c _) _
          (enqueue_channel_event_outbox-eq Aggregate.membership_update c _ _ there k.has_slug)
      ∙ >>=-step (enqueue_user_event_outbox max_attempts _ c u _) _ (
          enqueue_user_event_outbox-eq Aggregate.membership_update_target c u _ _ there k.has_slug
            k.has_user k.has_username)
      ∙ enqueue_broker_binding_outbox-eq c u _ there k.has_slug
    where
      there : lookup c (put c (bumped k.channel) db.channels) ≡ some (bumped k.channel)
      there = lookup-bumped c (bumped k.channel) db
