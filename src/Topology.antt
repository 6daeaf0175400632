-- ===== src/Topology.antt =====
-- backend/app/services/outbox_service.py: outbox rows, membership generations and the desired
-- broker bindings, all written in the caller's transaction.
pub mod Effects
pub mod Refusal
use messaging_system.Base.{
  ℕ, ◌+◌, Bool, true, false, ◌&&◌, ◌||◌, not, Option, none, some, List, [], ◌∷◌, ◌++◌,
  if◌then◌else◌, is_none, length, ltb,
}
use messaging_system.Base.Text.{Text, codes, text_eq}
use messaging_system.Base.Table.{nat_key, pair_key, Table, lookup, put}
use messaging_system.Identifier.{normalize_channel_slug, normalize_username}
use messaging_system.Rbac.{Role, can_read}
use messaging_system.Store.{
  Db, User, Channel, Membership, BrokerBindingState, Outbox, OutboxStatus, Payload, Aggregate,
  UpdateReason, AppError, missing_channel, missing_user, unsafe_identifier, Action, ◌>>=◌, ◌>>◌,
  pure, gets, modify, some_or, lift,
}

abbrev pub channel_key : Text → Text
channel_key slug = codes "channel." ++ slug

abbrev pub user_key : Text → Text
user_key username = codes "user." ++ username

unfoldable pub has_key : Text → List Text → Bool
has_key k [] = false
has_key k (j ∷ ks) = text_eq j k || has_key k ks

-- `known_keys.append(key)` if it is not there
unfoldable pub add_key : Text → List Text → List Text
add_key k ks = if has_key k ks then ks else ks ++ k ∷ []

unfoldable pub non_empty : List Text → List Text
non_empty [] = []
non_empty ([] ∷ ks) = non_empty ks
non_empty ((c ∷ k) ∷ ks) = (c ∷ k) ∷ non_empty ks

-- `if state.desired_routing_key and it is not in known_keys: append`
unfoldable pub add_desired : Text → List Text → List Text
add_desired [] ks = ks
add_desired (c ∷ k) ks = add_key (c ∷ k) ks

abbrev pub role_of : Option Membership → Option Role
role_of none = none
role_of (some m) = some m.role

-- `channel.deleted_at is None and membership is not None and membership.role in APPROVED…`
unfoldable pub is_entitled : Channel → Option Membership → Bool
is_entitled channel membership = is_none channel.deleted_at && can_read (role_of membership)

unfoldable pub next_state : Bool → Text → Option BrokerBindingState → BrokerBindingState
next_state desired_bound routing_key none = record {
  generation = 1;
  desired_bound = desired_bound;
  desired_routing_key = routing_key;
  routing_keys = routing_key ∷ [];
  reconciled_generation = 0;
}
next_state desired_bound routing_key (some state) = record state {
  generation = state.generation + 1;
  desired_bound = desired_bound;
  desired_routing_key = routing_key;
  routing_keys =
      add_key routing_key (add_desired state.desired_routing_key (non_empty state.routing_keys));
}

unfoldable pub get_channel : ℕ → Action Channel
get_channel channel_id = do
  found ← gets (λ db. lookup channel_id db.channels)
  some_or found missing_channel

-- The slug in its normal form and the membership generation.
unfoldable pub get_channel_delivery_state : ℕ → Action (Text × ℕ)
get_channel_delivery_state channel_id = do
  channel ← get_channel channel_id
  slug ← lift (normalize_channel_slug channel.channel_slug) unsafe_identifier
  pure (slug, channel.membership_generation)

unfoldable pub get_username : ℕ → Action Text
get_username user_id = do
  found ← gets (λ db. lookup user_id db.users)
  user ← some_or found missing_user
  lift (normalize_username user.username) unsafe_identifier

-- The state that the projection of a pair becomes.
abbrev pub projected : Channel → Text → ℕ → ℕ → Db → BrokerBindingState
projected channel slug channel_id user_id db =
    next_state (is_entitled channel (lookup (channel_id, user_id) db.memberships))
      (channel_key slug) (lookup (channel_id, user_id) db.bindings)

unfoldable pub bump_channel_membership_generation : ℕ → Action ℕ
bump_channel_membership_generation channel_id = do
  channel ← get_channel channel_id
  let bumped = channel.membership_generation + 1
  modify (λ db. record db {
    channels = put channel_id (record channel { membership_generation = bumped }) db.channels;
  })
  pure bumped

module _ (outbox_max_attempts : ℕ) where
  unfoldable pub enqueue : Aggregate → ℕ → Payload → Text → Action (Unit {0})
  enqueue aggregate_type channel_id payload routing_key =
      let row : Outbox = record {
        aggregate_type = aggregate_type;
        channel_id = channel_id;
        payload = payload;
        routing_key = routing_key;
        status = OutboxStatus.pending;
        attempts = 0;
        max_attempts = outbox_max_attempts;
      } in
      modify (λ db. record db { outbox = db.outbox ++ row ∷ [] })

  unfoldable pub enqueue_message_outbox : ℕ → (ℕ → Payload) → Action (Unit {0})
  enqueue_message_outbox channel_id payload = do
    (slug, generation) ← get_channel_delivery_state channel_id
    enqueue Aggregate.message channel_id (payload generation) (channel_key slug)

  unfoldable pub enqueue_channel_event_outbox : Aggregate → ℕ → (ℕ → Payload) → Action (Unit {0})
  enqueue_channel_event_outbox event_type channel_id payload = do
    (slug, generation) ← get_channel_delivery_state channel_id
    enqueue event_type channel_id (payload generation) (channel_key slug)

  unfoldable pub enqueue_user_event_outbox : Aggregate → ℕ → ℕ → (ℕ → Payload) → Action (Unit {0})
  enqueue_user_event_outbox event_type channel_id user_id payload = do
    username ← get_username user_id
    (slug, generation) ← get_channel_delivery_state channel_id
    enqueue event_type channel_id (payload generation) (user_key username)

  unfoldable pub enqueue_broker_binding_snapshot : ℕ → ℕ → ℕ → Action (Unit {0})
  enqueue_broker_binding_snapshot channel_id user_id generation =
      enqueue Aggregate.broker_binding channel_id
        (Payload.broker_binding generation user_id channel_id) (codes "broker.binding")

  unfoldable pub enqueue_broker_binding_outbox : ℕ → ℕ → Action (Unit {0})
  enqueue_broker_binding_outbox channel_id user_id = do
    channel ← get_channel channel_id
    slug ← lift (normalize_channel_slug channel.channel_slug) unsafe_identifier
    state ← gets (projected channel slug channel_id user_id)
    modify (λ db. record db { bindings = put (channel_id, user_id) state db.bindings })
    enqueue_broker_binding_snapshot channel_id user_id state.generation

  -- `_enqueue_membership_update` of channel_service.py
  unfoldable pub enqueue_membership_update : ℕ → ℕ → Option Role → UpdateReason → Action (Unit {0})
  enqueue_membership_update channel_id user_id role reason = do
    bump_channel_membership_generation channel_id
    enqueue_channel_event_outbox Aggregate.membership_update channel_id
        (Payload.membership_update channel_id user_id role reason)
    enqueue_user_event_outbox Aggregate.membership_update_target channel_id user_id
        (Payload.membership_update channel_id user_id role reason)
    enqueue_broker_binding_outbox channel_id user_id
