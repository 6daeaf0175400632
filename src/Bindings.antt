-- ===== src/Bindings.antt =====
-- worker/worker_app/outbox_runner.py, `_apply_broker_binding`, with `declare_user_queue` of
-- worker/worker_app/mq/topology.py: the bindings of a user's queue in RabbitMQ are brought to what
-- the database wants. RabbitMQ is a parameter: its queues are named by their users.
pub mod Known
pub mod Exact
pub mod Tests
use messaging_system.Base.{
  ℕ, ◌≡◌, Bool, true, false, ◌&&◌, ◌||◌, not, Option, none, some, List, [], ◌∷◌, ◌++◌, ◌==◌,
  if◌then◌else◌, Result, ok, err,
}
use messaging_system.Base.Text.{Text, codes, text_eq}
use messaging_system.Base.Table.{nat_key, pair_key, lookup, put}
use messaging_system.Identifier.{strip, is_safe_identifier}
use messaging_system.Store.{Db, Channel, User, Membership, BrokerBindingState}
use messaging_system.Topology.{channel_key, user_key, is_entitled, add_key}

-- The operations that the worker calls, with what RabbitMQ documents of them: a binding is there
-- from its bind to its unbind, both are idempotent, and a declaration touches no binding.
pub record Broker (Q : Type 0) : Type 0 where
  pub declare : Text → Q → Q
  pub bind : Text → Text → Q → Q
  pub unbind : Text → Text → Q → Q
  pub bound : Text → Text → Q → Bool
  pub bound-declare : (u v k : Text) (q : Q) → bound v k (declare u q) ≡ bound v k q
  pub bound-bind :
      (u v j k : Text) (q : Q)
      → bound v k (bind u j q) ≡ (text_eq u v && text_eq j k || bound v k q)
  pub bound-unbind :
      (u v j k : Text) (q : Q)
      → bound v k (unbind u j q) ≡ (not (text_eq u v && text_eq j k) && bound v k q)

-- The payload of an outbox row: no generation on a row of the old kind, and no reference if its
-- ids do not parse.
pub record Command : Type 0 where
  pub generation : Option ℕ
  pub reference : Option (ℕ × ℕ)

pub data BindingError : Type 0 where
  invalid_reference unsafe_binding_identifier unsafe_routing_key : BindingError

pub data Applied : Type 0 where
  stale_legacy stale_missing_state stale_generation applied_bound applied_unbound : Applied

-- The row of the query: the binding state joined with its channel, its user and the membership.
pub record StateRow : Type 0 where
  pub state : BrokerBindingState
  pub channel : Channel
  pub user : User
  pub membership : Option Membership

unfoldable pub state_row : ℕ → ℕ → Db → Option StateRow
state_row channel_id user_id db = elim (lookup (channel_id, user_id) db.bindings) [
  | none ↦ none
  | some state ↦ elim (lookup channel_id db.channels) [
    | none ↦ none
    | some channel ↦ elim (lookup user_id db.users) [
      | none ↦ none
      | some user ↦ some (record {
        state = state;
        channel = channel;
        user = user;
        membership = lookup (channel_id, user_id) db.memberships;
      })
    ]
  ]
]

-- `startswith` and `removeprefix` in one: what follows the prefix.
unfoldable pub after_prefix : Text → Text → Option Text
after_prefix [] v = some v
after_prefix (c ∷ p) [] = none
after_prefix (c ∷ p) (d ∷ v) = if c == d then after_prefix p v else none

-- `routing_key.startswith("channel.")` and the check of the rest
unfoldable pub is_channel_key : Text → Bool
is_channel_key key = elim (after_prefix (codes "channel.") key) [
  | none ↦ false
  | some slug ↦ is_safe_identifier slug
]

-- The loop that collects `known_routing_keys`.
unfoldable pub known_keys : List Text → List Text → Result BindingError (List Text)
known_keys known [] = ok known
known_keys known (value ∷ values) =
    let rest = known_keys (add_key (strip value) known) values in
    if is_channel_key (strip value) then rest else err BindingError.unsafe_routing_key

-- The update of the binding state after the operations on the broker.
unfoldable pub reconciled : Bool → Text → BrokerBindingState → BrokerBindingState
reconciled desired current state = record state {
  desired_bound = desired;
  desired_routing_key = current;
  routing_keys = current ∷ [];
  reconciled_generation = state.generation;
}

module _ {Q : Type 0} (broker : Broker Q) where
  -- All the keys but the one to keep, if there is one.
  unfoldable pub unbind_keys : Text → Option Text → List Text → Q → Q
  unbind_keys u keep [] q = q
  unbind_keys u none (k ∷ ks) q = unbind_keys u none ks (broker.unbind u k q)
  unbind_keys u (some j) (k ∷ ks) q =
      unbind_keys u (some j) ks (if text_eq k j then q else broker.unbind u k q)

  unfoldable pub declare_user_queue : Text → Q → Q
  declare_user_queue u q = broker.bind u (user_key u) (broker.declare u q)

  unfoldable pub reconcile : Text → Text → List Text → Bool → Q → Q
  reconcile u current known desired q =
      let q' = declare_user_queue u q in
      if desired
      then broker.bind u current (unbind_keys u (some current) known q')
      else unbind_keys u none known q'

  unfoldable pub project : ℕ → ℕ → StateRow → Db → Q → Result BindingError (Applied × Db × Q)
  project channel_id user_id row db q =
      let username = strip row.user.username in
      let slug = strip row.channel.channel_slug in
      let current = channel_key slug in
      let desired = is_entitled row.channel row.membership in
      if is_safe_identifier username && is_safe_identifier slug
      then elim (known_keys []
          (row.state.routing_keys ++ row.state.desired_routing_key ∷ current ∷ [])) [
            | err e ↦ err e
            | ok known ↦ ok (
              (if desired then Applied.applied_bound else Applied.applied_unbound),
              record db {
                bindings =
                    put (channel_id, user_id) (reconciled desired current row.state) db.bindings;
              },
              reconcile username current known desired q,
            )
          ]
      else err BindingError.unsafe_binding_identifier

  unfoldable pub apply_current : ℕ → ℕ → ℕ → Db → Q → Result BindingError (Applied × Db × Q)
  apply_current generation channel_id user_id db q = elim (state_row channel_id user_id db) [
    | none ↦ ok (Applied.stale_missing_state, db, q)
    | some row ↦
        if row.state.generation == generation
        then project channel_id user_id row db q
        else ok (Applied.stale_generation, db, q)
  ]

  unfoldable pub apply_broker_binding : Command → Db → Q → Result BindingError (Applied × Db × Q)
  apply_broker_binding command db q = elim command.generation [
    | none ↦ ok (Applied.stale_legacy, db, q)
    | some generation ↦ elim command.reference [
      | none ↦ err BindingError.invalid_reference
      | some (channel_id, user_id) ↦ apply_current generation channel_id user_id db q
    ]
  ]
