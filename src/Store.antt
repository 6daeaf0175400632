-- ===== src/Store.antt =====
-- The rows of backend/app/db/models.py that the channel, message and delivery services read and
-- write, and a service call as a transaction: on an error nothing that it wrote is kept.
-- A UUID is a number, and a fresh one is the next number of the database; a time is in microseconds.
pub mod Leads
use messaging_system.Base.{
  ℕ, ◌+◌, Bool, Option, none, some, List, [], ◌∷◌, ◌++◌, if◌then◌else◌, Result, ok, err,
}
use messaging_system.Base.Text.{Text}
use messaging_system.Base.Table.{Table, lookup, put, remove}
use messaging_system.Rbac.{Role, RawPermissions}

pub data JoinMode : Type 0 where
  open_mode invite_only approval_required : JoinMode

pub data Visibility : Type 0 where
  public_channel private_channel : Visibility

pub data OutboxStatus : Type 0 where
  pending publishing published retry_scheduled failed dead_lettered : OutboxStatus

pub record User : Type 0 where
  pub username : Text
  pub email : Option Text
  pub email_verified_at : Option ℕ
  pub is_superadmin : Bool

pub record Channel : Type 0 where
  pub owner_user_id : ℕ
  pub channel_slug : Text
  pub visibility : Visibility
  pub join_mode : JoinMode
  pub deleted_at : Option ℕ
  pub last_seq_id : ℕ
  pub membership_generation : ℕ

pub record Membership : Type 0 where
  pub role : Role
  pub admin_permissions : Option RawPermissions
  pub approved_at : Option ℕ
  pub created_by_user_id : Option ℕ
  pub invited_by_user_id : Option ℕ

pub record BrokerBindingState : Type 0 where
  pub generation : ℕ
  pub desired_bound : Bool
  pub desired_routing_key : Text
  pub routing_keys : List Text
  pub reconciled_generation : ℕ

pub record Invite : Type 0 where
  pub channel_id : ℕ
  pub invited_user_id : Option ℕ
  pub invited_email : Option Text
  pub token_hash : Text
  pub created_by_user_id : ℕ
  pub expires_at : ℕ
  pub accepted_at : Option ℕ
  pub revoked_at : Option ℕ

pub data UpdateReason : Type 0 where
  join invite_accepted approved added promoted demoted : UpdateReason
  admin_permissions_updated removed left_channel : UpdateReason

pub data Aggregate : Type 0 where
  message seen membership_update membership_update_target channel_deleted : Aggregate
  broker_binding : Aggregate

-- The JSON of an outbox row; the number that comes last is the membership generation, or the
-- generation of the binding state.
pub data Payload : Type 0 where
  message : ℕ → ℕ → ℕ → Payload
  message_updated : ℕ → ℕ → ℕ → Payload
  reaction_updated : ℕ → ℕ → Payload
  seen : ℕ → ℕ → ℕ → ℕ → Payload
  membership_update : ℕ → ℕ → Option Role → UpdateReason → ℕ → Payload
  channel_deleted : ℕ → ℕ → Payload
  broker_binding : ℕ → ℕ → ℕ → Payload

pub record Outbox : Type 0 where
  pub aggregate_type : Aggregate
  pub channel_id : ℕ
  pub payload : Payload
  pub routing_key : Text
  pub status : OutboxStatus
  pub attempts : ℕ
  pub max_attempts : ℕ

pub data EventType : Type 0 where
  channel_deleted_event membership_joined invite_revoked invite_accepted_event : EventType
  membership_approved membership_added member_promoted member_demoted : EventType
  member_permissions_updated member_removed membership_left message_published : EventType
  unauthorized_publish unauthorized_read : EventType

pub record Audit : Type 0 where
  pub event_type : EventType
  pub channel_id : ℕ
  pub actor_user_id : ℕ

pub record Db : Type 0 where
  pub users : Table ℕ User
  pub channels : Table ℕ Channel
  pub memberships : Table (ℕ × ℕ) Membership
  pub bindings : Table (ℕ × ℕ) BrokerBindingState
  pub invites : Table ℕ Invite
  pub outbox : List Outbox
  pub events : List Audit

pub data AppError : Type 0 where
  channel_not_found membership_not_found forbidden not_pending target_not_admin : AppError
  owner_cannot_leave invite_not_found invalid_invite invite_revoked invite_already_accepted :
      AppError
  invite_expired email_verification_required user_not_found unsafe_identifier : AppError
  missing_channel missing_user : AppError

abbrev pub Action : Type 0 → Type 0
Action A = Db → Result AppError (A × Db)

unfoldable pub pure : {A : Type 0} → A → Action A
pure a db = ok (a, db)

unfoldable pub gets : {A : Type 0} → (Db → A) → Action A
gets f db = ok (f db, db)

unfoldable pub modify : (Db → Db) → Action (Unit {0})
modify f db = ok (tt, f db)

-- `if not b: raise e`
unfoldable pub require : Bool → AppError → Action (Unit {0})
require b e db = if b then ok (tt, db) else err e

unfoldable pub some_or : {A : Type 0} → Option A → AppError → Action A
some_or none e db = err e
some_or (some a) e db = ok (a, db)

unfoldable pub lift : {E A : Type 0} → Result E A → AppError → Action A
lift (ok a) e db = ok (a, db)
lift (err _) e db = err e

infixl 5 ◌>>=◌ ◌>>◌
-- Opening this opens the steps above too.
unfoldable pub ◌>>=◌ : {A B : Type 0} → Action A → (A → Action B) → Action B
unfolding pure gets modify require some_or lift
◌>>=◌ m f db = elim (m db) [ ok (a, db') ↦ f a db' | err e ↦ err e ]

abbrev pub ◌>>◌ : {A B : Type 0} → Action A → Action B → Action B
m >> k = m >>= λ _. k
