-- ===== src/Membership.antt =====
-- backend/app/services/channel_service.py: the operations that change who belongs to a channel.
pub mod Requests
pub mod Invites
pub mod Reads
pub mod Frame
pub mod Fence
pub mod Safety
pub mod Projection
pub mod Tests
use messaging_system.Base.{
  ℕ, ◌+◌, Bool, true, false, ◌&&◌, ◌||◌, not, Option, none, some, List, [], ◌∷◌, ◌++◌, leb, ◌==◌,
  if◌then◌else◌, is_none, is_some,
}
use messaging_system.Base.Text.{Text, text_eq}
use messaging_system.Base.Table.{nat_key, pair_key, Table, lookup, put, remove}
use messaging_system.Identifier.{strip, lower}
use messaging_system.Rbac.{
  Role, AdminPermissionsUpdateRequest, Permissions, AdminPermissions, normalize_admin_permissions,
  stored, overridden, build_permissions, can_invite, can_approve, can_remove, can_promote,
  can_demote, can_read,
}
use messaging_system.Store.{
  Db, User, Channel, Membership, Invite, Audit, JoinMode, EventType, UpdateReason, Aggregate,
  Payload, AppError, Action, ◌>>=◌, ◌>>◌, pure, gets, modify, require, some_or, channel_not_found,
  membership_not_found, forbidden, not_pending, target_not_admin, owner_cannot_leave,
  invite_not_found, invalid_invite, invite_revoked, invite_already_accepted, invite_expired,
  email_verification_required, user_not_found,
}
use messaging_system.Topology.{
  role_of, enqueue_channel_event_outbox, bump_channel_membership_generation,
  enqueue_broker_binding_outbox, enqueue_membership_update,
}

abbrev pub is_role : Role → Role → Bool
is_role Role.owner Role.owner = true
is_role Role.admin Role.admin = true
is_role Role.member Role.member = true
is_role Role.pending Role.pending = true
is_role _ _ = false

unfoldable pub get_channel_for_update : ℕ → Action Channel
get_channel_for_update channel_id = do
  found ← gets (λ db. lookup channel_id db.channels)
  channel ← some_or found channel_not_found
  require (is_none channel.deleted_at) channel_not_found
  pure channel

unfoldable pub get_membership : ℕ → ℕ → Action (Option Membership)
get_membership channel_id user_id = gets (λ db. lookup (channel_id, user_id) db.memberships)

-- `memberships.get(…)` with the 404 of the callers.
unfoldable pub require_membership : ℕ → ℕ → Action Membership
require_membership channel_id user_id = do
  found ← get_membership channel_id user_id
  some_or found membership_not_found

unfoldable pub put_membership : ℕ → ℕ → Membership → Action (Unit {0})
put_membership channel_id user_id m =
    modify (λ db. record db { memberships = put (channel_id, user_id) m db.memberships })

unfoldable pub delete_membership : ℕ → ℕ → Action (Unit {0})
delete_membership channel_id user_id =
    modify (λ db. record db { memberships = remove (channel_id, user_id) db.memberships })

unfoldable pub log_event : EventType → ℕ → ℕ → Action (Unit {0})
log_event event_type channel_id actor_user_id =
    let entry : Audit = record {
      event_type = event_type;
      channel_id = channel_id;
      actor_user_id = actor_user_id;
    } in
    modify (λ db. record db { events = db.events ++ entry ∷ [] })

unfoldable pub membership_permissions : Option Membership → Permissions
unfolding build_permissions
membership_permissions none = build_permissions none none
membership_permissions (some m) = build_permissions (some m.role) m.admin_permissions

-- An approved membership without permissions of its own, on an old row or a new one.
unfoldable pub approved_row : ℕ → ℕ → Option Membership → Membership
approved_row now by none = record {
  role = Role.member;
  admin_permissions = none;
  approved_at = some now;
  created_by_user_id = some by;
  invited_by_user_id = some by;
}
approved_row now by (some m) = record m {
  role = Role.member;
  admin_permissions = none;
  approved_at = some now;
}

module _ (outbox_max_attempts : ℕ) where
  unfoldable pub approve_member : ℕ → ℕ → ℕ → ℕ → Action Membership
  approve_member now channel_id actor_id target_id = do
    get_channel_for_update channel_id
    actor ← require_membership channel_id actor_id
    target ← require_membership channel_id target_id
    require (can_approve (some actor.role) actor.admin_permissions) forbidden
    require (is_role target.role Role.pending) not_pending
    let row = approved_row now actor_id (some target)
    put_membership channel_id target_id row
    enqueue_membership_update outbox_max_attempts channel_id target_id (some Role.member)
        UpdateReason.approved
    log_event EventType.membership_approved channel_id actor_id
    pure row

  unfoldable pub add_member_direct : ℕ → ℕ → ℕ → ℕ → Action Membership
  add_member_direct now channel_id actor_id target_id = do
    get_channel_for_update channel_id
    actor ← get_membership channel_id actor_id
    target ← get_membership channel_id target_id
    require (membership_permissions actor).can_manage_members forbidden
    let row = approved_row now actor_id target
    put_membership channel_id target_id row
    enqueue_membership_update outbox_max_attempts channel_id target_id (some Role.member)
        UpdateReason.added
    log_event EventType.membership_added channel_id actor_id
    pure row

  unfoldable pub promote_member : ℕ → ℕ → ℕ → Action Membership
  promote_member channel_id actor_id target_id = do
    get_channel_for_update channel_id
    actor ← require_membership channel_id actor_id
    target ← require_membership channel_id target_id
    require (can_promote (some actor.role) (some target.role)) forbidden
    let row : Membership = record target {
      role = Role.admin;
      admin_permissions = some (stored (normalize_admin_permissions target.admin_permissions));
    }
    put_membership channel_id target_id row
    enqueue_membership_update outbox_max_attempts channel_id target_id (some Role.admin)
        UpdateReason.promoted
    log_event EventType.member_promoted channel_id actor_id
    pure row

  unfoldable pub demote_member : ℕ → ℕ → ℕ → Action Membership
  demote_member channel_id actor_id target_id = do
    get_channel_for_update channel_id
    actor ← require_membership channel_id actor_id
    target ← require_membership channel_id target_id
    require (can_demote (some actor.role) (some target.role)) forbidden
    let row : Membership = record target { role = Role.member; admin_permissions = none }
    put_membership channel_id target_id row
    enqueue_membership_update outbox_max_attempts channel_id target_id (some Role.member)
        UpdateReason.demoted
    log_event EventType.member_demoted channel_id actor_id
    pure row

  -- The request names only the fields to change, as a sparse dictionary does.
  unfoldable pub update_admin_permissions :
      ℕ → ℕ → ℕ → AdminPermissionsUpdateRequest → Action Membership
  update_admin_permissions channel_id actor_id target_id req = do
    get_channel_for_update channel_id
    actor ← require_membership channel_id actor_id
    target ← require_membership channel_id target_id
    require (is_role actor.role Role.owner) forbidden
    require (is_role target.role Role.admin) target_not_admin
    let current = normalize_admin_permissions target.admin_permissions
    let changed : AdminPermissions = record {
      can_publish = overridden req.can_publish current.can_publish;
      can_invite = overridden req.can_invite current.can_invite;
      can_approve = overridden req.can_approve current.can_approve;
      can_manage_members = overridden req.can_manage_members current.can_manage_members;
      can_edit_channel = overridden req.can_edit_channel current.can_edit_channel;
    }
    let row : Membership = record target { admin_permissions = some (stored changed) }
    put_membership channel_id target_id row
    enqueue_membership_update outbox_max_attempts channel_id target_id (some Role.admin)
        UpdateReason.admin_permissions_updated
    log_event EventType.member_permissions_updated channel_id actor_id
    pure row

  unfoldable pub remove_member : ℕ → ℕ → ℕ → Action (Unit {0})
  remove_member channel_id actor_id target_id = do
    get_channel_for_update channel_id
    actor ← require_membership channel_id actor_id
    target ← require_membership channel_id target_id
    require (membership_permissions (some actor)).can_manage_members forbidden
    require (can_remove (some actor.role) (some target.role)) forbidden
    delete_membership channel_id target_id
    enqueue_membership_update outbox_max_attempts channel_id target_id none UpdateReason.removed
    log_event EventType.member_removed channel_id actor_id

  unfoldable pub leave_channel : ℕ → ℕ → Action (Unit {0})
  leave_channel channel_id user_id = do
    get_channel_for_update channel_id
    membership ← require_membership channel_id user_id
    require (not (is_role membership.role Role.owner)) owner_cannot_leave
    delete_membership channel_id user_id
    enqueue_membership_update outbox_max_attempts channel_id user_id none UpdateReason.left_channel
    log_event EventType.membership_left channel_id user_id
