-- ===== src/Membership/Tests.antt =====
-- The membership requests on a channel with an owner, an admin and a member.
use messaging_system.Base.{
  ◌≡◌, refl, none, some, List, [], ◌∷◌, ok, err, arith, true, false, Result,
}
use messaging_system.Base.Text.{Text, codes, text_eq}
use messaging_system.Base.Table.{nat_key, pair_key, lookup, put, remove}
use messaging_system.Identifier.{
  normalize_channel_slug, normalize_username, normalize_identifier, strip, lstrip, rstrip, keep,
  is_space, lower, is_safe_identifier, is_safe_char,
}
use messaging_system.Rbac.{
  Role, build_permissions, normalize_admin_permissions, can_remove, can_promote, can_demote,
  can_read, can_approve,
}
use messaging_system.Store.{
  Db, User, Channel, Membership, BrokerBindingState, Visibility, JoinMode, UpdateReason, AppError,
  ◌>>=◌,
}
use messaging_system.Topology.{
  enqueue_membership_update, bump_channel_membership_generation, enqueue_channel_event_outbox,
  enqueue_user_event_outbox, enqueue_broker_binding_outbox, enqueue_broker_binding_snapshot,
  enqueue, get_channel, get_channel_delivery_state, get_username, next_state, is_entitled, add_key,
  add_desired, non_empty, has_key,
}
use messaging_system.Topology.Effects.{Known, announced}
use messaging_system.Topology.Refusal.{enqueue_membership_update-Known}
use messaging_system.Membership.{
  approve_member, add_member_direct, promote_member, remove_member, leave_channel,
  get_channel_for_update, get_membership, require_membership, put_membership, delete_membership,
  log_event, membership_permissions, approved_row,
}
use messaging_system.Membership.Invites.{join_channel, join_as, admit, joined_row}
use messaging_system.Membership.Requests.{Request, perform, serve, run}
use messaging_system.Membership.Safety.{Owns, IsMember, run-no_new_owner, add_member_direct-demotes}
use messaging_system.Membership.Projection.{Synced, run-Synced}
use messaging_system.Membership.Fence.{Fenced, run-Fenced}

abbrev pub user_named : Text → User
user_named name = record {
  username = name;
  email = none;
  email_verified_at = none;
  is_superadmin = false;
}

abbrev general : Channel
general = record {
  owner_user_id = 1;
  channel_slug = codes "general";
  visibility = Visibility.public_channel;
  join_mode = JoinMode.open_mode;
  deleted_at = none;
  last_seq_id = 0;
  membership_generation = 4;
}

abbrev row_of : Role → Membership
row_of role = record {
  role = role;
  admin_permissions = none;
  approved_at = some 1;
  created_by_user_id = none;
  invited_by_user_id = none;
}

abbrev bound_state : BrokerBindingState
bound_state = record {
  generation = 1;
  desired_bound = true;
  desired_routing_key = codes "channel.general";
  routing_keys = codes "channel.general" ∷ [];
  reconciled_generation = 1;
}

abbrev pub office : Db
office = record {
  users =
      (1, user_named (codes "alice"))
      ∷ (2, user_named (codes "bob"))
      ∷ (3, user_named (codes "carol"))
      ∷ [];
  channels = (10, general) ∷ [];
  memberships =
      ((10, 1), row_of Role.owner)
      ∷ ((10, 2), row_of Role.admin)
      ∷ ((10, 3), row_of Role.member)
      ∷ [];
  bindings = ((10, 1), bound_state) ∷ ((10, 2), bound_state) ∷ ((10, 3), bound_state) ∷ [];
  invites = [];
  outbox = [];
  events = [];
}

abbrev as_is : Text → Text
as_is t = t

-- The admin removes the member, who is then added again and promoted by the owner;
-- then the admin leaves and joins as a member.
abbrev requests : List Request
requests =
    Request.remove 10 2 3
    ∷ Request.add 50 10 1 3
    ∷ Request.promote 10 1 3
    ∷ Request.leave 10 2
    ∷ Request.join 60 10 2 none
    ∷ []

run-Fenced_example : Fenced office (run as_is as_is 5 requests office)
run-Fenced_example = run-Fenced as_is as_is 5 requests office

office-Synced : Synced office
unfolding lookup is_entitled can_read
office-Synced c u channel h = ground arith

run-Synced_example : Synced (run as_is as_is 5 requests office)
run-Synced_example = run-Synced as_is as_is 5 requests office office-Synced

still_owned : Owns 10 1 (run as_is as_is 5 requests office)
unfolding run serve perform join_channel join_as admit joined_row approve_member add_member_direct
    promote_member remove_member leave_channel get_channel_for_update get_membership
    require_membership put_membership delete_membership log_event membership_permissions
    approved_row enqueue_membership_update bump_channel_membership_generation
    enqueue_channel_event_outbox enqueue_user_event_outbox enqueue_broker_binding_outbox
    enqueue_broker_binding_snapshot enqueue get_channel get_channel_delivery_state get_username
    next_state is_entitled add_key add_desired non_empty has_key lookup put remove text_eq
    normalize_channel_slug normalize_username normalize_identifier strip lstrip rstrip keep is_space
    lower is_safe_identifier is_safe_char build_permissions normalize_admin_permissions can_remove
    can_promote can_demote can_read can_approve ◌>>=◌
still_owned = (row_of Role.owner, refl, refl)

run-no_new_owner_example : Owns 10 1 office
run-no_new_owner_example = run-no_new_owner as_is as_is 5 requests office 10 1 still_owned

abbrev state_of : {A : Type 0} → Result AppError (A × Db) → Db
state_of (ok (a, db)) = db
state_of (err e) = office

-- The admin adds the owner.
abbrev demoting : Result AppError (Membership × Db)
demoting = add_member_direct 5 50 10 2 1 office

demoting-succeeds :
    demoting ≡ ok (record (row_of Role.member) { approved_at = some 50 }, state_of demoting)
unfolding add_member_direct get_channel_for_update get_membership require_membership put_membership
    log_event membership_permissions approved_row enqueue_membership_update
    bump_channel_membership_generation enqueue_channel_event_outbox enqueue_user_event_outbox
    enqueue_broker_binding_outbox enqueue_broker_binding_snapshot enqueue get_channel
    get_channel_delivery_state get_username next_state is_entitled add_key add_desired non_empty
    has_key lookup put text_eq normalize_channel_slug normalize_username normalize_identifier strip
    lstrip rstrip keep is_space lower is_safe_identifier is_safe_char build_permissions
    normalize_admin_permissions can_read ◌>>=◌
demoting-succeeds = refl

add_member_direct-demotes_example : IsMember 10 1 (state_of demoting)
add_member_direct-demotes_example =
    add_member_direct-demotes 5 50 10 2 1 office (state_of demoting)
      (record (row_of Role.member) { approved_at = some 50 }) demoting-succeeds

abbrev announcing : Result AppError (Unit {0} × Db)
announcing = enqueue_membership_update 5 10 3 none UpdateReason.removed office

announcing-succeeds : announcing ≡ ok (tt, state_of announcing)
unfolding enqueue_membership_update bump_channel_membership_generation enqueue_channel_event_outbox
    enqueue_user_event_outbox enqueue_broker_binding_outbox enqueue_broker_binding_snapshot enqueue
    get_channel get_channel_delivery_state get_username next_state is_entitled add_key add_desired
    non_empty has_key lookup put text_eq normalize_channel_slug normalize_username
    normalize_identifier strip lstrip rstrip keep is_space lower is_safe_identifier is_safe_char
    can_read ◌>>=◌
announcing-succeeds = refl

enqueue_membership_update-Known_example :
    (k : Known 10 3 office) × (state_of announcing
      ≡ announced 5 10 3 none UpdateReason.removed office k)
enqueue_membership_update-Known_example =
    enqueue_membership_update-Known 5 10 3 none UpdateReason.removed office announcing-succeeds
