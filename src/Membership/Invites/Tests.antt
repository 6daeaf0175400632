-- ===== src/Membership/Invites/Tests.antt =====
-- An invite for a user who is not a member yet, with the identity in the place of the digest.
use messaging_system.Base.{ℕ, ◌≡◌, refl, none, some, [], ◌∷◌, ok, err, Result, false}
use messaging_system.Base.Text.{Text, codes, text_eq}
use messaging_system.Base.Table.{nat_key, pair_key, lookup, put}
use messaging_system.Identifier.{
  normalize_channel_slug, normalize_username, normalize_identifier, strip, lstrip, rstrip, keep,
  is_space, lower, is_safe_identifier, is_safe_char,
}
use messaging_system.Rbac.{Role, can_read}
use messaging_system.Store.{Db, Membership, Invite, AppError, ◌>>=◌}
use messaging_system.Topology.{
  enqueue_membership_update, bump_channel_membership_generation, enqueue_channel_event_outbox,
  enqueue_user_event_outbox, enqueue_broker_binding_outbox, enqueue_broker_binding_snapshot,
  enqueue, get_channel, get_channel_delivery_state, get_username, next_state, is_entitled, add_key,
  add_desired, non_empty, has_key,
}
use messaging_system.Membership.{
  get_channel_for_update, get_membership, put_membership, log_event, approved_row,
}
use messaging_system.Membership.Tests.{office, user_named}
use messaging_system.Membership.Invites.{
  is_generic_invite, find_invite, has_token, has_token_in, update_invite, change_invite,
  accept_once, invite_refusal, valid_invite, validate_invite, accept_valid, settle_invite,
  accept_invite,
}
use messaging_system.Membership.Invites.Once.{Found, accept_invite-Usable}
use messaging_system.Membership.Invites.Spent.{accept_invite-once}

abbrev as_is : Text → Text
as_is t = t

abbrev token : Text
token = codes "tok"

abbrev invite : Invite
invite = record {
  channel_id = 10;
  invited_user_id = some 4;
  invited_email = none;
  token_hash = token;
  created_by_user_id = 1;
  expires_at = 500;
  accepted_at = none;
  revoked_at = none;
}

abbrev start : Db
start = record office {
  users = (4, user_named (codes "dave")) ∷ office.users;
  invites = (20, invite) ∷ [];
}

abbrev attempt : Result AppError (Membership × Db)
attempt = accept_invite as_is as_is 5 100 token 4 start

abbrev db_of : Result AppError (Membership × Db) → Db
db_of (ok (m, db)) = db
db_of (err e) = start

abbrev new_row : Membership
new_row = record {
  role = Role.member;
  admin_permissions = none;
  approved_at = some 100;
  created_by_user_id = some 1;
  invited_by_user_id = some 1;
}

attempt-succeeds : attempt ≡ ok (new_row, db_of attempt)
unfolding accept_invite settle_invite accept_valid validate_invite valid_invite invite_refusal
    accept_once change_invite update_invite find_invite is_generic_invite get_channel_for_update
    get_membership put_membership log_event approved_row enqueue_membership_update
    bump_channel_membership_generation enqueue_channel_event_outbox enqueue_user_event_outbox
    enqueue_broker_binding_outbox enqueue_broker_binding_snapshot enqueue get_channel
    get_channel_delivery_state get_username next_state is_entitled add_key add_desired non_empty
    has_key lookup put text_eq normalize_channel_slug normalize_username normalize_identifier strip
    lstrip rstrip keep is_space lower is_safe_identifier is_safe_char can_read ◌>>=◌
attempt-succeeds = refl

invite-named : find_invite (has_token token) start.invites ≡ some (20, invite)
unfolding find_invite text_eq
invite-named = refl

invite-here : find_invite (has_token_in 10 token) start.invites ≡ some (20, invite)
unfolding find_invite text_eq
invite-here = refl

invite-targeted : is_generic_invite invite ≡ false
unfolding is_generic_invite
invite-targeted = refl

accept_invite-Usable_example :
    (c : ℕ) × (found : ℕ × Invite) × Found as_is as_is 100 c token 4 start found
accept_invite-Usable_example =
    accept_invite-Usable as_is as_is 5 100 token 4 start (db_of attempt) new_row attempt-succeeds

accept_invite-once_example :
    (e : AppError) × (accept_invite as_is as_is 5 200 token 4 (db_of attempt) ≡ err e)
accept_invite-once_example =
    accept_invite-once as_is as_is 5 100 token 4 start (db_of attempt) new_row (20, invite)
      (20, invite) attempt-succeeds invite-named invite-here invite-targeted 200 4
