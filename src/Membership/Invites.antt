-- ===== src/Membership/Invites.antt =====
-- backend/app/services/channel_service.py: _validate_invite, accept_invite, join_channel and
-- revoke_invite. `sha256_hex` of a token and Python's `str.lower` are parameters.
pub mod Once
pub mod Spent
pub mod Tests
use messaging_system.Base.{
  ℕ, ◌≡◌, Bool, true, false, ◌&&◌, ◌||◌, not, Option, none, some, List, [], ◌∷◌, ltb, ◌==◌,
  if◌then◌else◌, is_none, is_some, Result, ok, err,
}
use messaging_system.Base.Text.{Text, text_eq}
use messaging_system.Base.Table.{nat_key, Table, lookup}
use messaging_system.Identifier.{strip}
use messaging_system.Rbac.{Role, can_invite, can_read}
use messaging_system.Store.{
  Db, User, Channel, Membership, Invite, JoinMode, open_mode, invite_only, approval_required,
  EventType, UpdateReason, AppError, Action, ◌>>=◌, ◌>>◌, pure, gets, modify, require, some_or,
}
use messaging_system.Topology.{role_of, enqueue_membership_update}
use messaging_system.Membership.{
  get_channel_for_update, get_membership, put_membership, log_event, approved_row,
}

unfoldable pub is_generic_invite : Invite → Bool
is_generic_invite invite = is_none invite.invited_user_id && is_none invite.invited_email

-- The row with the token's hash, in one channel or in any.
unfoldable pub find_invite : (Invite → Bool) → Table ℕ Invite → Option (ℕ × Invite)
find_invite p [] = none
find_invite p ((id, invite) ∷ rows) = if p invite then some (id, invite) else find_invite p rows

abbrev pub has_token : Text → Invite → Bool
has_token token_hash invite = text_eq invite.token_hash token_hash

abbrev pub has_token_in : ℕ → Text → Invite → Bool
has_token_in channel_id token_hash invite =
    invite.channel_id == channel_id && has_token token_hash invite

-- `UPDATE … WHERE id = …` of one column, as the flush of a changed row does it.
unfoldable pub update_invite : ℕ → (Invite → Invite) → Table ℕ Invite → Table ℕ Invite
update_invite id f [] = []
update_invite id f ((i, invite) ∷ rows) =
    (i, if i == id then f invite else invite) ∷ update_invite id f rows

abbrev pub accepted : ℕ → Invite → Invite
accepted now invite = record invite { accepted_at = some now }

abbrev pub revoked : ℕ → Invite → Invite
revoked now invite = record invite { revoked_at = some now }

unfoldable pub change_invite : ℕ → (Invite → Invite) → Action (Unit {0})
change_invite id f = modify (λ db. record db { invites = update_invite id f db.invites })

-- `if not generic: invite.accepted_at = utcnow()`
unfoldable pub accept_once : ℕ → ℕ → Invite → Action (Unit {0})
accept_once now id invite =
    if is_generic_invite invite then pure tt else change_invite id (accepted now)

-- A new row of `join_channel`.
unfoldable pub joined_row : Role → Option ℕ → ℕ → Option ℕ → Membership
joined_row role approved_at created_by invited_by = record {
  role = role;
  admin_permissions = none;
  approved_at = approved_at;
  created_by_user_id = some created_by;
  invited_by_user_id = invited_by;
}

pub data JoinStatus : Type 0 where
  already_member requires_invite joined pending_approval : JoinStatus

unfoldable pub may_invite : Option Membership → Bool
may_invite none = false
may_invite (some m) = can_invite (some m.role) m.admin_permissions

-- The targeted invite that was accepted cannot be revoked; a second revocation changes nothing.
unfoldable pub revoke_invite : ℕ → ℕ → ℕ → ℕ → Action Invite
revoke_invite now channel_id invite_id actor_id = do
  get_channel_for_update channel_id
  membership ← get_membership channel_id actor_id
  require (may_invite membership) AppError.forbidden
  row ← gets (λ db. lookup invite_id db.invites)
  invite ← some_or row AppError.invite_not_found
  require (invite.channel_id == channel_id) AppError.invite_not_found
  require (is_generic_invite invite || is_none invite.accepted_at || is_some invite.revoked_at)
      AppError.invite_already_accepted
  elim (is_none invite.revoked_at) [
    | false ↦ pure invite
    | true ↦ change_invite invite_id (revoked now) >>= λ _.
        log_event EventType.invite_revoked channel_id actor_id >>= λ _. pure (revoked now invite)
  ]

module _ (str_lower : Text → Text) where
  unfoldable pub normalize_email : Text → Text
  normalize_email value = str_lower (strip value)

  abbrev pub same_email : Option Text → Text → Bool
  same_email none invited = false
  same_email (some email) invited = text_eq (normalize_email email) (normalize_email invited)

  -- The first check that fails, in the order of the code.
  unfoldable pub invite_refusal : ℕ → ℕ → User → Invite → Option AppError
  invite_refusal now user_id user invite =
      if is_some invite.revoked_at
      then some AppError.invite_revoked
      else if not (is_generic_invite invite) && is_some invite.accepted_at
      then some AppError.invite_already_accepted
      else if not (ltb now invite.expires_at)
      then some AppError.invite_expired
      else elim invite.invited_user_id [
        | some target ↦ if target == user_id then none else some AppError.forbidden
        | none ↦ elim invite.invited_email [
          | some email ↦
              if same_email user.email email && is_some user.email_verified_at
              then none
              else some AppError.email_verification_required
          | none ↦ none
        ]
      ]

module _ (str_lower sha256_hex : Text → Text) where
  unfoldable pub valid_invite : ℕ → ℕ → Text → ℕ → Db → Result AppError (ℕ × Invite)
  valid_invite now channel_id token user_id db = elim (lookup user_id db.users) [
    | none ↦ err AppError.invalid_invite
    | some user ↦ elim (find_invite (has_token_in channel_id (sha256_hex token)) db.invites) [
      | none ↦ err AppError.invalid_invite
      | some (id, invite) ↦ elim (invite_refusal str_lower now user_id user invite) [
        | some e ↦ err e
        | none ↦ ok (id, invite)
      ]
    ]
  ]

  unfoldable pub validate_invite : ℕ → ℕ → Text → ℕ → Action (ℕ × Invite)
  validate_invite now channel_id token user_id db =
      elim (valid_invite now channel_id token user_id db) [
        | ok found ↦ ok (found, db)
        | err e ↦ err e
      ]

  module _ (outbox_max_attempts : ℕ) where
    -- The end of `accept_invite`, after the checks.
    unfoldable pub accept_valid : ℕ → ℕ → ℕ → ℕ → Invite → Option Membership → Action Membership
    accept_valid now channel_id user_id id invite membership = do
      let row = approved_row now invite.created_by_user_id membership
      put_membership channel_id user_id row
      accept_once now id invite
      enqueue_membership_update outbox_max_attempts channel_id user_id (some Role.member)
          UpdateReason.invite_accepted
      log_event EventType.invite_accepted_event channel_id user_id
      pure row

    -- A generic invite changes nothing for an approved member.
    unfoldable pub settle_invite : ℕ → ℕ → ℕ → ℕ → Invite → Option Membership → Action Membership
    settle_invite now channel_id user_id id invite none =
        accept_valid now channel_id user_id id invite none
    settle_invite now channel_id user_id id invite (some m) =
        if is_generic_invite invite && can_read (some m.role)
        then pure m
        else accept_valid now channel_id user_id id invite (some m)

    unfoldable pub accept_invite : ℕ → Text → ℕ → Action Membership
    accept_invite now token user_id = do
      user ← gets (λ db. lookup user_id db.users)
      some_or user AppError.user_not_found
      any ← gets (λ db. find_invite (has_token (sha256_hex token)) db.invites)
      issued ← some_or any AppError.invite_not_found
      let channel_id = issued.1.channel_id
      get_channel_for_update channel_id
      found ← validate_invite now channel_id token user_id
      membership ← get_membership channel_id user_id
      settle_invite now channel_id user_id found.0 found.1 membership

    unfoldable pub admit : ℕ → ℕ → Membership → JoinStatus → Action (JoinStatus × Option Membership)
    admit channel_id user_id row status = do
      put_membership channel_id user_id row
      enqueue_membership_update outbox_max_attempts channel_id user_id (some row.role)
          UpdateReason.join
      log_event EventType.membership_joined channel_id user_id
      pure (status, some row)

    -- By the join mode; an empty token counts as none.
    unfoldable pub join_as :
        ℕ → ℕ → ℕ → Option Text → JoinMode → Action (JoinStatus × Option Membership)
    join_as now channel_id user_id token open_mode =
        admit channel_id user_id (joined_row Role.member (some now) user_id none) JoinStatus.joined
    join_as now channel_id user_id token approval_required =
        admit channel_id user_id (joined_row Role.pending none user_id none)
          JoinStatus.pending_approval
    join_as now channel_id user_id none invite_only = pure (JoinStatus.requires_invite, none)
    join_as now channel_id user_id (some []) invite_only = pure (JoinStatus.requires_invite, none)
    join_as now channel_id user_id (some (c ∷ t)) invite_only = do
      found ← validate_invite now channel_id (c ∷ t) user_id
      let by = found.1.created_by_user_id
      accept_once now found.0 found.1
      admit channel_id user_id (joined_row Role.member (some now) by (some by)) JoinStatus.joined

    unfoldable pub join_channel : ℕ → ℕ → ℕ → Option Text → Action (JoinStatus × Option Membership)
    join_channel now channel_id user_id token = do
      channel ← get_channel_for_update channel_id
      membership ← get_membership channel_id user_id
      elim membership [
        | some m ↦ pure (JoinStatus.already_member, some m)
        | none ↦ join_as now channel_id user_id token channel.join_mode
      ]
