-- ===== src/Membership/Frame.antt =====
-- The shape that the membership operations share: checks, one write to a row, the notification of
-- the channel, and an audit entry. A property that these steps keep, the operations keep.
use messaging_system.Base.{
  Bool-cases, ◌&&◌, is_none, ℕ, ◌≡◌, refl, subst, List, [], ◌∷◌, Result-cases, inl, inr, true,
  false, Option, none, some,
}
use messaging_system.Base.Text.{Text}
use messaging_system.Rbac.{can_read, Role, AdminPermissionsUpdateRequest}
use messaging_system.Store.{
  Invite, JoinMode, Db, Membership, UpdateReason, EventType, Action, ◌>>=◌, pure,
}
use messaging_system.Store.Leads.{
  Reads-gets, Reads-some_or, Leads, Leads-bind, Leads-read, Leads-require, Leads-pure,
}
use messaging_system.Topology.{enqueue_membership_update}
use messaging_system.Membership.Reads.{Reads-channel, Reads-get, Reads-required, Reads-validate}
use messaging_system.Membership.Invites.{
  is_generic_invite, change_invite, accept_once, accept_valid, settle_invite, accept_invite,
  joined_row, JoinStatus, admit, join_as, join_channel, revoke_invite, revoked,
}
use messaging_system.Membership.Requests.{Request, perform, serve, run}
use messaging_system.Membership.{
  is_role, put_membership, delete_membership, log_event, approved_row, approve_member,
  add_member_direct, promote_member, demote_member, update_admin_permissions, remove_member,
  leave_channel,
}

-- No row that the operations write belongs to an owner.
abbrev pub NotOwner : Role → Type 0
NotOwner r = is_role r Role.owner ≡ false

admin-NotOwner : (r : Role) → is_role r Role.admin ≡ true → NotOwner r
admin-NotOwner Role.owner h = absurd (cc)
admin-NotOwner Role.admin h = refl
admin-NotOwner Role.member h = refl
admin-NotOwner Role.pending h = refl

approved-NotOwner : (now by : ℕ) (o : Option Membership) → NotOwner (approved_row now by o).role
unfolding approved_row
approved-NotOwner now by none = refl
approved-NotOwner now by (some m) = refl

accept_once-Leads :
    {Q : Db → Type 0}
    → ((id : ℕ) (f : Invite → Invite) → Leads Q (change_invite id f) Q)
    → (now id : ℕ) (x : Invite) → Leads Q (accept_once now id x) Q
unfolding accept_once
accept_once-Leads h now id x = elim (Bool-cases (is_generic_invite x)) [
  | inl e ↦ rw e (Leads-pure tt)
  | inr e ↦ rw e (h id _)
]

module _ (str_lower sha256_hex : Text → Text) (max_attempts : ℕ) (P : Db → Type 0)
    (Open : ℕ → ℕ → Db → Type 0)
    (at_put : (c u : ℕ) (m : Membership)
      → NotOwner m.role
      → Leads P (put_membership c u m) (Open c u))
    (at_delete : (c u : ℕ) → Leads P (delete_membership c u) (Open c u))
    (at_notify : (c u : ℕ) (r : Option Role) (s : UpdateReason)
      → Leads (Open c u) (enqueue_membership_update max_attempts c u r s) P)
    (at_log : (e : EventType) (c u : ℕ) → Leads P (log_event e c u) P)
    (at_invite : (id : ℕ) (f : Invite → Invite) → Leads P (change_invite id f) P)
    (at_invite_open : (c u id : ℕ) (f : Invite → Invite)
      → Leads (Open c u) (change_invite id f) (Open c u)) where
  -- A row is written, announced and logged.
  write_row :
      (c u by : ℕ) (m : Membership) (r : Option Role) (s : UpdateReason) (e : EventType)
      → NotOwner m.role
      → Leads P
          (put_membership c u m >>= λ _. enqueue_membership_update max_attempts c u r s >>= λ _.
            log_event e c by >>= λ _. pure m)
          P
  write_row c u by m r s e h =
      Leads-bind (at_put c u m h)
        (λ _. Leads-bind (at_notify c u r s) (λ _. Leads-bind (at_log e c by) (λ _. Leads-pure m)))

  delete_row :
      (c u by : ℕ) (s : UpdateReason) (e : EventType)
      → Leads P
          (delete_membership c u >>= λ _.
            enqueue_membership_update max_attempts c u none s >>= λ _. log_event e c by)
          P
  delete_row c u by s e =
      Leads-bind (at_delete c u) (λ _. Leads-bind (at_notify c u none s) (λ _. at_log e c by))

  pub approve_member-Leads :
      (now c actor target : ℕ) → Leads P (approve_member max_attempts now c actor target) P
  unfolding approve_member
  approve_member-Leads now c actor target = Leads-read (Reads-channel c) λ _.
      Leads-read (Reads-required c actor) λ a. Leads-read (Reads-required c target) λ t.
        Leads-require _ _ _ λ _. Leads-require _ _ _ λ _.
          write_row c target actor (approved_row now actor (some t)) (some Role.member)
            UpdateReason.approved EventType.membership_approved
            (approved-NotOwner now actor (some t))

  pub add_member_direct-Leads :
      (now c actor target : ℕ) → Leads P (add_member_direct max_attempts now c actor target) P
  unfolding add_member_direct
  add_member_direct-Leads now c actor target = Leads-read (Reads-channel c) λ _.
      Leads-read (Reads-get c actor) λ a. Leads-read (Reads-get c target) λ t.
        Leads-require _ _ _ λ _.
          write_row c target actor (approved_row now actor t) (some Role.member) UpdateReason.added
            EventType.membership_added (approved-NotOwner now actor t)

  pub promote_member-Leads :
      (c actor target : ℕ) → Leads P (promote_member max_attempts c actor target) P
  unfolding promote_member
  promote_member-Leads c actor target = Leads-read (Reads-channel c) λ _.
      Leads-read (Reads-required c actor) λ a. Leads-read (Reads-required c target) λ t.
        Leads-require _ _ _ λ _.
          write_row c target actor _ (some Role.admin) UpdateReason.promoted
            EventType.member_promoted refl

  pub demote_member-Leads :
      (c actor target : ℕ) → Leads P (demote_member max_attempts c actor target) P
  unfolding demote_member
  demote_member-Leads c actor target = Leads-read (Reads-channel c) λ _.
      Leads-read (Reads-required c actor) λ a. Leads-read (Reads-required c target) λ t.
        Leads-require _ _ _ λ _.
          write_row c target actor _ (some Role.member) UpdateReason.demoted
            EventType.member_demoted refl

  pub update_admin_permissions-Leads :
      (c actor target : ℕ) (req : AdminPermissionsUpdateRequest)
      → Leads P (update_admin_permissions max_attempts c actor target req) P
  unfolding update_admin_permissions
  update_admin_permissions-Leads c actor target req = Leads-read (Reads-channel c) λ _.
      Leads-read (Reads-required c actor) λ a. Leads-read (Reads-required c target) λ t.
        Leads-require _ _ _ λ _. Leads-require _ _ _ λ h.
          write_row c target actor _ (some Role.admin) UpdateReason.admin_permissions_updated
            EventType.member_permissions_updated (admin-NotOwner t.role h)

  pub remove_member-Leads :
      (c actor target : ℕ) → Leads P (remove_member max_attempts c actor target) P
  unfolding remove_member
  remove_member-Leads c actor target = Leads-read (Reads-channel c) λ _.
      Leads-read (Reads-required c actor) λ a. Leads-read (Reads-required c target) λ t.
        Leads-require _ _ _ λ _.
          Leads-require _ _ _
            λ _. delete_row c target actor UpdateReason.removed EventType.member_removed

  pub leave_channel-Leads : (c user : ℕ) → Leads P (leave_channel max_attempts c user) P
  unfolding leave_channel
  leave_channel-Leads c user = Leads-read (Reads-channel c) λ _.
      Leads-read (Reads-required c user) λ m.
        Leads-require _ _ _
          λ _. delete_row c user user UpdateReason.left_channel EventType.membership_left

  accept_valid-Leads :
      (now c u id : ℕ) (x : Invite) (m : Option Membership)
      → Leads P (accept_valid str_lower sha256_hex max_attempts now c u id x m) P
  unfolding accept_valid
  accept_valid-Leads now c u id x m =
      Leads-bind (at_put c u _ (approved-NotOwner now x.created_by_user_id m)) λ _.
        Leads-bind (accept_once-Leads (at_invite_open c u) now id x)
          λ _. Leads-bind (at_notify c u _ _) λ _. Leads-bind (at_log _ c u) λ _. Leads-pure _

  settle_invite-Leads :
      (now c u id : ℕ) (x : Invite) (m : Option Membership)
      → Leads P (settle_invite str_lower sha256_hex max_attempts now c u id x m) P
  unfolding settle_invite
  settle_invite-Leads now c u id x none = accept_valid-Leads now c u id x none
  settle_invite-Leads now c u id x (some m) =
      elim (Bool-cases (is_generic_invite x && can_read (some m.role))) [
        | inl e ↦ rw e (Leads-pure m)
        | inr e ↦ rw e (accept_valid-Leads now c u id x (some m))
      ]

  pub accept_invite-Leads :
      (now : ℕ) (token : Text) (u : ℕ)
      → Leads P (accept_invite str_lower sha256_hex max_attempts now token u) P
  unfolding accept_invite
  accept_invite-Leads now token u = Leads-read (Reads-gets _) λ _.
      Leads-read (Reads-some_or _ _) λ _. Leads-read (Reads-gets _) λ _.
        Leads-read (Reads-some_or _ _) λ issued. Leads-read (Reads-channel _) λ _.
          Leads-read (Reads-validate str_lower sha256_hex now _ token u)
            λ found. Leads-read (Reads-get _ u) λ m. settle_invite-Leads now _ u found.0 found.1 m

  admit-Leads :
      (c u : ℕ) (row : Membership) (status : JoinStatus)
      → NotOwner row.role
      → Leads P (admit str_lower sha256_hex max_attempts c u row status) P
  unfolding admit
  admit-Leads c u row status n =
      Leads-bind (at_put c u row n)
        λ _. Leads-bind (at_notify c u _ _) λ _. Leads-bind (at_log _ c u) λ _. Leads-pure _

  join_as-Leads :
      (now c u : ℕ) (token : Option Text) (mode : JoinMode)
      → Leads P (join_as str_lower sha256_hex max_attempts now c u token mode) P
  unfolding join_as joined_row
  join_as-Leads now c u token JoinMode.open_mode = admit-Leads c u _ _ refl
  join_as-Leads now c u token JoinMode.approval_required = admit-Leads c u _ _ refl
  join_as-Leads now c u none JoinMode.invite_only = Leads-pure _
  join_as-Leads now c u (some []) JoinMode.invite_only = Leads-pure _
  join_as-Leads now c u (some (k ∷ t)) JoinMode.invite_only =
      Leads-read (Reads-validate str_lower sha256_hex now c (k ∷ t) u) λ found.
        Leads-bind (accept_once-Leads at_invite now found.0 found.1) λ _. admit-Leads c u _ _ refl

  pub join_channel-Leads :
      (now c u : ℕ) (token : Option Text)
      → Leads P (join_channel str_lower sha256_hex max_attempts now c u token) P
  unfolding join_channel
  join_channel-Leads now c u token = Leads-read (Reads-channel c) λ channel.
      Leads-read (Reads-get c u) λ m.
        elim m
          as (λ m.
            Leads P
              (elim m [
                | some r ↦ pure (JoinStatus.already_member, some r)
                | none ↦ join_as str_lower sha256_hex max_attempts now c u token channel.join_mode
              ])
              P) [ some r ↦ Leads-pure _ | none ↦ join_as-Leads now c u token channel.join_mode ]

  pub revoke_invite-Leads : (now c id actor : ℕ) → Leads P (revoke_invite now c id actor) P
  unfolding revoke_invite
  revoke_invite-Leads now c id actor = Leads-read (Reads-channel c) λ _.
      Leads-read (Reads-get c actor) λ m. Leads-require _ _ _ λ _. Leads-read (Reads-gets _) λ _.
        Leads-read (Reads-some_or _ _) λ x. Leads-require _ _ _ λ _. Leads-require _ _ _ λ _.
          elim (Bool-cases (is_none x.revoked_at)) [
            | inr e ↦ rw e (Leads-pure x)
            | inl e ↦ rw e (
                Leads-bind (at_invite id (revoked now))
                  λ _. Leads-bind (at_log _ c actor) λ _. Leads-pure _)
          ]

  done : {A : Type 0} {m : Action A} → Leads P m P → Leads P (m >>= λ _. pure tt) P
  done h = Leads-bind h (λ _. Leads-pure tt)

  perform-Leads : (q : Request) → Leads P (perform str_lower sha256_hex max_attempts q) P
  unfolding perform
  perform-Leads (Request.approve now c a t) = done (approve_member-Leads now c a t)
  perform-Leads (Request.add now c a t) = done (add_member_direct-Leads now c a t)
  perform-Leads (Request.promote c a t) = done (promote_member-Leads c a t)
  perform-Leads (Request.demote c a t) = done (demote_member-Leads c a t)
  perform-Leads (Request.set_permissions c a t req) =
      done (update_admin_permissions-Leads c a t req)
  perform-Leads (Request.remove c a t) = remove_member-Leads c a t
  perform-Leads (Request.leave c u) = leave_channel-Leads c u
  perform-Leads (Request.join now c u token) = done (join_channel-Leads now c u token)
  perform-Leads (Request.accept now token u) = done (accept_invite-Leads now token u)
  perform-Leads (Request.revoke now c id a) = done (revoke_invite-Leads now c id a)

  serve-keeps : (q : Request) (db : Db) → P db → P (serve str_lower sha256_hex max_attempts q db)
  unfolding serve
  serve-keeps q db p = elim (Result-cases (perform str_lower sha256_hex max_attempts q db)) [
    | inl ((x, db'), e) ↦
        subst P (let q : db' ≡ serve str_lower sha256_hex max_attempts q db = rw (e, serve) in q)
          ((perform-Leads q).at db db' x p e)
    | inr (x, e) ↦
        subst P (let q : db ≡ serve str_lower sha256_hex max_attempts q db = rw (e, serve) in q) p
  ]

  -- What the steps keep, every sequence of requests keeps.
  pub run-keeps :
      (qs : List Request) (db : Db) → P db → P (run str_lower sha256_hex max_attempts qs db)
  unfolding run
  run-keeps [] db p = p
  run-keeps (q ∷ qs) db p =
      run-keeps qs (serve str_lower sha256_hex max_attempts q db) (serve-keeps q db p)
