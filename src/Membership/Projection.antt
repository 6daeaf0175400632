-- ===== src/Membership/Projection.antt =====
-- The membership requests and the desired broker bindings.
use messaging_system.Base.{
  ℕ, ◌≡◌, refl, sym, subst, ◌∙◌, ap, inl, inr, Bool, false, Bool-cases, Option, none, some, List,
  ◌==◌, ==_iff,
}
use messaging_system.Base.Text.{Text}
use messaging_system.Base.Table.{
  nat_key, pair_key, pair_same, pair_same_iff, lookup, put, lookup-put_same, lookup-put_other,
  lookup-remove_other,
}
use messaging_system.Rbac.{Role}
use messaging_system.Store.{
  Db, Invite, Channel, Membership, BrokerBindingState, UpdateReason, EventType,
}
use messaging_system.Store.Leads.{Leads, Leads-modify}
use messaging_system.Topology.{
  is_entitled, next_state, enqueue_membership_update, projected, channel_key,
}
use messaging_system.Topology.Effects.{Known, bumped, announced}
use messaging_system.Topology.Refusal.{enqueue_membership_update-Known}
use messaging_system.Membership.{put_membership, delete_membership, log_event}
use messaging_system.Membership.Invites.{change_invite}
use messaging_system.Membership.Requests.{Request, run}
use messaging_system.Membership.Frame.{NotOwner, run-keeps}

-- No row is a binding that is not wanted.
abbrev pub wanted : Option BrokerBindingState → Bool
wanted none = false
wanted (some state) = state.desired_bound

-- Every pair of a channel and a user has the binding wanted that its membership entitles it to.
abbrev pub Synced : Db → Type 0
Synced db =
    (c u : ℕ) (channel : Channel)
    → lookup c db.channels ≡ some channel
    → wanted (lookup (c, u) db.bindings) ≡ is_entitled channel (lookup (c, u) db.memberships)

-- The same of every pair but one.
abbrev SyncedBut : ℕ → ℕ → Db → Type 0
SyncedBut c u db =
    (d v : ℕ) (channel : Channel)
    → pair_same (c, u) (d, v) ≡ false
    → lookup d db.channels ≡ some channel
    → wanted (lookup (d, v) db.bindings) ≡ is_entitled channel (lookup (d, v) db.memberships)

put-Synced :
    (c u : ℕ) (m : Membership)
    → NotOwner m.role
    → Leads Synced (put_membership c u m) (SyncedBut c u)
unfolding put_membership
put-Synced c u m n = Leads-modify _ λ db h d v ch s e.
    h d v ch e ∙ ap (is_entitled ch) (sym (lookup-put_other (c, u) (d, v) db.memberships m s))

delete-Synced : (c u : ℕ) → Leads Synced (delete_membership c u) (SyncedBut c u)
unfolding delete_membership
delete-Synced c u = Leads-modify _ λ db h d v ch s e.
    h d v ch e ∙ ap (is_entitled ch) (sym (lookup-remove_other (c, u) (d, v) db.memberships s))

wanted-next_state :
    (b : Bool) (key : Text) (o : Option BrokerBindingState) → wanted (some (next_state b key o)) ≡ b
unfolding next_state
wanted-next_state b key none = refl
wanted-next_state b key (some state) = refl

entitled-bumped :
    (channel : Channel) (m : Option Membership)
    → is_entitled (bumped channel) m ≡ is_entitled channel m
unfolding is_entitled
entitled-bumped channel m = refl

-- The channel of a pair before the notification.
channel-bumped :
    (c d u : ℕ) (db : Db) (k : Known c u db) {ch : Channel}
    → lookup d (put c (bumped k.channel) db.channels) ≡ some ch
    → (old : Channel) × (lookup d db.channels ≡ some old)
      × ((m : Option Membership) → is_entitled ch m ≡ is_entitled old m)
channel-bumped c d u db k {ch} e = elim (Bool-cases (c == d)) [
  | inl s ↦
      let p : c ≡ d = (==_iff c d).0 s in
      let q = lookup-put_same c d db.channels (bumped k.channel) s in
      let r : ch ≡ bumped k.channel = cc in
      (
        k.channel,
        subst (λ x. lookup x db.channels ≡ some k.channel) p k.has_channel,
        λ m. ap (λ x. is_entitled x m) r ∙ entitled-bumped k.channel m,
      )
  | inr s ↦ (ch, sym (lookup-put_other c d db.channels (bumped k.channel) s) ∙ e, λ m. refl)
]

announced-Synced :
    (max_attempts c u : ℕ) (r : Option Role) (why : UpdateReason) (db : Db) (k : Known c u db)
    → SyncedBut c u db
    → Synced (announced max_attempts c u r why db k)
announced-Synced max_attempts c u r why db k h d v ch e =
    elim (Bool-cases (pair_same (c, u) (d, v))) [
      | inr s ↦
          let (old, f, g) = channel-bumped c d u db k e in
          ap wanted (lookup-put_other (c, u) (d, v) db.bindings state s) ∙ h d v old s f ∙ sym (g _)
      | inl s ↦
          let p : (c, u) ≡ (d, v) = (pair_same_iff (c, u) (d, v)).0 s in
          let q =
            lookup-put_same c d db.channels (bumped k.channel) ((==_iff c d).1 (ap (λ x. x.0) p)) in
          let i : ch ≡ bumped k.channel = cc in
          ap wanted (lookup-put_same (c, u) (d, v) db.bindings state s)
          ∙ wanted-next_state _ (channel_key k.slug) (lookup (c, u) db.bindings)
          ∙ ap (λ x. is_entitled (bumped k.channel) (lookup x db.memberships)) p
          ∙ ap (λ x. is_entitled x (lookup (d, v) db.memberships)) (sym i)
    ]
  where
    state : BrokerBindingState
    state = projected (bumped k.channel) k.slug c u db

notify-Synced :
    (max_attempts c u : ℕ) (r : Option Role) (why : UpdateReason)
    → Leads (SyncedBut c u) (enqueue_membership_update max_attempts c u r why) Synced
notify-Synced max_attempts c u r why = record {
  at = λ db db' x h e.
      let (k, q) = enqueue_membership_update-Known max_attempts c u r why db e in
      subst Synced (sym q) (announced-Synced max_attempts c u r why db k h);
}

log-Synced : (e : EventType) (c u : ℕ) → Leads Synced (log_event e c u) Synced
unfolding log_event
log-Synced e c u = Leads-modify _ λ db h. h

invite-Synced : (id : ℕ) (f : Invite → Invite) → Leads Synced (change_invite id f) Synced
unfolding change_invite
invite-Synced id f = Leads-modify _ λ db h. h

invite-SyncedBut :
    (c u id : ℕ) (f : Invite → Invite) → Leads (SyncedBut c u) (change_invite id f) (SyncedBut c u)
unfolding change_invite
invite-SyncedBut c u id f = Leads-modify _ λ db h. h

-- If the desired binding of every user and channel is the one its membership entitles it to (an
-- approved membership of a channel that is not deleted), it is so after any sequence of
-- membership requests, joins and acceptances of invites among them, refused ones included.
pub run-Synced :
    (str_lower sha256_hex : Text → Text) (max_attempts : ℕ) (qs : List Request) (db : Db)
    → Synced db
    → Synced (run str_lower sha256_hex max_attempts qs db)
run-Synced str_lower sha256_hex max_attempts qs db =
    run-keeps str_lower sha256_hex max_attempts Synced SyncedBut put-Synced delete-Synced
      (notify-Synced max_attempts) log-Synced invite-Synced invite-SyncedBut qs db
