-- ===== src/Membership/Safety.antt =====
-- Who may become an owner.
use messaging_system.Base.{
  ℕ, ◌≡◌, refl, subst, ok, sym, ◌∙◌, ap, inl, inr, true, Bool-cases, Option, none, some, List,
}
use messaging_system.Base.Text.{Text}
use messaging_system.Base.Table.{
  pair_key, pair_same, lookup, lookup-put_same, lookup-put_other, lookup-remove_same,
  lookup-remove_other, pair_same_iff,
}
use messaging_system.Rbac.{Role}
use messaging_system.Store.{Db, Invite, Membership, UpdateReason, EventType}
use messaging_system.Store.Leads.{
  Leads, Leads-modify, Leads-bind, Leads-read, Leads-require, Leads-pure,
}
use messaging_system.Topology.{enqueue_membership_update}
use messaging_system.Topology.Refusal.{enqueue_membership_update-Known}
use messaging_system.Membership.{
  is_role, approved_row, add_member_direct, put_membership, delete_membership, log_event,
}
use messaging_system.Membership.Invites.{change_invite}
use messaging_system.Membership.Requests.{Request, run}
use messaging_system.Membership.Frame.{NotOwner, run-keeps}
use messaging_system.Membership.Reads.{Reads-channel, Reads-get}

-- The user owns the channel.
abbrev pub Owns : ℕ → ℕ → Db → Type 0
Owns c u db =
    (m : Membership) × (lookup (c, u) db.memberships ≡ some m) × (is_role m.role Role.owner ≡ true)

abbrev NoNew : Db → Db → Type 0
NoNew db0 db = (c u : ℕ) → Owns c u db → Owns c u db0

put-NoNew :
    (db0 : Db) (c u : ℕ) (m : Membership)
    → NotOwner m.role
    → Leads (NoNew db0) (put_membership c u m) (NoNew db0)
unfolding put_membership
put-NoNew db0 c u m n = Leads-modify _ λ db h d v (m', e, o).
    elim (Bool-cases (pair_same (c, u) (d, v))) [
      | inl s ↦ absurd (
          let q = lookup-put_same (c, u) (d, v) db.memberships m s in
          let r : m ≡ m' = cc in cc (ap (λ x. is_role x.role Role.owner) r, n, o))
      | inr s ↦ h d v (m', sym (lookup-put_other (c, u) (d, v) db.memberships m s) ∙ e, o)
    ]

delete-NoNew : (db0 : Db) (c u : ℕ) → Leads (NoNew db0) (delete_membership c u) (NoNew db0)
unfolding delete_membership
delete-NoNew db0 c u = Leads-modify _ λ db h d v (m', e, o).
    elim (Bool-cases (pair_same (c, u) (d, v))) [
      | inl s ↦ absurd (let q = lookup-remove_same (c, u) (d, v) db.memberships s in cc)
      | inr s ↦ h d v (m', sym (lookup-remove_other (c, u) (d, v) db.memberships s) ∙ e, o)
    ]

notify-NoNew :
    (max_attempts : ℕ) (db0 : Db) (c u : ℕ) (r : Option Role) (why : UpdateReason)
    → Leads (NoNew db0) (enqueue_membership_update max_attempts c u r why) (NoNew db0)
notify-NoNew max_attempts db0 c u r why = record {
  at = λ db db' x h e.
      let (k, q) = enqueue_membership_update-Known max_attempts c u r why db e in
      subst (NoNew db0) (sym q) h;
}

log-NoNew : (db0 : Db) (e : EventType) (c u : ℕ) → Leads (NoNew db0) (log_event e c u) (NoNew db0)
unfolding log_event
log-NoNew db0 e c u = Leads-modify _ λ db h. h

invite-NoNew :
    (db0 : Db) (id : ℕ) (f : Invite → Invite) → Leads (NoNew db0) (change_invite id f) (NoNew db0)
unfolding change_invite
invite-NoNew db0 id f = Leads-modify _ λ db h. h

-- After any sequence of joins, acceptances and revocations of invites, approvals, additions,
-- promotions, demotions, permission changes, removals and departures, refused ones included, whoever owns a channel owned it before.
pub run-no_new_owner :
    (str_lower sha256_hex : Text → Text) (max_attempts : ℕ) (qs : List Request) (db : Db) (c u : ℕ)
    → Owns c u (run str_lower sha256_hex max_attempts qs db)
    → Owns c u db
run-no_new_owner str_lower sha256_hex max_attempts qs db c u h =
    run-keeps str_lower sha256_hex max_attempts (NoNew db) (λ _ _. NoNew db) (put-NoNew db)
      (delete-NoNew db) (notify-NoNew max_attempts db) (log-NoNew db) (invite-NoNew db)
      (λ _ _. invite-NoNew db) qs db (λ _ _ o. o) c u h

-- The row of a pair belongs to a plain member without permissions.
abbrev pub IsMember : ℕ → ℕ → Db → Type 0
IsMember c u db =
    (m : Membership) × (lookup (c, u) db.memberships ≡ some m)
    × (m.role ≡ Role.member)
    × (m.admin_permissions ≡ none)

approved-member :
    (now by : ℕ) (o : Option Membership)
    → ((approved_row now by o).role ≡ Role.member)
      × ((approved_row now by o).admin_permissions ≡ none)
unfolding approved_row
approved-member now by none = (refl, refl)
approved-member now by (some m) = (refl, refl)

put-IsMember :
    (c u now by : ℕ) (o : Option Membership)
    → Leads (λ _. Unit {0}) (put_membership c u (approved_row now by o)) (IsMember c u)
unfolding put_membership
put-IsMember c u now by o = Leads-modify _ λ db _. (
  approved_row now by o,
  lookup-put_same (c, u) (c, u) db.memberships (approved_row now by o)
      ((pair_same_iff (c, u) (c, u)).1 refl),
  (approved-member now by o).0,
  (approved-member now by o).1,
)

notify-IsMember :
    (max_attempts c u : ℕ) (r : Option Role) (why : UpdateReason)
    → Leads (IsMember c u) (enqueue_membership_update max_attempts c u r why) (IsMember c u)
notify-IsMember max_attempts c u r why = record {
  at = λ db db' x h e.
      let (k, q) = enqueue_membership_update-Known max_attempts c u r why db e in
      subst (IsMember c u) (sym q) h;
}

log-IsMember : (e : EventType) (c u by : ℕ) → Leads (IsMember c u) (log_event e c by) (IsMember c u)
unfolding log_event
log-IsMember e c u by = Leads-modify _ λ db h. h

add_member_direct-Leads-IsMember :
    (max_attempts now c actor target : ℕ)
    → Leads (λ _. Unit {0}) (add_member_direct max_attempts now c actor target) (IsMember c target)
unfolding add_member_direct
add_member_direct-Leads-IsMember max_attempts now c actor target = Leads-read (Reads-channel c) λ _.
    Leads-read (Reads-get c actor) λ a. Leads-read (Reads-get c target) λ t.
      Leads-require _ _ _ λ _. Leads-bind (put-IsMember c target now actor t) λ _.
        Leads-bind (notify-IsMember max_attempts c target _ _)
          λ _. Leads-bind (log-IsMember _ c target actor) λ _. Leads-pure _

-- A direct addition that succeeds leaves the target a plain member without permissions, whatever
-- the target was before, also the owner of the channel.
pub add_member_direct-demotes :
    (max_attempts now c actor target : ℕ) (db db' : Db) (row : Membership)
    → add_member_direct max_attempts now c actor target db ≡ ok (row, db')
    → IsMember c target db'
add_member_direct-demotes max_attempts now c actor target db db' row h =
    (add_member_direct-Leads-IsMember max_attempts now c actor target).at db db' row tt h
