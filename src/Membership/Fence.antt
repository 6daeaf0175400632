-- ===== src/Membership/Fence.antt =====
-- The membership requests and the membership generation of a channel.
use messaging_system.Base.{
  ℕ, ◌+◌, ◌≤◌, ◌<◌, ◌≡◌, ◌⊎◌, refl, sym, subst, ◌∙◌, ap, inl, inr, false, Bool-cases, Option, some,
  List, ◌==◌, ==_iff, arith,
}
use messaging_system.Base.Text.{Text}
use messaging_system.Base.Table.{
  nat_key, pair_key, pair_same, lookup, lookup-put_same, lookup-put_other, lookup-remove_other,
}
use messaging_system.Rbac.{Role}
use messaging_system.Store.{Db, Invite, Channel, Membership, UpdateReason, EventType}
use messaging_system.Store.Leads.{Leads, Leads-modify}
use messaging_system.Topology.{enqueue_membership_update}
use messaging_system.Topology.Effects.{Known, bumped, announced}
use messaging_system.Topology.Refusal.{enqueue_membership_update-Known}
use messaging_system.Membership.{put_membership, delete_membership, log_event}
use messaging_system.Membership.Invites.{change_invite}
use messaging_system.Membership.Requests.{Request, run}
use messaging_system.Membership.Frame.{NotOwner, run-keeps}

-- The channel's members are those that it had.
abbrev pub SameMembers : ℕ → Db → Db → Type 0
SameMembers c db0 db = (u : ℕ) → lookup (c, u) db.memberships ≡ lookup (c, u) db0.memberships

-- The channel is still there, its generation has not gone down, and it has gone up if a
-- membership of the channel has changed.
abbrev pub Fenced : Db → Db → Type 0
Fenced db0 db =
    (c : ℕ) (old : Channel)
    → lookup c db0.channels ≡ some old
    → (new : Channel) × (lookup c db.channels ≡ some new)
      × (old.membership_generation ≤ new.membership_generation)
      × (SameMembers c db0 db ⊎ (old.membership_generation < new.membership_generation))

-- The same while a row of the channel is written that is not announced yet.
abbrev FencedBut : Db → ℕ → ℕ → Db → Type 0
FencedBut db0 d v db =
    (c : ℕ) (old : Channel)
    → lookup c db0.channels ≡ some old
    → (new : Channel) × (lookup c db.channels ≡ some new)
      × (old.membership_generation ≤ new.membership_generation)
      × ((d == c) ≡ false
          → SameMembers c db0 db ⊎ (old.membership_generation < new.membership_generation))

other_channel : (d v c u : ℕ) → (d == c) ≡ false → pair_same (d, v) (c, u) ≡ false
other_channel d v c u h = rw h

put-Fenced :
    (db0 : Db) (d v : ℕ) (m : Membership)
    → NotOwner m.role
    → Leads (Fenced db0) (put_membership d v m) (FencedBut db0 d v)
unfolding put_membership
put-Fenced db0 d v m n = Leads-modify _ λ db h c old e.
    let (new, f, le, o) = h c old e in
    (
      new,
      f,
      le,
      λ s. elim o [
        | inl same ↦
            inl λ u.
              lookup-put_other (d, v) (c, u) db.memberships m (other_channel d v c u s) ∙ same u
        | inr lt ↦ inr lt
      ],
    )

delete-Fenced :
    (db0 : Db) (d v : ℕ) → Leads (Fenced db0) (delete_membership d v) (FencedBut db0 d v)
unfolding delete_membership
delete-Fenced db0 d v = Leads-modify _ λ db h c old e.
    let (new, f, le, o) = h c old e in
    (
      new,
      f,
      le,
      λ s. elim o [
        | inl same ↦
            inl λ u.
              lookup-remove_other (d, v) (c, u) db.memberships (other_channel d v c u s) ∙ same u
        | inr lt ↦ inr lt
      ],
    )

announced-Fenced :
    (max_attempts : ℕ) (db0 : Db) (d v : ℕ) (r : Option Role) (why : UpdateReason) (db : Db)
    (k : Known d v db)
    → FencedBut db0 d v db
    → Fenced db0 (announced max_attempts d v r why db k)
announced-Fenced max_attempts db0 d v r why db k h c old e =
    let (new, f, le, o) = h c old e in
    elim (Bool-cases (d == c)) [
      | inr s ↦ (new, lookup-put_other d c db.channels (bumped k.channel) s ∙ f, le, o s)
      | inl s ↦
          let p : new ≡ k.channel = let q = (==_iff d c).0 s in let i = k.has_channel in cc in
          let g : old.membership_generation < k.channel.membership_generation + 1 =
            (let i = ap (λ x. x.membership_generation) p in omega arith) in
          (
            bumped k.channel,
            lookup-put_same d c db.channels (bumped k.channel) s,
            (omega arith),
            inr g,
          )
    ]

notify-Fenced :
    (max_attempts : ℕ) (db0 : Db) (c u : ℕ) (r : Option Role) (why : UpdateReason)
    → Leads (FencedBut db0 c u) (enqueue_membership_update max_attempts c u r why) (Fenced db0)
notify-Fenced max_attempts db0 c u r why = record {
  at = λ db db' x h e.
      let (k, q) = enqueue_membership_update-Known max_attempts c u r why db e in
      subst (Fenced db0) (sym q) (announced-Fenced max_attempts db0 c u r why db k h);
}

log-Fenced :
    (db0 : Db) (e : EventType) (c u : ℕ) → Leads (Fenced db0) (log_event e c u) (Fenced db0)
unfolding log_event
log-Fenced db0 e c u = Leads-modify _ λ db h. h

invite-Fenced :
    (db0 : Db) (id : ℕ) (f : Invite → Invite) → Leads (Fenced db0) (change_invite id f) (Fenced db0)
unfolding change_invite
invite-Fenced db0 id f = Leads-modify _ λ db h. h

invite-FencedBut :
    (db0 : Db) (c u id : ℕ) (f : Invite → Invite)
    → Leads (FencedBut db0 c u) (change_invite id f) (FencedBut db0 c u)
unfolding change_invite
invite-FencedBut db0 c u id f = Leads-modify _ λ db h. h

-- After any sequence of membership requests, joins and acceptances of invites among them, refused ones included, each channel is still there,
-- its membership generation is at least what it was, and strictly more if any membership of the
-- channel differs from what it was.
pub run-Fenced :
    (str_lower sha256_hex : Text → Text) (max_attempts : ℕ) (qs : List Request) (db : Db)
    → Fenced db (run str_lower sha256_hex max_attempts qs db)
run-Fenced str_lower sha256_hex max_attempts qs db =
    run-keeps str_lower sha256_hex max_attempts (Fenced db) (FencedBut db) (put-Fenced db)
      (delete-Fenced db) (notify-Fenced max_attempts db) (log-Fenced db) (invite-Fenced db)
      (invite-FencedBut db) qs db (λ c old e. (old, e, omega arith, inl λ u. refl))
