-- ===== src/Membership/Invites/Spent.antt =====
-- backend/app/services/channel_service.py: accept_invite on an invite for a person.
use messaging_system.Base.{
  ℕ, ◌≡◌, refl, sym, ap, ◌∙◌, subst, inl, inr, Bool, true, false, Option, none, some, [], ◌∷◌, ◌==◌,
  ==_refl, if◌then◌else◌, is_some, ok, err, arith, Bool-cases, Result-cases,
}
use messaging_system.Base.Text.{Text}
use messaging_system.Base.Table.{Table}
use messaging_system.Rbac.{Role}
use messaging_system.Store.{Db, Membership, Invite, EventType, UpdateReason, AppError}
use messaging_system.Store.Leads.{Leads, Leads-modify, Leads-bind, Leads-pure}
use messaging_system.Topology.{enqueue_membership_update}
use messaging_system.Topology.Refusal.{enqueue_membership_update-Known}
use messaging_system.Membership.{put_membership, log_event}
use messaging_system.Membership.Invites.{
  is_generic_invite, find_invite, has_token, has_token_in, update_invite, accepted, change_invite,
  accept_once, accept_valid, settle_invite, accept_invite,
}
use messaging_system.Membership.Invites.Once.{accept_invite-parts}

find_invite-update :
    (p : Invite → Bool) (id : ℕ) (now : ℕ) (rows : Table ℕ Invite) (i : ℕ) (x : Invite)
    → ((y : Invite) → p (accepted now y) ≡ p y)
    → find_invite p rows ≡ some (i, x)
    → find_invite p (update_invite id (accepted now) rows)
      ≡ some (i, if i == id then accepted now x else x)
unfolding find_invite update_invite
find_invite-update p id now [] i x same h = absurd (cc)
find_invite-update p id now ((j, y) ∷ rows) i x same h =
    let kept : p (if j == id then accepted now y else y) ≡ p y = (elim (Bool-cases (j == id)) [
      | inl e ↦ rw e (same y)
      | inr e ↦ rw e refl
    ]) in
    elim (Bool-cases (p y)) [
      | inl e ↦
          let q : ◌≡◌ {A = ℕ × Invite} (j, y) (i, x) = cc (rw e at h) in
          rw (kept, e)
            (ap (λ (z : ℕ × Invite). some (z.0, if z.0 == id then accepted now z.1 else z.1)) q)
      | inr e ↦ rw (kept, e) (find_invite-update p id now rows i x same (rw e at h))
    ]

-- The token names an invite of the channel, and there the invite is for a person and accepted.
abbrev Spent : Text → ℕ → Db → Type 0
Spent token_hash c db =
    ((i : ℕ) × (x : Invite) × (find_invite (has_token token_hash) db.invites ≡ some (i, x))
      × (x.channel_id ≡ c))
    × ((j : ℕ) × (y : Invite) × (find_invite (has_token_in c token_hash) db.invites ≡ some (j, y))
        × (is_generic_invite y ≡ false)
        × (is_some y.accepted_at ≡ true))

abbrev Named : Text → ℕ × Invite → ℕ × Invite → Db → Type 0
Named token_hash issued found db =
    (find_invite (has_token token_hash) db.invites ≡ some issued)
    × (find_invite (has_token_in issued.1.channel_id token_hash) db.invites ≡ some found)

same_channel :
    (b : Bool) (now : ℕ) (x : Invite) → (if b then accepted now x else x).channel_id ≡ x.channel_id
same_channel true now x = refl
same_channel false now x = refl

generic-accepted : (now : ℕ) (x : Invite) → is_generic_invite (accepted now x) ≡ is_generic_invite x
unfolding is_generic_invite
generic-accepted now x = refl

accept_once-Spent :
    (token_hash : Text) (now : ℕ) (issued found : ℕ × Invite)
    → is_generic_invite found.1 ≡ false
    → Leads
        (Named token_hash issued found)
        (accept_once now found.0 found.1)
        (Spent token_hash issued.1.channel_id)
unfolding accept_once change_invite
accept_once-Spent token_hash now issued found g = rw g (
    Leads-modify _ λ db (e, f). (
      (
        issued.0,
        _,
        find_invite-update (has_token token_hash) found.0 now db.invites issued.0 issued.1
            (λ y. refl) e,
        same_channel (issued.0 == found.0) now issued.1,
      ),
      (
        found.0,
        accepted now found.1,
        find_invite-update (has_token_in issued.1.channel_id token_hash) found.0 now db.invites
              found.0 found.1 (λ y. refl) f
            ∙ ap (λ b. some (found.0, if b then accepted now found.1 else found.1))
                (==_refl found.0),
        generic-accepted now found.1 ∙ g,
        refl,
      ),
    ))

put-Named :
    (token_hash : Text) (issued found : ℕ × Invite) (c u : ℕ) (m : Membership)
    → Leads (Named token_hash issued found) (put_membership c u m) (Named token_hash issued found)
unfolding put_membership
put-Named token_hash issued found c u m = Leads-modify _ λ db h. h

notify-Spent :
    (max_attempts : ℕ) (token_hash : Text) (d c u : ℕ) (r : Option Role) (why : UpdateReason)
    → Leads
        (Spent token_hash d)
        (enqueue_membership_update max_attempts c u r why)
        (Spent token_hash d)
notify-Spent max_attempts token_hash d c u r why = record {
  at = λ db db' x h e.
      let (k, q) = enqueue_membership_update-Known max_attempts c u r why db e in
      subst (Spent token_hash d) (sym q) h;
}

log-Spent :
    (token_hash : Text) (d : ℕ) (e : EventType) (c u : ℕ)
    → Leads (Spent token_hash d) (log_event e c u) (Spent token_hash d)
unfolding log_event
log-Spent token_hash d e c u = Leads-modify _ λ db h. h

module _ (str_lower sha256_hex : Text → Text) (max_attempts : ℕ) where
  settle_invite-Spent :
      (token_hash : Text) (now u : ℕ) (issued found : ℕ × Invite) (m : Option Membership)
      → is_generic_invite found.1 ≡ false
      → Leads
          (Named token_hash issued found)
          (settle_invite str_lower sha256_hex max_attempts now issued.1.channel_id u found.0 found.1
            m)
          (Spent token_hash issued.1.channel_id)
  unfolding settle_invite accept_valid
  settle_invite-Spent token_hash now u issued found m g =
      elim m
        as (λ m.
          Leads _
            (settle_invite str_lower sha256_hex max_attempts now issued.1.channel_id u found.0
              found.1 m)
            _) [ none ↦ written none | some r ↦ rw g (written (some r)) ]
    where
      written :
          (m : Option Membership)
          → Leads
              (Named token_hash issued found)
              (accept_valid str_lower sha256_hex max_attempts now issued.1.channel_id u found.0
                found.1 m)
              (Spent token_hash issued.1.channel_id)
      written m = Leads-bind (put-Named token_hash issued found issued.1.channel_id u _) λ _.
          Leads-bind (accept_once-Spent token_hash now issued found g) λ _.
            Leads-bind (notify-Spent max_attempts token_hash issued.1.channel_id _ u _ _)
              λ _. Leads-bind (log-Spent token_hash issued.1.channel_id _ _ u) λ _. Leads-pure _

  accept_invite-Spent :
      (now : ℕ) (token : Text) (u : ℕ) (db db' : Db) (row : Membership) (issued found : ℕ × Invite)
      → accept_invite str_lower sha256_hex max_attempts now token u db ≡ ok (row, db')
      → find_invite (has_token (sha256_hex token)) db.invites ≡ some issued
      → find_invite (has_token_in issued.1.channel_id (sha256_hex token)) db.invites ≡ some found
      → is_generic_invite found.1 ≡ false
      → Spent (sha256_hex token) issued.1.channel_id db'
  accept_invite-Spent now token u db db' row issued found h named here g =
      let (i, e, f, (user, known, fits, usable), m, st) =
        accept_invite-parts str_lower sha256_hex max_attempts now token u db db' row h in
      let p : i ≡ issued = cc in
      let there : find_invite (has_token_in i.1.channel_id (sha256_hex token)) db.invites
          ≡ some found =
        subst
          (λ (x : ℕ × Invite).
            find_invite (has_token_in x.1.channel_id (sha256_hex token)) db.invites ≡ some found)
          (sym p) here in
      let q : found ≡ f = cc in
      subst (λ (x : ℕ × Invite). Spent (sha256_hex token) x.1.channel_id db') p
        ((settle_invite-Spent (sha256_hex token) now u i f m
            (subst (λ (x : ℕ × Invite). is_generic_invite x.1 ≡ false) q g)).at
          db db' row (e, fits) st)

  Spent-refused :
      (later : ℕ) (token : Text) (v : ℕ) (db db' : Db) (row : Membership) (c : ℕ)
      → Spent (sha256_hex token) c db
      → accept_invite str_lower sha256_hex max_attempts later token v db ≡ ok (row, db')
      → ⊥
  Spent-refused later token v db db' row c ((a, x, named, at), (j, y, here, g, used)) h =
      let (i, e, f, (user, known, fits, usable), m, st) =
        accept_invite-parts str_lower sha256_hex max_attempts later token v db db' row h in
      let p : ◌≡◌ {A = ℕ × Invite} i (a, x) = cc in
      let there : find_invite (has_token_in c (sha256_hex token)) db.invites ≡ some f =
        subst (λ d. find_invite (has_token_in d (sha256_hex token)) db.invites ≡ some f)
          (ap (λ (z : ℕ × Invite). z.1.channel_id) p ∙ at) fits in
      let q : ◌≡◌ {A = ℕ × Invite} f (j, y) = cc in
      let r : f.1 ≡ y = ap (λ (z : ℕ × Invite). z.1) q in
      elim usable.not_used [
        | inl t ↦ let s = ap is_generic_invite r in absurd (cc)
        | inr t ↦ let s = ap (λ (z : Invite). is_some z.accepted_at) r in absurd (ground arith)
      ]

  -- After a token whose invite is for a person has been accepted, every acceptance of the
  -- same token from the database that this leaves is refused, at any time and for any user.
  pub accept_invite-once :
      (now : ℕ) (token : Text) (u : ℕ) (db db' : Db) (row : Membership) (issued found : ℕ × Invite)
      → accept_invite str_lower sha256_hex max_attempts now token u db ≡ ok (row, db')
      → find_invite (has_token (sha256_hex token)) db.invites ≡ some issued
      → find_invite (has_token_in issued.1.channel_id (sha256_hex token)) db.invites ≡ some found
      → is_generic_invite found.1 ≡ false
      → (later v : ℕ)
      → (e : AppError) × (accept_invite str_lower sha256_hex max_attempts later token v db' ≡ err e)
  accept_invite-once now token u db db' row issued found h named here g later v =
      elim (Result-cases (accept_invite str_lower sha256_hex max_attempts later token v db')) [
        | inr (e, q) ↦ (e, q)
        | inl ((row', db''), q) ↦ absurd (
            Spent-refused later token v db' db'' row' issued.1.channel_id
              (accept_invite-Spent now token u db db' row issued found h named here g) q)
      ]
