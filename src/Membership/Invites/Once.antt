-- ===== src/Membership/Invites/Once.antt =====
-- backend/app/services/channel_service.py: the checks of accept_invite and _validate_invite.
use messaging_system.Base.{
  ℕ, ◌<◌, ◌≡◌, ◌⊎◌, ap, ◌∙◌, subst, inl, inr, true, Option, none, some, is_some, ok, arith,
  Option-cases, Result-cases,
}
use messaging_system.Base.Text.{Text}
use messaging_system.Base.Table.{nat_key, lookup}
use messaging_system.Store.{Db, User, Membership, Invite, AppError, gets, some_or}
use messaging_system.Store.Leads.{Reads-ok, Reads-gets, Reads-some_or}
use messaging_system.Membership.Reads.{Reads-channel, Reads-get, Reads-validate}
use messaging_system.Membership.Invites.{
  is_generic_invite, find_invite, has_token, has_token_in, same_email, invite_refusal, valid_invite,
  validate_invite, settle_invite, accept_invite,
}

-- The invite may be used by the user now.
pub record Usable (str_lower : Text → Text) (now user_id : ℕ) (user : User) (invite : Invite)
    : Type 0 where
  pub not_revoked : invite.revoked_at ≡ none
  pub not_used : (is_generic_invite invite ≡ true) ⊎ (invite.accepted_at ≡ none)
  pub not_expired : now < invite.expires_at
  pub meant :
      (invite.invited_user_id ≡ some user_id)
      ⊎ ((invite.invited_user_id ≡ none)
          × ((invite.invited_email ≡ none)
              ⊎ ((email : Text) × (invite.invited_email ≡ some email)
                  × (same_email str_lower user.email email ≡ true)
                  × (is_some user.email_verified_at ≡ true))))

invite_refusal-Usable :
    (str_lower : Text → Text) (now user_id : ℕ) (user : User) (invite : Invite)
    → invite_refusal str_lower now user_id user invite ≡ none
    → Usable str_lower now user_id user invite
unfolding invite_refusal
invite_refusal-Usable str_lower now user_id user invite h = record {
  not_revoked = ground arith;
  not_used = ground arith;
  not_expired = ground arith;
  meant = elim (Option-cases invite.invited_user_id) [
    | inr (target, e) ↦ inl (e ∙ ap some (let q : target ≡ user_id = ground arith in q))
    | inl e ↦ inr (
      e,
      (elim (Option-cases invite.invited_email) [
        | inl f ↦ inl f
        | inr (email, f) ↦ inr (email, f, ground arith, ground arith)
      ]),
    )
  ];
}

read_some :
    {A : Type 0} (f : Db → Option A) (x : AppError) (db : Db) (o : Option A) (a : A)
    → gets f db ≡ ok (o, db)
    → some_or o x db ≡ ok (a, db)
    → f db ≡ some a
unfolding gets some_or
read_some f x db none a e e' = absurd (cc)
read_some f x db (some b) a e e' = let p : b ≡ a = cc in let q : f db ≡ some b = cc in q ∙ ap some p

module _ (str_lower sha256_hex : Text → Text) where
  -- What a validation that succeeds has found.
  abbrev pub Found : ℕ → ℕ → Text → ℕ → Db → ℕ × Invite → Type 0
  Found now c token u db found =
      (user : User) × (lookup u db.users ≡ some user)
      × (find_invite (has_token_in c (sha256_hex token)) db.invites ≡ some found)
      × Usable str_lower now u user found.1

  valid_invite-Found :
      (now c : ℕ) (token : Text) (u : ℕ) (db : Db) (found : ℕ × Invite)
      → valid_invite str_lower sha256_hex now c token u db ≡ ok found
      → Found now c token u db found
  unfolding valid_invite
  valid_invite-Found now c token u db found h = elim (Option-cases (lookup u db.users)) [
    | inl e ↦ absurd (cc (rw (e, valid_invite) at h))
    | inr (user, e) ↦
        elim (Option-cases (find_invite (has_token_in c (sha256_hex token)) db.invites)) [
          | inl f ↦ absurd (cc (rw (e, f, valid_invite) at h))
          | inr ((id, invite), f) ↦
              elim (Option-cases (invite_refusal str_lower now u user invite)) [
                | inr (x, g) ↦ absurd (cc (rw (e, f, g, valid_invite) at h))
                | inl g ↦
                    let s : ◌≡◌ {A = ℕ × Invite} (id, invite) found =
                      cc (rw (e, f, g, valid_invite) at h) in
                    (
                      user,
                      e,
                      f ∙ ap some s,
                      subst (λ (x : ℕ × Invite). Usable str_lower now u user x.1) s
                          (invite_refusal-Usable str_lower now u user invite g),
                    )
              ]
        ]
  ]

  validate-Found :
      (now c : ℕ) (token : Text) (u : ℕ) (db db' : Db) (found : ℕ × Invite)
      → validate_invite str_lower sha256_hex now c token u db ≡ ok (found, db')
      → Found now c token u db found
  unfolding validate_invite
  validate-Found now c token u db db' found h =
      valid_invite-Found now c token u db found
        (elim (Result-cases (valid_invite str_lower sha256_hex now c token u db)) [
          | inl (x, e) ↦ let q = rw (e, validate_invite) at h in cc
          | inr (x, e) ↦ absurd (cc (rw (e, validate_invite) at h))
        ])

  -- The checks of `accept_invite`, and the call that it ends with.
  pub accept_invite-parts :
      (max_attempts now : ℕ) (token : Text) (u : ℕ) (db db' : Db) (row : Membership)
      → accept_invite str_lower sha256_hex max_attempts now token u db ≡ ok (row, db')
      → (issued : ℕ × Invite) × (find_invite (has_token (sha256_hex token)) db.invites
          ≡ some issued)
        × (found : ℕ × Invite) × Found now issued.1.channel_id token u db found
        × (m : Option Membership) × (settle_invite str_lower sha256_hex max_attempts now
              issued.1.channel_id u found.0 found.1 m db
            ≡ ok (row, db'))
  unfolding accept_invite
  accept_invite-parts max_attempts now token u db db' row h =
      let (user, e1, h1) = Reads-ok _ (Reads-gets (λ (x : Db). lookup u x.users)) h in
      let (known, e2, h2) = Reads-ok _ (Reads-some_or user AppError.user_not_found) h1 in
      let (any, e3, h3) =
        Reads-ok _ (Reads-gets (λ (x : Db). find_invite (has_token (sha256_hex token)) x.invites))
          h2 in
      let (issued, e4, h4) = Reads-ok _ (Reads-some_or any AppError.invite_not_found) h3 in
      let c = issued.1.channel_id in
      let (channel, e5, h5) = Reads-ok _ (Reads-channel c) h4 in
      let (found, e6, h6) = Reads-ok _ (Reads-validate str_lower sha256_hex now c token u) h5 in
      let (m, e7, h7) = Reads-ok _ (Reads-get c u) h6 in
      (
        issued,
        read_some (λ x. find_invite (has_token (sha256_hex token)) x.invites)
            AppError.invite_not_found db any issued e3 e4,
        found,
        validate-Found now c token u db db found e6,
        m,
        h7,
      )

  -- Whoever accepts a token, the token names an invite of a channel that is neither revoked nor
  -- expired at that time; it is for anyone, for this user's account, or for an email that is the
  -- user's own and verified; and if it is not for anyone it was not accepted before.
  pub accept_invite-Usable :
      (max_attempts now : ℕ) (token : Text) (u : ℕ) (db db' : Db) (row : Membership)
      → accept_invite str_lower sha256_hex max_attempts now token u db ≡ ok (row, db')
      → (c : ℕ) × (found : ℕ × Invite) × Found now c token u db found
  accept_invite-Usable max_attempts now token u db db' row h =
      let (issued, e, found, fits, m, st) =
        accept_invite-parts max_attempts now token u db db' row h in
      (issued.1.channel_id, found, fits)
