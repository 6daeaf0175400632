-- ===== src/Sessions/Requests.antt =====
-- The requests of backend/app/services/auth_service.py as changes of the sessions.
use messaging_system.Base.{
  ℕ, ◌<◌, ◌≡◌, ◌⊎◌, refl, inl, inr, Option, none, some, ◌==◌, Bool-cases, Option-cases, ok, err,
  arith,
}
use messaging_system.Base.Text.{Text, text_eq, text_eq_iff}
use messaging_system.Base.Table.{nat_key, lookup}
use messaging_system.Sessions.{
  UserSession, TokenKind, access, refresh, other_kind, Claims, AuthDb, AuthError, Outcome, Crypto,
  AuthSettings, inactive, revoked_at_time, with_session, seconds,
}
use messaging_system.Sessions.Revoke.{active_account, both_ids, detect_replay, revoke_open}
use messaging_system.Sessions.Service.{
  and_then, open_session, check_session, find_session, valid_refresh_session, rotate, refresh_valid,
  refresh_tokens, logout,
}
use messaging_system.Sessions.Steps.{Succ, Step, quiet, moved, opened}

-- A session that is open now has no revocation.
pub active-open :
    (now : ℕ) (s : UserSession)
    → inactive now s ≡ none
    → (s.revoked_at ≡ none) × (now < s.expires_at) × (now < s.absolute_expires_at)
unfolding inactive
active-open now s h = (ground arith, ground arith, ground arith)

-- A session that is revoked now, if it was not before.
revoked-Succ :
    (s s' : UserSession)
    → s.revoked_at ≡ none
    → s'.user_id ≡ s.user_id
    → s'.expires_at ≡ s.expires_at
    → s'.absolute_expires_at ≡ s.absolute_expires_at
    → Succ s s'
revoked-Succ s s' fresh user idle last = record {
  same_user = user;
  same_absolute = last;
  bounded = λ h. omega arith;
  revoked = λ h. absurd (ground arith);
}

pub nothing : (db : AuthDb) → Step db db
nothing db = quiet refl (omega arith)

revoke-Step :
    (now id : ℕ) (s : UserSession) (db : AuthDb)
    → lookup id db.sessions ≡ some s
    → s.revoked_at ≡ none
    → Step db (with_session id (revoked_at_time now s) db)
revoke-Step now id s db there fresh =
    moved id s (revoked_at_time now s) there
      (revoked-Succ s (revoked_at_time now s) fresh refl refl refl) refl (omega arith)

pub revoke_open-Step :
    (now id : ℕ) (s : UserSession) (db : AuthDb)
    → lookup id db.sessions ≡ some s
    → Step db (revoke_open now id s db)
unfolding revoke_open
revoke_open-Step now id s db there = elim (Option-cases s.revoked_at) [
  | inl e ↦ rw e (revoke-Step now id s db there e)
  | inr (t, e) ↦ rw e (nothing db)
]

replay-Step :
    (now id : ℕ) (s : UserSession) (db : AuthDb)
    → lookup id db.sessions ≡ some s
    → s.revoked_at ≡ none
    → Step db (detect_replay now id s db)
unfolding detect_replay
replay-Step now id s db there fresh =
    moved id s (record s { revoked_at = some now; replay_detected_at = some now }) there
      (revoked-Succ s _ fresh refl refl refl) refl (omega arith)

-- The session that a refresh token names: it is open now and the token is its current one.
pub record Current (crypto : Crypto) (now : ℕ) (token : Text) (db : AuthDb) (id : ℕ)
    (s : UserSession) : Type 0 where
  pub there : lookup id db.sessions ≡ some s
  pub active : inactive now s ≡ none
  pub current : s.refresh_token_hash ≡ crypto.sha256_hex token

-- How a check of a refresh token ends.
abbrev pub TokenChecked : Crypto → ℕ → Text → AuthDb → Outcome (ℕ × UserSession) → Type 0
TokenChecked crypto now token db o =
    ((id : ℕ) × (s : UserSession) × (o ≡ (ok (id, s), db)) × Current crypto now token db id s)
    ⊎ ((e : AuthError) × (db' : AuthDb) × (o ≡ (err e, db')) × Step db db')

module _ (crypto : Crypto) (settings : AuthSettings) where
  check_session-TokenChecked :
      (now : ℕ) (token : Text) (id : ℕ) (s : UserSession) (db : AuthDb)
      → lookup id db.sessions ≡ some s
      → TokenChecked crypto now token db (check_session crypto settings now token id s db)
  unfolding check_session
  check_session-TokenChecked now token id s db there = elim (Option-cases (inactive now s)) [
    | inr (e, f) ↦ inr (e, db, rw (f, check_session), nothing db)
    | inl f ↦ elim (Bool-cases (text_eq s.refresh_token_hash (crypto.sha256_hex token))) [
      | inl g ↦ inl (
        id,
        s,
        rw (f, g, check_session),
        record { there = there; active = f; current = (text_eq_iff _ _).0 g },
      )
      | inr g ↦ inr (
        AuthError.replay_detected s.user_id id,
        detect_replay now id s db,
        rw (f, g, check_session),
        replay-Step now id s db there (active-open now s f).0,
      )
    ]
  ]

  find_session-TokenChecked :
      (now : ℕ) (token : Text) (sid sub : ℕ) (db : AuthDb)
      → TokenChecked crypto now token db (find_session crypto settings now token sid sub db)
  unfolding find_session
  find_session-TokenChecked now token sid sub db = elim (Option-cases (lookup sid db.sessions)) [
    | inl e ↦ inr (AuthError.invalid_session, db, rw (e, find_session), nothing db)
    | inr (s, e) ↦ elim (Bool-cases (s.user_id == sub)) [
      | inr f ↦ inr (AuthError.invalid_session, db, rw (e, f, find_session), nothing db)
      | inl f ↦ rw (e, f, find_session) (check_session-TokenChecked now token sid s db e)
    ]
  ]

  pub valid_refresh_session-TokenChecked :
      (now : ℕ) (token : Text) (db : AuthDb)
      → TokenChecked crypto now token db (valid_refresh_session crypto settings now token db)
  unfolding valid_refresh_session
  valid_refresh_session-TokenChecked now token db =
      elim (Option-cases (crypto.decode (seconds now) token)) [
        | inl e ↦ inr (AuthError.invalid_token, db, rw (e, valid_refresh_session), nothing db)
        | inr (claims, e) ↦ rw (e, valid_refresh_session) (of_kind claims.kind claims)
      ]
    where
      of_kind :
          (k : TokenKind) (claims : Claims)
          → TokenChecked crypto now token db (elim k [
            | refresh ↦ elim (both_ids claims) [
              | none ↦ (err AuthError.invalid_payload, db)
              | some (sid, sub) ↦ find_session crypto settings now token sid sub db
            ]
            | access ↦ (err AuthError.invalid_type, db)
            | other_kind ↦ (err AuthError.invalid_type, db)
          ])
      of_kind access claims = inr (AuthError.invalid_type, db, refl, nothing db)
      of_kind other_kind claims = inr (AuthError.invalid_type, db, refl, nothing db)
      of_kind refresh claims = elim (Option-cases (both_ids claims)) [
        | inl e ↦ inr (AuthError.invalid_payload, db, rw e, nothing db)
        | inr ((sid, sub), e) ↦ rw e (find_session-TokenChecked now token sid sub db)
      ]

  pub open_session-Step :
      (now user_id : ℕ) (agent ip : Option Text) (ttl : ℕ) (abs : Option ℕ) (db : AuthDb)
      → Step db (open_session crypto settings now user_id agent ip ttl abs db).1
  unfolding open_session
  open_session-Step now user_id agent ip ttl abs db = opened _ (omega arith) refl refl

  rotate-Step :
      (now id : ℕ) (s : UserSession) (agent ip : Option Text) (ttl : ℕ) (db : AuthDb)
      → lookup id db.sessions ≡ some s
      → s.revoked_at ≡ none
      → Step db (rotate crypto settings now id s agent ip ttl db).1
  unfolding rotate
  rotate-Step now id s agent ip ttl db there fresh =
      moved id s _ there
        (record {
          same_user = refl;
          same_absolute = refl;
          bounded = λ h. omega arith;
          revoked = λ h. refl;
        })
        refl (omega arith)

  refresh_valid-Step :
      (now id : ℕ) (s : UserSession) (agent ip : Option Text) (ttl : ℕ) (db : AuthDb)
      → lookup id db.sessions ≡ some s
      → s.revoked_at ≡ none
      → Step db (refresh_valid crypto settings now id s agent ip ttl db).1
  unfolding refresh_valid
  refresh_valid-Step now id s agent ip ttl db there fresh =
      elim (Bool-cases (active_account (lookup s.user_id db.accounts))) [
        | inl e ↦ rw (e, refresh_valid) (rotate-Step now id s agent ip ttl db there fresh)
        | inr e ↦ rw (e, refresh_valid) (revoke-Step now id s db there fresh)
      ]

  pub refresh-Step :
      (now : ℕ) (token : Text) (agent ip : Option Text) (ttl : ℕ) (db : AuthDb)
      → Step db (refresh_tokens crypto settings now token agent ip ttl db).1
  unfolding refresh_tokens and_then
  refresh-Step now token agent ip ttl db = elim (valid_refresh_session-TokenChecked now token db) [
    | inl (id, s, e, c) ↦
        rw (e, refresh_tokens, and_then)
          (refresh_valid-Step now id s agent ip ttl db c.there (active-open now s c.active).0)
    | inr (x, db', e, step) ↦ rw (e, refresh_tokens, and_then) step
  ]

  pub logout-Step :
      (now : ℕ) (token : Text) (db : AuthDb) → Step db (logout crypto settings now token db).1
  unfolding logout and_then
  logout-Step now token db = elim (valid_refresh_session-TokenChecked now token db) [
    | inl (id, s, e, c) ↦ rw (e, logout, and_then) (revoke_open-Step now id s db c.there)
    | inr (x, db', e, step) ↦ rw (e, logout, and_then) step
  ]
