-- ===== src/Sessions/Service.antt =====
-- backend/app/services/auth_service.py: the operations of AuthService.
use messaging_system.Base.{
  ℕ, ◌+◌, ◌*◌, Bool, true, false, ◌||◌, Option, none, some, [], ◌∷◌, ◌++◌, ◌==◌, if◌then◌else◌, min,
  Result, ok, err,
}
use messaging_system.Base.Text.{Text, text_eq}
use messaging_system.Base.Table.{nat_key, lookup, put}
use messaging_system.Identifier.{strip, normalize_username}
use messaging_system.Sessions.Revoke.{
  active_account, both_ids, detect_replay, revoke_open, get_session_access_context,
}
use messaging_system.Sessions.{
  Account, UserSession, access, refresh, other_kind, TokenPair, AuthEvent, AuthDb, AuthError,
  Outcome, Crypto, AuthSettings, seconds, days, matching, one_or_none, inactive, revoked_at_time,
  with_session, revoke_all, open_count, normalize_email, has_email, create_access_token,
  create_refresh_token,
}

-- An exception ends the call and keeps what is committed.
unfoldable pub and_then : {A B : Type 0} → Outcome A → (A → AuthDb → Outcome B) → Outcome B
and_then (err e, db) f = (err e, db)
and_then (ok a, db) f = f a db

module _ (crypto : Crypto) (settings : AuthSettings) where
  abbrev pub normalized : Option Text → Option Text
  normalized none = none
  normalized (some e) = some (normalize_email crypto settings e)

  -- The account that already has the email.
  abbrev pub email_owner : Option Text → AuthDb → Result AuthError (Option (ℕ × Account))
  email_owner none db = ok none
  email_owner (some e) db = one_or_none (matching (has_email crypto settings e) db.accounts)

  unfoldable pub register : Text → Option Text → Text → AuthDb → Outcome ℕ
  register username email password db = elim (normalize_username username) [
    | err _ ↦ (err AuthError.unsafe_username, db)
    | ok name ↦ elim (one_or_none (matching (λ a. text_eq a.username name) db.accounts)) [
      | err e ↦ (err e, db)
      | ok (some _) ↦ (err AuthError.username_taken, db)
      | ok none ↦ elim (email_owner (normalized email) db) [
        | err e ↦ (err e, db)
        | ok (some _) ↦ (err AuthError.email_taken, db)
        | ok none ↦ (
          ok db.next_id,
          record db {
            accounts =
                db.accounts
                ++ (
                  db.next_id,
                  record {
                    username = name;
                    email = normalized email;
                    password_hash = crypto.hash_password db.next_random password;
                    is_active = true;
                  },
                )
                  ∷ [];
            next_id = db.next_id + 1;
            next_random = db.next_random + 1;
          },
        )
      ]
    ]
  ]

  abbrev pub is_identity : Text → Account → Bool
  is_identity identity a =
      text_eq a.username identity
      || has_email crypto settings (normalize_email crypto settings identity) a

  -- `absolute_ttl_days or settings.session_absolute_ttl_days`
  abbrev pub absolute_days : Option ℕ → ℕ
  absolute_days none = settings.session_absolute_ttl_days
  absolute_days (some n) = if n == 0 then settings.session_absolute_ttl_days else n

  -- The new session of `login` and its two tokens.
  unfoldable pub open_session :
      ℕ → ℕ → Option Text → Option Text → ℕ → Option ℕ → AuthDb → TokenPair × AuthDb
  open_session now user_id user_agent ip refresh_ttl_days absolute_ttl_days db =
      let absolute = now + days (absolute_days absolute_ttl_days) in
      let idle = min (now + days refresh_ttl_days) absolute in
      let token = create_refresh_token crypto settings db.next_random user_id db.next_id idle in
      (
        record {
          access_token = create_access_token crypto settings now user_id db.next_id idle;
          refresh_token = token;
        },
        record db {
          sessions =
              put db.next_id
                (record {
                  user_id = user_id;
                  refresh_token_hash = crypto.sha256_hex token;
                  user_agent = user_agent;
                  ip = ip;
                  last_used_at = now;
                  expires_at = idle;
                  absolute_expires_at = absolute;
                  revoked_at = none;
                  replay_detected_at = none;
                })
                db.sessions;
          next_id = db.next_id + 1;
          next_random = db.next_random + 1;
        },
      )

  unfoldable pub login :
      ℕ → Text → Text → Option Text → Option Text → ℕ → Option ℕ → AuthDb → Outcome TokenPair
  login now username_or_email password user_agent ip refresh_ttl_days absolute_ttl_days db =
      elim (one_or_none (matching (is_identity (strip username_or_email)) db.accounts)) [
        | err e ↦ (err e, db)
        | ok none ↦ (err AuthError.invalid_credentials, db)
        | ok (some (id, account)) ↦ elim (crypto.verify_password password account.password_hash) [
          | false ↦ (err AuthError.invalid_credentials, db)
          | true ↦ elim account.is_active [
            | false ↦ (err AuthError.account_disabled, db)
            | true ↦
                let (pair, db') =
                  open_session now id user_agent ip refresh_ttl_days absolute_ttl_days db in
                (ok pair, db')
          ]
        ]
      ]

  -- The row, after the checks that need no token.
  unfoldable pub check_session : ℕ → Text → ℕ → UserSession → AuthDb → Outcome (ℕ × UserSession)
  check_session now token id s db = elim (inactive now s) [
    | some e ↦ (err e, db)
    | none ↦
        if text_eq s.refresh_token_hash (crypto.sha256_hex token)
        then (ok (id, s), db)
        else (err (AuthError.replay_detected s.user_id id), detect_replay now id s db)
  ]

  unfoldable pub find_session : ℕ → Text → ℕ → ℕ → AuthDb → Outcome (ℕ × UserSession)
  find_session now token session_id user_id db = elim (lookup session_id db.sessions) [
    | none ↦ (err AuthError.invalid_session, db)
    | some s ↦
        if s.user_id == user_id
        then check_session now token session_id s db
        else (err AuthError.invalid_session, db)
  ]

  -- `_get_valid_refresh_session`
  unfoldable pub valid_refresh_session : ℕ → Text → AuthDb → Outcome (ℕ × UserSession)
  valid_refresh_session now token db = elim (crypto.decode (seconds now) token) [
    | none ↦ (err AuthError.invalid_token, db)
    | some claims ↦ elim claims.kind [
      | refresh ↦ elim (both_ids claims) [
        | none ↦ (err AuthError.invalid_payload, db)
        | some (sid, sub) ↦ find_session now token sid sub db
      ]
      | access ↦ (err AuthError.invalid_type, db)
      | other_kind ↦ (err AuthError.invalid_type, db)
    ]
  ]

  unfoldable pub rotate :
      ℕ → ℕ → UserSession → Option Text → Option Text → ℕ → AuthDb → TokenPair × AuthDb
  rotate now id s user_agent ip refresh_ttl_days db =
      let expires = min (now + days refresh_ttl_days) s.absolute_expires_at in
      let token = create_refresh_token crypto settings db.next_random s.user_id id expires in
      (
        record {
          access_token = create_access_token crypto settings now s.user_id id expires;
          refresh_token = token;
        },
        record db {
          sessions =
              put id
                (record s {
                  last_used_at = now;
                  expires_at = expires;
                  user_agent = user_agent;
                  ip = ip;
                  refresh_token_hash = crypto.sha256_hex token;
                })
                db.sessions;
          next_random = db.next_random + 1;
        },
      )

  -- The end of `refresh`, on the account of the session.
  unfoldable pub refresh_valid :
      ℕ → ℕ → UserSession → Option Text → Option Text → ℕ → AuthDb → Outcome TokenPair
  refresh_valid now id s user_agent ip refresh_ttl_days db =
      elim (active_account (lookup s.user_id db.accounts)) [
        | false ↦ (err AuthError.account_disabled, with_session id (revoked_at_time now s) db)
        | true ↦
            let (pair, db') = rotate now id s user_agent ip refresh_ttl_days db in (ok pair, db')
      ]

  unfoldable pub refresh_tokens :
      ℕ → Text → Option Text → Option Text → ℕ → AuthDb → Outcome TokenPair
  refresh_tokens now token user_agent ip refresh_ttl_days db =
      and_then (valid_refresh_session now token db)
        λ found db'. refresh_valid now found.0 found.1 user_agent ip refresh_ttl_days db'

  -- The answer is the user and the session that are revoked.
  unfoldable pub logout : ℕ → Text → AuthDb → Outcome (ℕ × ℕ)
  logout now token db =
      and_then (valid_refresh_session now token db)
        λ found db'. (ok (found.1.user_id, found.0), revoke_open now found.0 found.1 db')

  unfoldable pub change_hash : ℕ → ℕ → Account → Text → AuthDb → Outcome ℕ
  change_hash now user_id account new_password db =
      let count = open_count user_id db.sessions in
      (
        ok count,
        record db {
          accounts =
              put user_id
                (record account {
                  password_hash = crypto.hash_password db.next_random new_password;
                })
                db.accounts;
          sessions = revoke_all now user_id db.sessions;
          events = db.events ++ AuthEvent.password_changed user_id count ∷ [];
          next_random = db.next_random + 1;
        },
      )

  unfoldable pub change_password : ℕ → ℕ → Text → Text → AuthDb → Outcome ℕ
  change_password now user_id current_password new_password db = elim (lookup user_id db.accounts) [
    | none ↦ (err AuthError.password_incorrect, db)
    | some account ↦
        if crypto.verify_password current_password account.password_hash
        then if crypto.verify_password new_password account.password_hash
          then (err AuthError.password_unchanged, db)
          else change_hash now user_id account new_password db
        else (err AuthError.password_incorrect, db)
  ]

  unfoldable pub get_access_context : ℕ → Text → AuthDb → Result AuthError (Account × ℕ × ℕ)
  get_access_context now token db = elim (crypto.decode (seconds now) token) [
    | none ↦ err AuthError.invalid_token
    | some claims ↦ elim claims.kind [
      | access ↦ elim claims.sub [
        | none ↦ err AuthError.invalid_payload
        | some sub ↦ elim claims.sid [
          | none ↦ err AuthError.invalid_payload
          | some sid ↦ get_session_access_context now sub sid (claims.exp * 1000000) db
        ]
      ]
      | refresh ↦ err AuthError.invalid_type
      | other_kind ↦ err AuthError.invalid_type
    ]
  ]
