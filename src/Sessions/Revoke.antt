-- ===== src/Sessions/Revoke.antt =====
-- backend/app/services/auth_service.py: what needs no token and no password: revocation, the list of
-- sessions, and the context of an access.
use messaging_system.Base.{
  ℕ, Bool, false, ◌&&◌, not, Option, none, some, List, [], ◌∷◌, ◌++◌, leb, ltb, ◌==◌, if◌then◌else◌,
  min, is_none, Result, ok, err,
}
use messaging_system.Base.Table.{nat_key, Table, lookup, put}
use messaging_system.Sessions.{
  Account, UserSession, Claims, AuthEvent, AuthDb, AuthError, Outcome, inactive, revoked_at_time,
  with_session, revoke_all, open_count,
}

-- `user and user.is_active`
abbrev pub active_account : Option Account → Bool
active_account none = false
active_account (some a) = a.is_active

-- `_uuid_claim` of both claims
abbrev pub both_ids : Claims → Option (ℕ × ℕ)
both_ids c = elim c.sid [
  | none ↦ none
  | some sid ↦ elim c.sub [ none ↦ none | some sub ↦ some (sid, sub) ]
]

-- A token that is signed for the session but is not its current one: the session is revoked
-- for good, and the caller gets an error.
unfoldable pub detect_replay : ℕ → ℕ → UserSession → AuthDb → AuthDb
detect_replay now id s db = record db {
  sessions = put id (record s { revoked_at = some now; replay_detected_at = some now }) db.sessions;
  events = db.events ++ AuthEvent.refresh_replay_detected id s.user_id ∷ [];
}

-- The session, once revoked, stays revoked at the time of the first revocation.
unfoldable pub revoke_open : ℕ → ℕ → UserSession → AuthDb → AuthDb
revoke_open now id s db =
    if is_none s.revoked_at then with_session id (revoked_at_time now s) db else db

unfoldable pub revoke_session : ℕ → ℕ → ℕ → AuthDb → Outcome (ℕ × ℕ)
revoke_session now user_id session_id db = elim (lookup session_id db.sessions) [
  | none ↦ (err AuthError.session_not_found, db)
  | some s ↦
      if s.user_id == user_id
      then (ok (user_id, session_id), revoke_open now session_id s db)
      else (err AuthError.session_not_found, db)
]

-- The answer is the number of the sessions that are revoked.
unfoldable pub logout_all : ℕ → ℕ → AuthDb → Outcome ℕ
logout_all now user_id db = (
  ok (open_count user_id db.sessions),
  record db { sessions = revoke_all now user_id db.sessions },
)

-- The sessions that are open now, the newest first: a row stands in the table where it was created.
unfoldable pub list_sessions : ℕ → ℕ → Table ℕ UserSession → List (ℕ × UserSession)
list_sessions now user_id [] = []
list_sessions now user_id ((id, s) ∷ rows) =
    let rest = list_sessions now user_id rows in
    if s.user_id == user_id
      && is_none s.revoked_at
      && ltb now s.expires_at
      && ltb now s.absolute_expires_at
    then rest ++ (id, s) ∷ []
    else rest

-- The account, the session and the time at which the authentication ends.
unfoldable pub get_session_access_context :
    ℕ → ℕ → ℕ → ℕ → AuthDb → Result AuthError (Account × ℕ × ℕ)
get_session_access_context now user_id session_id token_expires_at db =
    elim (lookup user_id db.accounts) [
      | none ↦ err AuthError.invalid_session
      | some account ↦ elim (lookup session_id db.sessions) [
        | none ↦ err AuthError.invalid_session
        | some s ↦
            if s.user_id == user_id
            then (if not account.is_active
                then err AuthError.account_disabled
                else elim (inactive now s) [
                  | some e ↦ err e
                  | none ↦
                      if leb token_expires_at now
                      then err AuthError.token_expired
                      else ok (
                        account,
                        session_id,
                        min token_expires_at (min s.expires_at s.absolute_expires_at),
                      )
                ])
            else err AuthError.invalid_session
      ]
    ]
