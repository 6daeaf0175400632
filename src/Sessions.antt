-- ===== src/Sessions.antt =====
-- backend/app/services/auth_service.py with the tokens of backend/app/core/security.py: accounts,
-- sessions and the rotation of refresh tokens. What is committed before an exception stays, so an
-- operation returns its answer and the database side by side. Times are in microseconds.
pub mod Revoke
pub mod Service
pub mod Calls
pub mod Steps
pub mod Requests
pub mod Accounts
pub mod Runs
pub mod Tokens
pub mod Rotation
pub mod Access
pub mod Tests
use messaging_system.Base.{
  ℕ, ◌+◌, ◌*◌, ◌/◌, ◌<◌, ◌≡◌, Bool, true, false, ◌&&◌, ◌||◌, not, Option, none, some, List, [], ◌∷◌,
  ◌++◌, leb, ltb, ◌==◌, if◌then◌else◌, min, is_some, is_none, Result, ok, err,
}
use messaging_system.Base.Text.{Text, text_eq, codes}
use messaging_system.Base.Table.{nat_key, Table, lookup, put}
use messaging_system.Identifier.{strip, normalize_username}

pub record Account : Type 0 where
  pub username : Text
  pub email : Option Text
  pub password_hash : Text
  pub is_active : Bool

pub record UserSession : Type 0 where
  pub user_id : ℕ
  pub refresh_token_hash : Text
  pub user_agent : Option Text
  pub ip : Option Text
  pub last_used_at : ℕ
  pub expires_at : ℕ
  pub absolute_expires_at : ℕ
  pub revoked_at : Option ℕ
  pub replay_detected_at : Option ℕ

pub data TokenKind : Type 0 where
  access refresh other_kind : TokenKind

-- The claims of a token; `sub` and `sid` are missing if they do not parse.
pub record Claims : Type 0 where
  pub sub : Option ℕ
  pub sid : Option ℕ
  pub kind : TokenKind
  pub jti : Option ℕ
  pub exp : ℕ

pub record TokenPair : Type 0 where
  pub access_token : Text
  pub refresh_token : Text

pub data AuthEvent : Type 0 where
  refresh_replay_detected : ℕ → ℕ → AuthEvent
  password_changed : ℕ → ℕ → AuthEvent

-- A new row takes `next_id`, a random number takes `next_random`.
pub record AuthDb : Type 0 where
  pub accounts : Table ℕ Account
  pub sessions : Table ℕ UserSession
  pub events : List AuthEvent
  pub next_id : ℕ
  pub next_random : ℕ

pub data AuthError : Type 0 where
  unsafe_username username_taken email_taken multiple_rows invalid_credentials : AuthError
  account_disabled invalid_token invalid_type invalid_payload invalid_session : AuthError
  session_revoked idle_expired absolute_expired token_expired session_not_found : AuthError
  password_incorrect password_unchanged : AuthError
  replay_detected : ℕ → ℕ → AuthError

abbrev pub Outcome : Type 0 → Type 0
Outcome A = Result AuthError A × AuthDb

-- The password hashes, the digest and the tokens of the libraries: a hash takes a salt, and a
-- token is refused from the second in which it expires.
pub record Crypto : Type 0 where
  pub hash_password : ℕ → Text → Text
  pub verify_password : Text → Text → Bool
  pub sha256_hex : Text → Text
  pub encode : Claims → Text
  pub decode : ℕ → Text → Option Claims
  pub verify-hash : (salt : ℕ) (p : Text) → verify_password p (hash_password salt p) ≡ true
  pub decode-encode : (s : ℕ) (c : Claims) → s < c.exp → decode s (encode c) ≡ some c

-- The settings, in their units; `str.lower` and the database's `lower` come with them.
pub record AuthSettings : Type 0 where
  pub jwt_access_ttl_min : ℕ
  pub session_absolute_ttl_days : ℕ
  pub str_lower : Text → Text
  pub sql_lower : Text → Text

abbrev pub seconds : ℕ → ℕ
seconds t = t / 1000000

abbrev pub days : ℕ → ℕ
days n = n * 86400000000

abbrev pub minutes : ℕ → ℕ
minutes n = n * 60000000

unfoldable pub matching : (Account → Bool) → Table ℕ Account → List (ℕ × Account)
matching p [] = []
matching p ((id, a) ∷ rows) = if p a then (id, a) ∷ matching p rows else matching p rows

-- `scalar_one_or_none`
abbrev pub one_or_none : List (ℕ × Account) → Result AuthError (Option (ℕ × Account))
one_or_none [] = ok none
one_or_none (x ∷ []) = ok (some x)
one_or_none (x ∷ y ∷ r) = err AuthError.multiple_rows

-- `_assert_active_session`: the first check that fails.
unfoldable pub inactive : ℕ → UserSession → Option AuthError
inactive now s =
    if is_some s.revoked_at
    then some AuthError.session_revoked
    else if leb s.expires_at now
    then some AuthError.idle_expired
    else if leb s.absolute_expires_at now
    then some AuthError.absolute_expired
    else none

abbrev pub revoked_at_time : ℕ → UserSession → UserSession
revoked_at_time now s = record s { revoked_at = some now }

abbrev pub with_session : ℕ → UserSession → AuthDb → AuthDb
with_session id s db = record db { sessions = put id s db.sessions }

-- The `UPDATE … WHERE user_id = … AND revoked_at IS NULL`, with the number of its rows.
unfoldable pub revoke_all : ℕ → ℕ → Table ℕ UserSession → Table ℕ UserSession
revoke_all now user_id [] = []
revoke_all now user_id ((id, s) ∷ rows) =
    (id, if s.user_id == user_id && is_none s.revoked_at then revoked_at_time now s else s)
    ∷ revoke_all now user_id rows

unfoldable pub open_count : ℕ → Table ℕ UserSession → ℕ
open_count user_id [] = 0
open_count user_id ((id, s) ∷ rows) =
    (if s.user_id == user_id && is_none s.revoked_at then 1 else 0) + open_count user_id rows

module _ (crypto : Crypto) (settings : AuthSettings) where
  unfoldable pub normalize_email : Text → Text
  normalize_email value = settings.str_lower (strip value)

  abbrev pub has_email : Text → Account → Bool
  has_email wanted a = elim a.email [
    | none ↦ false
    | some e ↦ text_eq (settings.sql_lower e) wanted
  ]

  unfoldable pub create_access_token : ℕ → ℕ → ℕ → ℕ → Text
  create_access_token now user_id session_id auth_expires_at = crypto.encode (record {
    sub = some user_id;
    sid = some session_id;
    kind = TokenKind.access;
    jti = none;
    exp = seconds (min (now + minutes settings.jwt_access_ttl_min) auth_expires_at);
  })

  unfoldable pub create_refresh_token : ℕ → ℕ → ℕ → ℕ → Text
  create_refresh_token random user_id session_id expires_at = crypto.encode (record {
    sub = some user_id;
    sid = some session_id;
    kind = TokenKind.refresh;
    jti = some random;
    exp = seconds expires_at;
  })
