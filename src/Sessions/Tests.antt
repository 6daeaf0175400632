-- ===== src/Sessions/Tests.antt =====
-- Accounts and sessions with a concrete stand-in for the libraries: a hash is the text itself, a token
-- is the list of its claims.
use messaging_system.Base.{
  ℕ, zero, suc, ◌≤◌, ◌<◌, ◌≡◌, refl, true, Option, none, some, List, [], ◌∷◌, ◌==◌, ==_iff, lt→ltb,
  inl, inr, subst, Bool-cases, ltb, if◌then◌else◌, is_some, ok, err, arith,
}
use messaging_system.Base.Text.{Text, text_eq, text_eq_iff, codes}
use messaging_system.Base.Table.{nat_key, lookup, put}
use messaging_system.Sessions.{
  Account, UserSession, TokenKind, access, refresh, other_kind, Claims, TokenPair, AuthDb,
  AuthError, AuthEvent, Crypto, AuthSettings, inactive, days, revoke_all, open_count,
  create_refresh_token, create_access_token,
}
use messaging_system.Sessions.Revoke.{get_session_access_context}
use messaging_system.Sessions.Service.{
  and_then, valid_refresh_session, find_session, check_session, refresh_tokens, refresh_valid,
  rotate, change_password, change_hash,
}
use messaging_system.Sessions.Calls.{AuthRequest, run}
use messaging_system.Sessions.Steps.{Sound, Grows}
use messaging_system.Sessions.Runs.{run-Sound, run-Grows}
use messaging_system.Sessions.Access.{
  Refused, access_bounds, revoked_for_good, password_change_closes,
}
use messaging_system.Sessions.Rotation.{replay_refused, rotation_chain}

abbrev number : Option ℕ → ℕ
number none = 0
number (some n) = suc n

abbrev optional : ℕ → Option ℕ
optional zero = none
optional (suc n) = some n

abbrev kind_number : TokenKind → ℕ
kind_number access = 0
kind_number refresh = 1
kind_number other_kind = 2

abbrev kind_of : ℕ → TokenKind
kind_of zero = TokenKind.access
kind_of (suc zero) = TokenKind.refresh
kind_of (suc (suc n)) = TokenKind.other_kind

unfoldable plain_encode : Claims → Text
plain_encode c = number c.sub ∷ number c.sid ∷ kind_number c.kind ∷ number c.jti ∷ c.exp ∷ []

unfoldable plain_decode : ℕ → Text → Option Claims
plain_decode now (a ∷ b ∷ k ∷ j ∷ e ∷ []) =
    if ltb now e
    then some
        (record { sub = optional a; sid = optional b; kind = kind_of k; jti = optional j; exp = e })
    else none
plain_decode now t = none

optional-number : (o : Option ℕ) → optional (number o) ≡ o
optional-number none = refl
optional-number (some n) = refl

kind_of-kind_number : (k : TokenKind) → kind_of (kind_number k) ≡ k
kind_of-kind_number access = refl
kind_of-kind_number refresh = refl
kind_of-kind_number other_kind = refl

plain_decode-encode : (s : ℕ) (c : Claims) → s < c.exp → plain_decode s (plain_encode c) ≡ some c
unfolding plain_decode plain_encode
plain_decode-encode s c h =
    rw
      (
        lt→ltb s c.exp h,
        optional-number c.sub,
        optional-number c.sid,
        optional-number c.jti,
        kind_of-kind_number c.kind,
      )
      refl

abbrev plain : Crypto
plain = record {
  hash_password = λ salt p. p;
  verify_password = text_eq;
  sha256_hex = λ t. t;
  encode = plain_encode;
  decode = plain_decode;
  verify-hash = λ salt p. (text_eq_iff p p).1 refl;
  decode-encode = plain_decode-encode;
}

abbrev settings : AuthSettings
settings = record {
  jwt_access_ttl_min = 15;
  session_absolute_ttl_days = 30;
  str_lower = λ t. t;
  sql_lower = λ t. t;
}

abbrev token : Text
token = 2 ∷ 3 ∷ 1 ∷ 1 ∷ 604800 ∷ []

abbrev ann : Account
ann = record { username = codes "ann"; email = none; password_hash = codes "pw"; is_active = true }

abbrev session : UserSession
session = record {
  user_id = 1;
  refresh_token_hash = token;
  user_agent = none;
  ip = none;
  last_used_at = 0;
  expires_at = days 7;
  absolute_expires_at = days 30;
  revoked_at = none;
  replay_detected_at = none;
}

abbrev db : AuthDb
db = record {
  accounts = (1, ann) ∷ [];
  sessions = (2, session) ∷ [];
  events = [];
  next_id = 3;
  next_random = 1;
}

db-Sound : Sound db
unfolding lookup
db-Sound id s h = elim (Bool-cases (2 == id)) [
  | inl e ↦
      let p : 2 ≡ id = (==_iff 2 id).0 e in
      let q : session ≡ s = cc (rw e at h) in
      (omega arith, subst (λ x. x.expires_at ≤ x.absolute_expires_at) q (omega arith))
  | inr e ↦ absurd (cc (rw e at h))
]

abbrev requests : List (ℕ × AuthRequest)
requests =
    (5, AuthRequest.login_request (codes "ann") (codes "pw") 7 none)
    ∷ (8, AuthRequest.refresh_request token 7)
    ∷ (9, AuthRequest.logout_all_request 1)
    ∷ []

run-Sound_example : Sound (run plain settings requests db)
run-Sound_example = run-Sound plain settings requests db db-Sound

run-Grows_example : Grows db (run plain settings requests db)
run-Grows_example = run-Grows plain settings requests db db-Sound

abbrev owned : ℕ
owned = 2

access_bounds_example :
    (s : UserSession) × (lookup 2 db.sessions ≡ some s)
    × (s.user_id ≡ 1)
    × (inactive 10 s ≡ none)
    × (ann.is_active ≡ true)
    × (owned ≡ owned)
    × (10 < 900000000)
    × (900000000 ≤ 900000000)
    × (900000000 ≤ s.expires_at)
    × (900000000 ≤ s.absolute_expires_at)
unfolding lookup get_session_access_context inactive
access_bounds_example = access_bounds 10 1 owned 900000000 db ann owned 900000000 refl

abbrev closed : AuthDb
closed = record db { sessions = (2, record session { revoked_at = some 4 }) ∷ [] }

password_change_closes_example : Refused (
    get_session_access_context 10 1 2 900000000 (
      run plain settings requests (record closed {
        accounts = (1, record ann { password_hash = codes "pw2" }) ∷ [];
        events = AuthEvent.password_changed 1 1 ∷ [];
        next_random = 2;
      })))
unfolding lookup put text_eq change_password change_hash revoke_all open_count
password_change_closes_example =
    password_change_closes plain settings 4 1 (codes "pw") (codes "pw2") db
      (record closed {
        accounts = (1, record ann { password_hash = codes "pw2" }) ∷ [];
        events = AuthEvent.password_changed 1 1 ∷ [];
        next_random = 2;
      })
      1 requests 10 2 900000000 session db-Sound refl refl refl

closed-Sound : Sound closed
unfolding lookup
closed-Sound id s h = elim (Bool-cases (2 == id)) [
  | inl e ↦
      let p : 2 ≡ id = (==_iff 2 id).0 e in
      let q : record session { revoked_at = some 4 } ≡ s = cc (rw e at h) in
      (omega arith, subst (λ x. x.expires_at ≤ x.absolute_expires_at) q (omega arith))
  | inr e ↦ absurd (cc (rw e at h))
]

revoked_for_good_example :
    Refused (get_session_access_context 10 1 2 900000000 (run plain settings requests closed))
unfolding lookup
revoked_for_good_example =
    revoked_for_good plain settings requests closed 10 1 2 900000000
      (record session { revoked_at = some 4 }) closed-Sound refl refl

abbrev new_pair : TokenPair
new_pair = record {
  access_token = 2 ∷ 3 ∷ 0 ∷ 0 ∷ 960 ∷ [];
  refresh_token = 2 ∷ 3 ∷ 1 ∷ 2 ∷ 604860 ∷ [];
}

abbrev after : AuthDb
after = record db {
  sessions =
      (
        2,
        record session {
          last_used_at = 60000000;
          expires_at = 604860000000;
          refresh_token_hash = new_pair.refresh_token;
        },
      )
      ∷ [];
  next_random = 2;
}

replay_refused_example :
    (e : AuthError) × (db'' : AuthDb) × (s' : UserSession) × (refresh_tokens plain settings 70000000
        token none none 7 after
      ≡ (err e, db''))
    × (lookup 2 db''.sessions ≡ some s')
    × (is_some (inactive 70000000 s') ≡ true)
unfolding lookup put text_eq plain_decode plain_encode valid_refresh_session find_session
    check_session inactive refresh_tokens and_then refresh_valid rotate create_refresh_token
    create_access_token
replay_refused_example =
    replay_refused plain settings 60000000 70000000 token none none 7 7 db after new_pair 2 session
      refl refl refl (λ h. cc)

rotation_chain_example :
    (s' : UserSession) × (pair' : TokenPair) × (db'' : AuthDb) × (valid_refresh_session plain
        settings 70000000 new_pair.refresh_token after
      ≡ (ok (2, s'), after))
    × (refresh_tokens plain settings 70000000 new_pair.refresh_token none none 7 after
        ≡ (ok pair', db''))
    × (s'.user_id ≡ session.user_id)
unfolding lookup put text_eq plain_decode plain_encode valid_refresh_session find_session
    check_session inactive refresh_tokens and_then refresh_valid rotate create_refresh_token
    create_access_token
rotation_chain_example =
    rotation_chain plain settings 60000000 70000000 token none none 7 7 db after new_pair 2 session
      refl refl (omega arith)
