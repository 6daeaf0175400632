-- ===== src/Sessions/Access.antt =====
-- backend/app/services/auth_service.py: who may still use a session, and for how long.
use messaging_system.Base.{
  ℕ, ◌≤◌, ◌<◌, ◌≡◌, refl, sym, subst, ap, ◌∙◌, inl, inr, true, none, some, List, ◌==◌, ==_iff, leb,
  is_some, is_none, min, Bool-cases, Option-cases, Result-cases, Result, ok, err, arith,
}
use messaging_system.Base.Text.{Text}
use messaging_system.Base.Table.{nat_key, lookup}
use messaging_system.Sessions.{
  Account, UserSession, AuthDb, AuthError, Crypto, AuthSettings, inactive, revoke_all,
}
use messaging_system.Sessions.Revoke.{get_session_access_context}
use messaging_system.Sessions.Service.{change_password, change_hash}
use messaging_system.Sessions.Calls.{AuthRequest, run}
use messaging_system.Sessions.Steps.{Step, swept_session, Sound, Step-Sound, lookup-revoke_all}
use messaging_system.Sessions.Requests.{active-open}
use messaging_system.Sessions.Accounts.{change_password-Step}
use messaging_system.Sessions.Runs.{run-Grows}

-- An answer of the context names a session that is open now, of the user, with an end that is still
-- to come and no later than the token's and the session's own deadlines.
pub access_bounds :
    (now user_id id expires : ℕ) (db : AuthDb) (a : Account) (sid until : ℕ)
    → get_session_access_context now user_id id expires db ≡ ok (a, sid, until)
    → (s : UserSession) × (lookup id db.sessions ≡ some s)
      × (s.user_id ≡ user_id)
      × (inactive now s ≡ none)
      × (a.is_active ≡ true)
      × (sid ≡ id)
      × (now < until)
      × (until ≤ expires)
      × (until ≤ s.expires_at)
      × (until ≤ s.absolute_expires_at)
unfolding get_session_access_context inactive
access_bounds now user_id id expires db a sid until h =
    elim (Option-cases (lookup user_id db.accounts)) [
      | inl e ↦ absurd (cc (rw (e, get_session_access_context) at h))
      | inr (b, e) ↦ elim (Option-cases (lookup id db.sessions)) [
        | inl f ↦ absurd (cc (rw (e, f, get_session_access_context) at h))
        | inr (s, f) ↦ elim (Bool-cases (s.user_id == user_id)) [
          | inr g ↦ absurd (cc (rw (e, f, g, get_session_access_context) at h))
          | inl g ↦ elim (Bool-cases b.is_active) [
            | inr k ↦ absurd (cc (rw (e, f, g, k, get_session_access_context) at h))
            | inl k ↦ elim (Option-cases (inactive now s)) [
              | inr (x, m) ↦ absurd (cc (rw (e, f, g, k, m, get_session_access_context) at h))
              | inl m ↦ elim (Bool-cases (leb expires now)) [
                | inl n ↦ absurd (cc (rw (e, f, g, k, m, n, get_session_access_context) at h))
                | inr n ↦
                    let q = rw (e, f, g, k, m, n, get_session_access_context) at h in
                    let p : until ≡ min expires (min s.expires_at s.absolute_expires_at) = cc in
                    let b_active : a.is_active ≡ true = cc in
                    let (unrevoked, idle, last) = active-open now s m in
                    (
                      s,
                      f,
                      (==_iff _ _).0 g,
                      m,
                      b_active,
                      cc,
                      ground arith,
                      omega arith,
                      omega arith,
                      omega arith,
                    )
              ]
            ]
          ]
        ]
      ]
    ]

abbrev pub Refused : {A : Type 0} → Result AuthError A → Type 0
Refused r = (e : AuthError) × (r ≡ err e)

revoked-Refused :
    (now user_id id expires : ℕ) (db : AuthDb) (s : UserSession)
    → lookup id db.sessions ≡ some s
    → is_some s.revoked_at ≡ true
    → Refused (get_session_access_context now user_id id expires db)
unfolding get_session_access_context inactive
revoked-Refused now user_id id expires db s there gone =
    elim (Result-cases (get_session_access_context now user_id id expires db)) [
      | inr x ↦ x
      | inl ((a, sid, until), e) ↦
          let found = access_bounds now user_id id expires db a sid until e in absurd (ground arith)
    ]

-- Once a session is revoked, no list of requests opens it again: at any later time, for any user and
-- any access token, its context is refused.
pub revoked_for_good :
    (c : Crypto) (st : AuthSettings) (qs : List (ℕ × AuthRequest)) (db : AuthDb)
    (now user_id id expires : ℕ) (s : UserSession)
    → Sound db
    → lookup id db.sessions ≡ some s
    → is_some s.revoked_at ≡ true
    → Refused (get_session_access_context now user_id id expires (run c st qs db))
revoked_for_good c st qs db now user_id id expires s w there gone =
    let (s', there', succ) = run-Grows c st qs db w id s there in
    revoked-Refused now user_id id expires (run c st qs db) s' there'
      (subst (λ x. is_some x ≡ true) (sym (succ.revoked gone)) gone)

change_password-sessions :
    (c : Crypto) (st : AuthSettings) (now user_id : ℕ) (old new : Text) (db db' : AuthDb) (n : ℕ)
    → change_password c st now user_id old new db ≡ (ok n, db')
    → db'.sessions ≡ revoke_all now user_id db.sessions
unfolding change_password change_hash
change_password-sessions c st now user_id old new db db' n h =
    elim (Option-cases (lookup user_id db.accounts)) [
      | inl e ↦ absurd (cc (rw (e, change_password) at h))
      | inr (a, e) ↦ elim (Bool-cases (c.verify_password old a.password_hash)) [
        | inr f ↦ absurd (cc (rw (e, f, change_password) at h))
        | inl f ↦ elim (Bool-cases (c.verify_password new a.password_hash)) [
          | inl g ↦ absurd (cc (rw (e, f, g, change_password) at h))
          | inr g ↦
              let k = rw (e, f, g, change_password, change_hash) at h in
              sym (ap (λ x. x.1.sessions) k)
        ]
      ]
    ]

swept-revoked :
    (now user_id : ℕ) (s : UserSession)
    → s.user_id ≡ user_id
    → is_some (swept_session now user_id s).revoked_at ≡ true
swept-revoked now user_id s user =
    let u = (==_iff s.user_id user_id).1 user in
    elim (Bool-cases (is_none s.revoked_at)) [
      | inl e ↦ rw (u, e) refl
      | inr e ↦ rw (u, e) (ground arith)
    ]

-- After a password is changed, no session that the account had is good for anything: whatever is
-- requested from then on, at any time and with any access token, its context is refused.
pub password_change_closes :
    (c : Crypto) (st : AuthSettings) (now user_id : ℕ) (old new : Text) (db db' : AuthDb) (n : ℕ)
    (qs : List (ℕ × AuthRequest)) (later id expires : ℕ) (s : UserSession)
    → Sound db
    → change_password c st now user_id old new db ≡ (ok n, db')
    → lookup id db.sessions ≡ some s
    → s.user_id ≡ user_id
    → Refused (get_session_access_context later user_id id expires (run c st qs db'))
password_change_closes c st now user_id old new db db' n qs later id expires s w h there user =
    let step = subst (λ x. Step db x.1) h (change_password-Step c st now user_id old new db) in
    let there' =
      ap (lookup id) (change_password-sessions c st now user_id old new db db' n h)
      ∙ lookup-revoke_all now user_id db.sessions id s there in
    revoked_for_good c st qs db' later user_id id expires (swept_session now user_id s)
      (Step-Sound db db' w step) there' (swept-revoked now user_id s user)
