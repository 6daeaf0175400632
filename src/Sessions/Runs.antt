-- ===== src/Sessions/Runs.antt =====
-- Runs of requests to backend/app/services/auth_service.py.
use messaging_system.Base.{
  ℕ, refl, inl, inr, none, List, [], ◌∷◌, ◌==◌, Bool-cases, Option-cases, arith,
}
use messaging_system.Base.Table.{nat_key, lookup}
use messaging_system.Sessions.{AuthDb, Crypto, AuthSettings}
use messaging_system.Sessions.Revoke.{revoke_session, logout_all}
use messaging_system.Sessions.Calls.{AuthRequest, serve, run}
use messaging_system.Sessions.Steps.{
  Sound, Grows, Step, swept, Step-Grows, Step-Sound, Grows-refl, Grows-trans,
}
use messaging_system.Sessions.Requests.{nothing, revoke_open-Step, logout-Step, refresh-Step}
use messaging_system.Sessions.Accounts.{login-Step, register-Step, change_password-Step}

revoke_session-Step :
    (now user_id id : ℕ) (db : AuthDb) → Step db (revoke_session now user_id id db).1
unfolding revoke_session
revoke_session-Step now user_id id db = elim (Option-cases (lookup id db.sessions)) [
  | inl e ↦ rw (e, revoke_session) (nothing db)
  | inr (s, e) ↦ elim (Bool-cases (s.user_id == user_id)) [
    | inl f ↦ rw (e, f, revoke_session) (revoke_open-Step now id s db e)
    | inr f ↦ rw (e, f, revoke_session) (nothing db)
  ]
]

logout_all-Step : (now user_id : ℕ) (db : AuthDb) → Step db (logout_all now user_id db).1
unfolding logout_all
logout_all-Step now user_id db = swept now user_id refl (omega arith)

pub serve-Step :
    (c : Crypto) (s : AuthSettings) (now : ℕ) (q : AuthRequest) (db : AuthDb)
    → Step db (serve c s now q db)
unfolding serve
serve-Step c s now (AuthRequest.register_request u e p) db = register-Step c s u e p db
serve-Step c s now (AuthRequest.login_request u p ttl abs) db =
    login-Step c s now u p none none ttl abs db
serve-Step c s now (AuthRequest.refresh_request t ttl) db = refresh-Step c s now t none none ttl db
serve-Step c s now (AuthRequest.logout_request t) db = logout-Step c s now t db
serve-Step c s now (AuthRequest.revoke_request u id) db = revoke_session-Step now u id db
serve-Step c s now (AuthRequest.logout_all_request u) db = logout_all-Step now u db
serve-Step c s now (AuthRequest.change_password_request u old new) db =
    change_password-Step c s now u old new db

-- Whatever the requests, their times and their answers, every session keeps an id that was given out
-- and an idle deadline no later than its absolute one.
pub run-Sound :
    (c : Crypto) (s : AuthSettings) (qs : List (ℕ × AuthRequest)) (db : AuthDb)
    → Sound db
    → Sound (run c s qs db)
unfolding run
run-Sound c s [] db w = w
run-Sound c s ((now, q) ∷ qs) db w =
    run-Sound c s qs (serve c s now q db)
      (Step-Sound db (serve c s now q db) w (serve-Step c s now q db))

-- No list of requests removes a session, gives it to another user, moves its absolute deadline, or
-- changes the time at which it was revoked, once it was.
pub run-Grows :
    (c : Crypto) (s : AuthSettings) (qs : List (ℕ × AuthRequest)) (db : AuthDb)
    → Sound db
    → Grows db (run c s qs db)
unfolding run
run-Grows c s [] db w = Grows-refl db
run-Grows c s ((now, q) ∷ qs) db w =
    let db' = serve c s now q db in
    let step = serve-Step c s now q db in
    Grows-trans db db' (run c s qs db') (Step-Grows db db' w step)
      (run-Grows c s qs db' (Step-Sound db db' w step))
