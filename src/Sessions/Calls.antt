-- ===== src/Sessions/Calls.antt =====
-- Sequences of calls of backend/app/services/auth_service.py.
use messaging_system.Base.{ℕ, Option, none, List, [], ◌∷◌}
use messaging_system.Base.Text.{Text}
use messaging_system.Sessions.{AuthDb, Crypto, AuthSettings}
use messaging_system.Sessions.Revoke.{revoke_session, logout_all}
use messaging_system.Sessions.Service.{register, login, refresh_tokens, logout, change_password}

pub data AuthRequest : Type 0 where
  register_request : Text → Option Text → Text → AuthRequest
  login_request : Text → Text → ℕ → Option ℕ → AuthRequest
  refresh_request : Text → ℕ → AuthRequest
  logout_request : Text → AuthRequest
  revoke_request : ℕ → ℕ → AuthRequest
  logout_all_request : ℕ → AuthRequest
  change_password_request : ℕ → Text → Text → AuthRequest

-- The database after a request at a time, whatever its answer.
unfoldable pub serve : Crypto → AuthSettings → ℕ → AuthRequest → AuthDb → AuthDb
serve c s now (AuthRequest.register_request u e p) db = (register c s u e p db).1
serve c s now (AuthRequest.login_request u p ttl abs) db =
    (login c s now u p none none ttl abs db).1
serve c s now (AuthRequest.refresh_request t ttl) db = (refresh_tokens c s now t none none ttl db).1
serve c s now (AuthRequest.logout_request t) db = (logout c s now t db).1
serve c s now (AuthRequest.revoke_request u id) db = (revoke_session now u id db).1
serve c s now (AuthRequest.logout_all_request u) db = (logout_all now u db).1
serve c s now (AuthRequest.change_password_request u old new) db =
    (change_password c s now u old new db).1

unfoldable pub run : Crypto → AuthSettings → List (ℕ × AuthRequest) → AuthDb → AuthDb
run c s [] db = db
run c s ((now, q) ∷ qs) db = run c s qs (serve c s now q db)
