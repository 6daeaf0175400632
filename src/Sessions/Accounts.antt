-- ===== src/Sessions/Accounts.antt =====
-- The accounts of backend/app/services/auth_service.py: what their requests do to the sessions.
use messaging_system.Base.{
  ℕ, refl, inl, inr, Option, none, some, Bool-cases, Option-cases, Result-cases, arith,
}
use messaging_system.Base.Text.{Text, text_eq}
use messaging_system.Base.Table.{nat_key, lookup}
use messaging_system.Identifier.{strip, normalize_username}
use messaging_system.Sessions.{matching, one_or_none, AuthDb, Crypto, AuthSettings}
use messaging_system.Sessions.Service.{
  is_identity, email_owner, normalized, register, login, change_hash, change_password,
}
use messaging_system.Sessions.Steps.{Step, quiet, swept}
use messaging_system.Sessions.Requests.{nothing, open_session-Step}

module _ (crypto : Crypto) (settings : AuthSettings) where
  pub login-Step :
      (now : ℕ) (u p : Text) (agent ip : Option Text) (ttl : ℕ) (abs : Option ℕ) (db : AuthDb)
      → Step db (login crypto settings now u p agent ip ttl abs db).1
  unfolding login
  login-Step now u p agent ip ttl abs db =
      elim (Result-cases
        (one_or_none (matching (is_identity crypto settings (strip u)) db.accounts))) [
          | inr (x, e) ↦ rw (e, login) (nothing db)
          | inl (none, e) ↦ rw (e, login) (nothing db)
          | inl (some (id, a), e) ↦ elim (Bool-cases (crypto.verify_password p a.password_hash)) [
            | inr f ↦ rw (e, f, login) (nothing db)
            | inl f ↦ elim (Bool-cases a.is_active) [
              | inr g ↦ rw (e, f, g, login) (nothing db)
              | inl g ↦
                  rw (e, f, g, login) (open_session-Step crypto settings now id agent ip ttl abs db)
            ]
          ]
        ]

  pub register-Step :
      (u : Text) (email : Option Text) (p : Text) (db : AuthDb)
      → Step db (register crypto settings u email p db).1
  unfolding register
  register-Step u email p db = elim (Result-cases (normalize_username u)) [
    | inr (x, e) ↦ rw (e, register) (nothing db)
    | inl (name, e) ↦
        elim (Result-cases (one_or_none (matching (λ a. text_eq a.username name) db.accounts))) [
          | inr (x, f) ↦ rw (e, f, register) (nothing db)
          | inl (some o, f) ↦ rw (e, f, register) (nothing db)
          | inl (none, f) ↦
              elim (Result-cases
                (email_owner crypto settings (normalized crypto settings email) db)) [
                  | inr (x, g) ↦ rw (e, f, g, register) (nothing db)
                  | inl (some o, g) ↦ rw (e, f, g, register) (nothing db)
                  | inl (none, g) ↦ rw (e, f, g, register) (quiet refl (omega arith))
                ]
        ]
  ]

  pub change_password-Step :
      (now user_id : ℕ) (old new : Text) (db : AuthDb)
      → Step db (change_password crypto settings now user_id old new db).1
  unfolding change_password change_hash
  change_password-Step now user_id old new db = elim (Option-cases (lookup user_id db.accounts)) [
    | inl e ↦ rw (e, change_password) (nothing db)
    | inr (a, e) ↦ elim (Bool-cases (crypto.verify_password old a.password_hash)) [
      | inr f ↦ rw (e, f, change_password) (nothing db)
      | inl f ↦ elim (Bool-cases (crypto.verify_password new a.password_hash)) [
        | inl g ↦ rw (e, f, g, change_password) (nothing db)
        | inr g ↦ rw (e, f, g, change_password, change_hash) (swept now user_id refl (omega arith))
      ]
    ]
  ]
