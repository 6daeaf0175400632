-- ===== src/Sessions/Tokens.antt =====
-- backend/app/services/auth_service.py: refresh tokens and the sessions that they name.
use messaging_system.Base.{
  ℕ, ◌≡◌, refl, inl, inr, true, Option, none, some, Bool-cases, Option-cases, ok, err, arith,
}
use messaging_system.Base.Text.{Text}
use messaging_system.Base.Table.{nat_key, lookup}
use messaging_system.Sessions.{
  UserSession, TokenKind, access, refresh, other_kind, Claims, TokenPair, AuthDb, AuthError,
  Outcome, Crypto, AuthSettings, seconds,
}
use messaging_system.Sessions.Revoke.{active_account, both_ids}
use messaging_system.Sessions.Service.{
  and_then, check_session, find_session, valid_refresh_session, rotate, refresh_valid,
  refresh_tokens,
}
use messaging_system.Sessions.Requests.{Current, valid_refresh_session-TokenChecked}

module _ (crypto : Crypto) (settings : AuthSettings) where
  -- The claims of a refresh token that names a session.
  pub record Named (now : ℕ) (token : Text) (id sub : ℕ) : Type 0 where
    pub claims : Claims
    pub decoded : crypto.decode (seconds now) token ≡ some claims
    pub kind : claims.kind ≡ TokenKind.refresh
    pub ids : both_ids claims ≡ some (id, sub)

  pub Named-find :
      (now : ℕ) (token : Text) (id sub : ℕ) (db : AuthDb)
      → Named now token id sub
      → valid_refresh_session crypto settings now token db
        ≡ find_session crypto settings now token id sub db
  unfolding valid_refresh_session
  Named-find now token id sub db n = rw (n.decoded, n.kind, n.ids, valid_refresh_session)

  find_session-id :
      (now : ℕ) (token : Text) (id sub : ℕ) (db db' : AuthDb) (j : ℕ) (s : UserSession)
      → find_session crypto settings now token id sub db ≡ (ok (j, s), db')
      → (j ≡ id) × (s.user_id ≡ sub)
  unfolding find_session check_session
  find_session-id now token id sub db db' j s h = ground arith

  pub valid-Named :
      (now : ℕ) (token : Text) (id : ℕ) (s : UserSession) (db db' : AuthDb)
      → valid_refresh_session crypto settings now token db ≡ (ok (id, s), db')
      → Named now token id s.user_id
  unfolding valid_refresh_session
  valid-Named now token id s db db' h = elim (Option-cases (crypto.decode (seconds now) token)) [
    | inl e ↦ absurd (cc (rw (e, valid_refresh_session) at h))
    | inr (claims, e) ↦ of_kind claims claims.kind e refl (rw (e, valid_refresh_session) at h)
  ]
    where
      of_kind :
          (claims : Claims) (k : TokenKind)
          → crypto.decode (seconds now) token ≡ some claims
          → claims.kind ≡ k
          → ◌≡◌ {A = Outcome (ℕ × UserSession)}
              (elim k [
                | refresh ↦ elim (both_ids claims) [
                  | none ↦ (err AuthError.invalid_payload, db)
                  | some (sid, sub) ↦ find_session crypto settings now token sid sub db
                ]
                | access ↦ (err AuthError.invalid_type, db)
                | other_kind ↦ (err AuthError.invalid_type, db)
              ])
              (ok (id, s), db')
          → Named now token id s.user_id
      of_kind claims access e q h = absurd (cc)
      of_kind claims other_kind e q h = absurd (cc)
      of_kind claims refresh e q h = elim (Option-cases (both_ids claims)) [
        | inl f ↦ absurd (cc (rw f at h))
        | inr ((sid, sub), f) ↦
            let (p, r) = find_session-id now token sid sub db db' id s (rw f at h) in
            record { claims = claims; decoded = e; kind = q; ids = rw (p, r) f }
      ]

  pub valid-Current :
      (now : ℕ) (token : Text) (id : ℕ) (s : UserSession) (db db' : AuthDb)
      → valid_refresh_session crypto settings now token db ≡ (ok (id, s), db')
      → Current crypto now token db id s × (db' ≡ db)
  valid-Current now token id s db db' h =
      elim (valid_refresh_session-TokenChecked crypto settings now token db) [
        | inl (j, t, e, c) ↦ let p : id ≡ j = cc in let q : s ≡ t = cc in (rw (p, q) c, cc)
        | inr (x, d, e, step) ↦ absurd (cc)
      ]

  -- A refresh that succeeds is a rotation.
  pub refresh-rotate :
      (now : ℕ) (token : Text) (agent ip : Option Text) (ttl : ℕ) (db db' : AuthDb)
      (pair : TokenPair) (id : ℕ) (s : UserSession)
      → valid_refresh_session crypto settings now token db ≡ (ok (id, s), db)
      → refresh_tokens crypto settings now token agent ip ttl db ≡ (ok pair, db')
      → (active_account (lookup s.user_id db.accounts) ≡ true)
        × (rotate crypto settings now id s agent ip ttl db ≡ (pair, db'))
  unfolding refresh_tokens and_then refresh_valid
  refresh-rotate now token agent ip ttl db db' pair id s v h =
      elim (Bool-cases (active_account (lookup s.user_id db.accounts))) [
        | inl e ↦ (e, (let k = rw (v, refresh_tokens, and_then, e, refresh_valid) at h in cc))
        | inr e ↦ absurd (let k = rw (v, refresh_tokens, and_then, e, refresh_valid) at h in cc)
      ]
