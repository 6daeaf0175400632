-- ===== src/Sessions/Rotation.antt =====
-- backend/app/services/auth_service.py: the token that a rotation replaces, and the one that replaces it.
use messaging_system.Base.{
  ℕ, ◌+◌, ◌<◌, ◌≡◌, ◌≢◌, refl, sym, subst, ap, ◌∙◌, inl, inr, true, Option, none, some, ==_iff,
  is_some, min, Bool-cases, Option-cases, ok, err, arith,
}
use messaging_system.Base.Text.{Text, text_eq, text_eq_iff}
use messaging_system.Base.Table.{nat_key, lookup, lookup-put_same}
use messaging_system.Sessions.{
  UserSession, TokenKind, TokenPair, AuthDb, AuthError, Crypto, AuthSettings, inactive, seconds,
  days, create_refresh_token,
}
use messaging_system.Sessions.Revoke.{active_account, detect_replay}
use messaging_system.Sessions.Service.{
  and_then, check_session, find_session, valid_refresh_session, rotate, refresh_valid,
  refresh_tokens,
}
use messaging_system.Sessions.Requests.{active-open}
use messaging_system.Sessions.Tokens.{Named, Named-find, valid-Named, valid-Current, refresh-rotate}

module _ (crypto : Crypto) (settings : AuthSettings) where
  -- The session after a rotation.
  record Rotated (now ttl id : ℕ) (s : UserSession) (db db' : AuthDb) (pair : TokenPair)
      (s' : UserSession) : Type 0 where
    there : lookup id db'.sessions ≡ some s'
    user : s'.user_id ≡ s.user_id
    digest : s'.refresh_token_hash ≡ crypto.sha256_hex pair.refresh_token
    idle : s'.expires_at ≡ min (now + days ttl) s.absolute_expires_at
    last : s'.absolute_expires_at ≡ s.absolute_expires_at
    revocation : s'.revoked_at ≡ s.revoked_at
    accounts : db'.accounts ≡ db.accounts
    token :
        pair.refresh_token
        ≡ create_refresh_token crypto settings db.next_random s.user_id id
            (min (now + days ttl) s.absolute_expires_at)

  rotate-Rotated :
      (now id : ℕ) (s : UserSession) (agent ip : Option Text) (ttl : ℕ) (db db' : AuthDb)
      (pair : TokenPair)
      → rotate crypto settings now id s agent ip ttl db ≡ (pair, db')
      → (s' : UserSession) × Rotated now ttl id s db db' pair s'
  unfolding rotate
  rotate-Rotated now id s agent ip ttl db db' pair h =
      let p = ap (λ x. x.0) h in
      let q = ap (λ x. x.1) h in
      let expires = min (now + days ttl) s.absolute_expires_at in
      let token = create_refresh_token crypto settings db.next_random s.user_id id expires in
      let s' : UserSession = record s {
        last_used_at = now;
        expires_at = expires;
        user_agent = agent;
        ip = ip;
        refresh_token_hash = crypto.sha256_hex token;
      } in
      (
        s',
        record {
          there = rw (sym q) (lookup-put_same id id db.sessions s' ((==_iff id id).1 refl));
          user = refl;
          digest = ap (λ x. crypto.sha256_hex x.refresh_token) p;
          idle = refl;
          last = refl;
          revocation = refl;
          accounts = sym (ap (λ x. x.accounts) q);
          token = sym (ap (λ x. x.refresh_token) p);
        },
      )

  -- A token that is not the current one of the session that it names.
  stale_find :
      (now : ℕ) (token : Text) (id sub : ℕ) (db : AuthDb) (s : UserSession)
      → lookup id db.sessions ≡ some s
      → s.user_id ≡ sub
      → s.refresh_token_hash ≢ crypto.sha256_hex token
      → (e : AuthError) × (db' : AuthDb) × (s' : UserSession) × (find_session crypto settings now
            token id sub db
          ≡ (err e, db'))
        × (lookup id db'.sessions ≡ some s')
        × (is_some (inactive now s') ≡ true)
  unfolding find_session check_session detect_replay inactive
  stale_find now token id sub db s there user differ =
      let u = (==_iff s.user_id sub).1 user in
      elim (Option-cases (inactive now s)) [
        | inr (e, f) ↦ (e, db, s, rw (there, u, f, find_session, check_session), there, rw f refl)
        | inl f ↦ elim (Bool-cases (text_eq s.refresh_token_hash (crypto.sha256_hex token))) [
          | inl g ↦ absurd (differ ((text_eq_iff _ _).0 g))
          | inr g ↦
              let s' : UserSession = record s {
                revoked_at = some now;
                replay_detected_at = some now;
              } in
              (
                AuthError.replay_detected s.user_id id,
                detect_replay now id s db,
                s',
                rw (there, u, f, g, find_session, check_session),
                lookup-put_same id id db.sessions s' ((==_iff id id).1 refl),
                refl,
              )
        ]
      ]

  -- A refresh token that was exchanged is worth nothing: presented again at any time, it is refused,
  -- and it leaves its session revoked or past a deadline. (Condition: the token still decodes to the
  -- same claims, and the digest tells it from the new one.)
  pub replay_refused :
      (now now' : ℕ) (token : Text) (agent ip : Option Text) (ttl ttl' : ℕ) (db db' : AuthDb)
      (pair : TokenPair) (id : ℕ) (s : UserSession)
      → valid_refresh_session crypto settings now token db ≡ (ok (id, s), db)
      → refresh_tokens crypto settings now token agent ip ttl db ≡ (ok pair, db')
      → crypto.decode (seconds now') token ≡ crypto.decode (seconds now) token
      → crypto.sha256_hex pair.refresh_token ≢ crypto.sha256_hex token
      → (e : AuthError) × (db'' : AuthDb) × (s' : UserSession) × (refresh_tokens crypto settings
            now' token agent ip ttl' db'
          ≡ (err e, db''))
        × (lookup id db''.sessions ≡ some s')
        × (is_some (inactive now' s') ≡ true)
  unfolding refresh_tokens and_then
  replay_refused now now' token agent ip ttl ttl' db db' pair id s v h same differ =
      let n = valid-Named crypto settings now token id s db db v in
      let (act, r) = refresh-rotate crypto settings now token agent ip ttl db db' pair id s v h in
      let (s', q) = rotate-Rotated now id s agent ip ttl db db' pair r in
      let stale : s'.refresh_token_hash ≢ crypto.sha256_hex token =
        λ x. differ (sym q.digest ∙ x) in
      let (e, db'', t, f, there, gone) =
        stale_find now' token id s.user_id db' s' q.there q.user stale in
      let named =
        Named-find crypto settings now' token id s.user_id db'
          (record { claims = n.claims; decoded = same ∙ n.decoded; kind = n.kind; ids = n.ids }) in
      (e, db'', t, rw (named, f, refresh_tokens, and_then), there, gone)

  fresh_find :
      (now : ℕ) (token : Text) (id sub : ℕ) (db : AuthDb) (s : UserSession)
      → lookup id db.sessions ≡ some s
      → s.user_id ≡ sub
      → inactive now s ≡ none
      → s.refresh_token_hash ≡ crypto.sha256_hex token
      → find_session crypto settings now token id sub db ≡ (ok (id, s), db)
  unfolding find_session check_session
  fresh_find now token id sub db s there user act same =
      let u = (==_iff s.user_id sub).1 user in
      let g = (text_eq_iff s.refresh_token_hash (crypto.sha256_hex token)).1 same in
      rw (there, u, act, g, find_session, check_session)

  still_active :
      (now : ℕ) (s : UserSession)
      → s.revoked_at ≡ none
      → now < s.expires_at
      → now < s.absolute_expires_at
      → inactive now s ≡ none
  unfolding inactive
  still_active now s a b c = ground arith

  accepted :
      (now : ℕ) (token : Text) (agent ip : Option Text) (ttl : ℕ) (db : AuthDb) (id : ℕ)
      (s : UserSession)
      → valid_refresh_session crypto settings now token db ≡ (ok (id, s), db)
      → active_account (lookup s.user_id db.accounts) ≡ true
      → refresh_tokens crypto settings now token agent ip ttl db ≡ (
        ok (rotate crypto settings now id s agent ip ttl db).0,
        (rotate crypto settings now id s agent ip ttl db).1,
      )
  unfolding refresh_tokens and_then refresh_valid
  accepted now token agent ip ttl db id s v act =
      rw (v, act, refresh_tokens, and_then, refresh_valid)

  -- The new token of a refresh is good for the same session: presented before the idle deadline that
  -- the refresh set, by the whole second, it is accepted and exchanged in turn.
  pub rotation_chain :
      (now now' : ℕ) (token : Text) (agent ip : Option Text) (ttl ttl' : ℕ) (db db' : AuthDb)
      (pair : TokenPair) (id : ℕ) (s : UserSession)
      → valid_refresh_session crypto settings now token db ≡ (ok (id, s), db)
      → refresh_tokens crypto settings now token agent ip ttl db ≡ (ok pair, db')
      → seconds now' < seconds (min (now + days ttl) s.absolute_expires_at)
      → (s' : UserSession) × (pair' : TokenPair) × (db'' : AuthDb) × (valid_refresh_session crypto
            settings now' pair.refresh_token db'
          ≡ (ok (id, s'), db'))
        × (refresh_tokens crypto settings now' pair.refresh_token agent ip ttl' db'
            ≡ (ok pair', db''))
        × (s'.user_id ≡ s.user_id)
  unfolding create_refresh_token
  rotation_chain now now' token agent ip ttl ttl' db db' pair id s v h early =
      let (act, r) = refresh-rotate crypto settings now token agent ip ttl db db' pair id s v h in
      let (s', q) = rotate-Rotated now id s agent ip ttl db db' pair r in
      let active =
        active-open now s (valid-Current crypto settings now token id s db db v).0.active in
      let limit = min (now + days ttl) s.absolute_expires_at in
      let before : now' < limit = omega arith in
      let act' =
        still_active now' s' (q.revocation ∙ active.0) (subst (λ x. now' < x) (sym q.idle) before)
          (subst (λ x. now' < x) (sym q.last) (omega arith)) in
      let named : Named crypto settings now' pair.refresh_token id s.user_id = record {
        claims = record {
          sub = some s.user_id;
          sid = some id;
          kind = TokenKind.refresh;
          jti = some db.next_random;
          exp = seconds limit;
        };
        decoded = rw q.token (crypto.decode-encode (seconds now') _ early);
        kind = refl;
        ids = refl;
      } in
      let found =
        Named-find crypto settings now' pair.refresh_token id s.user_id db' named
        ∙ fresh_find now' pair.refresh_token id s.user_id db' s' q.there q.user act' q.digest in
      let owner : active_account (lookup s'.user_id db'.accounts) ≡ true =
        rw (q.user, q.accounts) act in
      let new = rotate crypto settings now' id s' agent ip ttl' db' in
      (
        s',
        new.0,
        new.1,
        found,
        accepted now' pair.refresh_token agent ip ttl' db' id s' found owner,
        q.user,
      )
