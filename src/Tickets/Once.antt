-- ===== src/Tickets/Once.antt =====
-- The use of a ticket, for backend/app/services/ws_ticket_service.py.
use messaging_system.Base.{
  ℕ, zero, suc, ◌+◌, ◌-◌, ◌*◌, ◌<◌, ◌≤◌, ◌≡◌, ◌≢◌, refl, sym, subst, ap, ◌∙◌, inl, inr, true, false,
  Option, none, some, List, All, leb, min, ok, err, Bool-cases, Option-cases, arith,
}
use messaging_system.Base.Text.{Text}
use messaging_system.Tickets.{
  TicketPayload, Stored, payload, Redis, WebSocketTicket, WebSocketTicketClaims, TicketError,
  ttl_of, ticket_key, store_ticket, issue, accept, bad_value, consume, live, TicketRequest, run,
}
use messaging_system.Tickets.Fresh.{Fresh, run-empty}

ttl_covers : (n : ℕ) → n ≤ ttl_of n * 1000000
unfolding ttl_of
ttl_covers n = omega arith

live_early : (now until : ℕ) (s : Stored) → now < until → live now (some (s, until)) ≡ some s
live_early now until s h = ground arith

accept_none :
    (now : ℕ) (raw : Option Stored)
    → ((s : Stored) → raw ≢ some s)
    → (e : TicketError) × (accept now raw ≡ err e)
unfolding accept
accept_none now none h = (TicketError.invalid_ticket, refl)
accept_none now (some s) h = absurd (h s refl)

module _ {R : Type 0} (redis : Redis R) (sha256_hex : Text → Text) where
  -- A call that goes to Redis, and what it answers.
  consume-eq :
      (now : ℕ) (value : Text) (r : R) (raw : Option Stored)
      → bad_value value ≡ false
      → (redis.getdel now (ticket_key sha256_hex value) r).0 ≡ some raw
      → consume redis sha256_hex now value r
        ≡ (accept now raw, (redis.getdel now (ticket_key sha256_hex value) r).1)
  unfolding consume
  consume-eq now value r raw good found = rw (good, found, consume) refl

  consume_found :
      (now : ℕ) (value : Text) (r r' : R) (claims : WebSocketTicketClaims)
      → consume redis sha256_hex now value r ≡ (ok claims, r')
      → (raw : Option Stored) × (bad_value value ≡ false)
        × ((redis.getdel now (ticket_key sha256_hex value) r).0 ≡ some raw)
        × (r' ≡ (redis.getdel now (ticket_key sha256_hex value) r).1)
  unfolding consume
  consume_found now value r r' claims h = elim (Bool-cases (bad_value value)) [
    | inl e ↦ absurd (cc (rw (e, consume) at h))
    | inr e ↦ elim (Option-cases (redis.getdel now (ticket_key sha256_hex value) r).0) [
      | inl f ↦ absurd (cc (rw (e, f, consume) at h))
      | inr (raw, f) ↦ (raw, e, f, sym (ap (λ x. x.1) (rw (e, f, consume) at h)))
    ]
  ]

  second_use :
      (now : ℕ) (value : Text) (q : R)
      → bad_value value ≡ false
      → ((s : Stored) → (redis.getdel now (ticket_key sha256_hex value) q).0 ≢ some (some s))
      → (e : TicketError) × (r : R) × (consume redis sha256_hex now value q ≡ (err e, r))
  unfolding consume
  second_use now value q good gone =
      let key = ticket_key sha256_hex value in
      elim (Option-cases (redis.getdel now key q).0) [
        | inl e ↦ (TicketError.unavailable, (redis.getdel now key q).1, rw (good, e, consume) refl)
        | inr (raw, e) ↦
            let (x, f) = accept_none now raw (λ s p. gone s (e ∙ ap some p)) in
            let left = (redis.getdel now key q).1 in
            (x, left, consume-eq now value q raw good e ∙ ap (λ y. (y, left)) f)
      ]

  -- A ticket that opened a socket opens no other: presented again by anyone, at any time and after any
  -- calls of the two handlers, of which any may fail in Redis, it is refused. (Condition: no random
  -- value drawn in between has the digest of the ticket.)
  pub consume_once :
      (now now' : ℕ) (value : Text) (qs : List TicketRequest) (r r' : R)
      (claims : WebSocketTicketClaims)
      → consume redis sha256_hex now value r ≡ (ok claims, r')
      → All (Fresh redis sha256_hex (ticket_key sha256_hex value)) qs
      → (e : TicketError) × (r'' : R) × (consume redis sha256_hex now' value
            (run redis sha256_hex qs r')
          ≡ (err e, r''))
  consume_once now now' value qs r r' claims h fresh =
      let (raw, good, found, left) = consume_found now value r r' claims h in
      let key = ticket_key sha256_hex value in
      let gone : redis.holds key r' ≡ none =
        ap (redis.holds key) left ∙ redis.getdel_deletes now key raw r found in
      let empty = run-empty redis sha256_hex key qs r' fresh gone in
      second_use now' value (run redis sha256_hex qs r') good λ s e.
        let none_left = redis.getdel_found now' key (some s) (run redis sha256_hex qs r') e in
        cc (none_left ∙ ap (live now') empty)

  -- The attempt that stored the ticket.
  store_ticket-stored :
      (tries now : ℕ) (p : TicketPayload) (ttl : ℕ) (token : ℕ → Text) (r r' : R)
      (t : WebSocketTicket)
      → store_ticket redis sha256_hex tries now p ttl token r ≡ (ok t, r')
      → (k : ℕ) × (q : R) × (t.value ≡ token k)
        × (t.expires_at ≡ p.ticket_expires_at)
        × ((redis.set_nx now (ticket_key sha256_hex (token k)) (payload p) ttl q).0 ≡ some true)
        × (r' ≡ (redis.set_nx now (ticket_key sha256_hex (token k)) (payload p) ttl q).1)
  unfolding store_ticket
  store_ticket-stored zero now p ttl token r r' t h = absurd (cc)
  store_ticket-stored (suc tries) now p ttl token r r' t h =
      let set = redis.set_nx now (ticket_key sha256_hex (token tries)) (payload p) ttl r in
      elim (Option-cases set.0) [
        | inl e ↦ absurd (cc (rw (e, store_ticket) at h))
        | inr (true, e) ↦
            let q = rw (e, store_ticket) at h in
            let made : record { value = token tries; expires_at = p.ticket_expires_at } ≡ t = cc in
            (
              tries,
              r,
              sym (ap (λ x. x.value) made),
              sym (ap (λ x. x.expires_at) made),
              e,
              sym (ap (λ x. x.1) q),
            )
        | inr (false, e) ↦
            store_ticket-stored tries now p ttl token set.1 r' t (rw (e, store_ticket) at h)
      ]

  accept_live :
      (now : ℕ) (p : TicketPayload)
      → now < p.ticket_expires_at
      → now < p.authentication_expires_at
      → accept now (some (payload p))
        ≡ ok (record {
          user_id = p.user_id;
          session_id = p.session_id;
          authentication_expires_at = p.authentication_expires_at;
        })
  unfolding accept
  accept_live now p a b = ground arith

  opened :
      (now now' : ℕ) (t : WebSocketTicket) (p : TicketPayload) (ttl k : ℕ) (q r : R)
      (token : ℕ → Text)
      → bad_value t.value ≡ false
      → t.value ≡ token k
      → r ≡ (redis.set_nx now (ticket_key sha256_hex (token k)) (payload p) ttl q).1
      → (redis.set_nx now (ticket_key sha256_hex (token k)) (payload p) ttl q).0 ≡ some true
      → now' < now + ttl * 1000000
      → now' < p.ticket_expires_at
      → now' < p.authentication_expires_at
      → (redis.getdel now' (ticket_key sha256_hex t.value) r).0 ≢ none
      → (consume redis sha256_hex now' t.value r).0
        ≡ ok (record {
          user_id = p.user_id;
          session_id = p.session_id;
          authentication_expires_at = p.authentication_expires_at;
        })
  opened now now' t p ttl k q r token good value left stored early a b answers =
      elim (Option-cases (redis.getdel now' (ticket_key sha256_hex t.value) r).0) [
        | inl e ↦ absurd (answers e)
        | inr (found, e) ↦
            let key = ticket_key sha256_hex (token k) in
            let e' : (redis.getdel now' key (redis.set_nx now key (payload p) ttl q).1).0
                ≡ some found =
              subst (λ x. (redis.getdel now' key x).0 ≡ some found) left
                (subst (λ v. (redis.getdel now' (ticket_key sha256_hex v) r).0 ≡ some found) value
                  e) in
            let held = redis.set_nx_stores now key (payload p) ttl q stored in
            let same : found ≡ some (payload p) =
              redis.getdel_found now' key found _ e'
              ∙ ap (live now') held
              ∙ live_early now' (now + ttl * 1000000) (payload p) early in
            ap (λ x. x.0) (consume-eq now' t.value r found good e)
            ∙ ap (accept now') same
            ∙ accept_live now' p a b
      ]

  -- A ticket that was issued is good until it expires: the first use of it, if Redis answers, opens a
  -- socket for the user and the session that it was issued to, with the same end of authentication.
  -- (Condition: the random values are neither empty nor longer than 256.)
  pub issue-consume :
      (now now' ttl_seconds user_id session_id auth : ℕ) (token : ℕ → Text) (r r' : R)
      (t : WebSocketTicket)
      → ((k : ℕ) → bad_value (token k) ≡ false)
      → issue redis sha256_hex now ttl_seconds user_id session_id auth token r ≡ (ok t, r')
      → now' < t.expires_at
      → (redis.getdel now' (ticket_key sha256_hex t.value) r').0 ≢ none
      → (consume redis sha256_hex now' t.value r').0
        ≡ ok (record {
          user_id = user_id;
          session_id = session_id;
          authentication_expires_at = auth;
        })
  unfolding issue
  issue-consume now now' ttl_seconds user_id session_id auth token r r' t good h early answers =
      let expires = min (now + ttl_seconds * 1000000) auth in
      elim (Bool-cases (leb expires now)) [
        | inl e ↦ absurd (cc (rw (e, issue) at h))
        | inr e ↦
            let p : TicketPayload = record {
              user_id = user_id;
              session_id = session_id;
              authentication_expires_at = auth;
              ticket_expires_at = expires;
            } in
            let ttl = ttl_of (expires - now) in
            let (k, q, value, until, stored, left) =
              store_ticket-stored 3 now p ttl token r r' t (rw (e, issue) at h) in
            let long = ttl_covers (expires - now) in
            opened now now' t p ttl k q r' token
              (subst (λ x. bad_value x ≡ false) (sym value) (good k)) value left stored
              (omega arith) (omega arith) (omega arith) answers
      ]
