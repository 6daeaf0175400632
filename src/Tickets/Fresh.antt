-- ===== src/Tickets/Fresh.antt =====
-- Keys that stay empty, for backend/app/services/ws_ticket_service.py.
use messaging_system.Base.{
  ℕ, zero, suc, ◌+◌, ◌*◌, ◌≡◌, ◌≢◌, ◌∙◌, subst, inl, inr, true, false, none, List, [], ◌∷◌, All,
  leb, min, Bool-cases, Option-cases,
}
use messaging_system.Base.Text.{Text, same_or_not}
use messaging_system.Tickets.{
  TicketPayload, payload, Redis, ticket_key, store_ticket, issue, bad_value, consume, TicketRequest,
  issue_ticket, consume_ticket, serve, run,
}

module _ {R : Type 0} (redis : Redis R) (sha256_hex : Text → Text) where
  -- No random value of the call has the key.
  abbrev pub Fresh : Text → TicketRequest → Type 0
  Fresh key (issue_ticket now ttl user_id session_id auth token) =
      (k : ℕ) → key ≢ ticket_key sha256_hex (token k)
  Fresh key (consume_ticket now value) = Unit

  store_ticket-empty :
      (key : Text) (tries now : ℕ) (p : TicketPayload) (ttl : ℕ) (token : ℕ → Text) (r : R)
      → ((k : ℕ) → key ≢ ticket_key sha256_hex (token k))
      → redis.holds key r ≡ none
      → redis.holds key (store_ticket redis sha256_hex tries now p ttl token r).1 ≡ none
  unfolding store_ticket
  store_ticket-empty key zero now p ttl token r fresh h = h
  store_ticket-empty key (suc tries) now p ttl token r fresh h =
      let own = ticket_key sha256_hex (token tries) in
      let set = redis.set_nx now own (payload p) ttl r in
      let kept : redis.holds key set.1 ≡ none =
        redis.set_nx_other now own key (payload p) ttl r (fresh tries) ∙ h in
      elim (Option-cases set.0) [
        | inl e ↦ rw (e, store_ticket) kept
        | inr (true, e) ↦ rw (e, store_ticket) kept
        | inr (false, e) ↦
            rw (e, store_ticket) (store_ticket-empty key tries now p ttl token set.1 fresh kept)
      ]

  getdel-empty :
      (now : ℕ) (key other : Text) (r : R)
      → redis.holds key r ≡ none
      → redis.holds key (redis.getdel now other r).1 ≡ none
  getdel-empty now key other r h = elim (same_or_not key other) [
    | inr n ↦ redis.getdel_other now other key r n ∙ h
    | inl p ↦
        subst (λ o. redis.holds key (redis.getdel now o r).1 ≡ none) p
          (elim (redis.getdel_unknown now key r) [ inl e ↦ e | inr e ↦ e ∙ h ])
  ]

  consume-empty :
      (now : ℕ) (key value : Text) (r : R)
      → redis.holds key r ≡ none
      → redis.holds key (consume redis sha256_hex now value r).1 ≡ none
  unfolding consume
  consume-empty now key value r h = elim (Bool-cases (bad_value value)) [
    | inl e ↦ rw (e, consume) h
    | inr e ↦
        let other = ticket_key sha256_hex value in
        let kept = getdel-empty now key other r h in
        elim (Option-cases (redis.getdel now other r).0) [
          | inl f ↦ rw (e, f, consume) kept
          | inr (raw, f) ↦ rw (e, f, consume) kept
        ]
  ]

  serve-empty :
      (key : Text) (q : TicketRequest) (r : R)
      → Fresh key q
      → redis.holds key r ≡ none
      → redis.holds key (serve redis sha256_hex q r) ≡ none
  unfolding serve issue
  serve-empty key (consume_ticket now value) r f h = consume-empty now key value r h
  serve-empty key (issue_ticket now ttl user_id session_id auth token) r f h =
      let expires = min (now + ttl * 1000000) auth in
      elim (Bool-cases (leb expires now)) [
        | inl e ↦ rw (e, issue, serve) h
        | inr e ↦ rw (e, issue, serve) (store_ticket-empty key 3 now _ _ token r f h)
      ]

  -- No run of calls fills an empty key that none of its random values has.
  pub run-empty :
      (key : Text) (qs : List TicketRequest) (r : R)
      → All (Fresh key) qs
      → redis.holds key r ≡ none
      → redis.holds key (run redis sha256_hex qs r) ≡ none
  unfolding run
  run-empty key [] r f h = h
  run-empty key (q ∷ qs) r f h = run-empty key qs _ f.1 (serve-empty key q r f.0 h)
