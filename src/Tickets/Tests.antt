-- ===== src/Tickets/Tests.antt =====
-- Tickets with a Redis that is a function from keys to entries and answers every call.
use messaging_system.Base.{
  ℕ, ◌+◌, ◌*◌, ◌≡◌, ◌≢◌, refl, inl, inr, Bool, true, false, Option, none, some, List, [], ◌∷◌, ok,
  err, Bool-cases, if◌then◌else◌, is_none, arith,
}
use messaging_system.Base.Text.{Text, text_eq, text_eq_iff, codes}
use messaging_system.Tickets.{
  Stored, Entry, live, Redis, WebSocketTicket, WebSocketTicketClaims, TicketError, TicketRequest,
  issue_ticket, consume_ticket, store_ticket, issue, accept, ticket_key, consume, run, ttl_of,
}
use messaging_system.Tickets.Once.{consume_once, issue-consume}

abbrev Keys : Type 0
Keys = Text → Entry

abbrev write : Text → Entry → Keys → Keys
write key e m other = if text_eq other key then e else m other

abbrev set_key : ℕ → Text → Stored → ℕ → Keys → Option Bool × Keys
set_key now key s ttl m =
    if is_none (live now (m key))
    then (some true, write key (some (s, now + ttl * 1000000)) m)
    else (some false, m)

abbrev take_key : ℕ → Text → Keys → Option (Option Stored) × Keys
take_key now key m = (some (live now (m key)), write key none m)

write_same : (key : Text) (e : Entry) (m : Keys) → write key e m key ≡ e
write_same key e m = rw ((text_eq_iff key key).1 refl) refl

write_other :
    (key other : Text) (e : Entry) (m : Keys) → other ≢ key → write key e m other ≡ m other
write_other key other e m n = elim (Bool-cases (text_eq other key)) [
  | inl t ↦ absurd (n ((text_eq_iff other key).0 t))
  | inr t ↦ rw t refl
]

take_found :
    (now : ℕ) (key : Text) (found : Option Stored) (m : Keys)
    → (take_key now key m).0 ≡ some found
    → found ≡ live now (m key)
take_found now key found m h = cc

set_stores :
    (now : ℕ) (key : Text) (s : Stored) (ttl : ℕ) (m : Keys)
    → (set_key now key s ttl m).0 ≡ some true
    → (set_key now key s ttl m).1 key ≡ some (s, now + ttl * 1000000)
set_stores now key s ttl m h = elim (Bool-cases (is_none (live now (m key)))) [
  | inl t ↦ rw t (write_same key (some (s, now + ttl * 1000000)) m)
  | inr t ↦ absurd (cc (rw t at h))
]

set_other :
    (now : ℕ) (key other : Text) (s : Stored) (ttl : ℕ) (m : Keys)
    → other ≢ key
    → (set_key now key s ttl m).1 other ≡ m other
set_other now key other s ttl m n = elim (Bool-cases (is_none (live now (m key)))) [
  | inl t ↦ rw t (write_other key other (some (s, now + ttl * 1000000)) m n)
  | inr t ↦ rw t refl
]

abbrev map_redis : Redis Keys
map_redis = record {
  set_nx = set_key;
  getdel = take_key;
  holds = λ key m. m key;
  getdel_found = take_found;
  getdel_deletes = λ now key found m h. write_same key none m;
  getdel_unknown = λ now key m. inl (write_same key none m);
  getdel_other = λ now key other m n. write_other key other none m n;
  set_nx_stores = set_stores;
  set_nx_other = set_other;
}

abbrev no_keys : Keys
no_keys key = none

abbrev digest : Text → Text
digest t = t

abbrev words : ℕ → Text
words k = codes "word"

abbrev ticket : WebSocketTicket
ticket = record { value = codes "word"; expires_at = 30000005 }

issue-consume_example :
    (consume map_redis digest 9
      (codes "word")
      (issue map_redis digest 5 30 7 8 90000000 words no_keys).1).0
    ≡ ok (record { user_id = 7; session_id = 8; authentication_expires_at = 90000000 })
unfolding issue store_ticket
issue-consume_example =
    issue-consume map_redis digest 5 9 30 7 8 90000000 words no_keys
      (issue map_redis digest 5 30 7 8 90000000 words no_keys).1 ticket (λ k. refl) refl
      (omega arith) (λ e. cc)

abbrev claims : WebSocketTicketClaims
claims = record { user_id = 7; session_id = 8; authentication_expires_at = 90000000 }

-- Between the two uses another ticket is issued, tried and found.
abbrev other_words : ℕ → Text
other_words k = codes "other"

abbrev later_calls : List TicketRequest
later_calls = issue_ticket 9 30 7 8 90000000 other_words ∷ consume_ticket 9 (codes "other") ∷ []

fresh_word : (k : ℕ) → ticket_key digest (codes "word") ≢ ticket_key digest (other_words k)
unfolding ticket_key
fresh_word k e = cc e

abbrev issued : Keys
issued = (issue map_redis digest 5 30 7 8 90000000 words no_keys).1

abbrev used : Keys
used = (consume map_redis digest 9 (codes "word") issued).1

consume_once_example :
    (e : TicketError) × (m : Keys) × (consume map_redis digest 10
        (codes "word")
        (run map_redis digest later_calls used)
      ≡ (err e, m))
unfolding issue store_ticket consume accept text_eq ttl_of ticket_key
consume_once_example =
    consume_once map_redis digest 9 10 (codes "word") later_calls issued used claims refl
      (fresh_word, (tt, tt))
