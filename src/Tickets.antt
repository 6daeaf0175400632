-- ===== src/Tickets.antt =====
-- backend/app/services/ws_ticket_service.py: tickets that open one WebSocket each. Redis is given by its
-- operations and their documented laws; an operation may fail. Times are in microseconds.
pub mod Once
pub mod Fresh
pub mod Tests
use messaging_system.Base.{
  ℕ, zero, suc, ◌+◌, ◌-◌, ◌*◌, ◌/◌, ◌<◌, ◌≡◌, ◌≢◌, ◌⊎◌, Bool, true, false, ◌||◌, Option, none, some,
  List, [], ◌∷◌, ◌++◌, leb, ltb, if◌then◌else◌, min, max, length, Result, ok, err,
}
use messaging_system.Base.Text.{Text, codes}

pub record TicketPayload : Type 0 where
  pub user_id : ℕ
  pub session_id : ℕ
  pub authentication_expires_at : ℕ
  pub ticket_expires_at : ℕ

-- What a key holds: JSON of the service, or something that does not parse as such.
pub data Stored : Type 0 where
  payload : TicketPayload → Stored
  malformed : Stored

-- A key's value and the time at which it expires.
abbrev pub Entry : Type 0
Entry = Option (Stored × ℕ)

-- What a key yields: an expired value is as good as none.
abbrev pub live : ℕ → Entry → Option Stored
live now none = none
live now (some (s, until)) = if ltb now until then some s else none

-- GETDEL and SET with NX and EX. The outer option of an answer is a failed call, of which it is not
-- known whether the server executed it. `holds` is the server's table, for the laws only: what an
-- answered call finds and leaves at its key, what a failed call may leave, and that the other keys
-- stay.
pub record Redis (R : Type 0) : Type 0 where
  pub set_nx : ℕ → Text → Stored → ℕ → R → Option Bool × R
  pub getdel : ℕ → Text → R → Option (Option Stored) × R
  pub holds : Text → R → Entry
  pub getdel_found :
      (now : ℕ) (key : Text) (found : Option Stored) (r : R)
      → (getdel now key r).0 ≡ some found
      → found ≡ live now (holds key r)
  pub getdel_deletes :
      (now : ℕ) (key : Text) (found : Option Stored) (r : R)
      → (getdel now key r).0 ≡ some found
      → holds key (getdel now key r).1 ≡ none
  pub getdel_unknown :
      (now : ℕ) (key : Text) (r : R)
      → (holds key (getdel now key r).1 ≡ none) ⊎ (holds key (getdel now key r).1 ≡ holds key r)
  pub getdel_other :
      (now : ℕ) (key other : Text) (r : R)
      → other ≢ key
      → holds other (getdel now key r).1 ≡ holds other r
  pub set_nx_stores :
      (now : ℕ) (key : Text) (s : Stored) (ttl : ℕ) (r : R)
      → (set_nx now key s ttl r).0 ≡ some true
      → holds key (set_nx now key s ttl r).1 ≡ some (s, now + ttl * 1000000)
  pub set_nx_other :
      (now : ℕ) (key other : Text) (s : Stored) (ttl : ℕ) (r : R)
      → other ≢ key
      → holds other (set_nx now key s ttl r).1 ≡ holds other r

pub record WebSocketTicket : Type 0 where
  pub value : Text
  pub expires_at : ℕ

pub record WebSocketTicketClaims : Type 0 where
  pub user_id : ℕ
  pub session_id : ℕ
  pub authentication_expires_at : ℕ

pub data TicketError : Type 0 where
  authentication_expired unavailable invalid_ticket expired_ticket : TicketError

-- `math.ceil` of a span in seconds, and at least 1.
unfoldable pub ttl_of : ℕ → ℕ
ttl_of remaining = max 1 ((remaining + 999999) / 1000000)

-- The checks on what the key held.
unfoldable pub accept : ℕ → Option Stored → Result TicketError WebSocketTicketClaims
accept now none = err TicketError.invalid_ticket
accept now (some malformed) = err TicketError.invalid_ticket
accept now (some (payload p)) =
    if leb p.ticket_expires_at now || leb p.authentication_expires_at now
    then err TicketError.expired_ticket
    else ok (record {
      user_id = p.user_id;
      session_id = p.session_id;
      authentication_expires_at = p.authentication_expires_at;
    })

abbrev pub bad_value : Text → Bool
bad_value [] = true
bad_value (c ∷ s) = ltb 256 (length (c ∷ s))

unfoldable pub ticket_key : (Text → Text) → Text → Text
ticket_key sha256_hex value = codes "auth:ws-ticket:" ++ sha256_hex value

module _ {R : Type 0} (redis : Redis R) (sha256_hex : Text → Text) where
  -- The three attempts at a random value, which come from a stream.
  unfoldable pub store_ticket :
      ℕ → ℕ → TicketPayload → ℕ → (ℕ → Text) → R → Result TicketError WebSocketTicket × R
  store_ticket zero now p ttl token r = (err TicketError.unavailable, r)
  store_ticket (suc tries) now p ttl token r =
      let (stored, r') = redis.set_nx now (ticket_key sha256_hex (token tries)) (payload p) ttl r in
      elim stored [
        | none ↦ (err TicketError.unavailable, r')
        | some b ↦ elim b [
          | true ↦ (ok (record { value = token tries; expires_at = p.ticket_expires_at }), r')
          | false ↦ store_ticket tries now p ttl token r'
        ]
      ]

  unfoldable pub issue : ℕ → ℕ → ℕ → ℕ → ℕ → (ℕ → Text) → R → Result TicketError WebSocketTicket × R
  issue now ttl_seconds user_id session_id authentication_expires_at token r =
      let expires_at = min (now + ttl_seconds * 1000000) authentication_expires_at in
      if leb expires_at now
      then (err TicketError.authentication_expired, r)
      else store_ticket 3 now
          (record {
            user_id = user_id;
            session_id = session_id;
            authentication_expires_at = authentication_expires_at;
            ticket_expires_at = expires_at;
          })
          (ttl_of (expires_at - now)) token r

  unfoldable pub consume : ℕ → Text → R → Result TicketError WebSocketTicketClaims × R
  consume now value r =
      if bad_value value
      then (err TicketError.invalid_ticket, r)
      else let (found, r') = redis.getdel now (ticket_key sha256_hex value) r in
        elim found [ none ↦ (err TicketError.unavailable, r') | some raw ↦ (accept now raw, r') ]

-- The calls of the two handlers.
pub data TicketRequest : Type 0 where
  issue_ticket :
      (now ttl_seconds user_id session_id authentication_expires_at : ℕ) (token : ℕ → Text)
      → TicketRequest
  consume_ticket : (now : ℕ) (value : Text) → TicketRequest

module _ {R : Type 0} (redis : Redis R) (sha256_hex : Text → Text) where
  -- What a call leaves in Redis.
  unfoldable pub serve : TicketRequest → R → R
  serve (issue_ticket now ttl_seconds user_id session_id auth token) r =
      (issue redis sha256_hex now ttl_seconds user_id session_id auth token r).1
  serve (consume_ticket now value) r = (consume redis sha256_hex now value r).1

  unfoldable pub run : List TicketRequest → R → R
  run [] r = r
  run (q ∷ qs) r = run qs (serve q r)
