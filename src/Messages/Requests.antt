-- ===== src/Messages/Requests.antt =====
-- Sequences of calls of backend/app/services/message_service.py.
use messaging_system.Base.{ℕ, Bool, Option, List, [], ◌∷◌}
use messaging_system.Base.Text.{Text}
use messaging_system.Messages.{MessageDb, PublishRequest, Encryption, settled}
use messaging_system.Messages.Publish.{publish_message}
use messaging_system.Messages.Change.{edit_message, delete_message, pin_message, unpin_message}
use messaging_system.Messages.React.{add_reaction, remove_reaction}
use messaging_system.Messages.Seen.{SeenRequest, mark_seen}

-- A call with its channel and its actor.
pub data MessageRequest : Type 0 where
  publish : PublishRequest → MessageRequest
  edit : ℕ → Option Text → Option Text → MessageRequest
  remove_one pin unpin : ℕ → MessageRequest
  see : SeenRequest → MessageRequest
  react unreact : ℕ → Text → MessageRequest

-- The settings and what the libraries give to the calls.
pub record MessageSettings : Type 0 where
  pub outbox_max_attempts : ℕ
  pub max_distinct_reactions_per_message : ℕ
  pub encryption : Encryption
  pub sort_emoji : List Text → List Text
  pub is_other : ℕ → Bool

unfoldable pub serve : MessageSettings → ℕ → ℕ → ℕ → MessageRequest → MessageDb → MessageDb
serve s now c u (MessageRequest.publish req) db =
    settled (publish_message s.outbox_max_attempts s.encryption now c u req db) db
serve s now c u (MessageRequest.edit id text json) db =
    settled (edit_message s.outbox_max_attempts s.encryption now c u id text json db) db
serve s now c u (MessageRequest.remove_one id) db =
    settled (delete_message s.outbox_max_attempts now c u id db) db
serve s now c u (MessageRequest.pin id) db =
    settled (pin_message s.outbox_max_attempts c id u db) db
serve s now c u (MessageRequest.unpin id) db =
    settled (unpin_message s.outbox_max_attempts c id u db) db
serve s now c u (MessageRequest.see req) db =
    settled (mark_seen s.outbox_max_attempts now c u req db) db
serve s now c u (MessageRequest.react id emoji) db =
    settled
      (add_reaction s.outbox_max_attempts s.max_distinct_reactions_per_message s.sort_emoji
        s.is_other c id u emoji db)
      db
serve s now c u (MessageRequest.unreact id emoji) db =
    settled
      (remove_reaction s.outbox_max_attempts s.max_distinct_reactions_per_message s.sort_emoji
        s.is_other c id u emoji db)
      db

-- The time, the channel, the actor and the call.
abbrev pub Timed : Type 0
Timed = ℕ × ℕ × ℕ × MessageRequest

unfoldable pub run : MessageSettings → List Timed → MessageDb → MessageDb
run s [] db = db
run s ((now, c, u, q) ∷ qs) db = run s qs (serve s now c u q db)
