-- ===== src/Messages/Order/Runs.antt =====
-- Runs of requests to backend/app/services/message_service.py.
use messaging_system.Base.{ℕ, List, [], ◌∷◌}
use messaging_system.Messages.{MessageDb}
use messaging_system.Messages.Requests.{MessageRequest, MessageSettings, Timed, serve, run}
use messaging_system.Messages.Order.{Sequenced, Lasting, Lasting-refl, Lasting-trans, Step-Lasting}
use messaging_system.Messages.Order.Keeps.{Step-Sequenced}
use messaging_system.Messages.Publish.{publish_message}
use messaging_system.Messages.Change.{edit_message, delete_message, pin_message, unpin_message}
use messaging_system.Messages.Seen.{mark_seen}
use messaging_system.Messages.React.{add_reaction, remove_reaction}
use messaging_system.Messages.Steps.{Step}
use messaging_system.Messages.Order.Serves.{settled-Step, publish-Step, edit-Step, delete-Step}
use messaging_system.Messages.Order.Marks.{pin-Step, unpin-Step, seen-Step}
use messaging_system.Messages.Order.Reacts.{add_reaction-Step, remove_reaction-Step}

serve-Step :
    (s : MessageSettings) (now c u : ℕ) (q : MessageRequest) (db : MessageDb)
    → Step db (serve s now c u q db)
unfolding serve
serve-Step s now c u (MessageRequest.publish req) db =
    let k = s.outbox_max_attempts in
    settled-Step (publish_message k s.encryption now c u req db) db
      λ a db'. publish-Step k s.encryption now c u req db db' a
serve-Step s now c u (MessageRequest.edit id text json) db =
    let k = s.outbox_max_attempts in
    settled-Step (edit_message k s.encryption now c u id text json db) db
      λ a db'. edit-Step k s.encryption now c u id text json db db' a
serve-Step s now c u (MessageRequest.remove_one id) db =
    let k = s.outbox_max_attempts in
    settled-Step (delete_message k now c u id db) db λ a db'. delete-Step k now c u id db db' a
serve-Step s now c u (MessageRequest.pin id) db =
    let k = s.outbox_max_attempts in
    settled-Step (pin_message k c id u db) db λ a db'. pin-Step k c id u db db' a
serve-Step s now c u (MessageRequest.unpin id) db =
    let k = s.outbox_max_attempts in
    settled-Step (unpin_message k c id u db) db λ a db'. unpin-Step k c id u db db' a
serve-Step s now c u (MessageRequest.see req) db =
    let k = s.outbox_max_attempts in
    settled-Step (mark_seen k now c u req db) db λ a db'. seen-Step k now c u req db db' a
serve-Step s now c u (MessageRequest.react id emoji) db =
    let k = s.outbox_max_attempts in
    let d = s.max_distinct_reactions_per_message in
    settled-Step (add_reaction k d s.sort_emoji s.is_other c id u emoji db) db
      λ a db'. add_reaction-Step k d s.sort_emoji s.is_other c id u emoji db db' a
serve-Step s now c u (MessageRequest.unreact id emoji) db =
    let k = s.outbox_max_attempts in
    let d = s.max_distinct_reactions_per_message in
    settled-Step (remove_reaction k d s.sort_emoji s.is_other c id u emoji db) db
      λ a db'. remove_reaction-Step k d s.sort_emoji s.is_other c id u emoji db db' a

-- Whatever is published, edited, deleted, pinned, reacted to and read, by whom and whether it succeeds or not, every
-- message keeps a sequence number that its channel gave out, from 1, no two messages of a channel share
-- one, and no read marker passes the channel's last number.
pub run-Sequenced :
    (s : MessageSettings) (qs : List Timed) (db : MessageDb)
    → Sequenced db
    → Sequenced (run s qs db)
unfolding run
run-Sequenced s [] db w = w
run-Sequenced s ((now, c, u, q) ∷ qs) db w =
    let db' = serve s now c u q db in
    run-Sequenced s qs db' (Step-Sequenced db db' w (serve-Step s now c u q db))

-- No list of requests takes a message away, moves it to another place, changes its author or its
-- client's id, or brings back the content of a deleted one; and no read marker goes back.
pub run-Lasting :
    (s : MessageSettings) (qs : List Timed) (db : MessageDb)
    → Sequenced db
    → Lasting db (run s qs db)
unfolding run
run-Lasting s [] db w = Lasting-refl db
run-Lasting s ((now, c, u, q) ∷ qs) db w =
    let db' = serve s now c u q db in
    let step = serve-Step s now c u q db in
    Lasting-trans db db' (run s qs db') (Step-Lasting db db' w step)
      (run-Lasting s qs db' (Step-Sequenced db db' w step))
