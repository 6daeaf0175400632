-- ===== src/Messages/React.antt =====
-- backend/app/services/message_service.py: the reactions to a message. An emoji comes with the checks of
-- backend/app/core/payload_limits.py, and the order of an actor's emoji is the database's.
use messaging_system.Base.{
  ℕ, ◌+◌, Bool, ◌&&◌, not, List, [], ◌∷◌, ◌++◌, leb, ◌==◌, length, any, if◌then◌else◌, is_none,
  Result, ok, err, ◌>>=◌, ◌>>◌, guard,
}
use messaging_system.Base.Text.{Text, text_eq}
use messaging_system.Base.Table.{nat_key}
use messaging_system.Store.{Payload}
use messaging_system.Topology.{enqueue_message_outbox}
use messaging_system.Messages.{
  Message, Reaction, MessageDb, MessageError, Change, assert_can_read, in_core,
}
use messaging_system.Messages.Change.{message_in}
use messaging_system.Payloads.{PayloadError, normalize_reaction}

-- `reactions_summary`: the number of each emoji and the actor's own.
pub record Summary : Type 0 where
  pub counts : List (Text × ℕ)
  pub my_reaction : List Text

abbrev pub is_reaction : ℕ → ℕ → Text → Reaction → Bool
is_reaction message_id user_id emoji r =
    (r.message_id == message_id) && (r.user_id == user_id) && text_eq r.emoji emoji

unfoldable pub count_emoji : Text → List (Text × ℕ) → List (Text × ℕ)
count_emoji emoji [] = (emoji, 1) ∷ []
count_emoji emoji ((e, n) ∷ counts) =
    let rest = count_emoji emoji counts in
    if text_eq e emoji then (e, n + 1) ∷ counts else (e, n) ∷ rest

unfoldable pub emoji_counts : ℕ → List Reaction → List (Text × ℕ) → List (Text × ℕ)
emoji_counts message_id [] counts = counts
emoji_counts message_id (r ∷ rows) counts =
    emoji_counts message_id rows
      (if r.message_id == message_id then count_emoji r.emoji counts else counts)

unfoldable pub own_emoji : ℕ → ℕ → List Reaction → List Text
own_emoji message_id user_id [] = []
own_emoji message_id user_id (r ∷ rows) =
    let rest = own_emoji message_id user_id rows in
    if (r.message_id == message_id) && (r.user_id == user_id) then r.emoji ∷ rest else rest

unfoldable pub without_reaction : ℕ → ℕ → Text → List Reaction → List Reaction
without_reaction message_id user_id emoji [] = []
without_reaction message_id user_id emoji (r ∷ rows) =
    let rest = without_reaction message_id user_id emoji rows in
    if is_reaction message_id user_id emoji r then rest else r ∷ rest

abbrev pub has_count : Text → Text × ℕ → Bool
has_count emoji entry = text_eq entry.0 emoji

-- The quota of distinct emoji, which an emoji that is there already does not count against.
unfoldable pub is_over_quota : ℕ → Text → List (Text × ℕ) → Bool
is_over_quota limit emoji counts = not (any (has_count emoji) counts) && leb limit (length counts)

abbrev pub emoji_or_raise : Result PayloadError Text → Result MessageError Text
emoji_or_raise (ok emoji) = ok emoji
emoji_or_raise (err _) = err MessageError.invalid_reaction

module _ (outbox_max_attempts max_distinct : ℕ) (sort : List Text → List Text)
    (is_other : ℕ → Bool) where
  unfoldable pub reaction_summary : ℕ → ℕ → List Reaction → Summary
  reaction_summary message_id user_id rows = record {
    counts = emoji_counts message_id rows [];
    my_reaction = sort (own_emoji message_id user_id rows);
  }

  -- New rows of reactions, announced to the channel.
  unfoldable pub save_reactions : ℕ → ℕ → ℕ → List Reaction → MessageDb → Change Summary
  save_reactions channel_id message_id user_id rows db = do
    (_, db') ←
        in_core
          (enqueue_message_outbox outbox_max_attempts channel_id
            (Payload.reaction_updated message_id))
          (record db { reactions = rows })
    ok (reaction_summary message_id user_id rows, db')

  -- The live message that is reacted to.
  unfoldable pub reaction_target : ℕ → ℕ → ℕ → MessageDb → Result MessageError Message
  reaction_target channel_id message_id user_id db = do
    role ← assert_can_read channel_id user_id db
    m ← message_in channel_id message_id db
    guard (is_none m.deleted_at) MessageError.message_not_found
    ok m

  unfoldable pub add_emoji : ℕ → ℕ → ℕ → Text → MessageDb → Change Summary
  add_emoji channel_id message_id user_id emoji db =
      if any (is_reaction message_id user_id emoji) db.reactions
      then ok (reaction_summary message_id user_id db.reactions, db)
      else if is_over_quota max_distinct emoji (emoji_counts message_id db.reactions [])
      then err MessageError.reaction_quota_exceeded
      else save_reactions channel_id message_id user_id
          (db.reactions
            ++ record { message_id = message_id; user_id = user_id; emoji = emoji } ∷ [])
          db

  unfoldable pub add_reaction : ℕ → ℕ → ℕ → Text → MessageDb → Change Summary
  add_reaction channel_id message_id user_id value db = do
    emoji ← emoji_or_raise (normalize_reaction is_other value)
    m ← reaction_target channel_id message_id user_id db
    add_emoji channel_id message_id user_id emoji db

  -- Only a reaction that was there is announced as removed.
  unfoldable pub remove_emoji : ℕ → ℕ → ℕ → Text → MessageDb → Change Summary
  remove_emoji channel_id message_id user_id emoji db =
      if any (is_reaction message_id user_id emoji) db.reactions
      then save_reactions channel_id message_id user_id
          (without_reaction message_id user_id emoji db.reactions) db
      else ok (reaction_summary message_id user_id db.reactions, db)

  unfoldable pub remove_reaction : ℕ → ℕ → ℕ → Text → MessageDb → Change Summary
  remove_reaction channel_id message_id user_id value db = do
    emoji ← emoji_or_raise (normalize_reaction is_other value)
    m ← reaction_target channel_id message_id user_id db
    remove_emoji channel_id message_id user_id emoji db
