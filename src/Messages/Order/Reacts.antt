-- ===== src/Messages/Order/Reacts.antt =====
-- The reactions of backend/app/services/message_service.py against the order of a channel.
use messaging_system.Base.{
  ℕ, ◌≡◌, sym, subst, ap, ◌∙◌, inl, inr, Bool, List, [], any, ok, Bool-cases, Result-cases,
}
use messaging_system.Base.Text.{Text}
use messaging_system.Store.{Payload}
use messaging_system.Topology.{enqueue_message_outbox}
use messaging_system.Payloads.{normalize_reaction}
use messaging_system.Messages.{MessageDb, Reaction, in_core}
use messaging_system.Messages.React.{
  Summary, is_reaction, emoji_counts, is_over_quota, emoji_or_raise, save_reactions,
  reaction_target, add_emoji, add_reaction, remove_emoji, remove_reaction,
}
use messaging_system.Messages.Effects.{message_outbox-eq}
use messaging_system.Messages.Steps.{Step, quiet}
use messaging_system.Messages.Order.Serves.{nothing}

-- Reactions leave the messages alone.
module _ (k d : ℕ) (sort : List Text → List Text) (other : ℕ → Bool) where
  save_reactions-Step :
      (c id u : ℕ) (rows : List Reaction) (db db' : MessageDb) (x : Summary)
      → save_reactions k d sort other c id u rows db ≡ ok (x, db')
      → Step db db'
  unfolding save_reactions
  save_reactions-Step c id u rows db db' x h =
      let reacted = record db { reactions = rows } in
      elim (Result-cases
        (in_core (enqueue_message_outbox k c (Payload.reaction_updated id)) reacted)) [
          | inr (y, p) ↦ absurd (cc (rw (p, save_reactions) at h))
          | inl ((y, e), p) ↦
              let (rest, q) = message_outbox-eq k c (Payload.reaction_updated id) reacted e y p in
              let r : e ≡ db' = cc (rw (p, save_reactions) at h) in
              let t = sym r ∙ q in
              quiet (ap (λ z. z.messages) t) (ap (λ z. z.core.channels) t) (ap (λ z. z.states) t)
                (ap (λ z. z.next_id) t)
        ]

  add_emoji-Step :
      (c id u : ℕ) (emoji : Text) (db db' : MessageDb) (x : Summary)
      → add_emoji k d sort other c id u emoji db ≡ ok (x, db')
      → Step db db'
  unfolding add_emoji
  add_emoji-Step c id u emoji db db' x h =
      elim (Bool-cases (any (is_reaction id u emoji) db.reactions)) [
        | inl p ↦
            let e : db ≡ db' = cc (rw (p, add_emoji) at h) in subst (λ z. Step db z) e (nothing db)
        | inr p ↦ elim (Bool-cases (is_over_quota d emoji (emoji_counts id db.reactions []))) [
          | inl q ↦ absurd (cc (rw (p, q, add_emoji) at h))
          | inr q ↦ save_reactions-Step c id u _ db db' x (rw (p, q, add_emoji) at h)
        ]
      ]

  remove_emoji-Step :
      (c id u : ℕ) (emoji : Text) (db db' : MessageDb) (x : Summary)
      → remove_emoji k d sort other c id u emoji db ≡ ok (x, db')
      → Step db db'
  unfolding remove_emoji
  remove_emoji-Step c id u emoji db db' x h =
      elim (Bool-cases (any (is_reaction id u emoji) db.reactions)) [
        | inl p ↦ save_reactions-Step c id u _ db db' x (rw (p, remove_emoji) at h)
        | inr p ↦
            let e : db ≡ db' = cc (rw (p, remove_emoji) at h) in
            subst (λ z. Step db z) e (nothing db)
      ]

  pub add_reaction-Step :
      (c id u : ℕ) (value : Text) (db db' : MessageDb) (x : Summary)
      → add_reaction k d sort other c id u value db ≡ ok (x, db')
      → Step db db'
  unfolding add_reaction
  add_reaction-Step c id u value db db' x h =
      elim (Result-cases (emoji_or_raise (normalize_reaction other value))) [
        | inr (y, p) ↦ absurd (cc (rw (p, add_reaction) at h))
        | inl (emoji, p) ↦ elim (Result-cases (reaction_target k d sort other c id u db)) [
          | inr (y, q) ↦ absurd (cc (rw (p, q, add_reaction) at h))
          | inl (m, q) ↦ add_emoji-Step c id u emoji db db' x (rw (p, q, add_reaction) at h)
        ]
      ]

  pub remove_reaction-Step :
      (c id u : ℕ) (value : Text) (db db' : MessageDb) (x : Summary)
      → remove_reaction k d sort other c id u value db ≡ ok (x, db')
      → Step db db'
  unfolding remove_reaction
  remove_reaction-Step c id u value db db' x h =
      elim (Result-cases (emoji_or_raise (normalize_reaction other value))) [
        | inr (y, p) ↦ absurd (cc (rw (p, remove_reaction) at h))
        | inl (emoji, p) ↦ elim (Result-cases (reaction_target k d sort other c id u db)) [
          | inr (y, q) ↦ absurd (cc (rw (p, q, remove_reaction) at h))
          | inl (m, q) ↦ remove_emoji-Step c id u emoji db db' x (rw (p, q, remove_reaction) at h)
        ]
      ]
