-- ===== src/Topology/Refusal.antt =====
-- backend/app/services/channel_service.py, _enqueue_membership_update: where it raises.
use messaging_system.Base.{
  ℕ, ◌≡◌, refl, ◌∙◌, Option, none, some, ok, err, Option-cases, Result-cases, inl, inr,
}
use messaging_system.Base.Text.{Text}
use messaging_system.Base.Table.{nat_key, lookup}
use messaging_system.Identifier.{normalize_channel_slug, normalize_username}
use messaging_system.Rbac.{Role}
use messaging_system.Store.{Db, Channel, User, Aggregate, UpdateReason, AppError, ◌>>=◌, lift}
use messaging_system.Store.Leads.{>>=-step, >>=-stop}
use messaging_system.Topology.{
  get_channel, get_channel_delivery_state, get_username, enqueue_channel_event_outbox,
  enqueue_user_event_outbox, bump_channel_membership_generation, enqueue_membership_update,
}
use messaging_system.Topology.Effects.{
  Known, bumped, announced, get_channel-eq, bump_channel_membership_generation-eq,
  enqueue_channel_event_outbox-eq, lookup-bumped, enqueue_membership_update-eq,
}

get_channel-refused :
    (c : ℕ) (db : Db)
    → lookup c db.channels ≡ none
    → get_channel c db ≡ err AppError.missing_channel
unfolding get_channel ◌>>=◌
get_channel-refused c db h = rw h

unsafe_slug :
    (c : ℕ) (db : Db) {channel : Channel} {e : _}
    → lookup c db.channels ≡ some channel
    → normalize_channel_slug channel.channel_slug ≡ err e
    → get_channel_delivery_state c db ≡ err AppError.unsafe_identifier
unfolding get_channel_delivery_state lift
unsafe_slug c db {channel} h k =
    >>=-step (get_channel c) _ (get_channel-eq c db h)
    ∙ >>=-stop (lift (normalize_channel_slug channel.channel_slug) _) _ (rw k)

no_user :
    (u : ℕ) (db : Db) → lookup u db.users ≡ none → get_username u db ≡ err AppError.missing_user
unfolding get_username ◌>>=◌
no_user u db h = rw h

unsafe_username :
    (u : ℕ) (db : Db) {user : User} {e : _}
    → lookup u db.users ≡ some user
    → normalize_username user.username ≡ err e
    → get_username u db ≡ err AppError.unsafe_identifier
unfolding get_username ◌>>=◌
unsafe_username u db h k = rw (h, k)

module _ (max_attempts : ℕ) (c u : ℕ) (r : Option Role) (why : UpdateReason) (db : Db) where
  no_channel-refused :
      lookup c db.channels ≡ none
      → enqueue_membership_update max_attempts c u r why db ≡ err AppError.missing_channel
  unfolding enqueue_membership_update bump_channel_membership_generation
  no_channel-refused h =
      >>=-stop (bump_channel_membership_generation c) _
        (>>=-stop (get_channel c) _ (get_channel-refused c db h))

  unsafe_slug-refused :
      {channel : Channel} {e : _}
      → lookup c db.channels ≡ some channel
      → normalize_channel_slug channel.channel_slug ≡ err e
      → enqueue_membership_update max_attempts c u r why db ≡ err AppError.unsafe_identifier
  unfolding enqueue_membership_update enqueue_channel_event_outbox
  unsafe_slug-refused {channel} h k =
      >>=-step (bump_channel_membership_generation c) _
        (bump_channel_membership_generation-eq c db h)
      ∙ >>=-stop (enqueue_channel_event_outbox max_attempts _ c _) _ (
          >>=-stop (get_channel_delivery_state c) _
            (unsafe_slug c _ (lookup-bumped max_attempts c (bumped channel) db) k))

  username-refused :
      {channel : Channel} {slug : Text} {x : AppError}
      → lookup c db.channels ≡ some channel
      → normalize_channel_slug channel.channel_slug ≡ ok slug
      → ((db' : Db) → db'.users ≡ db.users → get_username u db' ≡ err x)
      → enqueue_membership_update max_attempts c u r why db ≡ err x
  unfolding enqueue_membership_update enqueue_user_event_outbox
  username-refused {channel} h k h' =
      >>=-step (bump_channel_membership_generation c) _
        (bump_channel_membership_generation-eq c db h)
      ∙ >>=-step (enqueue_channel_event_outbox max_attempts _ c _) _ (
          enqueue_channel_event_outbox-eq max_attempts Aggregate.membership_update c _ _
            (lookup-bumped max_attempts c (bumped channel) db) k)
      ∙ >>=-stop (enqueue_user_event_outbox max_attempts _ c u _) _
          (>>=-stop (get_username u) _ (h' _ refl))

  -- A notification of a membership change that succeeds found the channel and the user, with a
  -- safe slug and a safe username, and has raised the channel's membership generation by one,
  -- made the pair's binding state the one that its membership projects to, and appended three
  -- outbox rows: for the channel and for the user with the new membership generation, and for the
  -- broker with the new generation of the binding. Nothing else has changed.
  pub enqueue_membership_update-Known :
      {db' : Db} {x : Unit {0}}
      → enqueue_membership_update max_attempts c u r why db ≡ ok (x, db')
      → (k : Known c u db) × (db' ≡ announced max_attempts c u r why db k)
  enqueue_membership_update-Known {db'} {x} h = elim (Option-cases (lookup c db.channels)) [
    | inl e ↦ absurd (let q = no_channel-refused e in cc)
    | inr (channel, e) ↦ elim (Result-cases (normalize_channel_slug channel.channel_slug)) [
      | inr (y, f) ↦ absurd (let q = unsafe_slug-refused e f in cc)
      | inl (slug, f) ↦ elim (Option-cases (lookup u db.users)) [
        | inl g ↦ absurd (let q = username-refused e f (λ db1 s. no_user u db1 (rw (s, g))) in cc)
        | inr (user, g) ↦ elim (Result-cases (normalize_username user.username)) [
          | inr (y, i) ↦ absurd (
              let q =
                username-refused e f (λ db1 s. unsafe_username u db1 {user = user} (rw (s, g)) i) in
              cc)
          | inl (name, i) ↦
              let k : Known c u db = record {
                channel = channel;
                has_channel = e;
                slug = slug;
                has_slug = f;
                user = user;
                has_user = g;
                username = name;
                has_username = i;
              } in
              (k, (let q = enqueue_membership_update-eq max_attempts c u r why db k in cc))
        ]
      ]
    ]
  ]
