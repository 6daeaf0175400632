-- ===== src/EventChain/Append.antt =====
-- backend/app/services/event_service.py, log_event, and the worker's insertion of an event.
use messaging_system.Base.{
  ℕ, ◌≤◌, ◌≡◌, refl, ap, sym, ◌∙◌, subst, inl, inr, Bool, true, false, ◌&&◌, Option, none, some,
  List, [], ◌∷◌, ◌++◌, get_last?, is_some, arith, All, Bool-cases,
}
use messaging_system.Base.Text.{Text}
use messaging_system.EventChain.{
  Event, Canonical, canonical_event_payload, same_text, same_id, before, ordered, where_rows,
  bumped, hash_of, compute_event_hash, latest_integrity_event, attach_integrity,
  integrity_scope_for_event, log_event, of_channel, channel_rows, verify_channel_scope,
  insert_delivery_event,
}
use messaging_system.EventChain.Links.{
  IsLink, Chain, final_hash, same_text_iff, verify_events-valid,
}
use messaging_system.EventChain.Order.{
  ordered-Sorted, ordered-append, where_rows-insert_other, where_rows-insert_last,
  where_rows-Sorted, All-where_rows, last_is_latest, All-weaken, All-by_last,
}

-- The condition of `_latest_integrity_event`.
abbrev hashed_in : Text → Event → Bool
hashed_in scope e = same_text e.integrity_scope (some scope) && is_some e.event_hash

final_hash-last : (es : List Event) → final_hash none es ≡ hash_of (get_last? es)
final_hash-last [] = refl
final_hash-last (x ∷ []) = refl
final_hash-last (x ∷ y ∷ r) = final_hash-last (y ∷ r)

where_rows-same :
    (p q : Event → Bool) (xs : List Event)
    → ((e : Event) → p e ≡ true → q e ≡ true)
    → All (λ e. q e ≡ true → p e ≡ true) xs
    → where_rows p xs ≡ where_rows q xs
unfolding where_rows
where_rows-same p q [] f h = refl
where_rows-same p q (x ∷ xs) f h = elim (Bool-cases (p x)) [
  | inl t ↦ rw (t, f x t) (ap (λ l. x ∷ l) (where_rows-same p q xs f h.1))
  | inr t ↦ elim (Bool-cases (q x)) [
    | inl u ↦ absurd (cc (h.0 u))
    | inr u ↦ rw (t, u) (where_rows-same p q xs f h.1)
  ]
]

-- The new event is later than everything up to the latest one.
bumped_later :
    (latest : Event) (now : ℕ) (y e : Event)
    → e.created_at ≡ bumped (some latest) now
    → y.created_at ≤ latest.created_at
    → before y e ≡ true
unfolding bumped before
bumped_later latest now y e p h = ground arith

reads_channel :
    (uuid_text : ℕ → Text) (c : ℕ) (e : Event)
    → hashed_in (integrity_scope_for_event uuid_text (some c)) e ≡ true
    → of_channel uuid_text c e ≡ true
reads_channel uuid_text c e h = ground arith

and_false : (b : Bool) → (b && false) ≡ false
and_false true = refl
and_false false = refl

some_same : (s t : Text) → some s ≡ some t → s ≡ t
some_same s t e = cc

-- The row of `log_event` before its integrity metadata is attached.
abbrev fresh : ℕ → ℕ → Text → Text → Option ℕ → Option ℕ → Event
fresh id now event_type payload channel_id actor_user_id = record {
  id = id;
  channel_id = channel_id;
  actor_user_id = actor_user_id;
  event_type = event_type;
  payload = payload;
  created_at = now;
  previous_hash = none;
  event_hash = none;
  hash_algorithm = none;
  integrity_version = none;
  integrity_scope = none;
}

module _ (sha256 : List ℕ → Text) (serialize : Canonical → List ℕ) where
  Chain-append :
      (scope : Text) (previous : Option Text) (es : List Event) (e : Event)
      → Chain sha256 serialize scope previous es
      → IsLink sha256 serialize scope (final_hash previous es) e
      → Chain sha256 serialize scope previous (es ++ e ∷ [])
  Chain-append scope previous [] e h l = (l, tt)
  Chain-append scope previous (x ∷ es) e h l = (h.0, Chain-append scope x.event_hash es e h.1 l)

  -- Every row of a chain has a hash and the scope.
  Chain-hashed :
      (scope : Text) (previous : Option Text) (es : List Event)
      → Chain sha256 serialize scope previous es
      → All (λ e. hashed_in scope e ≡ true) es
  Chain-hashed scope previous [] h = tt
  Chain-hashed scope previous (e ∷ es) h = (
    rw (h.0.scoped, h.0.hashed, (same_text_iff (some scope) (some scope)).1 refl),
    Chain-hashed scope e.event_hash es h.1,
  )

  -- The event that `attach_integrity` returns is a link after the latest one.
  attach-IsLink :
      (events : List Event) (event : Event) (scope : Text)
      → IsLink sha256 serialize scope
          (hash_of (latest_integrity_event scope events))
          (attach_integrity sha256 serialize events event scope)
  unfolding attach_integrity compute_event_hash canonical_event_payload
  attach-IsLink events event scope = record {
    hashed = refl;
    scoped = refl;
    algorithm = refl;
    versioned = refl;
    follows = refl;
  }

  attach-hashed_in :
      (events : List Event) (event : Event) (scope : Text)
      → hashed_in scope (attach_integrity sha256 serialize events event scope) ≡ true
  unfolding attach_integrity
  attach-hashed_in events event scope = rw ((same_text_iff (some scope) (some scope)).1 refl)

  attach-later :
      (events : List Event) (event y : Event) (scope : Text) (latest : Event)
      → latest_integrity_event scope events ≡ some latest
      → y.created_at ≤ latest.created_at
      → before y (attach_integrity sha256 serialize events event scope) ≡ true
  unfolding attach_integrity
  attach-later events event y scope latest e h =
      bumped_later latest event.created_at y (attach_integrity sha256 serialize events event scope)
        (ap (λ o. bumped o event.created_at) e) h

  -- A query of one scope that reads at least the hashed rows of the scope.
  module _ (scope : Text) (q : Event → Bool)
      (reads : (e : Event) → hashed_in scope e ≡ true → q e ≡ true) (events : List Event) where
    abbrev rows : List Event
    rows = where_rows q (ordered events)

    module _ (chain : Chain sha256 serialize scope none rows) where
      same_rows : where_rows (hashed_in scope) (ordered events) ≡ rows
      same_rows = where_rows-same (hashed_in scope) q (ordered events) reads (
          All-where_rows q (λ e. hashed_in scope e ≡ true) (ordered events)
            (Chain-hashed scope none rows chain))

      latest-eq : latest_integrity_event scope events ≡ get_last? rows
      unfolding latest_integrity_event
      latest-eq = ap get_last? same_rows

      rows_before :
          (event : Event)
          → All (λ y. before y (attach_integrity sha256 serialize events event scope) ≡ true) rows
      rows_before event =
          All-by_last (λ y. before y (attach_integrity sha256 serialize events event scope) ≡ true)
            rows
            (λ l last.
              All-weaken (λ y. y.created_at ≤ l.created_at)
                (λ y. before y (attach_integrity sha256 serialize events event scope) ≡ true) rows
                (λ y. attach-later events event y scope l (latest-eq ∙ last))
                (last_is_latest rows l
                  (where_rows-Sorted q (ordered events) (ordered-Sorted events)) last))

      -- The chain goes on with the event that is attached.
      pub Chain-attach :
          (event : Event)
          → Chain sha256 serialize scope none (
              where_rows q
                (ordered (events ++ attach_integrity sha256 serialize events event scope ∷ [])))
      Chain-attach event =
          let e = attach_integrity sha256 serialize events event scope in
          rw (ordered-append events e) (
            rw
              (where_rows-insert_last q e (ordered events)
                (reads e (attach-hashed_in events event scope)) (ordered-Sorted events)
                (All-where_rows q (λ y. before y e ≡ true) (ordered events) (rows_before event)))
              (Chain-append scope none rows e chain
                (rw (final_hash-last rows, ← latest-eq) (attach-IsLink events event scope))))

  -- An event of another scope leaves the query as it is.
  Chain-other :
      (scope : Text) (q : Event → Bool) (events : List Event) (e : Event)
      → q e ≡ false
      → Chain sha256 serialize scope none (where_rows q (ordered events))
      → Chain sha256 serialize scope none (where_rows q (ordered (events ++ e ∷ [])))
  Chain-other scope q events e h chain =
      rw (ordered-append events e) (rw (where_rows-insert_other q e (ordered events) h) chain)

  unread :
      (uuid_text : ℕ → Text) (c : ℕ) (events : List Event) (event : Event) (own : Text)
      → same_text (some own) (some (integrity_scope_for_event uuid_text (some c))) ≡ false
      → of_channel uuid_text c (attach_integrity sha256 serialize events event own) ≡ false
  unfolding attach_integrity
  unread uuid_text c events event own t = rw t (and_false (same_id event.channel_id c))

  module _ (uuid_text : ℕ → Text) where
    -- Whatever event is logged, for whatever channel or for none, a channel whose chain was valid
    -- has a valid chain.
    pub log_event-valid :
        (events : List Event) (id now : ℕ) (event_type payload : Text)
        (channel_id actor_user_id : Option ℕ) (c : ℕ)
        → (verify_channel_scope sha256 serialize uuid_text events c).valid ≡ true
        → (verify_channel_scope sha256 serialize uuid_text
            (log_event sha256 serialize uuid_text events id now event_type payload channel_id
              actor_user_id)
            c).valid
          ≡ true
    unfolding verify_channel_scope channel_rows log_event
    log_event-valid events id now event_type payload channel_id actor_user_id c h =
        let scope = integrity_scope_for_event uuid_text (some c) in
        let own = integrity_scope_for_event uuid_text channel_id in
        let q = of_channel uuid_text c in
        let event = fresh id now event_type payload channel_id actor_user_id in
        let chain =
          (verify_events-valid sha256 serialize scope (where_rows q (ordered events))).0 h in
        (verify_events-valid sha256 serialize scope (
            where_rows q
              (ordered (events ++ attach_integrity sha256 serialize events event own ∷ [])))).1
          (elim (Bool-cases (same_text (some own) (some scope))) [
            | inl t ↦
                subst
                  (λ s. Chain sha256 serialize scope none (
                    where_rows q
                      (ordered (events ++ attach_integrity sha256 serialize events event s ∷ []))))
                  (sym (some_same own scope ((same_text_iff (some own) (some scope)).0 t)))
                  (Chain-attach scope q (reads_channel uuid_text c) events chain event)
            | inr t ↦
                Chain-other scope q events (attach_integrity sha256 serialize events event own)
                  (unread uuid_text c events event own t) chain
          ])

  -- The worker's row for a broker event is the row that `log_event` writes with no actor.
  pub insert_delivery_event-eq :
      (uuid_text : ℕ → Text) (events : List Event) (id now : ℕ) (event_type payload : Text)
      (channel_id : Option ℕ)
      → insert_delivery_event sha256 serialize uuid_text events id now event_type channel_id payload
        ≡ log_event sha256 serialize uuid_text events id now event_type payload channel_id none
  unfolding insert_delivery_event log_event attach_integrity compute_event_hash
      canonical_event_payload
  insert_delivery_event-eq uuid_text events id now event_type payload channel_id = refl
