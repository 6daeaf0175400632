-- ===== src/EventChain/Links.antt =====
-- backend/app/services/event_integrity_service.py: verify_events and the links of a chain.
use mathlib.Core.List.{append-nil}
use native.Mathlib.Nat.{add-zero}
use messaging_system.Base.{
  ℕ, ◌+◌, ◌≡◌, ◌↔◌, refl, ap, sym, ◌∙◌, inl, inr, true, false, Option, none, some, List, [], ◌∷◌,
  ◌++◌, head?, get_last?, arith, length, Option-cases,
}
use messaging_system.Base.Text.{Text, text_eq_iff}
use messaging_system.EventChain.{
  Event, Canonical, hash_algorithm, integrity_version, same_text, same_id, Failure, Cursor,
  event_id, compute_event_hash, check_event, verify_from, verify_events,
}

pub same_text_iff : (a b : Option Text) → (same_text a b ≡ true) ↔ (a ≡ b)
unfolding same_text
same_text_iff none none = (λ _. refl, λ _. refl)
same_text_iff none (some t) = (λ h. cc, λ h. cc)
same_text_iff (some s) none = (λ h. cc, λ h. cc)
same_text_iff (some s) (some t) =
    (λ h. ground (arith, text_eq_iff s t), λ h. ground (arith, text_eq_iff s t))

pub same_id_iff : (a : Option ℕ) (b : ℕ) → (same_id a b ≡ true) ↔ (a ≡ some b)
unfolding same_id
same_id_iff none b = (λ h. cc, λ h. cc)
same_id_iff (some a) b = (λ h. ground arith, λ h. ground arith)

abbrev advanced : Cursor → Event → Cursor
advanced c e = record {
  checked_events = c.checked_events + 1;
  previous_hash = e.event_hash;
  previous_event_id = some e.id;
}

abbrev start : Cursor
start = record { checked_events = 0; previous_hash = none; previous_event_id = none }

-- The last hash of a chain that goes on from `previous`.
abbrev pub final_hash : Option Text → List Event → Option Text
final_hash previous [] = previous
final_hash previous (e ∷ es) = final_hash e.event_hash es

abbrev pub final_id : Option ℕ → List Event → Option ℕ
final_id previous [] = previous
final_id previous (e ∷ es) = final_id (some e.id) es

-- The loop's variables after the links `es`.
abbrev pub walked : Cursor → List Event → Cursor
walked c es = record {
  checked_events = c.checked_events + length es;
  previous_hash = final_hash c.previous_hash es;
  previous_event_id = final_id c.previous_event_id es;
}

module _ (sha256 : List ℕ → Text) (serialize : Canonical → List ℕ) where
  -- One event that carries its own hash and continues a chain whose last hash is `previous`.
  pub record IsLink (scope : Text) (previous : Option Text) (e : Event) : Type 0 where
    pub hashed : e.event_hash ≡ some (compute_event_hash sha256 serialize e)
    pub scoped : e.integrity_scope ≡ some scope
    pub algorithm : e.hash_algorithm ≡ some hash_algorithm
    pub versioned : e.integrity_version ≡ some integrity_version
    pub follows : e.previous_hash ≡ previous

  abbrev pub Chain : Text → Option Text → List Event → Type 0
  Chain scope previous [] = Unit
  Chain scope previous (e ∷ es) = IsLink scope previous e × Chain scope e.event_hash es

  pub check_event-none :
      (scope : Text) (previous : Option Text) (e : Event)
      → check_event sha256 serialize scope previous e ≡ none
      → IsLink scope previous e
  unfolding check_event
  check_event-none scope previous e h = record {
    hashed =
        ground (arith, same_text_iff e.event_hash (some (compute_event_hash sha256 serialize e)));
    scoped = ground (arith, same_text_iff e.integrity_scope (some scope));
    algorithm = ground (arith, same_text_iff e.hash_algorithm (some hash_algorithm));
    versioned = ground (arith, same_id_iff e.integrity_version integrity_version);
    follows = ground (arith, same_text_iff e.previous_hash previous);
  }

  pub check_event-link :
      (scope : Text) (previous : Option Text) (e : Event)
      → IsLink scope previous e
      → check_event sha256 serialize scope previous e ≡ none
  unfolding check_event
  check_event-link scope previous e l = ground (
    arith,
    same_text_iff e.integrity_scope (some scope),
    same_text_iff e.hash_algorithm (some hash_algorithm),
    same_id_iff e.integrity_version integrity_version,
    same_text_iff e.previous_hash previous,
    same_text_iff e.event_hash (some (compute_event_hash sha256 serialize e)),
  )

  module _ (scope : Text) (first last : Option ℕ) where
    verify_from-link :
        (c : Cursor) (e : Event) (es : List Event)
        → check_event sha256 serialize scope c.previous_hash e ≡ none
        → verify_from sha256 serialize scope first last c (e ∷ es)
          ≡ verify_from sha256 serialize scope first last (advanced c e) es
    unfolding verify_from
    verify_from-link c e es h = rw (h, verify_from)

    pub verify_from-broken :
        (c : Cursor) (e : Event) (es : List Event) (f : Failure)
        → check_event sha256 serialize scope c.previous_hash e ≡ some f
        → verify_from sha256 serialize scope first last c (e ∷ es) ≡ record {
          valid = false;
          checked_events = c.checked_events + 1;
          broken_event_id = some e.id;
          failure = some f;
          previous_event_id = c.previous_event_id;
          last_valid_hash = c.previous_hash;
          first_event_id = first;
          last_event_id = last;
        }
    unfolding verify_from
    verify_from-broken c e es f h = rw (h, verify_from)

    pub verify_from-Chain :
        (c : Cursor) (es : List Event)
        → (verify_from sha256 serialize scope first last c es).valid ≡ true
        → Chain scope c.previous_hash es
    verify_from-Chain c [] h = tt
    verify_from-Chain c (e ∷ es) h =
        elim (Option-cases (check_event sha256 serialize scope c.previous_hash e)) [
          | inr (f, p) ↦ absurd (cc (rw (verify_from-broken c e es f p) at h))
          | inl p ↦ (
            check_event-none scope c.previous_hash e p,
            verify_from-Chain (advanced c e) es (rw (verify_from-link c e es p) at h),
          )
        ]

    -- The loop walks over a chain, and goes on with what follows.
    pub verify_from-append :
        (c : Cursor) (es rest : List Event)
        → Chain scope c.previous_hash es
        → verify_from sha256 serialize scope first last c (es ++ rest)
          ≡ verify_from sha256 serialize scope first last (walked c es) rest
    verify_from-append c [] rest h = rw add-zero
    verify_from-append c (e ∷ es) rest h =
        verify_from-link c e (es ++ rest) (check_event-link scope c.previous_hash e h.0)
        ∙ verify_from-append (advanced c e) es rest h.1
        ∙ ap
            (λ n.
              verify_from sha256 serialize scope first last
                (record (walked c (e ∷ es)) { checked_events = n }) rest)
            (omega arith)

    pub verify_from-valid :
        (c : Cursor) (es : List Event)
        → Chain scope c.previous_hash es
        → (verify_from sha256 serialize scope first last c es).valid ≡ true
    unfolding verify_from
    verify_from-valid c [] h = refl
    verify_from-valid c (e ∷ es) h =
        rw (verify_from-link c e es (check_event-link scope c.previous_hash e h.0))
          (verify_from-valid (advanced c e) es h.1)

  -- `verify_events` reports a valid chain exactly when every event of the list carries the hash of
  -- its own content, the scope, the algorithm and the version, and names the hash of the event
  -- before it, the first one naming none.
  pub verify_events-valid :
      (scope : Text) (events : List Event)
      → ((verify_events sha256 serialize scope events).valid ≡ true) ↔ Chain scope none events
  unfolding verify_events
  verify_events-valid scope events = (
    verify_from-Chain scope (event_id (head? events)) (event_id (get_last? events)) start events,
    verify_from-valid scope (event_id (head? events)) (event_id (get_last? events)) start events,
  )

  -- The hash that a valid verification reports is that of the last event.
  pub last_valid_hash-eq :
      (scope : Text) (events : List Event)
      → (verify_events sha256 serialize scope events).valid ≡ true
      → (verify_events sha256 serialize scope events).last_valid_hash ≡ final_hash none events
  unfolding verify_events
  last_valid_hash-eq scope events h =
      let first = event_id (head? events) in
      let last = event_id (get_last? events) in
      let chain = verify_from-Chain scope first last start events h in
      ap (λ l. (verify_from sha256 serialize scope first last start l).last_valid_hash)
        (sym (append-nil events))
      ∙ ap (λ v. v.last_valid_hash) (verify_from-append scope first last start events [] chain)
      ∙ unfold verify_from in refl

  -- Where a chain of links is followed by an event that fails a check, the verification reports an
  -- invalid chain: it has checked the links and that event, names it as broken, with the failure
  -- of that check, the id and the hash of the last link, and the first and last id of the list.
  pub verify_events_locates :
      (scope : Text) (es rest : List Event) (e : Event) (f : Failure)
      → Chain scope none es
      → check_event sha256 serialize scope (final_hash none es) e ≡ some f
      → verify_events sha256 serialize scope (es ++ e ∷ rest) ≡ record {
        valid = false;
        checked_events = length es + 1;
        broken_event_id = some e.id;
        failure = some f;
        previous_event_id = final_id none es;
        last_valid_hash = final_hash none es;
        first_event_id = event_id (head? (es ++ e ∷ rest));
        last_event_id = event_id (get_last? (es ++ e ∷ rest));
      }
  unfolding verify_events
  verify_events_locates scope es rest e f h b =
      let first = event_id (head? (es ++ e ∷ rest)) in
      let last = event_id (get_last? (es ++ e ∷ rest)) in
      verify_from-append scope first last start es (e ∷ rest) h
      ∙ verify_from-broken scope first last (walked start es) e rest f b
      ∙ ap
          (λ n. record {
            valid = false;
            checked_events = n;
            broken_event_id = some e.id;
            failure = some f;
            previous_event_id = final_id none es;
            last_valid_hash = final_hash none es;
            first_event_id = first;
            last_event_id = last;
          })
          (omega arith)
