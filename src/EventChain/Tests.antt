-- ===== src/EventChain/Tests.antt =====
-- The event chain on small logs, with an injective encoding in the place of the canonical JSON and
-- the message itself in the place of its digest.
use messaging_system.Base.{
  ℕ, ◌≡◌, ◌↔◌, ◌⊎◌, refl, ap, Option, none, some, List, [], ◌∷◌, ◌++◌, true, false, get_last?,
  length, arith,
}
use messaging_system.Base.Text.{Text, codes, text_eq}
use messaging_system.Merkle.Rounds.{append_parts}
use messaging_system.EventChain.Links.{Chain, verify_events-valid, verify_events_locates}
use messaging_system.EventChain.Append.{log_event-valid, insert_delivery_event-eq}
use messaging_system.EventChain.Tamper.{Collision, SameContent, verify_events-tamper}
use messaging_system.EventChain.{
  Event, Canonical, Failure, Reason, Detail, canonical_event_payload, same_text, event_id, before,
  insert_ordered, ordered_from, ordered, where_rows, same_id, latest_integrity_event, bumped,
  integrity_scope_for_event, channel_rows, compute_event_hash, check_event, verify_from,
  verify_events, attach_integrity, log_event, verify_channel_scope, insert_delivery_event,
}

unfoldable encode_option : Option ℕ → List ℕ
encode_option none = 0 ∷ []
encode_option (some n) = 1 ∷ n ∷ []

unfoldable encode_text : Text → List ℕ
encode_text t = length t ∷ t

unfoldable encode_text_option : Option Text → List ℕ
encode_text_option none = 0 ∷ []
encode_text_option (some t) = 1 ∷ length t ∷ t

unfoldable encode : Canonical → List ℕ
unfolding encode_option encode_text encode_text_option
encode c =
    c.id ∷ c.created_at ∷ encode_option c.channel_id
    ++ (encode_option c.actor_user_id
        ++ (encode_option c.integrity_version
            ++ (encode_text c.event_type
                ++ (encode_text c.payload
                    ++ (encode_text_option c.previous_hash
                        ++ encode_text_option c.integrity_scope)))))

option_parts :
    (a b : Option ℕ) (r s : List ℕ)
    → encode_option a ++ r ≡ encode_option b ++ s
    → (a ≡ b) × (r ≡ s)
unfolding encode_option
option_parts none none r s e = (refl, cc)
option_parts none (some n) r s e = absurd (ground arith)
option_parts (some n) none r s e = absurd (ground arith)
option_parts (some n) (some m) r s e = (cc, cc)

text_parts :
    (a b : Text) (r s : List ℕ) → encode_text a ++ r ≡ encode_text b ++ s → (a ≡ b) × (r ≡ s)
unfolding encode_text
text_parts a b r s e =
    append_parts a r b s (let q : length a ≡ length b = cc in q) (let q : a ++ r ≡ b ++ s = cc in q)

text_option_parts :
    (a b : Option Text) (r s : List ℕ)
    → encode_text_option a ++ r ≡ encode_text_option b ++ s
    → (a ≡ b) × (r ≡ s)
unfolding encode_text_option
text_option_parts none none r s e = (refl, cc)
text_option_parts none (some t) r s e = absurd (ground arith)
text_option_parts (some t) none r s e = absurd (ground arith)
text_option_parts (some t) (some u) r s e =
    let p =
      append_parts t r u s (let q : length t ≡ length u = cc in q)
        (let q : t ++ r ≡ u ++ s = cc in q) in
    (ap some p.0, p.1)

text_option_end : (a b : Option Text) → encode_text_option a ≡ encode_text_option b → a ≡ b
unfolding encode_text_option
text_option_end none none e = refl
text_option_end none (some t) e = absurd (ground arith)
text_option_end (some t) none e = absurd (ground arith)
text_option_end (some t) (some u) e = cc

encode_injective : (a b : Canonical) → encode a ≡ encode b → a ≡ b
unfolding encode
encode_injective a b e =
    let (c, e1) = option_parts a.channel_id b.channel_id _ _ cc in
    let (d, e2) = option_parts a.actor_user_id b.actor_user_id _ _ e1 in
    let (v, e3) = option_parts a.integrity_version b.integrity_version _ _ e2 in
    let (t, e4) = text_parts a.event_type b.event_type _ _ e3 in
    let (p, e5) = text_parts a.payload b.payload _ _ e4 in
    let (h, e6) = text_option_parts a.previous_hash b.previous_hash _ _ e5 in
    let s = text_option_end a.integrity_scope b.integrity_scope e6 in
    let i : a.id ≡ b.id = cc in
    let at : a.created_at ≡ b.created_at = cc in
    λ j. record {
      id = i j;
      channel_id = c j;
      actor_user_id = d j;
      event_type = t j;
      created_at = at j;
      payload = p j;
      previous_hash = h j;
      integrity_version = v j;
      integrity_scope = s j;
    }

-- The digest of the tests, and the `str` of a UUID.
abbrev same : List ℕ → Text
same m = m

abbrev uuid : ℕ → Text
uuid n = n ∷ []

abbrev log_one : List Event
log_one = log_event same encode uuid [] 7 100 (codes "a") (codes "{}") (some 1) (some 5)

-- The second event comes at an earlier clock and still follows.
abbrev log_two : List Event
log_two = log_event same encode uuid log_one 8 90 (codes "b") (codes "[]") (some 1) none

abbrev scope_one : Text
scope_one = integrity_scope_for_event uuid (some 1)

log_one-valid : (verify_channel_scope same encode uuid log_one 1).valid ≡ true
unfolding verify_channel_scope channel_rows ordered ordered_from insert_ordered before where_rows
    log_event attach_integrity latest_integrity_event same_text same_id bumped text_eq
    integrity_scope_for_event compute_event_hash canonical_event_payload encode encode_option
    encode_text encode_text_option verify_events verify_from check_event event_id
log_one-valid = refl

log_two-valid : (verify_events same encode scope_one log_two).valid ≡ true
unfolding ordered ordered_from insert_ordered before where_rows log_event attach_integrity
    latest_integrity_event same_text same_id bumped text_eq integrity_scope_for_event
    compute_event_hash canonical_event_payload encode encode_option encode_text encode_text_option
    verify_events verify_from check_event event_id
log_two-valid = refl

-- An event without its integrity columns.
abbrev broken : Event
broken = record {
  id = 9;
  channel_id = some 1;
  actor_user_id = none;
  event_type = codes "a";
  payload = codes "{}";
  created_at = 50;
  previous_hash = none;
  event_hash = none;
  hash_algorithm = none;
  integrity_version = none;
  integrity_scope = none;
}

abbrev broken_failure : Failure
broken_failure = record {
  reason = Reason.missing_hash;
  expected_hash = Detail.text none;
  actual_hash = Detail.text none;
}

broken-fails : check_event same encode scope_one none broken ≡ some broken_failure
unfolding ordered ordered_from insert_ordered before where_rows log_event attach_integrity
    latest_integrity_event same_text same_id bumped text_eq integrity_scope_for_event
    compute_event_hash canonical_event_payload encode encode_option encode_text encode_text_option
    check_event
broken-fails = refl

verify_events-valid_example :
    ((verify_events same encode scope_one log_two).valid ≡ true)
    ↔ Chain same encode scope_one none log_two
verify_events-valid_example = verify_events-valid same encode scope_one log_two

verify_events_locates_example : verify_events same encode scope_one (broken ∷ log_one) ≡ record {
  valid = false;
  checked_events = 1;
  broken_event_id = some 9;
  failure = some broken_failure;
  previous_event_id = none;
  last_valid_hash = none;
  first_event_id = some 9;
  last_event_id = event_id (get_last? (broken ∷ log_one));
}
unfolding event_id
verify_events_locates_example =
    verify_events_locates same encode scope_one [] log_one broken broken_failure tt broken-fails

verify_events-tamper_example : SameContent log_two log_two ⊎ Collision same
verify_events-tamper_example =
    verify_events-tamper same encode encode_injective scope_one log_two log_two log_two-valid
      log_two-valid refl refl

log_event-valid_example :
    (verify_channel_scope same encode uuid
      (log_event same encode uuid log_one 8 90 (codes "b") (codes "[]") (some 1) none)
      1).valid
    ≡ true
log_event-valid_example =
    log_event-valid same encode uuid log_one 8 90 (codes "b") (codes "[]") (some 1) none 1
      log_one-valid

insert_delivery_event-eq_example :
    insert_delivery_event same encode uuid log_one 8 90 (codes "b") (some 1) (codes "[]")
    ≡ log_event same encode uuid log_one 8 90 (codes "b") (codes "[]") (some 1) none
insert_delivery_event-eq_example =
    insert_delivery_event-eq same encode uuid log_one 8 90 (codes "b") (codes "[]") (some 1)
