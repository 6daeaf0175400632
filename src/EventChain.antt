-- ===== src/EventChain.antt =====
-- backend/app/services/event_integrity_service.py and event_service.py, with the worker's copy in
-- worker/worker_app/outbox_runner.py: the hash chain of audit events in each scope.
-- An id is a number, a time is in microseconds, and a payload is its canonical JSON text. SHA-256
-- of the canonical JSON is `sha256` after `serialize`, and `str` of a UUID is `uuid_text`.
pub mod Links
pub mod Order
pub mod Append
pub mod Tamper
pub mod Tests
use messaging_system.Base.{
  ℕ, suc, ◌+◌, ◌≡◌, Bool, true, false, ◌&&◌, ◌||◌, not, Option, none, some, List, [], ◌∷◌, ◌++◌,
  ltb, leb, ◌==◌, if◌then◌else◌, head?, get_last?, is_none, is_some,
}
use messaging_system.Base.Text.{Text, codes, text_eq}

pub record Event : Type 0 where
  pub id : ℕ
  pub channel_id : Option ℕ
  pub actor_user_id : Option ℕ
  pub event_type : Text
  pub payload : Text
  pub created_at : ℕ
  pub previous_hash : Option Text
  pub event_hash : Option Text
  pub hash_algorithm : Option Text
  pub integrity_version : Option ℕ
  pub integrity_scope : Option Text

-- The dictionary that `canonical_event_payload` builds.
pub record Canonical : Type 0 where
  pub id : ℕ
  pub channel_id : Option ℕ
  pub actor_user_id : Option ℕ
  pub event_type : Text
  pub created_at : ℕ
  pub payload : Text
  pub previous_hash : Option Text
  pub integrity_version : Option ℕ
  pub integrity_scope : Option Text

abbrev pub hash_algorithm : Text
hash_algorithm = codes "sha256"

abbrev pub integrity_version : ℕ
integrity_version = 1

unfoldable pub canonical_event_payload : Event → Canonical
canonical_event_payload e = record {
  id = e.id;
  channel_id = e.channel_id;
  actor_user_id = e.actor_user_id;
  event_type = e.event_type;
  created_at = e.created_at;
  payload = e.payload;
  previous_hash = e.previous_hash;
  integrity_version = e.integrity_version;
  integrity_scope = e.integrity_scope;
}

-- `==` on values that may be None.
unfoldable pub same_text : Option Text → Option Text → Bool
same_text none none = true
same_text (some s) (some t) = text_eq s t
same_text _ _ = false

pub data Reason : Type 0 where
  missing_hash integrity_scope_mismatch unsupported_algorithm : Reason
  unsupported_integrity_version previous_hash_mismatch hash_mismatch : Reason

-- The values of `expected_hash` and `actual_hash`: a text, or the `str` of a version.
pub data Detail : Type 0 where
  text : Option Text → Detail
  version : ℕ → Detail

pub record Failure : Type 0 where
  pub reason : Reason
  pub expected_hash : Detail
  pub actual_hash : Detail

-- `str(event.integrity_version)`, of a version that is there
abbrev pub shown : Option ℕ → Detail
shown none = text none
shown (some v) = version v

pub record Verification : Type 0 where
  pub valid : Bool
  pub checked_events : ℕ
  pub broken_event_id : Option ℕ
  pub failure : Option Failure
  pub previous_event_id : Option ℕ
  pub last_valid_hash : Option Text
  pub first_event_id : Option ℕ
  pub last_event_id : Option ℕ

unfoldable pub event_id : Option Event → Option ℕ
event_id none = none
event_id (some e) = some e.id

-- The variables of the loop in `verify_events`.
pub record Cursor : Type 0 where
  pub checked_events : ℕ
  pub previous_hash : Option Text
  pub previous_event_id : Option ℕ

-- ORDER BY created_at ASC, id ASC
unfoldable pub before : Event → Event → Bool
before a b = ltb a.created_at b.created_at || (a.created_at == b.created_at) && ltb a.id b.id

unfoldable pub insert_ordered : Event → List Event → List Event
insert_ordered e [] = e ∷ []
insert_ordered e (x ∷ xs) = if before x e then x ∷ insert_ordered e xs else e ∷ x ∷ xs

unfoldable pub ordered_from : List Event → List Event → List Event
ordered_from sorted [] = sorted
ordered_from sorted (e ∷ es) = ordered_from (insert_ordered e sorted) es

unfoldable pub ordered : List Event → List Event
ordered = ordered_from []

unfoldable pub where_rows : (Event → Bool) → List Event → List Event
where_rows p [] = []
where_rows p (e ∷ es) = if p e then e ∷ where_rows p es else where_rows p es

unfoldable pub same_id : Option ℕ → ℕ → Bool
same_id none j = false
same_id (some i) j = i == j

-- The newest row of the scope that has a hash.
unfoldable pub latest_integrity_event : Text → List Event → Option Event
latest_integrity_event scope events = get_last? (
    where_rows (λ e. same_text e.integrity_scope (some scope) && is_some e.event_hash)
      (ordered events))

-- Two events of one clock tick keep a strict order.
unfoldable pub bumped : Option Event → ℕ → ℕ
bumped none created_at = created_at
bumped (some latest) created_at =
    if leb created_at latest.created_at then latest.created_at + 1 else created_at

abbrev pub hash_of : Option Event → Option Text
hash_of none = none
hash_of (some e) = e.event_hash

module _ (uuid_text : ℕ → Text) where
  unfoldable pub integrity_scope_for_event : Option ℕ → Text
  integrity_scope_for_event none = codes "system"
  integrity_scope_for_event (some channel_id) = codes "channel:" ++ uuid_text channel_id

  -- The condition of the query in `verify_channel_scope`.
  abbrev pub of_channel : ℕ → Event → Bool
  of_channel channel_id e =
      same_text e.integrity_scope (some (integrity_scope_for_event (some channel_id)))
      || same_id e.channel_id channel_id && is_none e.integrity_scope

  unfoldable pub channel_rows : ℕ → List Event → List Event
  channel_rows channel_id events = where_rows (of_channel channel_id) (ordered events)

module _ (sha256 : List ℕ → Text) (serialize : Canonical → List ℕ) where
  unfoldable pub compute_event_hash : Event → Text
  compute_event_hash e = sha256 (serialize (canonical_event_payload e))

  -- The checks on one event, in the order of the loop's body.
  unfoldable pub check_event : Text → Option Text → Event → Option Failure
  check_event scope previous_hash e =
      if is_none e.event_hash
        || is_none e.integrity_scope
        || is_none e.hash_algorithm
        || is_none e.integrity_version
      then some
          (record { reason = missing_hash; expected_hash = text none; actual_hash = text none })
      else if not (same_text e.integrity_scope (some scope))
      then some (record {
        reason = integrity_scope_mismatch;
        expected_hash = text (some scope);
        actual_hash = text e.integrity_scope;
      })
      else if not (same_text e.hash_algorithm (some hash_algorithm))
      then some (record {
        reason = unsupported_algorithm;
        expected_hash = text (some hash_algorithm);
        actual_hash = text e.hash_algorithm;
      })
      else if not (same_id e.integrity_version integrity_version)
      then some (record {
        reason = unsupported_integrity_version;
        expected_hash = version integrity_version;
        actual_hash = shown e.integrity_version;
      })
      else if not (same_text e.previous_hash previous_hash)
      then some (record {
        reason = previous_hash_mismatch;
        expected_hash = text previous_hash;
        actual_hash = text e.previous_hash;
      })
      else if not (same_text e.event_hash (some (compute_event_hash e)))
      then some (record {
        reason = hash_mismatch;
        expected_hash = text (some (compute_event_hash e));
        actual_hash = text e.event_hash;
      })
      else none

  unfoldable pub verify_from : Text → Option ℕ → Option ℕ → Cursor → List Event → Verification
  verify_from scope first last c [] = record {
    valid = true;
    checked_events = c.checked_events;
    broken_event_id = none;
    failure = none;
    previous_event_id = c.previous_event_id;
    last_valid_hash = c.previous_hash;
    first_event_id = first;
    last_event_id = last;
  }
  verify_from scope first last c (e ∷ es) = elim (check_event scope c.previous_hash e) [
    | some f ↦ record {
      valid = false;
      checked_events = c.checked_events + 1;
      broken_event_id = some e.id;
      failure = some f;
      previous_event_id = c.previous_event_id;
      last_valid_hash = c.previous_hash;
      first_event_id = first;
      last_event_id = last;
    }
    | none ↦
        verify_from scope first last
          (record {
            checked_events = c.checked_events + 1;
            previous_hash = e.event_hash;
            previous_event_id = some e.id;
          })
          es
  ]

  unfoldable pub verify_events : Text → List Event → Verification
  verify_events scope events =
      verify_from scope (event_id (head? events)) (event_id (get_last? events))
        (record { checked_events = 0; previous_hash = none; previous_event_id = none }) events

  unfoldable pub attach_integrity : List Event → Event → Text → Event
  attach_integrity events event scope =
      let latest = latest_integrity_event scope events in
      let linked = record event {
        created_at = bumped latest event.created_at;
        previous_hash = hash_of latest;
        hash_algorithm = some hash_algorithm;
        integrity_version = some integrity_version;
        integrity_scope = some scope;
      } in
      record linked { event_hash = some (compute_event_hash linked) }

  module _ (uuid_text : ℕ → Text) where
    -- The new row, and the table with it; `id` is the UUID that the flush assigns.
    unfoldable pub log_event : List Event → ℕ → ℕ → Text → Text → Option ℕ → Option ℕ → List Event
    log_event events id now event_type payload channel_id actor_user_id =
        let event : Event = record {
          id = id;
          channel_id = channel_id;
          actor_user_id = actor_user_id;
          event_type = event_type;
          payload = payload;
          created_at = now;
          previous_hash = none;
          event_hash = none;
          hash_algorithm = none;
          integrity_version = none;
          integrity_scope = none;
        } in
        events
        ++ attach_integrity events event (integrity_scope_for_event uuid_text channel_id) ∷ []

    unfoldable pub verify_channel_scope : List Event → ℕ → Verification
    verify_channel_scope events channel_id =
        verify_events (integrity_scope_for_event uuid_text (some channel_id))
          (channel_rows uuid_text channel_id events)

    -- The worker's own insertion of a broker event: the same row by other steps.
    unfoldable pub insert_delivery_event : List Event → ℕ → ℕ → Text → Option ℕ → Text → List Event
    insert_delivery_event events event_id now event_type channel_id payload =
        let scope = integrity_scope_for_event uuid_text channel_id in
        let latest = latest_integrity_event scope events in
        let previous_hash = hash_of latest in
        let created_at = bumped latest now in
        let event_hash = sha256 (
          serialize (record {
            id = event_id;
            channel_id = channel_id;
            actor_user_id = none;
            event_type = event_type;
            created_at = created_at;
            payload = payload;
            previous_hash = previous_hash;
            integrity_version = some integrity_version;
            integrity_scope = some scope;
          })) in
        events
        ++ record {
          id = event_id;
          channel_id = channel_id;
          actor_user_id = none;
          event_type = event_type;
          payload = payload;
          created_at = created_at;
          previous_hash = previous_hash;
          event_hash = some event_hash;
          hash_algorithm = some hash_algorithm;
          integrity_version = some integrity_version;
          integrity_scope = some scope;
        }
          ∷ []
