-- ===== src/Delivery.antt =====
-- worker/worker_app/outbox_runner.py: the delivery of outbox rows, with retries and dead letters,
-- and `_reset_for_manual_retry` of backend/app/services/delivery_service.py. Times are in
-- microseconds; the backoff multiplier is a fraction, and its power is exact up to the point where a
-- float overflows. The broker is a parameter: what an attempt to publish a row or to apply a
-- binding returns, and what it does to the world. So are the locks of other transactions.
-- `updated_at`, by which only the lists of the delivery service are ordered, is left out.
pub mod Backoff
pub mod Rounds
pub mod Sound
pub mod Drain
pub mod Failing
pub mod Tests
use messaging_system.Base.{
  ℕ, zero, suc, ◌+◌, ◌*◌, ◌-◌, ◌/◌, ◌^◌, Bool, true, false, Option, none, some, List, [], ◌∷◌, ◌++◌,
  leb, ◌==◌, ltb, if◌then◌else◌, min, max, take, ◌&&◌, ◌||◌, not,
}
use messaging_system.Base.Text.{Text}
use messaging_system.Store.{
  OutboxStatus, pending, publishing, published, retry_scheduled, failed, dead_lettered,
}

pub record Settings : Type 0 where
  pub outbox_max_attempts : ℕ
  pub outbox_initial_retry_delay_seconds : ℕ
  pub outbox_max_retry_delay_seconds : ℕ
  pub multiplier_num : ℕ
  pub multiplier_den : ℕ

-- The columns of an outbox row that the worker reads or writes.
pub record OutboxRow : Type 0 where
  pub id : ℕ
  pub created_at : ℕ
  pub status : OutboxStatus
  pub attempts : ℕ
  pub max_attempts : ℕ
  pub last_error : Option Text
  pub next_retry_at : Option ℕ
  pub sent_at : Option ℕ
  pub published_at : Option ℕ
  pub dead_lettered_at : Option ℕ

-- What is logged of a failure: `broker.dead_lettered` or `broker.retry_scheduled`.
pub data Diagnostic : Type 0 where
  dead_lettered_event : ℕ → ℕ → ℕ → Text → Diagnostic
  retry_scheduled_event : ℕ → ℕ → ℕ → ℕ → Text → Diagnostic

abbrev pub max_error_length : ℕ
max_error_length = 1000

-- `max(1.0, multiplier)`, numerator and denominator
abbrev pub base_num : Settings → ℕ
base_num s = if ltb s.multiplier_num s.multiplier_den then s.multiplier_den else s.multiplier_num

abbrev pub initial_delay : Settings → ℕ
initial_delay s = max 1 s.outbox_initial_retry_delay_seconds

abbrev pub delay_cap : Settings → ℕ
delay_cap s = max (initial_delay s) s.outbox_max_retry_delay_seconds

-- From here on a number rounds to no float.
unfoldable pub float_limit : ℕ
float_limit = 2 ^ 1024 - 2 ^ 970

-- `multiplier ** k`, or the conversion of `initial`, raises OverflowError.
unfoldable pub power_overflows : Settings → ℕ → Bool
power_overflows s k =
    leb float_limit (initial_delay s) || leb (float_limit * s.multiplier_den ^ k) (base_num s ^ k)

-- `int(min(cap, initial * multiplier ** max(attempt_count - 1, 0)))`, or the OverflowError
unfoldable pub calculate_retry_delay : ℕ → Settings → Option ℕ
calculate_retry_delay attempt_count s =
    let k = attempt_count - 1 in
    if power_overflows s k
    then none
    else some (min (delay_cap s) (initial_delay s * base_num s ^ k / s.multiplier_den ^ k))

unfoldable pub is_due : ℕ → OutboxRow → Bool
is_due now row = elim row.status [
  | pending ↦ true
  | retry_scheduled ↦ elim row.next_retry_at [ none ↦ false | some at ↦ leb at now ]
  | _ ↦ false
]

-- Due, and not skipped because another transaction has locked it.
abbrev pub is_free : ℕ → (ℕ → Bool) → OutboxRow → Bool
is_free now locked row = is_due now row && not (locked row.id)

-- `ORDER BY created_at ASC LIMIT 1`, with one more row in front; the first of two rows of one time.
abbrev pub older : Bool → OutboxRow → Option OutboxRow → Option OutboxRow
older false row rest = rest
older true row none = some row
older true row (some other) = if ltb other.created_at row.created_at then some other else some row

-- The oldest row that is due and free.
unfoldable pub next_due : ℕ → (ℕ → Bool) → List OutboxRow → Option OutboxRow
next_due now locked [] = none
next_due now locked (row ∷ rows) = older (is_free now locked row) row (next_due now locked rows)

-- `UPDATE outbox SET … WHERE id = :id`
unfoldable pub update_row : ℕ → (OutboxRow → OutboxRow) → List OutboxRow → List OutboxRow
update_row id f [] = []
update_row id f (row ∷ rows) = (if row.id == id then f row else row) ∷ update_row id f rows

unfoldable pub mark_publishing : OutboxRow → OutboxRow
mark_publishing row = record row { status = publishing }

unfoldable pub mark_published : ℕ → OutboxRow → OutboxRow
mark_published now row = record row {
  status = published;
  sent_at = some now;
  published_at = some now;
  next_retry_at = none;
  last_error = none;
  dead_lettered_at = none;
}

unfoldable pub mark_retry_scheduled : ℕ → Text → ℕ → ℕ → OutboxRow → OutboxRow
mark_retry_scheduled now error_text attempt_count delay row = record row {
  status = retry_scheduled;
  attempts = attempt_count;
  last_error = some error_text;
  next_retry_at = some (now + delay * 1000000);
}

unfoldable pub mark_dead_lettered : ℕ → Text → ℕ → OutboxRow → OutboxRow
mark_dead_lettered now error_text attempt_count row = record row {
  status = dead_lettered;
  attempts = attempt_count;
  last_error = some error_text;
  next_retry_at = none;
  dead_lettered_at = some now;
}

-- `max(1, int(rec["max_attempts"] or settings.outbox_max_attempts))`
abbrev pub attempt_limit : Settings → OutboxRow → ℕ
attempt_limit s row =
    max 1 (if row.max_attempts == 0 then s.outbox_max_attempts else row.max_attempts)

-- The delay before the next attempt, which counts only if there is one; `none` if its computation
-- raises.
unfoldable pub failure_delay : Settings → OutboxRow → Option ℕ
failure_delay s rec =
    let attempt_count = rec.attempts + 1 in
    if leb (attempt_limit s rec) attempt_count
    then some 0
    else calculate_retry_delay attempt_count s

-- What `_handle_publish_failure` of the row that was read does to the stored row.
unfoldable pub failure_update : Settings → ℕ → OutboxRow → Text → ℕ → OutboxRow → OutboxRow
failure_update s now rec error_text delay row =
    let attempt_count = rec.attempts + 1 in
    if leb (attempt_limit s rec) attempt_count
    then mark_dead_lettered now error_text attempt_count row
    else mark_retry_scheduled now error_text attempt_count delay row

unfoldable pub failure_diagnostic : Settings → OutboxRow → Text → ℕ → Diagnostic
failure_diagnostic s rec error_text delay =
    let attempt_count = rec.attempts + 1 in
    let limit = attempt_limit s rec in
    if leb limit attempt_count
    then Diagnostic.dead_lettered_event rec.id attempt_count limit error_text
    else Diagnostic.retry_scheduled_event rec.id attempt_count limit delay error_text

unfoldable pub reset_for_manual_retry : OutboxRow → OutboxRow
reset_for_manual_retry row = record row {
  status = pending;
  attempts = 0;
  next_retry_at = none;
  last_error = none;
  dead_lettered_at = none;
}

-- `MANUAL_RETRY_STATUSES`
unfoldable pub is_retryable : OutboxRow → Bool
is_retryable row = elim row.status [
  | failed ↦ true
  | retry_scheduled ↦ true
  | dead_lettered ↦ true
  | _ ↦ false
]

-- The change that `retry_one` makes to the row that it finds.
unfoldable pub retry_row : OutboxRow → OutboxRow
retry_row row = if is_retryable row then reset_for_manual_retry row else row

pub record Worker (W : Type 0) : Type 0 where
  pub rows : List OutboxRow
  pub diagnostics : List Diagnostic
  pub world : W

-- With the substitutions that take credentials out of the text.
unfoldable pub sanitize_error : (Text → Text) → Text → Text
sanitize_error redact exc = take max_error_length (redact exc)

-- `processed += 1`
abbrev pub one_more : Option ℕ → Option ℕ
one_more none = none
one_more (some n) = some (suc n)

module _ {W : Type 0} (settings : Settings)
    -- the time at which a transaction starts
    (now : W → ℕ)
    -- the rows that other transactions have locked then
    (locked : W → ℕ → Bool)
    -- `_apply_broker_binding` or `_publish_to_exchange`: the text of the exception, if there is one
    (attempt : OutboxRow → W → Option Text × W)
    -- `_publish_to_dead_letter_exchange`, whose exceptions are only logged
    (mirror : OutboxRow → Text → ℕ → W → W)
    -- the substitutions of `sanitize_error`
    (redact : Text → Text) where
  -- `none` if it raises.
  unfoldable pub handle_publish_failure : ℕ → OutboxRow → Text → Worker W → Option (Worker W)
  handle_publish_failure at rec exc w =
      let error_text = sanitize_error redact exc in
      elim (failure_delay settings rec) [
        | none ↦ none
        | some delay ↦ some (record w {
          rows = update_row rec.id (failure_update settings at rec error_text delay) w.rows;
          diagnostics = w.diagnostics ++ failure_diagnostic settings rec error_text delay ∷ [];
          world =
              if leb (attempt_limit settings rec) (rec.attempts + 1)
              then mirror rec error_text (rec.attempts + 1) w.world
              else w.world;
        })
      ]

  -- The end of a round, on what the attempt returned.
  unfoldable pub settle : ℕ → OutboxRow → Option Text → Worker W → Option (Worker W)
  settle at rec none w = some (record w { rows = update_row rec.id (mark_published at) w.rows })
  settle at rec (some exc) w = handle_publish_failure at rec exc w

  -- One round of the loop of `process_outbox_batch`: one transaction, and whether it commits. If an
  -- exception leaves it, its rows are rolled back; the broker keeps what was done to it.
  unfoldable pub process_row : OutboxRow → Worker W → Bool × Worker W
  process_row rec w =
      let (outcome, world) = attempt rec w.world in
      elim (settle (now w.world) rec outcome
        (record w { rows = update_row rec.id mark_publishing w.rows; world = world })) [
          | none ↦ (false, record w { world = world })
          | some w' ↦ (true, w')
        ]

  -- With the limit on the number of rows: how many were processed, or `none` if an exception ends
  -- the batch, and what is left.
  unfoldable pub process_outbox_batch : ℕ → Worker W → Option ℕ × Worker W
  process_outbox_batch zero w = (some 0, w)
  process_outbox_batch (suc n) w = elim (next_due (now w.world) (locked w.world) w.rows) [
    | none ↦ (some 0, w)
    | some rec ↦
        let (commits, w') = process_row rec w in
        elim commits [
          | false ↦ (none, w')
          | true ↦ let (processed, w'') = process_outbox_batch n w' in (one_more processed, w'')
        ]
  ]
