-- ===== src/Delivery/Tests.antt =====
-- The worker on small tables, with a broker that is down or that takes every other row, and the
-- clock as the world.
use messaging_system.Base.{
  ℕ, ◌-◌, ◌+◌, ◌%◌, ◌≤◌, ◌<◌, ◌≡◌, refl, Option, none, some, List, [], ◌∷◌, true, ◌==◌,
  if◌then◌else◌, arith, Bool, false, ◌⊎◌,
}
use messaging_system.Base.Text.{Text, codes}
use messaging_system.Store.{OutboxStatus, pending, retry_scheduled, dead_lettered, published}
use messaging_system.Delivery.{
  Settings, OutboxRow, Worker, float_limit, power_overflows, failure_delay, next_due, initial_delay,
  delay_cap, calculate_retry_delay, is_retryable, retry_row, process_outbox_batch, is_due,
  update_row, mark_publishing, mark_published, mark_retry_scheduled, mark_dead_lettered,
  failure_update, failure_diagnostic, sanitize_error, handle_publish_failure, settle, process_row,
}
use messaging_system.Delivery.Rounds.{Unique, All2}
use messaging_system.Delivery.Sound.{Kept, process_outbox_batch-Kept}
use messaging_system.Delivery.Drain.{process_outbox_batch-drains, Dry}
use messaging_system.Delivery.Failing.{failing, failing-retry_row}
use messaging_system.Delivery.Backoff.{calculate_retry_delay-between}

abbrev defaults : Settings
defaults = record {
  outbox_max_attempts = 5;
  outbox_initial_retry_delay_seconds = 5;
  outbox_max_retry_delay_seconds = 300;
  multiplier_num = 2;
  multiplier_den = 1;
}

abbrev row_with : ℕ → OutboxStatus → ℕ → OutboxRow
row_with id status attempts = record {
  id = id;
  created_at = 100 - id;
  status = status;
  attempts = attempts;
  max_attempts = 3;
  last_error = none;
  next_retry_at = some 0;
  sent_at = none;
  published_at = none;
  dead_lettered_at = none;
}

abbrev queue : Worker ℕ
queue = record {
  rows =
      row_with 1 published 0
      ∷ row_with 2 pending 0
      ∷ row_with 3 retry_scheduled 2
      ∷ row_with 4 pending 0
      ∷ [];
  diagnostics = [];
  world = 7;
}

abbrev clock : ℕ → ℕ
clock t = t

-- Another transaction works on row 4.
abbrev locks : ℕ → ℕ → Bool
locks t id = id == 4

-- Rows with an odd id are refused.
abbrev answers : OutboxRow → ℕ → Option Text × ℕ
answers row t = (if row.id % 2 == 1 then some (codes "refused") else none, t + 1)

abbrev no_mirror : OutboxRow → Text → ℕ → ℕ → ℕ
no_mirror row e n t = t

abbrev as_is : Text → Text
as_is e = e

queue-Unique : Unique queue.rows
queue-Unique = ((refl, (refl, (refl, tt))), ((refl, (refl, tt)), ((refl, tt), (tt, tt))))

process_outbox_batch-Kept_example :
    All2
      (Kept defaults)
      queue.rows
      (process_outbox_batch defaults clock locks answers no_mirror as_is 2 queue).1.rows
process_outbox_batch-Kept_example =
    process_outbox_batch-Kept defaults clock locks answers no_mirror as_is 2 queue queue-Unique

abbrev left : Worker ℕ
unfolding process_outbox_batch process_row settle handle_publish_failure next_due is_due update_row
    mark_publishing mark_published mark_retry_scheduled mark_dead_lettered failure_update
    failure_delay failure_diagnostic sanitize_error calculate_retry_delay power_overflows
    float_limit
left = (process_outbox_batch defaults clock locks answers no_mirror as_is 9 queue).1

abbrev processed : ℕ
processed = 2

-- Two of the four rows are due and free; the third is refused for the last time.
process_outbox_batch-drains_example :
    (processed ≡ 9) ⊎ ((processed < 9) × Dry (clock left.world) (locks left.world) left.rows)
unfolding left process_outbox_batch process_row settle handle_publish_failure next_due is_due
    update_row mark_publishing mark_published mark_retry_scheduled mark_dead_lettered failure_update
    failure_delay failure_diagnostic sanitize_error calculate_retry_delay power_overflows
    float_limit
process_outbox_batch-drains_example =
    process_outbox_batch-drains defaults clock locks answers no_mirror as_is 9 processed queue left
      refl

abbrev dead : OutboxRow
dead = row_with 6 dead_lettered 3

abbrev two_errors : List (ℕ × Text)
two_errors = (10, codes "a") ∷ (20, codes "b") ∷ []

dead-retryable : is_retryable dead ≡ true
unfolding is_retryable
dead-retryable = refl

fits-3 : power_overflows defaults 3 ≡ false
unfolding power_overflows float_limit
fits-3 = refl

failing-retry_row_example :
    ((failing defaults two_errors (retry_row dead)).attempts ≡ 2)
    × ((failing defaults two_errors (retry_row dead)).status ≡ retry_scheduled)
failing-retry_row_example =
    failing-retry_row defaults dead two_errors fits-3 dead-retryable (omega arith) (omega arith)

calculate_retry_delay-between_example :
    (d : ℕ) × (d' : ℕ) × (calculate_retry_delay 3 defaults ≡ some d)
    × (calculate_retry_delay (3 + 1) defaults ≡ some d')
    × (1 ≤ initial_delay defaults)
    × (initial_delay defaults ≤ d)
    × (d ≤ d')
    × (d' ≤ delay_cap defaults)
calculate_retry_delay-between_example =
    calculate_retry_delay-between 3 defaults (omega arith) fits-3

-- The last attempt that has a delay under the default settings, and the first that raises.
last_delay : calculate_retry_delay 1024 defaults ≡ some 300
unfolding calculate_retry_delay power_overflows float_limit
last_delay = refl

first_overflow : calculate_retry_delay 1025 defaults ≡ none
unfolding calculate_retry_delay power_overflows float_limit
first_overflow = refl
