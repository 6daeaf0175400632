-- ===== src/Delivery/Failing.antt =====
-- worker/worker_app/outbox_runner.py: a row whose every attempt fails.
use messaging_system.Base.{
  ℕ, ◌+◌, ◌≤◌, ◌<◌, ◌≡◌, refl, sym, subst, inl, inr, true, Bool-cases, List, [], ◌∷◌, leb,
  if◌then◌else◌, length, arith, none, some, false,
}
use messaging_system.Base.Text.{Text}
use messaging_system.Store.{retry_scheduled, dead_lettered}
use messaging_system.Delivery.{
  Settings, OutboxRow, mark_publishing, mark_retry_scheduled, mark_dead_lettered, attempt_limit,
  failure_delay, failure_update, power_overflows, reset_for_manual_retry, retry_row, is_retryable,
}
use messaging_system.Delivery.Backoff.{delay_some}

-- The row after transactions at the given times that all end with the given errors. One that raises
-- as it computes the delay is rolled back.
unfoldable pub failing : Settings → List (ℕ × Text) → OutboxRow → OutboxRow
failing s [] row = row
failing s ((at, e) ∷ rest) row = elim (failure_delay s row) [
  | none ↦ failing s rest row
  | some delay ↦ failing s rest (failure_update s at row e delay (mark_publishing row))
]

-- The state between two failures.
abbrev Reached : Settings → ℕ → ℕ → OutboxRow → Type 0
Reached s limit n row = (attempt_limit s row ≡ limit) × (row.attempts ≡ n)

failed_once :
    (s : Settings) (limit n at : ℕ) (e : Text) (delay : ℕ) (row : OutboxRow)
    → Reached s limit n row
    → n < limit
    → let row' = failure_update s at row e delay (mark_publishing row) in
      Reached s limit (n + 1) row'
      × (row'.status ≡ (if leb limit (n + 1) then dead_lettered else retry_scheduled))
unfolding failure_update mark_dead_lettered mark_retry_scheduled mark_publishing
failed_once s limit n at e delay row (i, j) h = elim (Bool-cases (leb limit (n + 1))) [
  | inl b ↦ rw (j, i, b) ((i, refl), refl)
  | inr b ↦ rw (j, i, b) ((i, refl), refl)
]

-- Below the overflow of the power, a failure has its delay.
failure_delay-some :
    (s : Settings) (row : OutboxRow)
    → power_overflows s (attempt_limit s row) ≡ false
    → row.attempts < attempt_limit s row
    → (delay : ℕ) × (failure_delay s row ≡ some delay)
unfolding failure_delay
failure_delay-some s row fits h = elim (Bool-cases (leb (attempt_limit s row) (row.attempts + 1))) [
  | inl b ↦ (0, rw b refl)
  | inr b ↦
      let (d, e) = delay_some s (row.attempts + 1) (attempt_limit s row) fits (omega arith) in
      (d, rw b e)
]

-- The same of a row that was reached.
Reached-failure_delay :
    (s : Settings) (limit n : ℕ) (row : OutboxRow)
    → power_overflows s limit ≡ false
    → Reached s limit n row
    → n < limit
    → (delay : ℕ) × (failure_delay s row ≡ some delay)
Reached-failure_delay s limit n row fits (i, j) h =
    failure_delay-some s row (subst (λ l. power_overflows s l ≡ false) (sym i) fits) (rw (i, j) h)

failing-Reached :
    (s : Settings) (limit n : ℕ) (errors : List (ℕ × Text)) (row : OutboxRow)
    → power_overflows s limit ≡ false
    → Reached s limit n row
    → 0 < length errors
    → n + length errors ≤ limit
    → let row' = failing s errors row in
      Reached s limit (n + length errors) row'
      × (row'.status ≡ (if leb limit (n + length errors) then dead_lettered else retry_scheduled))
unfolding failing
failing-Reached s limit n [] row fits r p h = absurd (omega arith)
failing-Reached s limit n ((at, e) ∷ []) row fits r p h =
    let (d, q) = Reached-failure_delay s limit n row fits r (omega arith) in
    rw (q, failing) (failed_once s limit n at e d row r (omega arith))
failing-Reached s limit n ((at, e) ∷ f ∷ rest) row fits r p h =
    let (d, q) = Reached-failure_delay s limit n row fits r (omega arith) in
    rw (q, failing)
      (subst
        (λ m.
          let row' = failing s (f ∷ rest) (failure_update s at row e d (mark_publishing row)) in
          Reached s limit m row'
          × (row'.status ≡ (if leb limit m then dead_lettered else retry_scheduled)))
        (let q : n + 1 + length (f ∷ rest) ≡ n + length ((at, e) ∷ f ∷ rest) = omega arith in q)
        (failing-Reached s limit (n + 1) (f ∷ rest) _ fits
          (failed_once s limit n at e d row r (omega arith)).0 (omega arith) (omega arith)))

-- After a manual retry of a row that the worker gave up on, was about to retry or left as
-- failed, and then any number of failures from one up to its limit, the row counts exactly those
-- failures, and it is dead-lettered if they are as many as the limit and scheduled for another
-- retry if they are fewer. (Condition: the power of the backoff multiplier does not overflow a float
-- up to that limit.)
pub failing-retry_row :
    (s : Settings) (row : OutboxRow) (errors : List (ℕ × Text))
    → power_overflows s (attempt_limit s row) ≡ false
    → is_retryable row ≡ true
    → 0 < length errors
    → length errors ≤ attempt_limit s row
    → ((failing s errors (retry_row row)).attempts ≡ length errors)
      × ((failing s errors (retry_row row)).status
          ≡ (if leb (attempt_limit s row) (length errors) then dead_lettered else retry_scheduled))
unfolding retry_row reset_for_manual_retry
failing-retry_row s row errors fits h p le = rw h (
    subst
      (λ n.
        let row' = failing s errors (reset_for_manual_retry row) in
        (row'.attempts ≡ n)
        × (row'.status ≡ (if leb (attempt_limit s row) n then dead_lettered else retry_scheduled)))
      (let q : 0 + length errors ≡ length errors = omega arith in q)
      (let (r, t) =
          failing-Reached s (attempt_limit s row) 0 errors (reset_for_manual_retry row) fits
            (refl, refl) p (omega arith) in
        (r.1, t)))
