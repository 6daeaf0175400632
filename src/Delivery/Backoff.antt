-- ===== src/Delivery/Backoff.antt =====
-- worker/worker_app/outbox_runner.py, calculate_retry_delay: the delay before a retry.
use messaging_system.Base.{
  ℕ, zero, suc, ◌+◌, ◌-◌, ◌*◌, ◌/◌, ◌^◌, ◌≤◌, ◌<◌, ◌≡◌, sym, min, leb, Bool-cases, leb→le, false,
  ◌⊎◌, inl, inr, some, refl, subst, arith,
}
use native.Mathlib.Nat.{
  le-div_iff_mul-le, one-le-pow, pow-le-pow_left, mul-le-mul_left, mul-le-mul, div-mul-le_self,
  pow-suc, mul_assoc,
}
use messaging_system.Delivery.{
  Settings, base_num, initial_delay, delay_cap, float_limit, power_overflows, calculate_retry_delay,
}

base_num_ge : (s : Settings) → s.multiplier_den ≤ base_num s
base_num_ge s = ground arith

pow_pos : (a k : ℕ) → 0 < a → 0 < a ^ k
pow_pos a k h = one-le-pow k a h

le_or_eq : (k m : ℕ) → k ≤ suc m → (k ≤ m) ⊎ (k ≡ suc m)
le_or_eq k m h = omega arith

-- The delay without its cap.
uncapped : Settings → ℕ → ℕ
uncapped s k = initial_delay s * base_num s ^ k / s.multiplier_den ^ k

uncapped_ge : (s : Settings) (k : ℕ) → 0 < s.multiplier_den → initial_delay s ≤ uncapped s k
unfolding uncapped
uncapped_ge s k h =
    (le-div_iff_mul-le (pow_pos s.multiplier_den k h)).1
      (mul-le-mul_left (initial_delay s) (pow-le-pow_left (base_num_ge s) k))

quotient_step : (i b d k : ℕ) → d ≤ b → i * b ^ k / d ^ k * d ^ suc k ≤ i * b ^ suc k
quotient_step i b d k h =
    rw
      (
        pow-suc d k,
        pow-suc b k,
        sym (mul_assoc (i * b ^ k / d ^ k) (d ^ k) d),
        sym (mul_assoc i (b ^ k) b),
      )
      (mul-le-mul (div-mul-le_self (i * b ^ k) (d ^ k)) h)

uncapped_mono : (s : Settings) (k : ℕ) → 0 < s.multiplier_den → uncapped s k ≤ uncapped s (suc k)
unfolding uncapped
uncapped_mono s k h =
    (le-div_iff_mul-le (pow_pos s.multiplier_den (suc k) h)).1
      (quotient_step (initial_delay s) (base_num s) s.multiplier_den k (base_num_ge s))

min_mono : (c : ℕ) {a b : ℕ} → a ≤ b → min c a ≤ min c b
min_mono c h = omega arith

delay_uncapped :
    (n k : ℕ) (s : Settings)
    → n - 1 ≡ k
    → power_overflows s k ≡ false
    → calculate_retry_delay n s ≡ some (min (delay_cap s) (uncapped s k))
unfolding calculate_retry_delay uncapped
delay_uncapped n k s e f = rw (e, f) refl

-- A quotient of powers that has reached a bound stays above it.
power_step : (l b d k : ℕ) → d ≤ b → l * d ^ k ≤ b ^ k → l * d ^ suc k ≤ b ^ suc k
power_step l b d k h le =
    rw (pow-suc d k, pow-suc b k, sym (mul_assoc l (d ^ k) d)) (mul-le-mul le h)

-- A smaller power overflows no sooner.
power_below :
    (s : Settings) (k : ℕ) → power_overflows s (suc k) ≡ false → power_overflows s k ≡ false
unfolding power_overflows
power_below s k h = elim (Bool-cases (leb (float_limit * s.multiplier_den ^ k) (base_num s ^ k))) [
  | inr e ↦ ground arith
  | inl e ↦
      let le =
        power_step float_limit (base_num s) s.multiplier_den k (base_num_ge s) (leb→le _ _ e) in
      absurd (ground arith)
]

power_fits :
    (s : Settings) (k m : ℕ) → power_overflows s m ≡ false → k ≤ m → power_overflows s k ≡ false
power_fits s k zero h le =
    subst (λ x. power_overflows s x ≡ false) (let q : 0 ≡ k = omega arith in q) h
power_fits s k (suc m) h le = elim (le_or_eq k m le) [
  | inl below ↦ power_fits s k m (power_below s m h) below
  | inr same ↦ subst (λ x. power_overflows s x ≡ false) (sym same) h
]

pub delay_some :
    (s : Settings) (n m : ℕ)
    → power_overflows s m ≡ false
    → n ≤ m
    → (d : ℕ) × (calculate_retry_delay n s ≡ some d)
delay_some s n m h le =
    (_, delay_uncapped n (n - 1) s refl (power_fits s (n - 1) m h (omega arith)))

mono_step : (n : ℕ) (s : Settings) → 0 < s.multiplier_den → uncapped s (n - 1) ≤ uncapped s n
mono_step zero s h = omega arith
mono_step (suc k) s h =
    subst (λ j. uncapped s j ≤ uncapped s (suc k)) (let q : k ≡ suc k - 1 = omega arith in q)
      (uncapped_mono s k h)

-- If the multiplier's denominator is not zero and its power with the number of the attempt as the exponent
-- does not overflow a float, then this attempt and the next have a delay; it is never less than
-- the initial delay, which is at least one second, never more than the cap, and does not shrink
-- from this attempt to the next.
pub calculate_retry_delay-between :
    (attempt_count : ℕ) (s : Settings)
    → 0 < s.multiplier_den
    → power_overflows s attempt_count ≡ false
    → (d : ℕ) × (d' : ℕ) × (calculate_retry_delay attempt_count s ≡ some d)
      × (calculate_retry_delay (attempt_count + 1) s ≡ some d')
      × (1 ≤ initial_delay s)
      × (initial_delay s ≤ d)
      × (d ≤ d')
      × (d' ≤ delay_cap s)
calculate_retry_delay-between n s den fits = (
  _,
  _,
  delay_uncapped n (n - 1) s refl (power_fits s (n - 1) n fits (omega arith)),
  delay_uncapped (n + 1) n s (omega arith) fits,
  ground arith,
  (let q = uncapped_ge s (n - 1) den in omega arith),
  min_mono (delay_cap s) (mono_step n s den),
  omega arith,
)
