-- ===== src/Downloads/Limits.antt =====
-- What the limits of backend/app/services/download_service.py bound.
use messaging_system.Base.{
  ℕ, ◌≤◌, ◌<◌, ◌≡◌, refl, ◌∙◌, inl, inr, false, List, [], ◌∷◌, get_elem?, Bool-cases, Option-cases,
  arith, max, All,
}
use messaging_system.Base.Text.{Text}
use messaging_system.Base.Table.{nat_key, text_key, Key, Table, lookup}
use messaging_system.Downloads.{
  Limiter, Downloads, DownloadLimits, DownloadStep, active, count_up, reset_for_tests,
  normalized_ip, is_full, try_acquire, release_slot, release, step, run,
}
use messaging_system.Downloads.Counters.{
  Tidy-empty, active_same, active-count_up, active-count_down,
}
use messaging_system.Downloads.Balance.{
  Balanced, out, of_user, of_ip, any_lease, out_le, run-Balanced,
}

-- The limits, which the code reads as at least 1, are kept by every counter.
pub record Within (limits : DownloadLimits) (d : Downloads) : Type 0 where
  pub user_within : (u : ℕ) → active u d.limiter.active_by_user ≤ max 1 limits.per_user_limit
  pub ip_within : (ip : Text) → active ip d.limiter.active_by_ip ≤ max 1 limits.per_ip_limit
  pub global_within : d.limiter.active_global ≤ max 1 limits.global_limit

-- Every admission of the steps is made with the same limits.
abbrev pub SameLimits : DownloadLimits → DownloadStep → Type 0
SameLimits limits (DownloadStep.acquire_step l u ip) = l ≡ limits
SameLimits limits (DownloadStep.release_step i) = Unit

not_full :
    (limits : DownloadLimits) (user_id : ℕ) (ip : Text) (limiter : Limiter)
    → is_full limits user_id ip limiter ≡ false
    → (active user_id limiter.active_by_user < max 1 limits.per_user_limit)
      × (active ip limiter.active_by_ip < max 1 limits.per_ip_limit)
      × (limiter.active_global < max 1 limits.global_limit)
unfolding is_full
not_full limits user_id ip limiter h = ground arith

-- One more at a key that is below the limit.
count_up_within :
    {K : Type 0} ⦃key : Key K⦄ (k j : K) (counts : Table K ℕ) (limit : ℕ)
    → active k counts < limit
    → active j counts ≤ limit
    → active j (count_up k counts) ≤ limit
count_up_within ⦃key⦄ k j counts limit below within = elim (Bool-cases (key.same k j)) [
  | inl e ↦
      let p = rw e at (active-count_up k j counts) in omega (arith, p, active_same k j counts e)
  | inr e ↦ let p = rw e at (active-count_up k j counts) in omega (arith, p)
]

acquire-Within :
    (limits : DownloadLimits) (user_id : ℕ) (client_ip : Text) (d : Downloads)
    → Within limits d
    → Within limits (try_acquire limits user_id client_ip d).1
unfolding try_acquire
acquire-Within limits user_id client_ip d w =
    let ip = normalized_ip client_ip in
    elim (Bool-cases (is_full limits user_id ip d.limiter)) [
      | inl e ↦ rw (e, try_acquire) w
      | inr e ↦
          let (user, address, process) = not_full limits user_id ip d.limiter e in
          rw (e, try_acquire)
            (record {
              user_within = λ u.
                  count_up_within user_id u d.limiter.active_by_user (max 1 limits.per_user_limit)
                    user (w.user_within u);
              ip_within = λ j.
                  count_up_within ip j d.limiter.active_by_ip (max 1 limits.per_ip_limit) address
                    (w.ip_within j);
              global_within = omega arith;
            })
    ]

release-Within :
    (limits : DownloadLimits) (i : ℕ) (d : Downloads)
    → Within limits d
    → Within limits (release i d)
unfolding release release_slot
release-Within limits i d w = elim (Option-cases (get_elem? d.leases i)) [
  | inl e ↦ rw (e, release) w
  | inr (l, e) ↦ elim (Bool-cases l.released) [
    | inl f ↦ rw (e, f, release) w
    | inr f ↦
        rw (e, f, release, release_slot)
          (record {
            user_within = λ u.
                omega
                  (arith, w.user_within u, active-count_down l.user_id u d.limiter.active_by_user);
            ip_within = λ j.
                omega
                  (arith, w.ip_within j, active-count_down l.client_ip j d.limiter.active_by_ip);
            global_within = ground (arith, w.global_within);
          })
  ]
]

run-Within :
    (limits : DownloadLimits) (ss : List DownloadStep) (d : Downloads)
    → All (SameLimits limits) ss
    → Within limits d
    → Within limits (run ss d)
unfolding run step
run-Within limits [] d h w = w
run-Within limits (DownloadStep.acquire_step l u ip ∷ ss) d h w =
    run-Within limits ss (step (DownloadStep.acquire_step l u ip) d) h.1
      (rw h.0 (acquire-Within limits u ip d w))
run-Within limits (DownloadStep.release_step i ∷ ss) d h w =
    run-Within limits ss (step (DownloadStep.release_step i) d) h.1 (release-Within limits i d w)

abbrev pub idle : Downloads
idle = record { limiter = reset_for_tests; leases = [] }

pub idle-Balanced : Balanced idle
unfolding active lookup
idle-Balanced = record {
  by_user = λ u. refl;
  by_ip = λ ip. refl;
  all_out = refl;
  tidy_user = λ k n h. absurd (cc);
  tidy_ip = λ k n h. absurd (cc);
}

idle-Within : (limits : DownloadLimits) → Within limits idle
unfolding active lookup
idle-Within limits = record {
  user_within = λ u. omega arith;
  ip_within = λ ip. omega arith;
  global_within = omega arith;
}

-- From an idle limiter, whatever is admitted and released under the same limits, no user, no address
-- and not the process ever holds more leases than its limit, which counts as at least 1.
pub run-limited :
    (limits : DownloadLimits) (ss : List DownloadStep)
    → All (SameLimits limits) ss
    → ((u : ℕ) → out (of_user u) (run ss idle).leases ≤ max 1 limits.per_user_limit)
      × ((ip : Text) → out (of_ip ip) (run ss idle).leases ≤ max 1 limits.per_ip_limit)
      × (out any_lease (run ss idle).leases ≤ max 1 limits.global_limit)
run-limited limits ss h =
    let b = run-Balanced ss idle idle-Balanced in
    let w = run-Within limits ss idle h (idle-Within limits) in
    (
      λ u. omega (arith, b.by_user u, w.user_within u),
      λ ip. omega (arith, b.by_ip ip, w.ip_within ip),
      omega (arith, b.all_out, w.global_within),
    )

-- Once every lease is released, whatever happened before, the limiter holds no key and counts nothing.
pub run-drained :
    (ss : List DownloadStep)
    → out any_lease (run ss idle).leases ≡ 0
    → (run ss idle).limiter ≡ reset_for_tests
run-drained ss h =
    let d = run ss idle in
    let b = run-Balanced ss idle idle-Balanced in
    let users =
      Tidy-empty d.limiter.active_by_user b.tidy_user
        (λ u. omega (arith, b.by_user u, out_le (of_user u) d.leases)) in
    let ips =
      Tidy-empty d.limiter.active_by_ip b.tidy_ip
        (λ j. omega (arith, b.by_ip j, out_le (of_ip j) d.leases)) in
    let total : d.limiter.active_global ≡ 0 = b.all_out ∙ h in cc
