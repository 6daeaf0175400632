-- ===== src/Downloads/Balance.antt =====
-- The counters of backend/app/services/download_service.py against the leases that are out.
use messaging_system.Base.{
  ℕ, ◌+◌, ◌-◌, ◌≤◌, ◌≡◌, ap, ◌∙◌, inl, inr, Bool, true, false, ◌&&◌, not, some, List, [], ◌∷◌, ◌++◌,
  ltb, ◌==◌, if◌then◌else◌, get_elem?, Bool-cases, Option-cases, arith, zero, suc,
}
use messaging_system.Base.Text.{Text, text_eq}
use messaging_system.Base.Table.{nat_key, text_key}
use messaging_system.Downloads.{
  DownloadLease, Downloads, DownloadLimits, DownloadStep, active, normalized_ip, is_full,
  try_acquire, release_slot, set_released, release, step, run,
}
use messaging_system.Downloads.Counters.{
  Tidy, active-count_up, active-count_down, count_up-Tidy, count_down-Tidy,
}

-- The leases of a kind that are not released.
abbrev pub out : (DownloadLease → Bool) → List DownloadLease → ℕ
out p [] = 0
out p (l ∷ ls) = (if not l.released && p l then 1 else 0) + out p ls

abbrev pub of_user : ℕ → DownloadLease → Bool
of_user user_id l = l.user_id == user_id

abbrev pub of_ip : Text → DownloadLease → Bool
of_ip ip l = text_eq l.client_ip ip

abbrev pub any_lease : DownloadLease → Bool
any_lease l = true

-- The counters are the numbers of the leases that are out, and no counter is kept at 0.
pub record Balanced (d : Downloads) : Type 0 where
  pub by_user : (u : ℕ) → active u d.limiter.active_by_user ≡ out (of_user u) d.leases
  pub by_ip : (ip : Text) → active ip d.limiter.active_by_ip ≡ out (of_ip ip) d.leases
  pub all_out : d.limiter.active_global ≡ out any_lease d.leases
  pub tidy_user : Tidy d.limiter.active_by_user
  pub tidy_ip : Tidy d.limiter.active_by_ip

out-append :
    (p : DownloadLease → Bool) (ls : List DownloadLease) (l : DownloadLease)
    → out p (ls ++ l ∷ []) ≡ out p ls + (if not l.released && p l then 1 else 0)
out-append p [] l = omega arith
out-append p (x ∷ ls) l = omega (arith, out-append p ls l)

pub out_le : (p : DownloadLease → Bool) (ls : List DownloadLease) → out p ls ≤ out any_lease ls
out_le p [] = omega arith
out_le p (l ∷ ls) = ground (arith, out_le p ls)

-- Releasing a lease that is out takes it from each count that it is in.
out-set_released :
    (p : DownloadLease → Bool) (i : ℕ) (ls : List DownloadLease) (l : DownloadLease)
    → get_elem? ls i ≡ some l
    → l.released ≡ false
    → out p ls ≡ out p (set_released i ls) + (if p l then 1 else 0)
unfolding set_released
out-set_released p i [] l at fresh = absurd (cc)
out-set_released p zero (x ∷ ls) l at fresh =
    let q : x ≡ l = cc in
    let gone : x.released ≡ false = ap (λ y. y.released) q ∙ fresh in
    let same : p x ≡ p l = ap p q in rw (same, gone) (omega arith)
out-set_released p (suc i) (x ∷ ls) l at fresh = omega (arith, out-set_released p i ls l at fresh)

acquire-Balanced :
    (limits : DownloadLimits) (user_id : ℕ) (client_ip : Text) (d : Downloads)
    → Balanced d
    → Balanced (try_acquire limits user_id client_ip d).1
unfolding try_acquire
acquire-Balanced limits user_id client_ip d b =
    elim (Bool-cases (is_full limits user_id (normalized_ip client_ip) d.limiter)) [
      | inl e ↦ rw (e, try_acquire) b
      | inr e ↦
          let ip = normalized_ip client_ip in
          let l : DownloadLease = record { user_id = user_id; client_ip = ip; released = false } in
          rw (e, try_acquire)
            (record {
              by_user = λ u. omega (
                arith,
                b.by_user u,
                out-append (of_user u) d.leases l,
                active-count_up user_id u d.limiter.active_by_user,
              );
              by_ip = λ j. omega (
                arith,
                b.by_ip j,
                out-append (of_ip j) d.leases l,
                active-count_up ip j d.limiter.active_by_ip,
              );
              all_out = omega (arith, b.all_out, out-append any_lease d.leases l);
              tidy_user = count_up-Tidy user_id d.limiter.active_by_user b.tidy_user;
              tidy_ip = count_up-Tidy ip d.limiter.active_by_ip b.tidy_ip;
            })
    ]

release_slot-global : (n : ℕ) → (if ltb 0 n then n - 1 else n) ≡ n - 1
release_slot-global n = ground arith

release-Balanced : (i : ℕ) (d : Downloads) → Balanced d → Balanced (release i d)
unfolding release release_slot
release-Balanced i d b = elim (Option-cases (get_elem? d.leases i)) [
  | inl e ↦ rw (e, release) b
  | inr (l, e) ↦ elim (Bool-cases l.released) [
    | inl f ↦ rw (e, f, release) b
    | inr f ↦
        rw (e, f, release, release_slot)
          (record {
            by_user = λ u. omega (
              arith,
              b.by_user u,
              active-count_down l.user_id u d.limiter.active_by_user,
              out-set_released (of_user u) i d.leases l e f,
            );
            by_ip = λ j. omega (
              arith,
              b.by_ip j,
              active-count_down l.client_ip j d.limiter.active_by_ip,
              out-set_released (of_ip j) i d.leases l e f,
            );
            all_out = omega (
              arith,
              b.all_out,
              release_slot-global d.limiter.active_global,
              out-set_released any_lease i d.leases l e f,
            );
            tidy_user = count_down-Tidy l.user_id d.limiter.active_by_user b.tidy_user;
            tidy_ip = count_down-Tidy l.client_ip d.limiter.active_by_ip b.tidy_ip;
          })
  ]
]

pub step-Balanced : (s : DownloadStep) (d : Downloads) → Balanced d → Balanced (step s d)
unfolding step
step-Balanced (DownloadStep.acquire_step limits u ip) d b = acquire-Balanced limits u ip d b
step-Balanced (DownloadStep.release_step i) d b = release-Balanced i d b

-- Over any admissions and releases, in any order and with any limits, the counter of each user, of
-- each address and of the process is the number of its leases that are out, and no counter that fell
-- to 0 is kept.
pub run-Balanced : (ss : List DownloadStep) (d : Downloads) → Balanced d → Balanced (run ss d)
unfolding run
run-Balanced [] d b = b
run-Balanced (s ∷ ss) d b = run-Balanced ss (step s d) (step-Balanced s d b)
