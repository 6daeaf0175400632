-- ===== src/Downloads/Tests.antt =====
-- Two downloads of one user and one of another.
use messaging_system.Base.{ℕ, ◌≡◌, ◌≤◌, refl, List, [], ◌∷◌, max}
use messaging_system.Base.Text.{Text, codes, text_eq}
use messaging_system.Base.Table.{lookup, put, remove}
use messaging_system.Downloads.{
  DownloadLimits, DownloadStep, active, count_up, count_down, normalized_ip, is_full, try_acquire,
  release_slot, set_released, release, step, run, reset_for_tests,
}
use messaging_system.Downloads.Balance.{Balanced, out, of_user, of_ip, any_lease, run-Balanced}
use messaging_system.Downloads.Limits.{idle, idle-Balanced, run-limited, run-drained}

abbrev limits : DownloadLimits
limits = record { per_user_limit = 1; per_ip_limit = 2; global_limit = 0 }

abbrev steps : List DownloadStep
steps =
    DownloadStep.acquire_step limits 7 (codes "10.0.0.1")
    ∷ DownloadStep.acquire_step limits 7 []
    ∷ DownloadStep.release_step 0
    ∷ DownloadStep.release_step 0
    ∷ []

run-Balanced_example : Balanced (run steps idle)
run-Balanced_example = run-Balanced steps idle idle-Balanced

run-limited_example :
    ((u : ℕ) → out (of_user u) (run steps idle).leases ≤ max 1 limits.per_user_limit)
    × ((ip : Text) → out (of_ip ip) (run steps idle).leases ≤ max 1 limits.per_ip_limit)
    × (out any_lease (run steps idle).leases ≤ max 1 limits.global_limit)
run-limited_example = run-limited limits steps (refl, (refl, (tt, (tt, tt))))

run-drained_example : (run steps idle).limiter ≡ reset_for_tests
unfolding active lookup put remove text_eq count_up count_down normalized_ip is_full try_acquire
    release_slot set_released release step run
run-drained_example = run-drained steps refl
