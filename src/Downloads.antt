-- ===== src/Downloads.antt =====
-- backend/app/services/download_service.py: DownloadConcurrencyLimiter and DownloadLease. The lock makes
-- each call a step of its own. A lease is known by its place among those that were given out.
pub mod Counters
pub mod Balance
pub mod Limits
pub mod Tests
use messaging_system.Base.{
  ℕ, zero, suc, ◌+◌, ◌-◌, Bool, true, false, ◌&&◌, ◌||◌, not, Option, none, some, List, [], ◌∷◌,
  ◌++◌, length, take, get_elem?, leb, ltb, ◌==◌, if◌then◌else◌, max,
}
use messaging_system.Base.Text.{Text, text_eq, codes}
use messaging_system.Base.Table.{nat_key, text_key, Key, Table, lookup, put, remove}

pub record Limiter : Type 0 where
  pub active_by_user : Table ℕ ℕ
  pub active_by_ip : Table Text ℕ
  pub active_global : ℕ

pub record DownloadLease : Type 0 where
  pub user_id : ℕ
  pub client_ip : Text
  pub released : Bool

-- The limiter and the leases that it gave out, the oldest first.
pub record Downloads : Type 0 where
  pub limiter : Limiter
  pub leases : List DownloadLease

-- The arguments `per_user_limit`, `per_ip_limit` and `global_limit`.
pub record DownloadLimits : Type 0 where
  pub per_user_limit : ℕ
  pub per_ip_limit : ℕ
  pub global_limit : ℕ

-- `counts.get(key, 0)`
unfoldable pub active : {K : Type 0} → ⦃key : Key K⦄ → K → Table K ℕ → ℕ
active k counts = elim (lookup k counts) [ none ↦ 0 | some n ↦ n ]

unfoldable pub count_up : {K : Type 0} → ⦃key : Key K⦄ → K → Table K ℕ → Table K ℕ
count_up k counts = put k (active k counts + 1) counts

unfoldable pub count_down : {K : Type 0} → ⦃key : Key K⦄ → K → Table K ℕ → Table K ℕ
count_down k counts =
    if leb (active k counts) 1 then remove k counts else put k (active k counts - 1) counts

-- `str(client_ip)[:64] or "unknown"`
unfoldable pub normalized_ip : Text → Text
normalized_ip client_ip = elim (take 64 client_ip) [ [] ↦ codes "unknown" | c ∷ s ↦ c ∷ s ]

unfoldable pub is_full : DownloadLimits → ℕ → Text → Limiter → Bool
is_full limits user_id ip limiter =
    leb (max 1 limits.per_user_limit) (active user_id limiter.active_by_user)
    || leb (max 1 limits.per_ip_limit) (active ip limiter.active_by_ip)
    || leb (max 1 limits.global_limit) limiter.active_global

-- The place of the lease, or nothing.
unfoldable pub try_acquire : DownloadLimits → ℕ → Text → Downloads → Option ℕ × Downloads
try_acquire limits user_id client_ip d =
    let ip = normalized_ip client_ip in
    if is_full limits user_id ip d.limiter then (none, d) else (
      some (length d.leases),
      record {
        limiter = record {
          active_by_user = count_up user_id d.limiter.active_by_user;
          active_by_ip = count_up ip d.limiter.active_by_ip;
          active_global = d.limiter.active_global + 1;
        };
        leases = d.leases ++ record { user_id = user_id; client_ip = ip; released = false } ∷ [];
      },
    )

-- `DownloadConcurrencyLimiter._release`
unfoldable pub release_slot : ℕ → Text → Limiter → Limiter
release_slot user_id client_ip limiter = record {
  active_by_user = count_down user_id limiter.active_by_user;
  active_by_ip = count_down client_ip limiter.active_by_ip;
  active_global =
      if ltb 0 limiter.active_global then limiter.active_global - 1 else limiter.active_global;
}

unfoldable pub set_released : ℕ → List DownloadLease → List DownloadLease
set_released i [] = []
set_released zero (l ∷ ls) = record l { released = true } ∷ ls
set_released (suc i) (l ∷ ls) = l ∷ set_released i ls

-- `DownloadLease.release`, of the lease at a place: only the first call gives the slots back.
unfoldable pub release : ℕ → Downloads → Downloads
release i d = elim (get_elem? d.leases i) [
  | none ↦ d
  | some l ↦ if l.released then d else record {
    limiter = release_slot l.user_id l.client_ip d.limiter;
    leases = set_released i d.leases;
  }
]

unfoldable pub active_for : ℕ → Downloads → ℕ
active_for user_id d = active user_id d.limiter.active_by_user

unfoldable pub active_for_ip : Text → Downloads → ℕ
active_for_ip client_ip d = active (normalized_ip client_ip) d.limiter.active_by_ip

unfoldable pub state_sizes : Downloads → ℕ × ℕ
state_sizes d = (length d.limiter.active_by_user, length d.limiter.active_by_ip)

abbrev pub reset_for_tests : Limiter
reset_for_tests = record { active_by_user = []; active_by_ip = []; active_global = 0 }

pub data DownloadStep : Type 0 where
  acquire_step : DownloadLimits → ℕ → Text → DownloadStep
  release_step : ℕ → DownloadStep

unfoldable pub step : DownloadStep → Downloads → Downloads
step (DownloadStep.acquire_step limits user_id ip) d = (try_acquire limits user_id ip d).1
step (DownloadStep.release_step i) d = release i d

unfoldable pub run : List DownloadStep → Downloads → Downloads
run [] d = d
run (s ∷ ss) d = run ss (step s d)
