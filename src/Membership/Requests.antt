-- ===== src/Membership/Requests.antt =====
-- The membership requests of backend/app/services/channel_service.py as one sequence, each a
-- transaction under the lock of its channel: a refused request changes nothing.
use messaging_system.Base.Text.{Text}
use messaging_system.Membership.Invites.{join_channel, accept_invite, revoke_invite}
use messaging_system.Base.{Option, ℕ, List, [], ◌∷◌, ok, err}
use messaging_system.Rbac.{AdminPermissionsUpdateRequest}
use messaging_system.Store.{Db, Action, ◌>>=◌, pure}
use messaging_system.Membership.{
  approve_member, add_member_direct, promote_member, demote_member, update_admin_permissions,
  remove_member, leave_channel,
}

pub data Request : Type 0 where
  approve add : ℕ → ℕ → ℕ → ℕ → Request
  promote demote remove : ℕ → ℕ → ℕ → Request
  set_permissions : ℕ → ℕ → ℕ → AdminPermissionsUpdateRequest → Request
  leave : ℕ → ℕ → Request
  join : ℕ → ℕ → ℕ → Option Text → Request
  accept : ℕ → Text → ℕ → Request
  revoke : ℕ → ℕ → ℕ → ℕ → Request

module _ (str_lower sha256_hex : Text → Text) (outbox_max_attempts : ℕ) where
  unfoldable pub perform : Request → Action (Unit {0})
  perform (Request.approve now c a t) =
      approve_member outbox_max_attempts now c a t >>= λ _. pure tt
  perform (Request.add now c a t) = add_member_direct outbox_max_attempts now c a t >>= λ _. pure tt
  perform (Request.promote c a t) = promote_member outbox_max_attempts c a t >>= λ _. pure tt
  perform (Request.demote c a t) = demote_member outbox_max_attempts c a t >>= λ _. pure tt
  perform (Request.set_permissions c a t req) =
      update_admin_permissions outbox_max_attempts c a t req >>= λ _. pure tt
  perform (Request.remove c a t) = remove_member outbox_max_attempts c a t
  perform (Request.leave c u) = leave_channel outbox_max_attempts c u
  perform (Request.join now c u token) =
      join_channel str_lower sha256_hex outbox_max_attempts now c u token >>= λ _. pure tt
  perform (Request.accept now token u) =
      accept_invite str_lower sha256_hex outbox_max_attempts now token u >>= λ _. pure tt
  perform (Request.revoke now c id a) = revoke_invite now c id a >>= λ _. pure tt

  unfoldable pub serve : Request → Db → Db
  serve q db = elim (perform q db) [ ok (_, db') ↦ db' | err _ ↦ db ]

  unfoldable pub run : List Request → Db → Db
  run [] db = db
  run (q ∷ qs) db = run qs (serve q db)
