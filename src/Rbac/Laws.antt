-- ===== src/Rbac/Laws.antt =====
-- backend/app/services/rbac.py: who may act on whom, and stored permissions.
use messaging_system.Base.{◌≡◌, ◌⊎◌, refl, true, false, Option, none, some, arith}
use messaging_system.Rbac.{
  Role, owner, admin, member, pending, RawPermissions, AdminPermissions, build_permissions,
  normalize_admin_permissions, stored, can_remove, can_promote, can_demote,
}

-- Every set of the five permissions comes back from storage as it was written, under any of its
-- keys; and an admin whose dictionary, of whatever keys or none, was normalized and stored has the
-- same permissions as before, of which the deletion of the channel is never one.
pub normalize-stored :
    (p : AdminPermissions) (raw : Option RawPermissions)
    → (normalize_admin_permissions (some (stored p)) ≡ p)
      × (build_permissions (some admin) (some (stored (normalize_admin_permissions raw)))
          ≡ build_permissions (some admin) raw)
      × ((build_permissions (some admin) raw).can_delete_channel ≡ false)
unfolding normalize_admin_permissions build_permissions
normalize-stored p none = (refl, refl, refl)
normalize-stored p (some raw) = (refl, refl, refl)

-- Whoever may promote, demote or remove another member never acts on
-- an owner, and acts only on a role below its own: an owner on any other role, an admin only on
-- members and pending requests, nobody else at all.
pub acts_below :
    (actor target : Option Role)
    → (can_remove actor target ≡ true)
      ⊎ ((can_promote actor target ≡ true) ⊎ (can_demote actor target ≡ true))
    → ((actor ≡ some owner) × ((target ≡ some owner) → ⊥))
      ⊎ ((actor ≡ some admin) × ((target ≡ some member) ⊎ (target ≡ some pending)))
unfolding can_remove can_promote can_demote
acts_below actor target h = ground arith
