-- ===== src/Rbac/Tests.antt =====
-- Roles and permissions at concrete arguments.
use messaging_system.Base.{◌≡◌, ◌⊎◌, inl, refl, none, some, true, false}
use messaging_system.Rbac.{
  owner, admin, member, pending, RawPermissions, number, boolean, AdminPermissions,
  build_permissions, normalize_admin_permissions, stored, can_remove,
}
use messaging_system.Rbac.Laws.{normalize-stored, acts_below}

-- A dictionary of which only two keys are set.
abbrev sparse : RawPermissions
sparse = record {
  can_publish = some (number 0);
  can_invite = none;
  can_approve = none;
  can_manage_members = none;
  can_edit_channel = some (boolean true);
}

abbrev editor : AdminPermissions
editor = record {
  can_publish = false;
  can_invite = true;
  can_approve = false;
  can_manage_members = false;
  can_edit_channel = true;
}

normalize-stored_example :
    (normalize_admin_permissions (some (stored editor)) ≡ editor)
    × (build_permissions (some admin) (some (stored (normalize_admin_permissions (some sparse))))
        ≡ build_permissions (some admin) (some sparse))
    × ((build_permissions (some admin) (some sparse)).can_delete_channel ≡ false)
normalize-stored_example = normalize-stored editor (some sparse)

admin_removes : can_remove (some admin) (some member) ≡ true
unfolding can_remove
admin_removes = refl

acts_below_example :
    ((some admin ≡ some owner) × ((some member ≡ some owner) → ⊥))
    ⊎ ((some admin ≡ some admin) × ((some member ≡ some member) ⊎ (some member ≡ some pending)))
acts_below_example = acts_below (some admin) (some member) (inl admin_removes)
