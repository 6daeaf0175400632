-- ===== src/Rbac.antt =====
-- backend/app/services/rbac.py: roles and the permissions that they give.
pub mod Laws
pub mod Tests
use messaging_system.Base.{ℕ, Bool, true, false, not, Option, none, some, ltb, length}
use messaging_system.Base.Text.{Text}

pub data Role : Type 0 where
  owner admin member pending : Role

-- A JSON value, as far as its truth goes: a number by its magnitude, an array or object by its size.
pub data RawValue : Type 0 where
  null_value : RawValue
  boolean : Bool → RawValue
  number : ℕ → RawValue
  text : Text → RawValue
  collection : ℕ → RawValue

-- A permission dictionary from the database: a key may be missing.
pub record RawPermissions : Type 0 where
  pub can_publish : Option RawValue
  pub can_invite : Option RawValue
  pub can_approve : Option RawValue
  pub can_manage_members : Option RawValue
  pub can_edit_channel : Option RawValue

-- A request to change some of the permissions.
pub record AdminPermissionsUpdateRequest : Type 0 where
  pub can_publish : Option Bool
  pub can_invite : Option Bool
  pub can_approve : Option Bool
  pub can_manage_members : Option Bool
  pub can_edit_channel : Option Bool

pub record AdminPermissions : Type 0 where
  pub can_publish : Bool
  pub can_invite : Bool
  pub can_approve : Bool
  pub can_manage_members : Bool
  pub can_edit_channel : Bool

pub record Permissions : Type 0 where
  pub can_publish : Bool
  pub can_invite : Bool
  pub can_approve : Bool
  pub can_manage_members : Bool
  pub can_edit_channel : Bool
  pub can_delete_channel : Bool

abbrev pub default_admin_permissions : AdminPermissions
default_admin_permissions = record {
  can_publish = true;
  can_invite = true;
  can_approve = true;
  can_manage_members = true;
  can_edit_channel = false;
}

abbrev pub overridden : Option Bool → Bool → Bool
overridden none default = default
overridden (some b) default = b

-- `bool(value)`
abbrev pub truthy : RawValue → Bool
truthy null_value = false
truthy (boolean b) = b
truthy (number n) = ltb 0 n
truthy (text t) = ltb 0 (length t)
truthy (collection n) = ltb 0 n

abbrev pub value_or : Option RawValue → Bool → Bool
value_or none default = default
value_or (some v) default = truthy v

unfoldable pub normalize_admin_permissions : Option RawPermissions → AdminPermissions
normalize_admin_permissions none = default_admin_permissions
normalize_admin_permissions (some raw) = record {
  can_publish = value_or raw.can_publish default_admin_permissions.can_publish;
  can_invite = value_or raw.can_invite default_admin_permissions.can_invite;
  can_approve = value_or raw.can_approve default_admin_permissions.can_approve;
  can_manage_members = value_or raw.can_manage_members default_admin_permissions.can_manage_members;
  can_edit_channel = value_or raw.can_edit_channel default_admin_permissions.can_edit_channel;
}

-- A normalized dictionary as it is stored.
abbrev pub stored : AdminPermissions → RawPermissions
stored p = record {
  can_publish = some (boolean p.can_publish);
  can_invite = some (boolean p.can_invite);
  can_approve = some (boolean p.can_approve);
  can_manage_members = some (boolean p.can_manage_members);
  can_edit_channel = some (boolean p.can_edit_channel);
}

abbrev pub admin_grants : AdminPermissions → Permissions
admin_grants p = record {
  can_publish = p.can_publish;
  can_invite = p.can_invite;
  can_approve = p.can_approve;
  can_manage_members = p.can_manage_members;
  can_edit_channel = p.can_edit_channel;
  can_delete_channel = false;
}

abbrev pub no_permissions : Permissions
no_permissions = record {
  can_publish = false;
  can_invite = false;
  can_approve = false;
  can_manage_members = false;
  can_edit_channel = false;
  can_delete_channel = false;
}

unfoldable pub build_permissions : Option Role → Option RawPermissions → Permissions
unfolding normalize_admin_permissions
build_permissions (some owner) raw = record {
  can_publish = true;
  can_invite = true;
  can_approve = true;
  can_manage_members = true;
  can_edit_channel = true;
  can_delete_channel = true;
}
build_permissions (some admin) raw = admin_grants (normalize_admin_permissions raw)
build_permissions _ raw = no_permissions

unfoldable pub can_publish : Option Role → Option RawPermissions → Bool
unfolding build_permissions
can_publish role raw = (build_permissions role raw).can_publish

unfoldable pub can_invite : Option Role → Option RawPermissions → Bool
unfolding build_permissions
can_invite role raw = (build_permissions role raw).can_invite

unfoldable pub can_approve : Option Role → Option RawPermissions → Bool
unfolding build_permissions
can_approve role raw = (build_permissions role raw).can_approve

abbrev pub is_owner : Option Role → Bool
is_owner (some owner) = true
is_owner _ = false

unfoldable pub can_remove : Option Role → Option Role → Bool
can_remove (some owner) target = not (is_owner target)
can_remove (some admin) (some member) = true
can_remove (some admin) (some pending) = true
can_remove _ _ = false

unfoldable pub can_promote : Option Role → Option Role → Bool
can_promote (some owner) (some member) = true
can_promote _ _ = false

unfoldable pub can_demote : Option Role → Option Role → Bool
can_demote (some owner) (some admin) = true
can_demote _ _ = false

-- `role in APPROVED_ROLES`
unfoldable pub can_read : Option Role → Bool
can_read (some owner) = true
can_read (some admin) = true
can_read (some member) = true
can_read _ = false
