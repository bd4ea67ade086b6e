-- ===== src/Tenant/Tables.antt =====
-- The tables tenants, tenant_users and tenant_invitations with their primary keys, and what a row
-- turns into. A statement that the database cannot run (`up` is false) changes nothing.
use goster_io_t.Common.{ℕ, Bool, Option, none, some, [], if◌then◌else◌}
use goster_io_t.Common.Text.{Text, text, str_eq, to_lower, trim_space}
use goster_io_t.Common.Assoc.{Assoc, insert, lookup}

pub data TenantError : Type 0 where
  tenant_name_required owner_required username_required invited_by_required : TenantError
  tenant_not_found tenant_user_not_found : TenantError
  invitation_not_found invitation_expired invitation_accepted database : TenantError

-- TenantRow without its key.
pub record TenantRow : Type 0 where
  pub name : Text
  pub status : Text
  pub created_at : ℕ
  pub updated_at : ℕ

-- TenantRoleRow without its key.
pub record MemberRow : Type 0 where
  pub role : Text
  pub created_at : ℕ

-- TenantInvitationRow without its key.
pub record InvitationRow : Type 0 where
  pub tenant_id : Text
  pub username : Text
  pub role : Text
  pub invited_by : Text
  pub status : Text
  pub expires_at : ℕ
  pub created_at : ℕ
  pub updated_at : ℕ

-- The users of a tenant are under its id, by their names. `foreign_keys` is whether the database
-- checks references to a tenant, as PostgreSQL does and SQLite does not by default.
pub record TenantDb : Type 0 where
  pub tenants : Assoc TenantRow
  pub members : Assoc (Assoc MemberRow)
  pub invitations : Assoc InvitationRow
  pub foreign_keys : Bool
  pub up : Bool

pub record Tenant : Type 0 where
  pub id : Text
  pub name : Text
  pub status : Text
  pub created_at : ℕ
  pub updated_at : ℕ

pub record TenantInvitation : Type 0 where
  pub id : Text
  pub tenant_id : Text
  pub username : Text
  pub role : Text
  pub invited_by : Text
  pub status : Text
  pub expires_at : ℕ
  pub created_at : ℕ
  pub updated_at : ℕ

-- NormalizeTenantRole: what is no other role may read only.
unfoldable pub normalize_role : Text → Text
normalize_role raw =
    let role = to_lower (trim_space raw) in
    if str_eq role (text "tenant_admin")
    then text "tenant_admin"
    else if str_eq role (text "tenant_rw")
    then text "tenant_rw"
    else text "tenant_ro"

unfoldable pub normalize_tenant_status : Text → Text
normalize_tenant_status raw =
    let status = to_lower (trim_space raw) in
    if str_eq status (text "suspended")
    then text "suspended"
    else if str_eq status (text "archived")
    then text "archived"
    else text "active"

unfoldable pub tenant_from_row : Text → TenantRow → Tenant
tenant_from_row id row = record {
  id = trim_space id;
  name = trim_space row.name;
  status = normalize_tenant_status row.status;
  created_at = row.created_at;
  updated_at = row.updated_at;
}

unfoldable pub invitation_from_row : Text → InvitationRow → TenantInvitation
invitation_from_row id row = record {
  id = trim_space id;
  tenant_id = trim_space row.tenant_id;
  username = trim_space row.username;
  role = normalize_role row.role;
  invited_by = trim_space row.invited_by;
  status = trim_space row.status;
  expires_at = row.expires_at;
  created_at = row.created_at;
  updated_at = row.updated_at;
}

abbrev pub or_nobody : Option (Assoc MemberRow) → Assoc MemberRow
or_nobody none = []
or_nobody (some users) = users

-- The users of a tenant.
abbrev pub users_of : Text → TenantDb → Assoc MemberRow
users_of tenant_id db = or_nobody (lookup tenant_id db.members)

-- The row of a user in a tenant.
abbrev pub member : Text → Text → TenantDb → Option MemberRow
member tenant_id username db = lookup username (users_of tenant_id db)

-- Writes the row of a user in a tenant.
abbrev pub put_member : Text → Text → MemberRow → TenantDb → TenantDb
put_member tenant_id username row db = record db {
  members = insert tenant_id (insert username row (users_of tenant_id db)) db.members;
}
