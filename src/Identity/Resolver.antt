-- ===== src/Identity/Resolver.antt =====
-- principal_resolver.go, and PermissionFromTenantRole of inter/authz_inter.go. The map of a user's
-- roles is a list of pairs, whose order the code cannot rely on either.
pub mod Laws
use goster_io_t.Common.{
  ℕ, Bool, true, false, ◌||◌, ◌==◌, ltb, Option, none, some, [], ◌∷◌, is_empty, if◌then◌else◌,
}
use goster_io_t.Common.Result.{Result, ok, err}
use goster_io_t.Common.Text.{Text, text, str_eq, trim_space}
use goster_io_t.Common.Assoc.{Assoc, lookup}

-- PermissionType
pub data Permission : Type 0 where
  permission_none : Permission
  permission_read_only : Permission
  permission_read_write : Permission
  permission_admin : Permission

unfoldable pub permission_from_tenant_role : Text → Permission
permission_from_tenant_role role =
    if str_eq role (text "tenant_admin")
    then permission_admin
    else if str_eq role (text "tenant_rw")
    then permission_read_write
    else if str_eq role (text "tenant_ro")
    then permission_read_only
    else permission_none

-- ErrCrossTenantScope, or the store's own error.
pub data ResolveError : Type 0 where
  cross_tenant_scope : ResolveError
  store_failed : ResolveError

-- RequestPrincipal; its scope is the tenant.
pub record RequestPrincipal : Type 0 where
  pub username : Text
  pub permission : Permission
  pub role : Text
  pub tenant_id : Text
  pub tenant_roles : Assoc Text

abbrev pub default_tenant_id : Text
default_tenant_id = text "tenant_legacy"

-- `a < b` on strings, byte by byte.
abbrev pub text_less : Text → Text → Bool
text_less a [] = false
text_less [] (b ∷ bs) = true
text_less (a ∷ r) (b ∷ bs) = let rest = text_less r bs in if a == b then rest else ltb a b

-- The loop of chooseDefaultTenant; `found` is the variable `first`.
unfoldable pub first_tenant : Assoc Text → Text → Text
first_tenant [] found = found
first_tenant ((key, role) ∷ roles) found =
    let tenant_id = trim_space key in
    first_tenant roles (
      if is_empty tenant_id
      then found
      else if is_empty found || text_less tenant_id found
      then tenant_id
      else found)

unfoldable pub choose_default_tenant : Assoc Text → Text
choose_default_tenant roles =
    if is_empty roles then default_tenant_id else elim (lookup default_tenant_id roles) [
      | some role ↦ default_tenant_id
      | none ↦
          let found = first_tenant roles [] in if is_empty found then default_tenant_id else found
    ]

-- After the lookup of the tenant that was asked for.
abbrev pub requested_role : Text → Option Text → Result ResolveError (Text × Text)
requested_role tenant_id none = err cross_tenant_scope
requested_role tenant_id (some role) = ok (tenant_id, role)

-- After the lookup of the tenant that was chosen.
abbrev pub default_role : Text → Option Text → Result ResolveError (Text × Text)
default_role tenant_id none = ok ([], [])
default_role tenant_id (some role) = ok (tenant_id, role)

unfoldable pub resolve_tenant_role : Text → Assoc Text → Result ResolveError (Text × Text)
resolve_tenant_role requested roles =
    let tenant_id = choose_default_tenant roles in
    if is_empty requested
    then (if is_empty tenant_id
        then ok ([], [])
        else default_role tenant_id (lookup tenant_id roles))
    else requested_role requested (lookup requested roles)

-- loadTenantRoles; `stored` is GetUserTenantRoles, whose nil map is the empty one.
unfoldable pub load_tenant_roles :
    (Text → Result ResolveError (Assoc Text)) → Text → Result ResolveError (Assoc Text)
load_tenant_roles stored username =
    let name = trim_space username in if is_empty name then ok [] else stored name

abbrev pub principal_of :
    Text → Assoc Text → Result ResolveError (Text × Text) → Result ResolveError RequestPrincipal
principal_of username roles (err e) = err e
principal_of username roles (ok (tenant_id, role)) = ok (record {
  username = username;
  permission = permission_from_tenant_role role;
  role = role;
  tenant_id = tenant_id;
  tenant_roles = roles;
})

abbrev pub with_roles :
    Text → Text → Result ResolveError (Assoc Text) → Result ResolveError RequestPrincipal
with_roles username requested (err e) = err e
with_roles username requested (ok roles) =
    principal_of username roles (resolve_tenant_role requested roles)

-- Resolve for a user that is not nil.
unfoldable pub resolve :
    (Text → Result ResolveError (Assoc Text)) → Text → Text → Result ResolveError RequestPrincipal
resolve stored username requested_tenant =
    with_roles username (trim_space requested_tenant) (load_tenant_roles stored username)
