-- ===== src/Identity/Runs.antt =====
-- A run of the resolver for a user with one tenant.
use goster_io_t.Common.{◌≡◌, refl, [], ◌∷◌}
use goster_io_t.Common.Result.{Result, ok}
use goster_io_t.Common.Text.{Text, text, str_eq, trim_space, strip, space_front, space_back}
use goster_io_t.Common.Assoc.{Assoc, lookup}
use goster_io_t.Identity.Resolver.{
  RequestPrincipal, ResolveError, permission_admin, permission_from_tenant_role, resolve,
  resolve_tenant_role, load_tenant_roles,
}
use goster_io_t.Identity.Resolver.Laws.{ActsWithin, HasRoles, resolve-ActsWithin}

abbrev acme : Text
acme = 97 ∷ 99 ∷ []

abbrev roles : Assoc Text
roles = (acme, text "tenant_admin") ∷ []

abbrev stored : Text → Result ResolveError (Assoc Text)
stored username = ok roles

abbrev principal : RequestPrincipal
principal = record {
  username = acme;
  permission = permission_admin;
  role = text "tenant_admin";
  tenant_id = acme;
  tenant_roles = roles;
}

resolved : resolve stored acme acme ≡ ok principal
unfolding resolve resolve_tenant_role load_tenant_roles trim_space strip space_front space_back
    lookup str_eq text permission_from_tenant_role
resolved = refl

resolve-ActsWithin_example :
    (held : Assoc Text) × HasRoles stored acme held
    × ActsWithin held acme (trim_space acme) principal
resolve-ActsWithin_example = resolve-ActsWithin stored acme acme principal resolved
