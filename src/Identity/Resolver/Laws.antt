-- ===== src/Identity/Resolver/Laws.antt =====
-- A principal acts only in a tenant, and with the permission, that the user's roles give.
use goster_io_t.Common.{
  ◌≡◌, refl, ap, ◌∙◌, sym, true, false, Option, none, some, [], is_empty, ◌⊎◌, inl, inr,
}
use mathlib.Core.Path.{subst}
use goster_io_t.Common.{Bool, ◌≢◌, ◌∷◌, if◌then◌else◌}
use goster_io_t.Common.{Bool-cases, if-true, if-false}
use goster_io_t.Common.Result.{Result, ok, err, ok-injective}
use goster_io_t.Common.Text.{Text, str_eq, str_eq_iff, text, trim_space}
use goster_io_t.Common.Assoc.{Assoc, lookup}
use goster_io_t.Identity.Resolver.{
  Permission, permission_admin, permission_none, permission_read_only, permission_read_write,
  RequestPrincipal, ResolveError, permission_from_tenant_role, resolve_tenant_role, requested_role,
  default_role, principal_of, with_roles, resolve, load_tenant_roles, choose_default_tenant,
}

-- The role that is held in a tenant, or no tenant and no role at all.
abbrev pub Holds : Assoc Text → Text → Text → Type 0
Holds roles tenant_id role = (lookup tenant_id roles ≡ some role) ⊎ ((tenant_id ≡ []) × (role ≡ []))

requested_role-Holds :
    (roles : Assoc Text) (asked tenant_id role : Text) (found : Option Text)
    → lookup asked roles ≡ found
    → requested_role asked found ≡ ok (tenant_id, role)
    → (lookup tenant_id roles ≡ some role) × (tenant_id ≡ asked)
requested_role-Holds roles asked tenant_id role none e h = cc
requested_role-Holds roles asked tenant_id role (some held) e h =
    let same_tenant : asked ≡ tenant_id = ap (λ (x : Text × Text). x.0) (ok-injective h) in
    let same_role : held ≡ role = ap (λ (x : Text × Text). x.1) (ok-injective h) in
    (ap (λ t. lookup t roles) (sym same_tenant) ∙ e ∙ ap some same_role, sym same_tenant)

default_role-Holds :
    (roles : Assoc Text) (chosen tenant_id role : Text) (found : Option Text)
    → lookup chosen roles ≡ found
    → default_role chosen found ≡ ok (tenant_id, role)
    → Holds roles tenant_id role
default_role-Holds roles chosen tenant_id role none e h = inr (
  sym (ap (λ (x : Text × Text). x.0) (ok-injective h)),
  sym (ap (λ (x : Text × Text). x.1) (ok-injective h)),
)
default_role-Holds roles chosen tenant_id role (some held) e h =
    inl (requested_role-Holds roles chosen tenant_id role (some held) e h).0

resolve_tenant_role-Holds :
    (roles : Assoc Text) (asked tenant_id role : Text)
    → resolve_tenant_role asked roles ≡ ok (tenant_id, role)
    → Holds roles tenant_id role × (is_empty asked ≡ false → tenant_id ≡ asked)
unfolding resolve_tenant_role
resolve_tenant_role-Holds roles asked tenant_id role h =
    let chosen = choose_default_tenant roles in
    elim (Bool-cases (is_empty asked)) [
      | inr given ↦
          let (held, same) =
            requested_role-Holds roles asked tenant_id role (lookup asked roles) refl
              (sym (if-false _ _ given) ∙ h) in
          (inl held, λ e. same)
      | inl open_ ↦
          let rest = sym (if-true _ _ open_) ∙ h in
          (
            elim (Bool-cases (is_empty chosen)) [
              | inl none_chosen ↦
                  let blank = ok-injective (sym (if-true _ _ none_chosen) ∙ rest) in
                  inr (
                    sym (ap (λ (x : Text × Text). x.0) blank),
                    sym (ap (λ (x : Text × Text). x.1) blank),
                  )
              | inr some_chosen ↦
                  default_role-Holds roles chosen tenant_id role (lookup chosen roles) refl
                    (sym (if-false _ _ some_chosen) ∙ rest)
            ],
            λ e. let clash : true ≡ false = sym open_ ∙ e in absurd (cc),
          )
    ]

-- What a role may do; a role of another name may do nothing.
abbrev pub Permits : Text → Permission → Type 0
Permits role permission_admin = role ≡ text "tenant_admin"
Permits role permission_read_write = role ≡ text "tenant_rw"
Permits role permission_read_only = role ≡ text "tenant_ro"
Permits role permission_none =
    (role ≢ text "tenant_admin") × (role ≢ text "tenant_rw") × (role ≢ text "tenant_ro")

str_eq-false : (a b : Text) → str_eq a b ≡ false → a ≢ b
str_eq-false a b h e = let clash : true ≡ false = sym ((str_eq_iff a b).1 e) ∙ h in absurd (cc)

permitted :
    (role : Text) (a b c : Bool)
    → str_eq role (text "tenant_admin") ≡ a
    → str_eq role (text "tenant_rw") ≡ b
    → str_eq role (text "tenant_ro") ≡ c
    → Permits role (
        if a
        then permission_admin
        else if b
        then permission_read_write
        else if c
        then permission_read_only
        else permission_none)
permitted role true b c ha hb hc = (str_eq_iff _ _).0 ha
permitted role false true c ha hb hc = (str_eq_iff _ _).0 hb
permitted role false false true ha hb hc = (str_eq_iff _ _).0 hc
permitted role false false false ha hb hc =
    (str_eq-false _ _ ha, str_eq-false _ _ hb, str_eq-false _ _ hc)

permission_from_tenant_role-Permits :
    (role : Text) → Permits role (permission_from_tenant_role role)
unfolding permission_from_tenant_role
permission_from_tenant_role-Permits role = permitted role _ _ _ refl refl refl

-- The roles that the store has for the user's trimmed name; a user without a name has none.
abbrev pub HasRoles : (Text → Result ResolveError (Assoc Text)) → Text → Assoc Text → Type 0
HasRoles stored username roles =
    ((trim_space username ≢ []) × (stored (trim_space username) ≡ ok roles))
    ⊎ ((trim_space username ≡ []) × (roles ≡ []))

named_roles :
    (stored : Text → Result ResolveError (Assoc Text)) (name : Text) {roles : Assoc Text}
    → (if is_empty name then ok [] else stored name) ≡ ok roles
    → ((name ≢ []) × (stored name ≡ ok roles)) ⊎ ((name ≡ []) × (roles ≡ []))
named_roles stored [] h = inr (refl, sym (ok-injective h))
named_roles stored (c ∷ name) h = inl (λ e. cc, h)

load_tenant_roles-HasRoles :
    (stored : Text → Result ResolveError (Assoc Text)) (username : Text) {roles : Assoc Text}
    → load_tenant_roles stored username ≡ ok roles
    → HasRoles stored username roles
unfolding load_tenant_roles
load_tenant_roles-HasRoles stored username h = named_roles stored (trim_space username) h

-- What a principal may be, by the roles of its user.
pub record ActsWithin (roles : Assoc Text) (username asked : Text) (p : RequestPrincipal)
    : Type 0 where
  pub user : p.username ≡ username
  pub own : p.tenant_roles ≡ roles
  pub held : Holds roles p.tenant_id p.role
  pub permits : Permits p.role p.permission
  pub as_asked : (asked ≡ []) ⊎ (p.tenant_id ≡ asked)

asked_or_not :
    (asked : Text) {tenant_id : Text}
    → (is_empty asked ≡ false → tenant_id ≡ asked)
    → (asked ≡ []) ⊎ (tenant_id ≡ asked)
asked_or_not [] same = inl refl
asked_or_not (c ∷ rest) same = inr (same refl)

principal_of-ActsWithin :
    (username asked : Text) (roles : Assoc Text) (r : Result ResolveError (Text × Text))
    (p : RequestPrincipal)
    → resolve_tenant_role asked roles ≡ r
    → principal_of username roles r ≡ ok p
    → ActsWithin roles username asked p
principal_of-ActsWithin username asked roles (err e) p found h = absurd (cc)
principal_of-ActsWithin username asked roles (ok (tenant_id, role)) p found h =
    let (held, same) = resolve_tenant_role-Holds roles asked tenant_id role found in
    subst (ActsWithin roles username asked) (ok-injective h) (record {
      user = refl;
      own = refl;
      held = held;
      permits = permission_from_tenant_role-Permits role;
      as_asked = asked_or_not asked same;
    })

with_roles-ActsWithin :
    (stored : Text → Result ResolveError (Assoc Text)) (username asked : Text)
    (loaded : Result ResolveError (Assoc Text)) (p : RequestPrincipal)
    → load_tenant_roles stored username ≡ loaded
    → with_roles username asked loaded ≡ ok p
    → (roles : Assoc Text) × HasRoles stored username roles × ActsWithin roles username asked p
with_roles-ActsWithin stored username asked (err e) p has h = absurd (cc)
with_roles-ActsWithin stored username asked (ok roles) p has h = (
  roles,
  load_tenant_roles-HasRoles stored username has,
  principal_of-ActsWithin username asked roles (resolve_tenant_role asked roles) p refl h,
)

-- A resolved principal acts on the roles that the store has for its user, none where the trimmed name
-- is empty: in a tenant in which those roles name its role, or in no tenant with no role; where the
-- request names a tenant, in that one. Its permission is admin, read-write or read-only only for the
-- role tenant_admin, tenant_rw or tenant_ro, and none only for a role of another name.
pub resolve-ActsWithin :
    (stored : Text → Result ResolveError (Assoc Text)) (username requested : Text)
    (p : RequestPrincipal)
    → resolve stored username requested ≡ ok p
    → (roles : Assoc Text) × HasRoles stored username roles
      × ActsWithin roles username (trim_space requested) p
unfolding resolve
resolve-ActsWithin stored username requested p h =
    with_roles-ActsWithin stored username (trim_space requested) (load_tenant_roles stored username)
      p refl h
