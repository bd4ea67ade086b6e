-- ===== src/Tenant/Owned.antt =====
-- A tenant that is created with its owner.
use goster_io_t.Common.{
  ℕ, ◌≡◌, ◌≢◌, ◌⊎◌, refl, sym, ap, ◌∙◌, Bool, true, false, not, Option, none, some, is_empty,
  if◌then◌else◌, if-true, if-false,
}
use mathlib.Core.Path.{subst}
use goster_io_t.Common.Result.{Result, ok, err, ◌>>=◌, >>=-succeeds, ok-injective}
use goster_io_t.Common.Text.{Text, str_eq, text, to_lower, trim_space}
use goster_io_t.Common.Assoc.{insert, lookup, lookup-insert}
use goster_io_t.Tenant.Tables.{
  MemberRow, Tenant, TenantDb, TenantError, TenantRow, database, member, normalize_role,
  owner_required, put_member, tenant_from_row,
}
use goster_io_t.Tenant.Members.{
  commit, create_owned_row, create_tenant_with_owner, created, has_name, insert_tenant,
  new_tenant_row, upsert_tenant_user, upserted,
}
use goster_io_t.Tenant.Members.Laws.{
  member-put_member_other, member-put_member_self, str_eq_other, str_eq_self,
}
use goster_io_t.Tenant.Invitations.Accepted.{upserted-role}
use goster_io_t.Tenant.Invitations.Laws.{upsert_tenant_user-eq-ok, when-succeeds}

-- What the creation of the tenant `id` leads to.
pub record Owned (name owner : Text) (id : Text) (db db' : TenantDb) : Type 0 where
  pub fresh : lookup id db.tenants ≡ none
  pub name_free : has_name name db.tenants ≡ false
  pub made : (row : TenantRow) × (lookup id db'.tenants ≡ some row) × (row.name ≡ name)
  pub owned :
      (row : MemberRow) × (member id owner db' ≡ some row) × (row.role ≡ text "tenant_admin")
  pub others :
      (tenant_id username : Text)
      → (id ≢ tenant_id) ⊎ (owner ≢ username)
      → member tenant_id username db' ≡ member tenant_id username db
  pub other_tenants :
      (other : Text) → id ≢ other → lookup other db'.tenants ≡ lookup other db.tenants

insert_tenant-eq-ok :
    (db : TenantDb) (id : Text) (row : TenantRow) (o : Option TenantRow) {db' : TenantDb}
    → insert_tenant db id row o ≡ ok db'
    → (o ≡ none)
      × (has_name row.name db.tenants ≡ false)
      × (db' ≡ record db { tenants = insert id row db.tenants })
insert_tenant-eq-ok db id row none h =
    let (free, made) = when-succeeds (not (has_name row.name db.tenants)) _ database h in
    (refl, not_true _ free, sym (ok-injective made))
  where
    not_true : (b : Bool) → not b ≡ true → b ≡ false
    not_true true p = absurd (cc)
    not_true false p = refl
insert_tenant-eq-ok db id row (some old) h = absurd (cc)

unless-succeeds :
    {A : Type 0} (b : Bool) (x : Result TenantError A) (e : TenantError) {a : A}
    → (if b then err e else x) ≡ ok a
    → x ≡ ok a
unless-succeeds true x e h = absurd (cc)
unless-succeeds false x e h = h

new_tenant_row-name :
    (nanos : Text) (now : ℕ) (tenant : Tenant) {id : Text} {row : TenantRow}
    → new_tenant_row nanos now tenant ≡ ok (id, row)
    → row.name ≡ trim_space tenant.name
unfolding new_tenant_row
new_tenant_row-name nanos now tenant h =
    sym (ap (λ (p : Text × TenantRow). p.1.name) (ok-injective (unless-succeeds _ _ _ h)))

admin_is_admin : normalize_role (text "tenant_admin") ≡ text "tenant_admin"
unfolding normalize_role text to_lower trim_space str_eq
admin_is_admin = refl

create_owned_row-Owned :
    (db : TenantDb) (owner id : Text) (row : TenantRow) (db' : TenantDb) (t : Tenant)
    → create_owned_row db owner (id, row) ≡ ok (db', t)
    → Owned row.name owner id db db' × (t ≡ tenant_from_row id row)
create_owned_row-Owned db owner id row db' t h =
    let join : TenantDb → Result TenantError TenantDb =
      λ d. upsert_tenant_user d id owner (text "tenant_admin") row.created_at in
    let (db1, made, h1) =
      >>=-succeeds (created db (id, row)) (λ d. join d >>= λ d'. ok (d', tenant_from_row id row))
        h in
    let (db2, joins, h2) = >>=-succeeds (join db1) (λ d'. ok (d', tenant_from_row id row)) h1 in
    let (up, inserted) = when-succeeds db.up _ database made in
    let (fresh, name_free, db1_is) = insert_tenant-eq-ok db id row _ inserted in
    let joined : MemberRow = upserted (text "tenant_admin") row.created_at (member id owner db1) in
    let db2_is : db2 ≡ put_member id owner joined db1 =
      upsert_tenant_user-eq-ok db1 id owner (text "tenant_admin") row.created_at joins in
    let db'_is : db' ≡ put_member id owner joined db1 =
      sym (ap (λ (p : TenantDb × Tenant). p.0) (ok-injective h2)) ∙ db2_is in
    let tenants : db'.tenants ≡ insert id row db.tenants =
      ap (λ (d : TenantDb). d.tenants) db'_is ∙ ap (λ (d : TenantDb). d.tenants) db1_is in
    (
      record {
        fresh = fresh;
        name_free = name_free;
        made = (
          row,
          ap (lookup id) tenants
              ∙ lookup-insert id id row db.tenants
              ∙ if-true _ _ (str_eq_self id),
          refl,
        );
        owned = (
          joined,
          ap (member id owner) db'_is ∙ member-put_member_self id owner joined db1,
          upserted-role (text "tenant_admin") row.created_at (member id owner db1) ∙ admin_is_admin,
        );
        others = λ tenant_id username apart.
            ap (member tenant_id username) db'_is
            ∙ member-put_member_other id owner tenant_id username joined db1 apart
            ∙ ap (member tenant_id username) db1_is;
        other_tenants = λ other apart.
            ap (lookup other) tenants
            ∙ lookup-insert id other row db.tenants
            ∙ if-false _ _ (str_eq_other id other apart);
      },
      sym (ap (λ (p : TenantDb × Tenant). p.1) (ok-injective h2)),
    )

-- The two results of CreateTenantWithOwner.
abbrev pub OwnedOutcome : Text → Text → TenantDb → TenantDb × Result TenantError Tenant → Type 0
OwnedOutcome name owner db (db', ok t) =
    (id : Text) × (t.id ≡ trim_space id) × Owned name owner id db db'
OwnedOutcome name owner db (db', err e) = db' ≡ db

commit-OwnedOutcome :
    (nanos : Text) (now : ℕ) (db : TenantDb) (tenant : Tenant) (owner : Text)
    (x : Result TenantError (TenantDb × Tenant))
    → (new_tenant_row nanos now tenant >>= create_owned_row db owner) ≡ x
    → OwnedOutcome (trim_space tenant.name) owner db (commit db x)
unfolding tenant_from_row
commit-OwnedOutcome nanos now db tenant owner (err e) h = refl
commit-OwnedOutcome nanos now db tenant owner (ok (db', t)) h =
    let ((id, row), named, h1) =
      >>=-succeeds (new_tenant_row nanos now tenant) (create_owned_row db owner) h in
    let (owned, is_t) = create_owned_row-Owned db owner id row db' t h1 in
    (
      id,
      ap (λ (x : Tenant). x.id) is_t,
      subst (λ name. Owned name owner id db db') (new_tenant_row-name nanos now tenant named) owned,
    )

if-OwnedOutcome :
    (name owner : Text) (b : Bool) (db : TenantDb) (x : TenantDb × Result TenantError Tenant)
    → OwnedOutcome name owner db x
    → OwnedOutcome name owner db (if b then (db, err owner_required) else x)
if-OwnedOutcome name owner true db x h = refl
if-OwnedOutcome name owner false db x h = h

-- A tenant that is created with its owner has an id and a name that no tenant had; its owner has
-- the role of an admin in it; no other user's row changes in any tenant, and no other tenant does.
-- A creation that fails, for whatever reason, changes nothing.
pub create_tenant_with_owner-OwnedOutcome :
    (nanos : Text) (now : ℕ) (db : TenantDb) (tenant : Tenant) (owner_username : Text)
    → OwnedOutcome
        (trim_space tenant.name)
        (trim_space owner_username)
        db
        (create_tenant_with_owner nanos now db tenant owner_username)
unfolding create_tenant_with_owner
create_tenant_with_owner-OwnedOutcome nanos now db tenant owner_username =
    let owner = trim_space owner_username in
    if-OwnedOutcome (trim_space tenant.name) owner (is_empty owner) db
      (commit db (new_tenant_row nanos now tenant >>= create_owned_row db owner))
      (commit-OwnedOutcome nanos now db tenant owner _ refl)
