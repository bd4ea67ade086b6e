-- ===== src/Tenant/Invitations/Changes.antt =====
-- The operations on tenants and their users leave the table of the invitations as it is.
use goster_io_t.Common.{
  ℕ, ◌≡◌, refl, sym, ap, ◌∙◌, Bool, true, false, not, Option, none, some, is_empty, if◌then◌else◌,
}
use goster_io_t.Common.Result.{Result, ok, err, ◌>>=◌, >>=-succeeds, ok-injective}
use goster_io_t.Common.Text.{Text, text, trim_space}
use goster_io_t.Common.Assoc.{delete, insert, lookup}
use goster_io_t.Downlink.Commands.{normalize_tenant_id}
use goster_io_t.Tenant.Tables.{
  MemberRow, Tenant, TenantDb, TenantError, TenantRow, database, member, owner_required,
  tenant_from_row, username_required,
}
use goster_io_t.Tenant.Members.{
  add_known, add_tenant_user, commit, create_owned_row, create_row, create_tenant,
  create_tenant_with_owner, created, get_tenant, has_name, insert_tenant, new_tenant_row,
  remove_known, remove_tenant_user, update_known, updated_row, update_tenant, upsert_tenant_user,
}
use goster_io_t.Tenant.Invitations.Laws.{upsert_tenant_user-eq-ok, when-succeeds}

-- The invitations and the database's answer are as they were.
pub record Keeps (db db' : TenantDb) : Type 0 where
  pub same : db'.invitations ≡ db.invitations
  pub answers : db'.up ≡ db.up

pub Keeps-refl : (db : TenantDb) → Keeps db db
Keeps-refl db = record { same = refl; answers = refl }

Keeps-trans : {a b c : TenantDb} → Keeps a b → Keeps b c → Keeps a c
Keeps-trans first second = record {
  same = second.same ∙ first.same;
  answers = second.answers ∙ first.answers;
}

commit-Keeps :
    {A : Type 0} (db : TenantDb) (x : Result TenantError (TenantDb × A))
    → ((db' : TenantDb) (a : A) → x ≡ ok (db', a) → Keeps db db')
    → Keeps db (commit db x).0
commit-Keeps db (err e) h = Keeps-refl db
commit-Keeps db (ok (db', a)) h = h db' a refl

insert_tenant-Keeps :
    (db : TenantDb) (id : Text) (row : TenantRow) (o : Option TenantRow) {db' : TenantDb}
    → insert_tenant db id row o ≡ ok db'
    → Keeps db db'
insert_tenant-Keeps db id row none h =
    let (free, made) = when-succeeds (not (has_name row.name db.tenants)) _ database h in
    record {
      same = ap (λ (d : TenantDb). d.invitations) (sym (ok-injective made));
      answers = ap (λ (d : TenantDb). d.up) (sym (ok-injective made));
    }
insert_tenant-Keeps db id row (some old) h = absurd (cc)

created-Keeps :
    (db : TenantDb) (new : Text × TenantRow) {db' : TenantDb}
    → created db new ≡ ok db'
    → Keeps db db'
created-Keeps db (id, row) h = insert_tenant-Keeps db id row _ (when-succeeds db.up _ database h).1

pub upsert_tenant_user-Keeps :
    (db : TenantDb) (tenant_id username role : Text) (now : ℕ) {db' : TenantDb}
    → upsert_tenant_user db tenant_id username role now ≡ ok db'
    → Keeps db db'
upsert_tenant_user-Keeps db tenant_id username role now h =
    let made = upsert_tenant_user-eq-ok db tenant_id username role now h in
    record {
      same = ap (λ (d : TenantDb). d.invitations) made;
      answers = ap (λ (d : TenantDb). d.up) made;
    }

-- The database that an answer holds.
finishes :
    {A : Type 0} {db db1 db' : TenantDb} {a b : A}
    → Keeps db db1
    → (let start : Result TenantError (TenantDb × A) = ok (db1, a) in start) ≡ ok (db', b)
    → Keeps db db'
finishes kept h =
    let last = ap (λ x. x.0) (ok-injective h) in
    record {
      same = ap (λ (d : TenantDb). d.invitations) (sym last) ∙ kept.same;
      answers = ap (λ (d : TenantDb). d.up) (sym last) ∙ kept.answers;
    }

create_row-Keeps :
    (db : TenantDb) (new : Text × TenantRow) (db' : TenantDb) (a : Tenant)
    → create_row db new ≡ ok (db', a)
    → Keeps db db'
create_row-Keeps db (id, row) db' a h =
    let (db1, made, h1) =
      >>=-succeeds (created db (id, row)) (λ d. ok (d, tenant_from_row id row)) h in
    finishes (created-Keeps db (id, row) made) h1

create_owned_row-Keeps :
    (db : TenantDb) (owner : Text) (new : Text × TenantRow) (db' : TenantDb) (a : Tenant)
    → create_owned_row db owner new ≡ ok (db', a)
    → Keeps db db'
create_owned_row-Keeps db owner (id, row) db' a h =
    let join : TenantDb → Result TenantError TenantDb =
      λ d. upsert_tenant_user d id owner (text "tenant_admin") row.created_at in
    let (db1, made, h1) =
      >>=-succeeds (created db (id, row)) (λ d. join d >>= λ d'. ok (d', tenant_from_row id row))
        h in
    let (db2, owned, h2) = >>=-succeeds (join db1) (λ d'. ok (d', tenant_from_row id row)) h1 in
    finishes
      (Keeps-trans (created-Keeps db (id, row) made)
        (upsert_tenant_user-Keeps db1 id owner (text "tenant_admin") row.created_at owned))
      h2

pub create_tenant-Keeps :
    (nanos : Text) (now : ℕ) (db : TenantDb) (tenant : Tenant)
    → Keeps db (create_tenant nanos now db tenant).0
unfolding create_tenant
create_tenant-Keeps nanos now db tenant =
    commit-Keeps db (new_tenant_row nanos now tenant >>= create_row db) λ db' a h.
      let (new, named, h1) = >>=-succeeds (new_tenant_row nanos now tenant) (create_row db) h in
      create_row-Keeps db new db' a h1

if-Keeps :
    {A : Type 0} (b : Bool) (db : TenantDb) (x y : TenantDb × A)
    → Keeps db x.0
    → Keeps db y.0
    → Keeps db (if b then x else y).0
if-Keeps true db x y then_ else_ = then_
if-Keeps false db x y then_ else_ = else_

pub create_tenant_with_owner-Keeps :
    (nanos : Text) (now : ℕ) (db : TenantDb) (tenant : Tenant) (owner_username : Text)
    → Keeps db (create_tenant_with_owner nanos now db tenant owner_username).0
unfolding create_tenant_with_owner
create_tenant_with_owner-Keeps nanos now db tenant owner_username =
    let owner = trim_space owner_username in
    let made = new_tenant_row nanos now tenant >>= create_owned_row db owner in
    if-Keeps (is_empty owner) db (db, err owner_required) (commit db made) (Keeps-refl db)
      (commit-Keeps db made λ db' a h.
        let (new, named, h1) =
          >>=-succeeds (new_tenant_row nanos now tenant) (create_owned_row db owner) h in
        create_owned_row-Keeps db owner new db' a h1)

update_known-Keeps :
    (now : ℕ) (db : TenantDb) (id : Text) (updates : Tenant) (o : Option TenantRow)
    → Keeps db (update_known now db id updates o).0
update_known-Keeps now db id updates none = Keeps-refl db
update_known-Keeps now db id updates (some row) =
    let row' = updated_row now updates row in
    let db' : TenantDb = record db { tenants = insert id row' db.tenants } in
    if-Keeps (has_name row'.name (delete id db.tenants)) db (db, err database)
      (db', get_tenant db' id) (Keeps-refl db) (record { same = refl; answers = refl })

pub update_tenant-Keeps :
    (now : ℕ) (db : TenantDb) (tenant_id : Text) (updates : Tenant)
    → Keeps db (update_tenant now db tenant_id updates).0
unfolding update_tenant
update_tenant-Keeps now db tenant_id updates =
    let id = normalize_tenant_id tenant_id in
    let row = lookup id db.tenants in
    if-Keeps db.up db (update_known now db id updates row) (db, err database)
      (update_known-Keeps now db id updates row) (Keeps-refl db)

add_known-Keeps :
    (now : ℕ) (db : TenantDb) (id username role : Text) (found : Result TenantError Tenant)
    → Keeps db (commit db (add_known now db id username role found)).0
add_known-Keeps now db id username role (err e) = Keeps-refl db
add_known-Keeps now db id username role (ok tenant) =
    commit-Keeps db (upsert_tenant_user db id username role now >>= λ db'. ok (db', tt)) λ db' a h.
      let (db1, made, h1) =
        >>=-succeeds (upsert_tenant_user db id username role now) (λ d. ok (d, tt)) h in
      finishes (upsert_tenant_user-Keeps db id username role now made) h1

pub add_tenant_user-Keeps :
    (now : ℕ) (db : TenantDb) (tenant_id username role : Text)
    → Keeps db (add_tenant_user now db tenant_id username role).0
unfolding add_tenant_user
add_tenant_user-Keeps now db tenant_id username role =
    let id = normalize_tenant_id tenant_id in
    let name = trim_space username in
    let found = get_tenant db id in
    if-Keeps (is_empty name) db (db, err username_required)
      (commit db (add_known now db id name role found)) (Keeps-refl db)
      (add_known-Keeps now db id name role found)

remove_known-Keeps :
    (db : TenantDb) (id name : Text) (o : Option MemberRow) → Keeps db (remove_known db id name o).0
remove_known-Keeps db id name none = Keeps-refl db
remove_known-Keeps db id name (some row) = record { same = refl; answers = refl }

pub remove_tenant_user-Keeps :
    (db : TenantDb) (tenant_id username : Text)
    → Keeps db (remove_tenant_user db tenant_id username).0
unfolding remove_tenant_user
remove_tenant_user-Keeps db tenant_id username =
    let id = normalize_tenant_id tenant_id in
    let name = trim_space username in
    let row = member id name db in
    if-Keeps db.up db (remove_known db id name row) (db, err database)
      (remove_known-Keeps db id name row) (Keeps-refl db)
