-- ===== src/Tenant/Members.antt =====
-- The statements on tenants and on their users.
pub mod Laws
use goster_io_t.Common.{
  ℕ, Bool, true, false, not, ◌&&◌, ◌||◌, ◌==◌, leb, ◌++◌, take, Option, none, some, List, [], ◌∷◌,
  is_empty, if◌then◌else◌,
}
use mathlib.Core.List.{reverse}
use goster_io_t.Common.Result.{Result, ok, err, ◌>>=◌}
use goster_io_t.Common.Text.{Text, str_eq, text, to_lower, trim_space}
use goster_io_t.Common.Assoc.{Assoc, delete, insert, lookup}
use goster_io_t.Downlink.Commands.{normalize_tenant_id}
use goster_io_t.Tenant.Tables.{
  MemberRow, Tenant, TenantDb, TenantError, TenantRow, database, member, normalize_role,
  normalize_tenant_status, owner_required, put_member, tenant_from_row, tenant_name_required,
  tenant_not_found, tenant_user_not_found, username_required, users_of,
}

-- A statement or a transaction that fails leaves the database as it was.
abbrev pub commit :
    {A : Type 0} → TenantDb → Result TenantError (TenantDb × A) → TenantDb × Result TenantError A
commit db (err e) = (db, err e)
commit db (ok (db', a)) = (db', ok a)

abbrev pub tenant_row : Text → Option TenantRow → Result TenantError Tenant
tenant_row id none = err tenant_not_found
tenant_row id (some row) = ok (tenant_from_row id row)

unfoldable pub get_tenant : TenantDb → Text → Result TenantError Tenant
get_tenant db tenant_id =
    let id = normalize_tenant_id tenant_id in
    if db.up then tenant_row id (lookup id db.tenants) else err database

-- The column `name` is unique.
unfoldable pub has_name : Text → Assoc TenantRow → Bool
has_name name [] = false
has_name name ((id, row) ∷ rows) = let rest = has_name name rows in str_eq row.name name || rest

-- An INSERT, which an id or a name that is there already fails.
abbrev pub insert_tenant :
    TenantDb → Text → TenantRow → Option TenantRow → Result TenantError TenantDb
insert_tenant db id row (some old) = err database
insert_tenant db id row none =
    if not (has_name row.name db.tenants)
    then ok (record db { tenants = insert id row db.tenants })
    else err database

-- A letter or a digit; a byte that is not ASCII counts as part of a letter.
is_word : ℕ → Bool
is_word c = (leb 97 c && leb c 122) || (leb 48 c && leb c 57) || leb 128 c

slug_bytes : Text → Text
unfolding is_word
slug_bytes [] = []
slug_bytes (c ∷ s) =
    let rest = slug_bytes s in
    if is_word c || c == b'_' || c == b'-'
    then c ∷ rest
    else if (leb 9 c && leb c 13) || c == 32
    then b'_' ∷ rest
    else rest

drop_marks : Text → Text
drop_marks [] = []
drop_marks (c ∷ s) = let rest = drop_marks s in if c == b'_' || c == b'-' then rest else c ∷ s

-- slugTenantID; `nanos` is the clock's reading in decimal digits.
unfoldable pub slug_tenant_id : Text → Text → Text
unfolding slug_bytes drop_marks
slug_tenant_id nanos name =
    let bytes = slug_bytes (to_lower (trim_space name)) in
    let trimmed = reverse (drop_marks (reverse (drop_marks bytes))) in
    let id = if is_empty trimmed then text "tenant_" ++ nanos else trimmed in
    if str_eq (take 7 id) (text "tenant_") then id else text "tenant_" ++ id

-- newTenantRow
unfoldable pub new_tenant_row : Text → ℕ → Tenant → Result TenantError (Text × TenantRow)
new_tenant_row nanos now tenant =
    let name = trim_space tenant.name in
    let id = trim_space tenant.id in
    let row : TenantRow = record {
      name = name;
      status = normalize_tenant_status tenant.status;
      created_at = now;
      updated_at = now;
    } in
    if is_empty name
    then err tenant_name_required
    else ok (if is_empty id then slug_tenant_id nanos name else id, row)

-- A row that is there keeps its time.
abbrev pub upserted : Text → ℕ → Option MemberRow → MemberRow
upserted role now none = record { role = normalize_role role; created_at = now }
upserted role now (some old) = record { role = normalize_role role; created_at = old.created_at }

abbrev pub is_known : Option TenantRow → Bool
is_known none = false
is_known (some row) = true

-- INSERT ... ON CONFLICT DO UPDATE SET role
unfoldable pub upsert_tenant_user : TenantDb → Text → Text → Text → ℕ → Result TenantError TenantDb
upsert_tenant_user db tenant_id username role now =
    if db.up && (not db.foreign_keys || is_known (lookup tenant_id db.tenants))
    then ok (put_member tenant_id username (upserted role now (member tenant_id username db)) db)
    else err database

-- What CreateTenant and the transaction of CreateTenantWithOwner insert.
abbrev pub created : TenantDb → Text × TenantRow → Result TenantError TenantDb
created db (id, row) =
    if db.up then insert_tenant db id row (lookup id db.tenants) else err database

-- Behind the call of newTenantRow.
abbrev pub create_row : TenantDb → Text × TenantRow → Result TenantError (TenantDb × Tenant)
create_row db (id, row) = created db (id, row) >>= λ db'. ok (db', tenant_from_row id row)

unfoldable pub create_tenant : Text → ℕ → TenantDb → Tenant → TenantDb × Result TenantError Tenant
create_tenant nanos now db tenant = commit db (new_tenant_row nanos now tenant >>= create_row db)

-- The transaction of CreateTenantWithOwner.
abbrev pub create_owned_row :
    TenantDb → Text → Text × TenantRow → Result TenantError (TenantDb × Tenant)
create_owned_row db owner (id, row) = do
  db' ← created db (id, row)
  db'' ← upsert_tenant_user db' id owner (text "tenant_admin") row.created_at
  ok (db'', tenant_from_row id row)

unfoldable pub create_tenant_with_owner :
    Text → ℕ → TenantDb → Tenant → Text → TenantDb × Result TenantError Tenant
create_tenant_with_owner nanos now db tenant owner_username =
    let owner = trim_space owner_username in
    if is_empty owner
    then (db, err owner_required)
    else commit db (new_tenant_row nanos now tenant >>= create_owned_row db owner)

-- SET name, where one is given, and status, where the request has one.
abbrev pub updated_row : ℕ → Tenant → TenantRow → TenantRow
updated_row now updates row =
    let name = trim_space updates.name in
    record row {
      name = if is_empty name then row.name else name;
      status =
          if is_empty updates.status then row.status else normalize_tenant_status updates.status;
      updated_at = now;
    }

abbrev pub update_known :
    ℕ → TenantDb → Text → Tenant → Option TenantRow → TenantDb × Result TenantError Tenant
update_known now db id updates none = (db, err tenant_not_found)
update_known now db id updates (some row) =
    let row' = updated_row now updates row in
    let db' : TenantDb = record db { tenants = insert id row' db.tenants } in
    if has_name row'.name (delete id db.tenants)
    then (db, err database)
    else (db', get_tenant db' id)

unfoldable pub update_tenant : ℕ → TenantDb → Text → Tenant → TenantDb × Result TenantError Tenant
update_tenant now db tenant_id updates =
    let id = normalize_tenant_id tenant_id in
    if db.up then update_known now db id updates (lookup id db.tenants) else (db, err database)

-- The rows of a user, as the map of the result: blank tenants are left out.
unfoldable pub tenant_roles : Text → Assoc (Assoc MemberRow) → Assoc Text
tenant_roles username [] = []
tenant_roles username ((tenant_id, users) ∷ members) =
    let rest = tenant_roles username members in
    let id = trim_space tenant_id in
    elim (lookup username users) [
      | none ↦ rest
      | some row ↦ if is_empty id then rest else insert id (normalize_role row.role) rest
    ]

unfoldable pub get_user_tenant_roles : TenantDb → Text → Result TenantError (Assoc Text)
get_user_tenant_roles db username =
    if db.up then ok (tenant_roles username db.members) else err database

abbrev pub add_known :
    ℕ
    → TenantDb
    → Text
    → Text
    → Text
    → Result TenantError Tenant
    → Result TenantError (TenantDb × Unit {0})
add_known now db id username role (err e) = err e
add_known now db id username role (ok tenant) =
    upsert_tenant_user db id username role now >>= λ db'. ok (db', tt)

unfoldable pub add_tenant_user :
    ℕ → TenantDb → Text → Text → Text → TenantDb × Result TenantError (Unit {0})
add_tenant_user now db tenant_id username role =
    let id = normalize_tenant_id tenant_id in
    let name = trim_space username in
    if is_empty name
    then (db, err username_required)
    else commit db (add_known now db id name role (get_tenant db id))

abbrev pub remove_known :
    TenantDb → Text → Text → Option MemberRow → TenantDb × Result TenantError (Unit {0})
remove_known db id name none = (db, err tenant_user_not_found)
remove_known db id name (some row) =
    (record db { members = insert id (delete name (users_of id db)) db.members }, ok tt)

unfoldable pub remove_tenant_user :
    TenantDb → Text → Text → TenantDb × Result TenantError (Unit {0})
remove_tenant_user db tenant_id username =
    let id = normalize_tenant_id tenant_id in
    let name = trim_space username in
    if db.up then remove_known db id name (member id name db) else (db, err database)
