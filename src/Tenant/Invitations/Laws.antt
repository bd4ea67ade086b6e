-- ===== src/Tenant/Invitations/Laws.antt =====
-- What accepting and rejecting an invitation do.
use goster_io_t.Common.{
  ℕ, ◌≡◌, refl, sym, Bool, true, false, ◌&&◌, ◌||◌, not, Option, none, some, if◌then◌else◌,
}
use goster_io_t.Common.Result.{Result, ok, err, ◌>>◌, ok-injective}
use goster_io_t.Common.Text.{Text, str_eq, text, trim_space}
use goster_io_t.Common.Assoc.{insert, lookup}
use goster_io_t.Tenant.Tables.{
  InvitationRow, TenantDb, TenantError, TenantInvitation, database, invitation_accepted,
  invitation_from_row, member, put_member,
}
use goster_io_t.Tenant.Members.{is_known, upsert_tenant_user, upserted}
use goster_io_t.Tenant.Invitations.{get_invitation, invitation_row, settle_row}

pub >>-succeeds :
    {A : Type 0} (first : Result TenantError (Unit {0})) (rest : Result TenantError A) {end : A}
    → (first >> rest) ≡ ok end
    → (first ≡ ok tt) × (rest ≡ ok end)
>>-succeeds (err e) rest h = absurd (cc)
>>-succeeds (ok u) rest h = (refl, h)

pub when-succeeds :
    {A : Type 0} (b : Bool) (x : Result TenantError A) (e : TenantError) {a : A}
    → (if b then x else err e) ≡ ok a
    → (b ≡ true) × (x ≡ ok a)
when-succeeds true x e h = (refl, h)
when-succeeds false x e h = absurd (cc)

invitation_row-eq-ok :
    (id : Text) (o : Option InvitationRow) {inv : TenantInvitation}
    → invitation_row id o ≡ ok inv
    → (row : InvitationRow) × (o ≡ some row) × (invitation_from_row id row ≡ inv)
invitation_row-eq-ok id none h = absurd (cc)
invitation_row-eq-ok id (some row) h = (row, refl, ok-injective h)

pub get_invitation-eq-ok :
    (db : TenantDb) (id : Text) {inv : TenantInvitation}
    → get_invitation db id ≡ ok inv
    → (row : InvitationRow) × (lookup (trim_space id) db.invitations ≡ some row)
      × (invitation_from_row (trim_space id) row ≡ inv)
      × (db.up ≡ true)
unfolding get_invitation
get_invitation-eq-ok db id h =
    let (up, found) = when-succeeds db.up _ database h in
    let (row, at, made) = invitation_row-eq-ok (trim_space id) _ found in (row, at, made, up)

pub settle_row-eq-ok :
    (now : ℕ) (id status : Text) (db : TenantDb) (open_ : InvitationRow → Bool)
    (o : Option InvitationRow) {db' : TenantDb}
    → settle_row now id status db open_ o ≡ ok db'
    → (row : InvitationRow) × (o ≡ some row)
      × ((str_eq row.status (text "pending") && open_ row) ≡ true)
      × (db' ≡ record db {
        invitations = insert id (record row { status = status; updated_at = now }) db.invitations;
      })
settle_row-eq-ok now id status db open_ none h = absurd (cc)
settle_row-eq-ok now id status db open_ (some row) h =
    let (is_open, made) = when-succeeds _ _ invitation_accepted h in
    (row, refl, is_open, sym (ok-injective made))

pub upsert_tenant_user-eq-ok :
    (db : TenantDb) (tenant_id username role : Text) (now : ℕ) {db' : TenantDb}
    → upsert_tenant_user db tenant_id username role now ≡ ok db'
    → db' ≡ put_member tenant_id username (upserted role now (member tenant_id username db)) db
unfolding upsert_tenant_user
upsert_tenant_user-eq-ok db tenant_id username role now h =
    let (allowed, made) =
      when-succeeds (db.up && (not db.foreign_keys || is_known (lookup tenant_id db.tenants))) _
        database h in
    sym (ok-injective made)
