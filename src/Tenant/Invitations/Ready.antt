-- ===== src/Tenant/Invitations/Ready.antt =====
-- An invitation that was made can be accepted in time.
use goster_io_t.Common.{
  ℕ, ◌+◌, ◌*◌, ◌<◌, ◌≡◌, refl, sym, ap, ◌∙◌, arith, Bool, true, false, ◌&&◌, ◌||◌, not, Option,
  none, some, [], ◌∷◌, ◌++◌, is_empty, ltb, if◌then◌else◌, if-true,
}
use mathlib.Core.Path.{subst}
use goster_io_t.Common.Result.{Result, ok, err, ◌>>=◌, ◌>>◌, guard, ok-injective}
use goster_io_t.Common.Text.{Text, str_eq, text, trim_space}
use goster_io_t.Common.Text.Trim.{trim_space_idem}
use goster_io_t.Common.Assoc.{insert, lookup, lookup-insert}
use goster_io_t.Downlink.Commands.{normalize_tenant_id}
use goster_io_t.Tenant.Tables.{
  InvitationRow, Tenant, TenantDb, TenantError, TenantInvitation, TenantRow, database,
  invitation_from_row, invited_by_required, member, normalize_role, put_member, username_required,
}
use goster_io_t.Tenant.Members.{
  commit, get_tenant, is_known, tenant_row, upsert_tenant_user, upserted,
}
use goster_io_t.Tenant.Members.Laws.{str_eq_self}
use goster_io_t.Tenant.Invitations.{
  accept_in_tx, accept_invitation, accept_open, create_tenant_invitation, get_invitation,
  insert_invitation, invitation_lifetime, invitation_row, invite, new_invitation_id, run_in_tx,
  settle, settle_row,
}
use goster_io_t.Tenant.Invitations.Laws.{when-succeeds}

guard_passes :
    (b : Bool) (e : TenantError) (rest : Result TenantError TenantDb)
    → b ≡ true
    → (guard b e >> rest) ≡ rest
guard_passes true e rest h = refl
guard_passes false e rest h = absurd (cc)

may_join :
    (up foreign_keys : Bool) (o : Option TenantRow) {row : TenantRow}
    → up ≡ true
    → o ≡ some row
    → (up && (not foreign_keys || is_known o)) ≡ true
may_join true true (some row) u k = refl
may_join true false o u k = refl
may_join true true none u k = absurd (cc)
may_join false foreign_keys o u k = absurd (cc)

both_hold : (a b : Bool) → a ≡ true → b ≡ true → (a && b) ≡ true
both_hold true b p q = q
both_hold false b p q = absurd (cc)

module _ (now : ℕ) (db : TenantDb) (id : Text) (row : InvitationRow) (tenant : TenantRow)
    (trimmed : trim_space id ≡ id) (up : db.up ≡ true) (at : lookup id db.invitations ≡ some row)
    (known : lookup (trim_space row.tenant_id) db.tenants ≡ some tenant)
    (pending : str_eq (trim_space row.status) (text "pending") ≡ true)
    (raw : str_eq row.status (text "pending") ≡ true) (early : now < row.expires_at) where
  -- An invitation that is pending, not expired and to a tenant that is there is accepted.
  pub accept_in_tx_ready : (db' : TenantDb) × (accept_in_tx now db id ≡ ok db')
  unfolding accept_in_tx accept_open get_invitation invitation_from_row upsert_tenant_user settle
  accept_in_tx_ready =
      let t = trim_space row.tenant_id in
      let u = trim_space row.username in
      let r = normalize_role row.role in
      let joined : TenantDb = put_member t u (upserted r now (member t u db)) db in
      let open_ : InvitationRow → Bool = λ i. ltb now i.expires_at in
      let found : get_invitation db id ≡ ok (invitation_from_row id row) =
        if-true _ _ up
        ∙ ap (λ i. invitation_row i (lookup i db.invitations)) trimmed
        ∙ ap (invitation_row id) at in
      let joins : upsert_tenant_user db t u r now ≡ ok joined =
        if-true _ _ (may_join db.up db.foreign_keys (lookup t db.tenants) up known) in
      let closed : InvitationRow = record row { status = text "accepted"; updated_at = now } in
      let end : TenantDb = record joined { invitations = insert id closed db.invitations } in
      let settles : settle_row now id (text "accepted") joined open_ (some row) ≡ ok end =
        if-true _ _ (both_hold _ _ raw (ground arith)) in
      (
        end,
        ap (λ x. x >>= accept_open now db id) found
            ∙ guard_passes _ _ _ pending
            ∙ guard_passes (not (ltb row.expires_at now)) _ _ (ground arith)
            ∙ ap (λ x. x >>= settle now id (text "accepted") open_) joins
            ∙ ap (settle_row now id (text "accepted") joined open_) at
            ∙ settles,
      )

fails_not :
    {A : Type 0} (b : Bool) (db : TenantDb) (e : TenantError) (x : TenantDb × Result TenantError A)
    {db' : TenantDb} {a : A}
    → (if b then (db, err e) else x) ≡ (db', ok a)
    → x ≡ (db', ok a)
fails_not true db e x h = let wrong = ap (λ p. p.1) h in absurd (cc)
fails_not false db e x h = h

commit-eq-ok :
    {A : Type 0} (db : TenantDb) (x : Result TenantError (TenantDb × A)) {db' : TenantDb} {a : A}
    → commit db x ≡ (db', ok a)
    → x ≡ ok (db', a)
commit-eq-ok db (err e) h = let wrong = ap (λ p. p.1) h in absurd (cc)
commit-eq-ok db (ok (d, b)) {db' = end} h =
    ap (λ d'. ok (d', b)) (ap (λ p. p.0) h) ∙ ap (λ c. ok (end, c)) (ok-injective (ap (λ p. p.1) h))

insert_invitation-eq-ok :
    (db : TenantDb) (id : Text) (row : InvitationRow) (o : Option InvitationRow)
    {end : TenantDb × TenantInvitation}
    → insert_invitation db id row o ≡ ok end
    → end ≡ (record db { invitations = insert id row db.invitations }, invitation_from_row id row)
insert_invitation-eq-ok db id row none h = sym (ok-injective h)
insert_invitation-eq-ok db id row (some old) h = absurd (cc)

invite-eq-ok :
    (db : TenantDb) (row : InvitationRow) (found : Result TenantError Tenant) (id : Text)
    {end : TenantDb × TenantInvitation}
    → invite db row found (ok id) ≡ ok end
    → (tenant : Tenant) × (found ≡ ok tenant)
      × (end
          ≡ (record db { invitations = insert id row db.invitations }, invitation_from_row id row))
invite-eq-ok db row (err e) id h = absurd (cc)
invite-eq-ok db row (ok tenant) id h = (tenant, refl, insert_invitation-eq-ok db id row _ h)

tenant_row-eq-ok :
    (id : Text) (o : Option TenantRow) {tenant : Tenant}
    → tenant_row id o ≡ ok tenant
    → (row : TenantRow) × (o ≡ some row)
tenant_row-eq-ok id none h = absurd (cc)
tenant_row-eq-ok id (some row) h = (row, refl)

defaulted :
    (t : Text)
    → trim_space t ≡ t
    → (trim_space (if is_empty t then text "tenant_legacy" else t)
        ≡ (if is_empty t then text "tenant_legacy" else t))
      × (normalize_tenant_id (if is_empty t then text "tenant_legacy" else t)
          ≡ (if is_empty t then text "tenant_legacy" else t))
unfolding normalize_tenant_id text trim_space
defaulted [] h = (refl, refl)
defaulted (c ∷ s) h = (h, ap (λ (u : Text). if is_empty u then text "tenant_legacy" else u) h)

normalized :
    (tenant_id : Text)
    → (trim_space (normalize_tenant_id tenant_id) ≡ normalize_tenant_id tenant_id)
      × (normalize_tenant_id (normalize_tenant_id tenant_id) ≡ normalize_tenant_id tenant_id)
unfolding normalize_tenant_id
normalized tenant_id = defaulted (trim_space tenant_id) (trim_space_idem tenant_id)

get_tenant-eq-ok :
    (db : TenantDb) (id : Text) {tenant : Tenant}
    → get_tenant db id ≡ ok tenant
    → (row : TenantRow) × (db.up ≡ true) × (lookup (normalize_tenant_id id) db.tenants ≡ some row)
unfolding get_tenant
get_tenant-eq-ok db id h =
    let (up, found) = when-succeeds db.up _ database h in
    let (row, there) = tenant_row-eq-ok (normalize_tenant_id id) _ found in (row, up, there)

-- The row that CreateTenantInvitation inserts.
abbrev invitation_to_insert : ℕ → TenantInvitation → InvitationRow
invitation_to_insert now invitation = record {
  tenant_id = normalize_tenant_id invitation.tenant_id;
  username = trim_space invitation.username;
  role = normalize_role invitation.role;
  invited_by = trim_space invitation.invited_by;
  status = text "pending";
  expires_at = now + invitation_lifetime;
  created_at = now;
  updated_at = now;
}

abbrev pair : TenantDb → TenantInvitation → TenantDb × TenantInvitation
pair db invitation = (db, invitation)

abbrev inserted_pair : TenantDb → Text → InvitationRow → TenantDb × TenantInvitation
inserted_pair db id row =
    (record db { invitations = insert id row db.invitations }, invitation_from_row id row)

create_tenant_invitation-eq-ok :
    (now : ℕ) (digits : Text) (db : TenantDb) (invitation : TenantInvitation) {db' : TenantDb}
    {made : TenantInvitation}
    → create_tenant_invitation now (some digits) db invitation ≡ (db', ok made)
    → (tenant : Tenant) × (get_tenant db (normalize_tenant_id invitation.tenant_id) ≡ ok tenant)
      × (pair db' made
          ≡ inserted_pair db (text "inv_" ++ digits) (invitation_to_insert now invitation))
unfolding create_tenant_invitation new_invitation_id
create_tenant_invitation-eq-ok now digits db invitation h =
    let row = invitation_to_insert now invitation in
    let found = get_tenant db (normalize_tenant_id invitation.tenant_id) in
    let last = commit db (invite db row found (ok (text "inv_" ++ digits))) in
    let h1 =
      fails_not (is_empty (trim_space invitation.username)) db username_required
        (if is_empty (trim_space invitation.invited_by)
          then (db, err invited_by_required)
          else last)
        h in
    let h2 =
      fails_not (is_empty (trim_space invitation.invited_by)) db invited_by_required last h1 in
    invite-eq-ok db row found (text "inv_" ++ digits)
      (commit-eq-ok db (invite db row found (ok (text "inv_" ++ digits))) h2)

module _ (now later : ℕ) (db : TenantDb) (id : Text) (row : InvitationRow) (tenant : TenantRow)
    (trimmed : trim_space id ≡ id) (up : db.up ≡ true)
    (known : lookup row.tenant_id db.tenants ≡ some tenant)
    (normal : trim_space row.tenant_id ≡ row.tenant_id) (pending : row.status ≡ text "pending")
    (early : later < row.expires_at) where
  inserted_ready :
      (db' : TenantDb) × (accept_invitation later
          (inserted_pair db id row).0
          (invitation_from_row id row).id
        ≡ (db', ok tt))
  unfolding accept_invitation invitation_from_row str_eq trim_space text
  inserted_ready =
      let inserted = (inserted_pair db id row).0 in
      let (db', accepts) =
        accept_in_tx_ready later inserted id row tenant trimmed up
          (lookup-insert id id row db.invitations ∙ if-true _ _ (str_eq_self id))
          (ap (λ t. lookup t db.tenants) normal ∙ known)
          (ap (λ s. str_eq (trim_space s) (text "pending")) pending)
          (ap (λ s. str_eq s (text "pending")) pending) early in
      (
        db',
        ap (λ i. run_in_tx inserted (accept_in_tx later inserted i))
              (ap trim_space trimmed ∙ trimmed)
            ∙ ap (run_in_tx inserted) accepts,
      )

-- An invitation that was created can be accepted by its id at any time before seven days have
-- passed, if nothing was written in between and its id has no blanks at its ends.
pub accept_invitation-create_tenant_invitation :
    (now later : ℕ) (digits : Text) (db db' : TenantDb) (invitation made : TenantInvitation)
    → create_tenant_invitation now (some digits) db invitation ≡ (db', ok made)
    → trim_space (text "inv_" ++ digits) ≡ text "inv_" ++ digits
    → later < now + 7 * 24 * 3600 * 1000000000
    → (db'' : TenantDb) × (accept_invitation later db' made.id ≡ (db'', ok tt))
accept_invitation-create_tenant_invitation now later digits db db' invitation made h trimmed
      in_time =
    let row = invitation_to_insert now invitation in
    let id = text "inv_" ++ digits in
    let (tenant, found, end) = create_tenant_invitation-eq-ok now digits db invitation h in
    let (tenant_row, up, there) =
      get_tenant-eq-ok db (normalize_tenant_id invitation.tenant_id) found in
    let (trimmed_tenant, normal) = normalized invitation.tenant_id in
    let known = ap (λ t. lookup t db.tenants) (sym normal) ∙ there in
    subst
      (λ (p : TenantDb × TenantInvitation).
        (db'' : TenantDb) × (accept_invitation later p.0 p.1.id ≡ (db'', ok tt)))
      (sym end)
      (inserted_ready now later db id row tenant_row trimmed up known trimmed_tenant refl in_time)
