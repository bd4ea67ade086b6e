-- ===== src/Tenant/Invitations.antt =====
-- The statements on invitations.
pub mod Laws
pub mod Accepted
pub mod Changes
pub mod Writes
pub mod Settled
pub mod Once
pub mod Ready
use goster_io_t.Common.{
  ℕ, ◌+◌, ◌*◌, Bool, true, false, ◌&&◌, not, Option, none, some, List, [], ◌∷◌, ◌++◌, is_empty, leb,
  ltb, if◌then◌else◌,
}
use goster_io_t.Common.Result.{Result, ok, err, ◌>>=◌, ◌>>◌, guard}
use goster_io_t.Common.Text.{Text, str_eq, text, trim_space}
use goster_io_t.Common.Assoc.{Assoc, insert, lookup}
use goster_io_t.Downlink.Commands.{normalize_tenant_id}
use goster_io_t.Tenant.Tables.{
  InvitationRow, Tenant, TenantDb, TenantError, TenantInvitation, database, invitation_accepted,
  invitation_expired, invitation_from_row, invitation_not_found, invited_by_required,
  normalize_role, username_required,
}
use goster_io_t.Tenant.Members.{commit, get_tenant, upsert_tenant_user}

-- Seven days in nanoseconds.
abbrev pub invitation_lifetime : ℕ
invitation_lifetime = 7 * 24 * 3600 * 1000000000

-- newInvitationID; the digits are the random bytes in hexadecimal, and `none` if there are none.
unfoldable pub new_invitation_id : Option Text → Result TenantError Text
new_invitation_id none = err database
new_invitation_id (some digits) = ok (text "inv_" ++ digits)

abbrev pub invitation_row : Text → Option InvitationRow → Result TenantError TenantInvitation
invitation_row id none = err invitation_not_found
invitation_row id (some row) = ok (invitation_from_row id row)

unfoldable pub get_invitation : TenantDb → Text → Result TenantError TenantInvitation
get_invitation db invitation_id =
    let id = trim_space invitation_id in
    if db.up then invitation_row id (lookup id db.invitations) else err database

-- An INSERT, which an id that is there already fails.
abbrev pub insert_invitation :
    TenantDb
    → Text
    → InvitationRow
    → Option InvitationRow
    → Result TenantError (TenantDb × TenantInvitation)
insert_invitation db id row (some old) = err database
insert_invitation db id row none =
    ok (record db { invitations = insert id row db.invitations }, invitation_from_row id row)

-- From the check of the tenant on.
abbrev pub invite :
    TenantDb
    → InvitationRow
    → Result TenantError Tenant
    → Result TenantError Text
    → Result TenantError (TenantDb × TenantInvitation)
invite db row (err e) new_id = err e
invite db row (ok tenant) (err e) = err e
invite db row (ok tenant) (ok id) = insert_invitation db id row (lookup id db.invitations)

unfoldable pub create_tenant_invitation :
    ℕ → Option Text → TenantDb → TenantInvitation → TenantDb × Result TenantError TenantInvitation
create_tenant_invitation now digits db invitation =
    let tenant_id = normalize_tenant_id invitation.tenant_id in
    let row : InvitationRow = record {
      tenant_id = tenant_id;
      username = trim_space invitation.username;
      role = normalize_role invitation.role;
      invited_by = trim_space invitation.invited_by;
      status = text "pending";
      expires_at = now + invitation_lifetime;
      created_at = now;
      updated_at = now;
    } in
    if is_empty row.username
    then (db, err username_required)
    else if is_empty row.invited_by
    then (db, err invited_by_required)
    else commit db (invite db row (get_tenant db tenant_id) (new_invitation_id digits))

-- WHERE username = ? AND status = 'pending' AND expires_at > ?
abbrev pub is_pending_for : Text → ℕ → InvitationRow → Bool
is_pending_for name now row =
    str_eq row.username name && (str_eq row.status (text "pending") && ltb now row.expires_at)

unfoldable pub pending_rows : Text → ℕ → Assoc InvitationRow → List TenantInvitation
pending_rows name now [] = []
pending_rows name now ((id, row) ∷ rows) =
    let rest = pending_rows name now rows in
    if is_pending_for name now row then invitation_from_row id row ∷ rest else rest

-- ORDER BY created_at DESC; of two with the same time the table's first comes first.
put_by_age : TenantInvitation → List TenantInvitation → List TenantInvitation
put_by_age invitation [] = invitation ∷ []
put_by_age invitation (other ∷ others) =
    let rest = put_by_age invitation others in
    if leb other.created_at invitation.created_at then invitation ∷ other ∷ others else other ∷ rest

unfoldable pub newest_first : List TenantInvitation → List TenantInvitation
unfolding put_by_age
newest_first [] = []
newest_first (invitation ∷ others) = put_by_age invitation (newest_first others)

unfoldable pub list_pending_invitations :
    ℕ → TenantDb → Text → Result TenantError (List TenantInvitation)
list_pending_invitations now db username =
    let name = trim_space username in
    if is_empty name
    then ok []
    else if db.up
    then ok (newest_first (pending_rows name now db.invitations))
    else err database

abbrev pub settle_row :
    ℕ
    → Text
    → Text
    → TenantDb
    → (InvitationRow → Bool)
    → Option InvitationRow
    → Result TenantError TenantDb
settle_row now id status db open_ none = err invitation_accepted
settle_row now id status db open_ (some row) =
    if str_eq row.status (text "pending") && open_ row
    then ok (record db {
      invitations = insert id (record row { status = status; updated_at = now }) db.invitations;
    })
    else err invitation_accepted

-- UPDATE ... SET status, updated_at WHERE id = ? AND status = 'pending' and the rest; a row must be
-- affected.
unfoldable pub settle :
    ℕ → Text → Text → (InvitationRow → Bool) → TenantDb → Result TenantError TenantDb
settle now id status open_ db = settle_row now id status db open_ (lookup id db.invitations)

-- The transactions of AcceptInvitation and RejectInvitation, behind getInvitation.
unfoldable pub accept_open : ℕ → TenantDb → Text → TenantInvitation → Result TenantError TenantDb
accept_open now db id invitation = do
  guard (str_eq invitation.status (text "pending")) invitation_accepted
  guard (not (ltb invitation.expires_at now)) invitation_expired
  joined ← upsert_tenant_user db invitation.tenant_id invitation.username invitation.role now
  settle now id (text "accepted") (λ row. ltb now row.expires_at) joined

unfoldable pub reject_open : ℕ → TenantDb → Text → TenantInvitation → Result TenantError TenantDb
reject_open now db id invitation = do
  guard (str_eq invitation.status (text "pending")) invitation_accepted
  settle now id (text "rejected") (λ row. true) db

unfoldable pub accept_in_tx : ℕ → TenantDb → Text → Result TenantError TenantDb
accept_in_tx now db id = get_invitation db id >>= accept_open now db id

unfoldable pub reject_in_tx : ℕ → TenantDb → Text → Result TenantError TenantDb
reject_in_tx now db id = get_invitation db id >>= reject_open now db id

-- RunInTx: an error rolls the transaction back.
abbrev pub run_in_tx :
    TenantDb → Result TenantError TenantDb → TenantDb × Result TenantError (Unit {0})
run_in_tx db (err e) = (db, err e)
run_in_tx db (ok db') = (db', ok tt)

unfoldable pub accept_invitation : ℕ → TenantDb → Text → TenantDb × Result TenantError (Unit {0})
accept_invitation now db invitation_id =
    run_in_tx db (accept_in_tx now db (trim_space invitation_id))

unfoldable pub reject_invitation : ℕ → TenantDb → Text → TenantDb × Result TenantError (Unit {0})
reject_invitation now db invitation_id =
    run_in_tx db (reject_in_tx now db (trim_space invitation_id))
