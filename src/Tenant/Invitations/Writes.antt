-- ===== src/Tenant/Invitations/Writes.antt =====
-- What the operations on invitations do to their table.
use goster_io_t.Common.{
  ℕ, ◌+◌, ◌≡◌, refl, ap, ◌∙◌, Bool, true, false, not, Option, none, some, is_empty, ltb,
  if◌then◌else◌,
}
use goster_io_t.Common.Result.{Result, ok, err, guard, >>=-succeeds}
use goster_io_t.Common.Text.{Text, str_eq, text, trim_space}
use goster_io_t.Common.Assoc.{insert, lookup}
use goster_io_t.Downlink.Commands.{normalize_tenant_id}
use goster_io_t.Tenant.Tables.{
  InvitationRow, Tenant, TenantDb, TenantError, TenantInvitation, invitation_accepted,
  invitation_expired, invited_by_required, normalize_role, username_required,
}
use goster_io_t.Tenant.Members.{commit, get_tenant, upsert_tenant_user}
use goster_io_t.Tenant.Invitations.{
  accept_in_tx, accept_open, create_tenant_invitation, get_invitation, insert_invitation,
  invitation_lifetime, invite, new_invitation_id, reject_in_tx, reject_open, settle,
}
use goster_io_t.Tenant.Invitations.Laws.{>>-succeeds, settle_row-eq-ok}
use goster_io_t.Tenant.Invitations.Changes.{upsert_tenant_user-Keeps}

-- One invitation was written.
pub record Writes (id : Text) (db db' : TenantDb) : Type 0 where
  pub written : InvitationRow
  pub table : db'.invitations ≡ insert id written db.invitations
  pub answers : db'.up ≡ db.up

-- Nothing changed, or a row was inserted under an id that had none.
pub data Inserts (db db' : TenantDb) : Type 0 where
  nothing : db' ≡ db → Inserts db db'
  inserts : (id : Text) → lookup id db.invitations ≡ none → Writes id db db' → Inserts db db'

insert_invitation-Inserts :
    (db : TenantDb) (id : Text) (row : InvitationRow) (o : Option InvitationRow)
    → lookup id db.invitations ≡ o
    → Inserts db (commit db (insert_invitation db id row o)).0
insert_invitation-Inserts db id row none absent =
    inserts id absent (record { written = row; table = refl; answers = refl })
insert_invitation-Inserts db id row (some old) there = nothing refl

invite-Inserts :
    (db : TenantDb) (row : InvitationRow) (found : Result TenantError Tenant)
    (new_id : Result TenantError Text)
    → Inserts db (commit db (invite db row found new_id)).0
invite-Inserts db row (err e) new_id = nothing refl
invite-Inserts db row (ok tenant) (err e) = nothing refl
invite-Inserts db row (ok tenant) (ok id) = insert_invitation-Inserts db id row _ refl

if-Inserts :
    {A : Type 0} (b : Bool) (db : TenantDb) (x y : TenantDb × A)
    → Inserts db x.0
    → Inserts db y.0
    → Inserts db (if b then x else y).0
if-Inserts true db x y then_ else_ = then_
if-Inserts false db x y then_ else_ = else_

pub create_tenant_invitation-Inserts :
    (now : ℕ) (digits : Option Text) (db : TenantDb) (invitation : TenantInvitation)
    → Inserts db (create_tenant_invitation now digits db invitation).0
unfolding create_tenant_invitation
create_tenant_invitation-Inserts now digits db invitation =
    let name = trim_space invitation.username in
    let inviter = trim_space invitation.invited_by in
    let row : InvitationRow = record {
      tenant_id = normalize_tenant_id invitation.tenant_id;
      username = name;
      role = normalize_role invitation.role;
      invited_by = inviter;
      status = text "pending";
      expires_at = now + invitation_lifetime;
      created_at = now;
      updated_at = now;
    } in
    let found = get_tenant db (normalize_tenant_id invitation.tenant_id) in
    let last = commit db (invite db row found (new_invitation_id digits)) in
    if-Inserts (is_empty name) db (db, err username_required)
      (if is_empty inviter then (db, err invited_by_required) else last) (nothing refl)
      (if-Inserts (is_empty inviter) db (db, err invited_by_required) last (nothing refl)
        (invite-Inserts db row found (new_invitation_id digits)))

settle-Writes :
    (now : ℕ) (id status : Text) (open_ : InvitationRow → Bool) (db : TenantDb) {db' : TenantDb}
    → settle now id status open_ db ≡ ok db'
    → (row : InvitationRow) × (db' ≡ record db {
      invitations = insert id (record row { status = status; updated_at = now }) db.invitations;
    })
unfolding settle
settle-Writes now id status open_ db h =
    let (row, at, is_open, made) = settle_row-eq-ok now id status db open_ _ h in (row, made)

pub accept_in_tx-Writes :
    (now : ℕ) (db : TenantDb) (id : Text) {db' : TenantDb}
    → accept_in_tx now db id ≡ ok db'
    → (w : Writes id db db') × (w.written.status ≡ text "accepted")
unfolding accept_in_tx accept_open
accept_in_tx-Writes now db id h =
    let (inv, got, h1) = >>=-succeeds (get_invitation db id) _ h in
    let (is_pending, h2) =
      >>-succeeds (guard (str_eq inv.status (text "pending")) invitation_accepted) _ h1 in
    let (not_late, h3) =
      >>-succeeds (guard (not (ltb inv.expires_at now)) invitation_expired) _ h2 in
    let (db1, up, h4) =
      >>=-succeeds (upsert_tenant_user db inv.tenant_id inv.username inv.role now) _ h3 in
    let kept = upsert_tenant_user-Keeps db inv.tenant_id inv.username inv.role now up in
    let (row, made) = settle-Writes now id (text "accepted") _ db1 h4 in
    let closed : InvitationRow = record row { status = text "accepted"; updated_at = now } in
    (
      record {
        written = closed;
        table = ap (λ (d : TenantDb). d.invitations) made ∙ ap (insert id closed) kept.same;
        answers = ap (λ (d : TenantDb). d.up) made ∙ kept.answers;
      },
      refl,
    )

pub reject_in_tx-Writes :
    (now : ℕ) (db : TenantDb) (id : Text) {db' : TenantDb}
    → reject_in_tx now db id ≡ ok db'
    → (w : Writes id db db') × (w.written.status ≡ text "rejected")
unfolding reject_in_tx reject_open
reject_in_tx-Writes now db id h =
    let (inv, got, h1) = >>=-succeeds (get_invitation db id) _ h in
    let (is_pending, h2) =
      >>-succeeds (guard (str_eq inv.status (text "pending")) invitation_accepted) _ h1 in
    let (row, made) = settle-Writes now id (text "rejected") _ db h2 in
    (
      record {
        written = record row { status = text "rejected"; updated_at = now };
        table = ap (λ (d : TenantDb). d.invitations) made;
        answers = ap (λ (d : TenantDb). d.up) made;
      },
      refl,
    )
