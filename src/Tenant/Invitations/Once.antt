-- ===== src/Tenant/Invitations/Once.antt =====
-- An invitation is settled once: whatever happens later, it cannot be accepted or rejected again.
use goster_io_t.Common.{
  ℕ, ◌≡◌, ◌⊎◌, refl, ap, ◌∙◌, true, false, Option, List, [], ◌∷◌, inl, inr, if-true,
}
use goster_io_t.Common.Result.{Result, ok, err, ◌>>=◌, >>=-succeeds}
use goster_io_t.Common.Text.{Text, str_eq, text, trim_space}
use goster_io_t.Common.Text.Trim.{trim_space_idem}
use goster_io_t.Common.Assoc.{lookup, lookup-insert}
use goster_io_t.Tenant.Tables.{Tenant, TenantDb, TenantError, TenantInvitation, invitation_accepted}
use goster_io_t.Tenant.Members.{
  add_tenant_user, create_tenant, create_tenant_with_owner, remove_tenant_user, update_tenant,
}
use goster_io_t.Tenant.Members.Laws.{str_eq_self}
use goster_io_t.Tenant.Invitations.{
  accept_in_tx, accept_invitation, create_tenant_invitation, get_invitation, reject_in_tx,
  reject_invitation, run_in_tx,
}
use goster_io_t.Tenant.Invitations.Changes.{
  add_tenant_user-Keeps, create_tenant-Keeps, create_tenant_with_owner-Keeps,
  remove_tenant_user-Keeps, update_tenant-Keeps,
}
use goster_io_t.Tenant.Invitations.Writes.{
  Writes, accept_in_tx-Writes, create_tenant_invitation-Inserts, reject_in_tx-Writes,
}
use goster_io_t.Tenant.Invitations.Laws.{get_invitation-eq-ok}
use goster_io_t.Tenant.Invitations.Settled.{
  IsSettled, IsSettled-Inserts, IsSettled-Keeps, accept_in_tx_settled, accept_invitation-IsSettled,
  reject_in_tx_settled, reject_invitation-IsSettled,
}

-- A call that may change the tables, with the clock's reading and what it draws.
pub data Call : Type 0 where
  creates : Text → Tenant → Call
  creates_with_owner : Text → Tenant → Text → Call
  updates : Text → Tenant → Call
  adds : Text → Text → Text → Call
  removes : Text → Text → Call
  invites : Option Text → TenantInvitation → Call
  accepts : Text → Call
  rejects : Text → Call

pub step : TenantDb → ℕ × Call → TenantDb
step db (now, creates nanos tenant) = (create_tenant nanos now db tenant).0
step db (now, creates_with_owner nanos tenant owner) =
    (create_tenant_with_owner nanos now db tenant owner).0
step db (now, updates id tenant) = (update_tenant now db id tenant).0
step db (now, adds id username role) = (add_tenant_user now db id username role).0
step db (now, removes id username) = (remove_tenant_user db id username).0
step db (now, invites digits invitation) = (create_tenant_invitation now digits db invitation).0
step db (now, accepts id) = (accept_invitation now db id).0
step db (now, rejects id) = (reject_invitation now db id).0

pub run : TenantDb → List (ℕ × Call) → TenantDb
run db [] = db
run db (call ∷ calls) = run (step db call) calls

step-IsSettled :
    (db : TenantDb) (id : Text) (call : ℕ × Call)
    → trim_space id ≡ id
    → IsSettled id db
    → IsSettled id (step db call)
unfolding step
step-IsSettled db id (now, creates nanos tenant) trimmed s =
    IsSettled-Keeps id db _ (create_tenant-Keeps nanos now db tenant) s
step-IsSettled db id (now, creates_with_owner nanos tenant owner) trimmed s =
    IsSettled-Keeps id db _ (create_tenant_with_owner-Keeps nanos now db tenant owner) s
step-IsSettled db id (now, updates tenant_id tenant) trimmed s =
    IsSettled-Keeps id db _ (update_tenant-Keeps now db tenant_id tenant) s
step-IsSettled db id (now, adds tenant_id username role) trimmed s =
    IsSettled-Keeps id db _ (add_tenant_user-Keeps now db tenant_id username role) s
step-IsSettled db id (now, removes tenant_id username) trimmed s =
    IsSettled-Keeps id db _ (remove_tenant_user-Keeps db tenant_id username) s
step-IsSettled db id (now, invites digits invitation) trimmed s =
    IsSettled-Inserts id db _ (create_tenant_invitation-Inserts now digits db invitation) s
step-IsSettled db id (now, accepts other) trimmed s =
    accept_invitation-IsSettled now db id s trimmed other
step-IsSettled db id (now, rejects other) trimmed s =
    reject_invitation-IsSettled now db id s trimmed other

run-IsSettled :
    (db : TenantDb) (id : Text) (calls : List (ℕ × Call))
    → trim_space id ≡ id
    → IsSettled id db
    → IsSettled id (run db calls)
unfolding run
run-IsSettled db id [] trimmed s = s
run-IsSettled db id (call ∷ calls) trimmed s =
    run-IsSettled (step db call) id calls trimmed (step-IsSettled db id call trimmed s)

closed-IsSettled :
    (id status : Text) (db db' : TenantDb) (w : Writes id db db')
    → w.written.status ≡ status
    → str_eq (trim_space status) (text "pending") ≡ false
    → db.up ≡ true
    → IsSettled id db'
closed-IsSettled id status db db' w closed over up = record {
  row = w.written;
  there =
      ap (lookup id) w.table
      ∙ lookup-insert id id w.written db.invitations
      ∙ if-true _ _ (str_eq_self id);
  over = ap (λ t. str_eq (trim_space t) (text "pending")) closed ∙ over;
  answers = w.answers ∙ up;
}

found_up :
    (db : TenantDb) (id : Text) (rest : TenantInvitation → Result TenantError TenantDb)
    {db' : TenantDb}
    → (get_invitation db id >>= rest) ≡ ok db'
    → db.up ≡ true
found_up db id rest h =
    let (inv, got, h1) = >>=-succeeds (get_invitation db id) rest h in
    let (row, at, made, up) = get_invitation-eq-ok db id got in up

run_in_tx-ok :
    (db db' : TenantDb) (x : Result TenantError TenantDb)
    → run_in_tx db x ≡ (db', ok tt)
    → x ≡ ok db'
run_in_tx-ok db db' (err e) h = absurd (cc)
run_in_tx-ok db db' (ok end) h = ap (λ p. ok p.0) h

Settles-IsSettled :
    (now : ℕ) (db db' : TenantDb) (invitation_id : Text)
    → (accept_invitation now db invitation_id ≡ (db', ok tt))
      ⊎ (reject_invitation now db invitation_id ≡ (db', ok tt))
    → IsSettled (trim_space invitation_id) db'
unfolding accept_invitation reject_invitation accept_in_tx reject_in_tx text trim_space str_eq
Settles-IsSettled now db db' invitation_id (inl accepted) =
    let id = trim_space invitation_id in
    let done = run_in_tx-ok db db' (accept_in_tx now db id) accepted in
    let (w, closed) = accept_in_tx-Writes now db id done in
    closed-IsSettled id (text "accepted") db db' w closed refl (found_up db id _ done)
Settles-IsSettled now db db' invitation_id (inr rejected) =
    let id = trim_space invitation_id in
    let done = run_in_tx-ok db db' (reject_in_tx now db id) rejected in
    let (w, closed) = reject_in_tx-Writes now db id done in
    closed-IsSettled id (text "rejected") db db' w closed refl (found_up db id _ done)

-- After an acceptance or a rejection that succeeded, and any calls after it that create or update
-- tenants, add, remove or invite users, accept or reject invitations, accepting or rejecting the
-- same invitation fails with "already processed", and changes nothing.
pub accept_invitation_once :
    (now : ℕ) (db db' : TenantDb) (invitation_id : Text)
    → (accept_invitation now db invitation_id ≡ (db', ok tt))
      ⊎ (reject_invitation now db invitation_id ≡ (db', ok tt))
    → (calls : List (ℕ × Call)) (later : ℕ)
    → (accept_invitation later (run db' calls) invitation_id
        ≡ (run db' calls, err invitation_accepted))
      × (reject_invitation later (run db' calls) invitation_id
          ≡ (run db' calls, err invitation_accepted))
unfolding accept_invitation reject_invitation
accept_invitation_once now db db' invitation_id by calls later =
    let id = trim_space invitation_id in
    let trimmed = trim_space_idem invitation_id in
    let s = run-IsSettled db' id calls trimmed (Settles-IsSettled now db db' invitation_id by) in
    let end = run db' calls in
    (
      ap (run_in_tx end) (accept_in_tx_settled later end id s trimmed),
      ap (run_in_tx end) (reject_in_tx_settled later end id s trimmed),
    )
