-- ===== src/Tenant/Invitations/Accepted.antt =====
-- An accepted invitation: who joins, in which role, and what else stays.
use goster_io_t.Common.{
  ℕ, ◌<◌, ◌≡◌, ◌≢◌, ◌⊎◌, refl, sym, ap, ◌∙◌, arith, Bool, true, false, ◌&&◌, not, Option, none,
  some, ltb, if-true, if-false, some-injective,
}
use goster_io_t.Common.Result.{Result, ok, err, guard, >>=-succeeds}
use goster_io_t.Common.Text.{Text, str_eq, str_eq_iff, text, trim_space}
use goster_io_t.Common.Text.Trim.{trim_space_idem}
use goster_io_t.Common.Assoc.{Assoc, insert, lookup, lookup-insert}
use goster_io_t.Tenant.Tables.{
  InvitationRow, MemberRow, TenantDb, TenantError, invitation_accepted, invitation_expired,
  invitation_from_row, member, normalize_role, or_nobody, put_member,
}
use goster_io_t.Tenant.Members.{upsert_tenant_user, upserted}
use goster_io_t.Tenant.Members.Laws.{
  member-put_member_other, member-put_member_self, normalize_role_idem, str_eq_other, str_eq_self,
}
use goster_io_t.Tenant.Invitations.{
  accept_in_tx, accept_open, accept_invitation, get_invitation, run_in_tx, settle,
}
use goster_io_t.Tenant.Invitations.Laws.{
  >>-succeeds, get_invitation-eq-ok, settle_row-eq-ok, upsert_tenant_user-eq-ok,
}

-- What the acceptance of the invitation `id` leads to.
pub record Joined (now : ℕ) (db db' : TenantDb) (id : Text) : Type 0 where
  pub invitation : InvitationRow
  pub invited : lookup id db.invitations ≡ some invitation
  pub pending : invitation.status ≡ text "pending"
  pub in_time : now < invitation.expires_at
  pub joins :
      (row : MemberRow) × (member
          (trim_space invitation.tenant_id)
          (trim_space invitation.username)
          db'
        ≡ some row)
      × (row.role ≡ normalize_role invitation.role)
  pub others :
      (tenant_id username : Text)
      → (trim_space invitation.tenant_id ≢ tenant_id) ⊎ (trim_space invitation.username ≢ username)
      → member tenant_id username db' ≡ member tenant_id username db
  pub settled :
      (row : InvitationRow) × (lookup id db'.invitations ≡ some row)
      × (row.status ≡ text "accepted")
  pub other_invitations :
      (other : Text) → id ≢ other → lookup other db'.invitations ≡ lookup other db.invitations

both_true : (a b : Bool) → (a && b) ≡ true → (a ≡ true) × (b ≡ true)
both_true true b h = (refl, h)
both_true false b h = absurd (cc)

pub upserted-role :
    (role : Text) (now : ℕ) (o : Option MemberRow)
    → (upserted role now o).role ≡ normalize_role role
upserted-role role now none = refl
upserted-role role now (some old) = refl

module _ (now : ℕ) (db db' : TenantDb) (id : Text) (row : InvitationRow)
    (at : lookup id db.invitations ≡ some row) where
  -- From the invitation that was read on.
  accept_open-Joined :
      accept_open now db id (invitation_from_row id row) ≡ ok db' → Joined now db db' id
  unfolding accept_open settle invitation_from_row
  accept_open-Joined h =
      let tenant_id = trim_space row.tenant_id in
      let username = trim_space row.username in
      let role = normalize_role row.role in
      let (is_pending, h2) =
        >>-succeeds (guard (str_eq (trim_space row.status) (text "pending")) invitation_accepted) _
          h in
      let (not_late, h3) =
        >>-succeeds (guard (not (ltb row.expires_at now)) invitation_expired) _ h2 in
      let (db1, up, h4) = >>=-succeeds (upsert_tenant_user db tenant_id username role now) _ h3 in
      let joined : MemberRow = upserted role now (member tenant_id username db) in
      let db1_is : db1 ≡ put_member tenant_id username joined db =
        upsert_tenant_user-eq-ok db tenant_id username role now up in
      let (row', at', open_, db'_is) =
        settle_row-eq-ok now id (text "accepted") db1 (λ r. ltb now r.expires_at) _ h4 in
      let same : row' ≡ row =
        some-injective (sym at' ∙ ap (λ (d : TenantDb). lookup id d.invitations) db1_is ∙ at) in
      let (raw, early) =
        both_true (str_eq row'.status (text "pending")) (ltb now row'.expires_at) open_ in
      let members : db'.members ≡ (put_member tenant_id username joined db).members =
        ap (λ (d : TenantDb). d.members) db'_is ∙ ap (λ (d : TenantDb). d.members) db1_is in
      let closed : InvitationRow = record row' { status = text "accepted"; updated_at = now } in
      let invitations : db'.invitations ≡ insert id closed db.invitations =
        ap (λ (d : TenantDb). d.invitations) db'_is
        ∙ ap (λ (d : TenantDb). insert id closed d.invitations) db1_is in
      record {
        invitation = row;
        invited = at;
        pending = ap (λ (r : InvitationRow). r.status) (sym same) ∙ (str_eq_iff _ _).0 raw;
        in_time = ground (arith, ap (λ (r : InvitationRow). r.expires_at) same, early);
        joins = (
          joined,
          ap (λ (m : Assoc (Assoc MemberRow)). lookup username (or_nobody (lookup tenant_id m)))
                members
              ∙ member-put_member_self tenant_id username joined db,
          upserted-role role now (member tenant_id username db) ∙ normalize_role_idem row.role,
        );
        others = λ t u apart.
            ap (λ (m : Assoc (Assoc MemberRow)). lookup u (or_nobody (lookup t m))) members
            ∙ member-put_member_other tenant_id username t u joined db apart;
        settled = (
          closed,
          ap (lookup id) invitations
              ∙ lookup-insert id id closed db.invitations
              ∙ if-true _ _ (str_eq_self id),
          refl,
        );
        other_invitations = λ other apart.
            ap (lookup other) invitations
            ∙ lookup-insert id other closed db.invitations
            ∙ if-false _ _ (str_eq_other id other apart);
      }

-- The two results of AcceptInvitation.
abbrev pub AcceptOutcome : ℕ → TenantDb → Text → TenantDb × Result TenantError (Unit {0}) → Type 0
AcceptOutcome now db id (db', ok u) = Joined now db db' id
AcceptOutcome now db id (db', err e) = db' ≡ db

run_in_tx-AcceptOutcome :
    (now : ℕ) (db : TenantDb) (id : Text) (x : Result TenantError TenantDb)
    → trim_space id ≡ id
    → accept_in_tx now db id ≡ x
    → AcceptOutcome now db id (run_in_tx db x)
unfolding accept_in_tx
run_in_tx-AcceptOutcome now db id (err e) trimmed h = refl
run_in_tx-AcceptOutcome now db id (ok db') trimmed h =
    let (inv, got, rest) = >>=-succeeds (get_invitation db id) (accept_open now db id) h in
    let (row, at, made, up) = get_invitation-eq-ok db id got in
    let at' = ap (λ i. lookup i db.invitations) (sym trimmed) ∙ at in
    let opened =
      ap (λ i. accept_open now db id (invitation_from_row i row)) (sym trimmed)
      ∙ ap (accept_open now db id) made
      ∙ rest in
    accept_open-Joined now db db' id row at' opened

-- An invitation is accepted only while it is pending and before it expires. Then its user joins its
-- tenant in its role, no other user's row changes in any tenant, the invitation is accepted and no
-- other invitation changes. An acceptance that fails, for whatever reason, changes nothing.
pub accept_invitation-AcceptOutcome :
    (now : ℕ) (db : TenantDb) (invitation_id : Text)
    → AcceptOutcome now db (trim_space invitation_id) (accept_invitation now db invitation_id)
unfolding accept_invitation
accept_invitation-AcceptOutcome now db invitation_id =
    run_in_tx-AcceptOutcome now db (trim_space invitation_id) _ (trim_space_idem invitation_id) refl
