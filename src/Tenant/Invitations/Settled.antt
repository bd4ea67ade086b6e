-- ===== src/Tenant/Invitations/Settled.antt =====
-- An invitation that is no longer pending, and what keeps it so.
use goster_io_t.Common.{
  ℕ, ◌≡◌, ◌≢◌, refl, sym, ap, ◌∙◌, Bool, true, false, Option, none, some, if-true, if-false,
}
use mathlib.Core.Path.{subst}
use goster_io_t.Common.Result.{Result, ok, err, ◌>>=◌, ◌>>◌, guard}
use goster_io_t.Common.Text.{Text, str_eq, text, trim_space}
use goster_io_t.Common.Assoc.{lookup, lookup-insert}
use goster_io_t.Tenant.Tables.{
  InvitationRow, TenantDb, TenantError, invitation_accepted, invitation_from_row,
}
use goster_io_t.Tenant.Members.Laws.{str_eq_other}
use goster_io_t.Tenant.Invitations.{
  accept_in_tx, accept_invitation, accept_open, get_invitation, invitation_row, reject_in_tx,
  reject_invitation, reject_open, run_in_tx,
}
use goster_io_t.Tenant.Invitations.Changes.{Keeps}
use goster_io_t.Tenant.Invitations.Writes.{
  Inserts, Writes, accept_in_tx-Writes, inserts, nothing, reject_in_tx-Writes,
}

-- The invitation is there and no longer pending, in a database that answers.
pub record IsSettled (id : Text) (db : TenantDb) : Type 0 where
  pub row : InvitationRow
  pub there : lookup id db.invitations ≡ some row
  pub over : str_eq (trim_space row.status) (text "pending") ≡ false
  pub answers : db.up ≡ true

guard_fails :
    (b : Bool) (e : TenantError) (rest : Result TenantError TenantDb)
    → b ≡ false
    → (guard b e >> rest) ≡ err e
guard_fails true e rest h = cc
guard_fails false e rest h = refl

module _ (now : ℕ) (db : TenantDb) (id : Text) (s : IsSettled id db)
    (trimmed : trim_space id ≡ id) where
  found_settled : get_invitation db id ≡ ok (invitation_from_row id s.row)
  unfolding get_invitation
  found_settled =
      if-true _ _ s.answers
      ∙ ap (λ i. invitation_row i (lookup i db.invitations)) trimmed
      ∙ ap (invitation_row id) s.there

  pub accept_in_tx_settled : accept_in_tx now db id ≡ err invitation_accepted
  unfolding accept_in_tx accept_open invitation_from_row
  accept_in_tx_settled =
      ap (λ r. r >>= accept_open now db id) found_settled ∙ guard_fails _ _ _ s.over

  pub reject_in_tx_settled : reject_in_tx now db id ≡ err invitation_accepted
  unfolding reject_in_tx reject_open invitation_from_row
  reject_in_tx_settled =
      ap (λ r. r >>= reject_open now db id) found_settled ∙ guard_fails _ _ _ s.over

pub IsSettled-Keeps :
    (id : Text) (db db' : TenantDb) → Keeps db db' → IsSettled id db → IsSettled id db'
IsSettled-Keeps id db db' kept s = record {
  row = s.row;
  there = ap (lookup id) kept.same ∙ s.there;
  over = s.over;
  answers = kept.answers ∙ s.answers;
}

pub IsSettled-Writes :
    (id other : Text) (db db' : TenantDb)
    → other ≢ id
    → Writes other db db'
    → IsSettled id db
    → IsSettled id db'
IsSettled-Writes id other db db' apart w s = record {
  row = s.row;
  there =
      ap (lookup id) w.table
      ∙ lookup-insert other id w.written db.invitations
      ∙ if-false _ _ (str_eq_other other id apart)
      ∙ s.there;
  over = s.over;
  answers = w.answers ∙ s.answers;
}

some_is_not_none : {A : Type 0} {a : A} {o : Option A} → o ≡ some a → o ≡ none → ⊥
some_is_not_none {o = none} there absent = absurd (cc)
some_is_not_none {o = some b} there absent = absurd (cc)

pub IsSettled-Inserts :
    (id : Text) (db db' : TenantDb) → Inserts db db' → IsSettled id db → IsSettled id db'
IsSettled-Inserts id db db' (nothing same) s = subst (IsSettled id) (sym same) s
IsSettled-Inserts id db db' (inserts other absent w) s =
    IsSettled-Writes id other db db'
      (λ same. some_is_not_none s.there (ap (λ i. lookup i db.invitations) (sym same) ∙ absent)) w s

run_in_tx-IsSettled :
    (id : Text) (db : TenantDb) (x : Result TenantError TenantDb)
    → ((db' : TenantDb) → x ≡ ok db' → IsSettled id db')
    → IsSettled id db
    → IsSettled id (run_in_tx db x).0
run_in_tx-IsSettled id db (err e) h s = s
run_in_tx-IsSettled id db (ok db') h s = h db' refl

ok_is_not_err :
    {x : Result TenantError TenantDb} {db : TenantDb} {e : TenantError} → x ≡ ok db → x ≡ err e → ⊥
ok_is_not_err done failed = absurd (cc)

module _ (now : ℕ) (db : TenantDb) (id : Text) (s : IsSettled id db)
    (trimmed : trim_space id ≡ id) where
  pub accept_invitation-IsSettled : (other : Text) → IsSettled id (accept_invitation now db other).0
  unfolding accept_invitation
  accept_invitation-IsSettled other =
      run_in_tx-IsSettled id db (accept_in_tx now db (trim_space other))
        (λ db' done.
          IsSettled-Writes id (trim_space other) db db'
            (λ same.
              ok_is_not_err done
                (ap (accept_in_tx now db) same ∙ accept_in_tx_settled now db id s trimmed))
            (accept_in_tx-Writes now db (trim_space other) done).0 s)
        s

  pub reject_invitation-IsSettled : (other : Text) → IsSettled id (reject_invitation now db other).0
  unfolding reject_invitation
  reject_invitation-IsSettled other =
      run_in_tx-IsSettled id db (reject_in_tx now db (trim_space other))
        (λ db' done.
          IsSettled-Writes id (trim_space other) db db'
            (λ same.
              ok_is_not_err done
                (ap (reject_in_tx now db) same ∙ reject_in_tx_settled now db id s trimmed))
            (reject_in_tx-Writes now db (trim_space other) done).0 s)
        s
