-- ===== src/Tenant/Members/Laws.antt =====
-- The row of one user, behind a write of any.
use goster_io_t.Common.{
  ◌≡◌, ◌≢◌, ◌⊎◌, inl, inr, refl, ap, ◌∙◌, Bool, true, false, some, Bool-cases, if◌then◌else◌,
  if-true, if-false,
}
use goster_io_t.Common.Text.{Text, str_eq, str_eq_iff, text, to_lower, trim_space}
use goster_io_t.Common.Assoc.{insert, lookup, lookup-insert}
use goster_io_t.Tenant.Tables.{
  MemberRow, TenantDb, member, normalize_role, or_nobody, put_member, users_of,
}

pub str_eq_self : (t : Text) → str_eq t t ≡ true
str_eq_self t = (str_eq_iff t t).1 refl

pub str_eq_other : (t u : Text) → t ≢ u → str_eq t u ≡ false
str_eq_other t u h = elim (Bool-cases (str_eq t u)) [
  | inl same ↦ absurd (h ((str_eq_iff t u).0 same))
  | inr other ↦ other
]

pub member-put_member_self :
    (t u : Text) (row : MemberRow) (db : TenantDb) → member t u (put_member t u row db) ≡ some row
member-put_member_self t u row db =
    ap (λ o. lookup u (or_nobody o))
      (lookup-insert t t (insert u row (users_of t db)) db.members ∙ if-true _ _ (str_eq_self t))
    ∙ lookup-insert u u row (users_of t db)
    ∙ if-true _ _ (str_eq_self u)

pub member-put_member_other :
    (t u t' u' : Text) (row : MemberRow) (db : TenantDb)
    → (t ≢ t') ⊎ (u ≢ u')
    → member t' u' (put_member t u row db) ≡ member t' u' db
member-put_member_other t u t' u' row db (inl other) =
    ap (λ o. lookup u' (or_nobody o))
      (lookup-insert t t' (insert u row (users_of t db)) db.members
        ∙ if-false _ _ (str_eq_other t t' other))
member-put_member_other t u t' u' row db (inr other) = elim (Bool-cases (str_eq t t')) [
  | inl same ↦
      ap (λ o. lookup u' (or_nobody o))
        (lookup-insert t t' (insert u row (users_of t db)) db.members ∙ if-true _ _ same)
      ∙ lookup-insert u u' row (users_of t db)
      ∙ if-false _ _ (str_eq_other u u' other)
      ∙ ap (λ tenant. lookup u' (users_of tenant db)) ((str_eq_iff t t').0 same)
  | inr apart ↦
      ap (λ o. lookup u' (or_nobody o))
        (lookup-insert t t' (insert u row (users_of t db)) db.members ∙ if-false _ _ apart)
]

-- A role is one of three, which are kept.
pub normalize_role_idem : (role : Text) → normalize_role (normalize_role role) ≡ normalize_role role
unfolding normalize_role text to_lower trim_space str_eq
normalize_role_idem role =
    chosen (str_eq (to_lower (trim_space role)) (text "tenant_admin"))
      (str_eq (to_lower (trim_space role)) (text "tenant_rw"))
  where
    chosen :
        (a b : Bool)
        → let r =
            if a then text "tenant_admin" else if b then text "tenant_rw" else text "tenant_ro" in
          normalize_role r ≡ r
    chosen true b = refl
    chosen false true = refl
    chosen false false = refl
