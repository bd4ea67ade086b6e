-- ===== src/Tenant/Runs.antt =====
-- Invitations that are made and accepted, and a tenant that is created with its owner.
use goster_io_t.Common.{◌≡◌, refl, inl, true, some, [], ◌∷◌, ◌++◌, arith}
use goster_io_t.Common.Result.{ok, err}
use goster_io_t.Common.Text.{
  Text, space_back, space_front, str_eq, strip, text, to_lower, trim_space,
}
use goster_io_t.Common.Assoc.{delete, insert, lookup}
use goster_io_t.Tenant.Tables.{
  InvitationRow, TenantInvitation, Tenant, TenantDb, TenantRow, invitation_accepted,
  normalize_tenant_status, tenant_from_row, invitation_from_row, normalize_role,
}
use goster_io_t.Tenant.Invitations.Ready.{accept_invitation-create_tenant_invitation}
use goster_io_t.Downlink.Commands.{normalize_tenant_id}
use goster_io_t.Tenant.Owned.{OwnedOutcome, create_tenant_with_owner-OwnedOutcome}
use goster_io_t.Tenant.Members.{
  create_tenant_with_owner, get_tenant, has_name, new_tenant_row, upsert_tenant_user,
}
use goster_io_t.Tenant.Invitations.{
  accept_in_tx, accept_invitation, accept_open, create_tenant_invitation, new_invitation_id,
  get_invitation, reject_invitation, settle,
}
use goster_io_t.Tenant.Invitations.Accepted.{AcceptOutcome, accept_invitation-AcceptOutcome}
use goster_io_t.Tenant.Invitations.Once.{accept_invitation_once, accepts, removes, run}

abbrev acme : Text
acme = 97 ∷ 99 ∷ []

abbrev alice : Text
alice = 97 ∷ 108 ∷ []

abbrev inv : Text
inv = 105 ∷ 110 ∷ []

abbrev invited : InvitationRow
invited = record {
  tenant_id = acme;
  username = alice;
  role = text "tenant_rw";
  invited_by = acme;
  status = text "pending";
  expires_at = 9;
  created_at = 1;
  updated_at = 1;
}

abbrev acme_row : TenantRow
acme_row = record { name = acme; status = text "active"; created_at = 1; updated_at = 1 }

abbrev before : TenantDb
before = record {
  tenants = (acme, acme_row) ∷ [];
  members = [];
  invitations = (inv, invited) ∷ [];
  foreign_keys = true;
  up = true;
}

abbrev empty : TenantDb
empty = record { tenants = []; members = []; invitations = []; foreign_keys = true; up = true }

abbrev wanted : Tenant
wanted = record { id = inv; name = acme; status = []; created_at = 0; updated_at = 0 }

-- The tenant that an empty database gets.
abbrev founded : TenantDb
founded = record empty {
  tenants =
      (inv, record { name = acme; status = text "active"; created_at = 3; updated_at = 3 }) ∷ [];
  members = (inv, (alice, record { role = text "tenant_admin"; created_at = 3 }) ∷ []) ∷ [];
}

abbrev after : TenantDb
after = record {
  tenants = before.tenants;
  members = (acme, (alice, record { role = text "tenant_rw"; created_at = 5 }) ∷ []) ∷ [];
  invitations = (inv, record invited { status = text "accepted"; updated_at = 5 }) ∷ [];
  foreign_keys = true;
  up = true;
}

accepted : accept_invitation 5 before inv ≡ (after, ok tt)
unfolding accept_invitation accept_in_tx accept_open get_invitation settle invitation_from_row
    delete to_lower normalize_role upsert_tenant_user insert lookup str_eq text trim_space strip
    space_front space_back
accepted = refl

accept_invitation-AcceptOutcome_example :
    AcceptOutcome 5 before (trim_space inv) (accept_invitation 5 before inv)
accept_invitation-AcceptOutcome_example = accept_invitation-AcceptOutcome 5 before inv

accept_invitation_once_example :
    (accept_invitation 7 (run after ((6, removes acme alice) ∷ (6, accepts inv) ∷ [])) inv
      ≡ (run after ((6, removes acme alice) ∷ (6, accepts inv) ∷ []), err invitation_accepted))
    × (reject_invitation 7 (run after ((6, removes acme alice) ∷ (6, accepts inv) ∷ [])) inv
        ≡ (run after ((6, removes acme alice) ∷ (6, accepts inv) ∷ []), err invitation_accepted))
accept_invitation_once_example =
    accept_invitation_once 5 before after inv (inl accepted)
      ((6, removes acme alice) ∷ (6, accepts inv) ∷ []) 7

founds :
    create_tenant_with_owner [] 3 empty wanted alice
    ≡ (founded, ok (record wanted { status = text "active"; created_at = 3; updated_at = 3 }))
unfolding create_tenant_with_owner new_tenant_row has_name tenant_from_row normalize_tenant_status
    normalize_role upsert_tenant_user insert delete lookup str_eq text to_lower trim_space strip
    space_front space_back
founds = refl

create_tenant_with_owner-OwnedOutcome_example :
    OwnedOutcome
      (trim_space acme)
      (trim_space alice)
      empty
      (create_tenant_with_owner [] 3 empty wanted alice)
create_tenant_with_owner-OwnedOutcome_example =
    create_tenant_with_owner-OwnedOutcome [] 3 empty wanted alice

abbrev hosted : TenantDb
hosted = record before { invitations = [] }

abbrev made : TenantInvitation
made = record {
  id = text "inv_" ++ (49 ∷ []);
  tenant_id = acme;
  username = alice;
  role = text "tenant_rw";
  invited_by = acme;
  status = text "pending";
  expires_at = 604800000000003;
  created_at = 3;
  updated_at = 3;
}

abbrev hosting : TenantDb
hosting = record hosted {
  invitations =
      (
        text "inv_" ++ (49 ∷ []),
        record invited { expires_at = 604800000000003; created_at = 3; updated_at = 3 },
      )
      ∷ [];
}

invites_alice : create_tenant_invitation 3 (some (49 ∷ [])) hosted made ≡ (hosting, ok made)
unfolding create_tenant_invitation new_invitation_id get_tenant normalize_tenant_id
    invitation_from_row normalize_role insert delete lookup str_eq text to_lower trim_space strip
    space_front space_back
invites_alice = refl

trimmed_id : trim_space (text "inv_" ++ (49 ∷ [])) ≡ text "inv_" ++ (49 ∷ [])
unfolding text trim_space strip space_front space_back
trimmed_id = refl

accept_invitation-create_tenant_invitation_example :
    (db'' : TenantDb) × (accept_invitation 8 hosting made.id ≡ (db'', ok tt))
accept_invitation-create_tenant_invitation_example =
    accept_invitation-create_tenant_invitation 3 8 (49 ∷ []) hosted hosting made made invites_alice
      trimmed_id (omega arith)
