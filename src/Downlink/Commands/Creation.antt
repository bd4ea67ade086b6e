-- ===== src/Downlink/Commands/Creation.antt =====
-- The two ways to create a command's record.
use goster_io_t.Common.{ℕ, ◌≡◌, refl, ap, sym, ◌∙◌, Bool, true, false, is_empty, if◌then◌else◌}
use goster_io_t.Common.Result.{Result, ok, err, ◌>>=◌, guard}
use goster_io_t.Common.Text.{Text, str_eq, str_eq_iff, to_lower, trim_space}
use goster_io_t.Common.Word.{Bytes}
use goster_io_t.Downlink.Errors.{CommandError, command_required, tenant_mismatch, uuid_required}
use goster_io_t.Downlink.Commands.{
  CommandTable, after_checks, check_tenant, create_device_command, create_device_command_by_tenant,
  create_unchecked, insert_row, normalize_tenant_id, or_default_tenant,
}

guard_holds : (b : Bool) (e : CommandError) → b ≡ true → guard b e ≡ ok tt
guard_holds true e h = refl
guard_holds false e h = absurd (cc)

check_tenant_resolved :
    (resolve : Text → Result CommandError Text) (uuid tenant_id : Text)
    → resolve uuid ≡ ok tenant_id
    → check_tenant resolve (normalize_tenant_id tenant_id) uuid ≡ ok tt
unfolding check_tenant normalize_tenant_id
check_tenant_resolved resolve uuid tenant_id h =
    ap
      (λ r. r >>= λ device_tenant.
        guard (str_eq (normalize_tenant_id device_tenant) (normalize_tenant_id tenant_id))
          tenant_mismatch)
      h
    ∙ guard_holds _ tenant_mismatch ((str_eq_iff _ _).1 refl)

-- A command that is created without naming a tenant is the one that is created for the tenant to
-- which the device belongs, if the repository of the devices finds that tenant for the identifier
-- with and without the blanks around it.
pub create_device_command_resolved :
    (resolve : Text → Result CommandError Text) (t : CommandTable) (uuid tenant_id : Text)
    (cmd_id : ℕ) (command : Text) (payload : Bytes)
    → resolve uuid ≡ ok tenant_id
    → resolve (trim_space uuid) ≡ ok tenant_id
    → create_device_command resolve t uuid cmd_id command payload
      ≡ create_device_command_by_tenant resolve t tenant_id uuid cmd_id command payload
unfolding create_device_command create_unchecked create_device_command_by_tenant
create_device_command_resolved resolve t uuid tenant_id cmd_id command payload found found' =
    let insert =
      insert_row t (normalize_tenant_id tenant_id) (trim_space uuid) cmd_id
        (trim_space (to_lower command)) payload in
    ap (λ r. create_unchecked t (or_default_tenant r) uuid cmd_id command payload) found
    ∙ ap
        (λ r.
          if is_empty (trim_space uuid)
          then (t, err uuid_required)
          else if is_empty (trim_space (to_lower command))
          then (t, err command_required)
          else after_checks t r insert)
        (sym (check_tenant_resolved resolve (trim_space uuid) tenant_id found'))
