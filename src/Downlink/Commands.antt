-- ===== src/Downlink/Commands.antt =====
-- go/src/storage/command/repository.go: the table device_commands. A statement that the database
-- cannot run (`up` is false) changes nothing and returns its error.
pub mod Laws
pub mod Creation
use goster_io_t.Common.{
  ℕ, zero, suc, ◌+◌, Bool, true, false, ◌||◌, Option, none, some, List, [], ◌∷◌, ◌++◌,
}
use goster_io_t.Common.{◌==◌, is_empty, if◌then◌else◌}
use goster_io_t.Common.Result.{Result, ok, err, ◌>>=◌, ◌>>◌, guard}
use goster_io_t.Common.Word.{Bytes}
use goster_io_t.Common.Int.{ℤ, pos, negsuc, is_positive, pos_part}
use goster_io_t.Common.Text.{Text, text, str_eq, trim_space, to_lower}
use goster_io_t.Downlink.Errors.{
  CommandError, uuid_required, command_required, tenant_mismatch, invalid_command_id,
  invalid_status, command_not_found, database,
}

abbrev pub status_queued : Text
status_queued = text "queued"

abbrev pub status_sent : Text
status_sent = text "sent"

abbrev pub status_acked : Text
status_acked = text "acked"

abbrev pub status_failed : Text
status_failed = text "failed"

pub record CommandRow : Type 0 where
  pub id : ℕ
  pub tenant_id : Text
  pub uuid : Text
  pub cmd_id : ℕ
  pub command : Text
  pub payload : Option Bytes
  pub status : Text
  pub error_text : Option Text
  pub executed_at : Option ℕ

-- The rows, the newest first, and the next value of the key's sequence.
pub record CommandTable : Type 0 where
  pub rows : List CommandRow
  pub next_id : ℕ
  pub up : Bool

-- bunrepo.NormalizeTenantID
unfoldable pub normalize_tenant_id : Text → Text
normalize_tenant_id tenant_id =
    let t = trim_space tenant_id in if is_empty t then text "tenant_legacy" else t

-- bunrepo.PayloadStringPtr and NullableOptionalString
unfoldable pub non_empty_text : Text → Option Text
non_empty_text s = let t = trim_space s in if is_empty t then none else some t

unfoldable pub is_valid_status : Text → Bool
is_valid_status s =
    str_eq s status_queued
    || str_eq s status_sent
    || str_eq s status_acked
    || str_eq s status_failed

new_row : ℕ → Text → Text → ℕ → Text → Bytes → CommandRow
unfolding non_empty_text
new_row id tenant_id uuid cmd_id command payload = record {
  id = id;
  tenant_id = tenant_id;
  uuid = uuid;
  cmd_id = cmd_id;
  command = command;
  payload = non_empty_text payload;
  status = status_queued;
  error_text = none;
  executed_at = none;
}

-- The INSERT, which returns the new key.
insert_row : CommandTable → Text → Text → ℕ → Text → Bytes → CommandTable × Result CommandError ℤ
unfolding new_row
insert_row t tenant_id uuid cmd_id command payload =
    if t.up
    then (
      record t {
        rows = new_row t.next_id tenant_id uuid cmd_id command payload ∷ t.rows;
        next_id = t.next_id + 1;
      },
      ok (pos t.next_id),
    )
    else (t, err database)

-- `if validateTenant`: the device must belong to the tenant.
check_tenant : (Text → Result CommandError Text) → Text → Text → Result CommandError (Unit {0})
check_tenant resolve tenant_id uuid = do
  device_tenant ← resolve uuid
  guard (str_eq (normalize_tenant_id device_tenant) tenant_id) tenant_mismatch

abbrev after_checks :
    CommandTable
    → Result CommandError (Unit {0})
    → CommandTable × Result CommandError ℤ
    → CommandTable × Result CommandError ℤ
after_checks t (ok u) rest = rest
after_checks t (err e) rest = (t, err e)

-- createDeviceCommandRecord with `validateTenant` set; `resolve` is ResolveDeviceTenant of the
-- device repository.
unfoldable pub create_device_command_by_tenant :
    (Text → Result CommandError Text)
    → CommandTable
    → Text
    → Text
    → ℕ
    → Text
    → Bytes
    → CommandTable × Result CommandError ℤ
unfolding insert_row check_tenant normalize_tenant_id
create_device_command_by_tenant resolve t tenant_id uuid cmd_id command payload =
    let tenant' = normalize_tenant_id tenant_id in
    let uuid' = trim_space uuid in
    let command' = trim_space (to_lower command) in
    if is_empty uuid'
    then (t, err uuid_required)
    else if is_empty command'
    then (t, err command_required)
    else after_checks t (check_tenant resolve tenant' uuid')
        (insert_row t tenant' uuid' cmd_id command' payload)

-- createDeviceCommandRecord without `validateTenant`
create_unchecked :
    CommandTable → Text → Text → ℕ → Text → Bytes → CommandTable × Result CommandError ℤ
unfolding insert_row normalize_tenant_id
create_unchecked t tenant_id uuid cmd_id command payload =
    let tenant' = normalize_tenant_id tenant_id in
    let uuid' = trim_space uuid in
    let command' = trim_space (to_lower command) in
    if is_empty uuid'
    then (t, err uuid_required)
    else if is_empty command'
    then (t, err command_required)
    else insert_row t tenant' uuid' cmd_id command' payload

abbrev or_default_tenant : Result CommandError Text → Text
or_default_tenant (ok tenant_id) = tenant_id
or_default_tenant (err e) = text "tenant_legacy"

unfoldable pub create_device_command :
    (Text → Result CommandError Text)
    → CommandTable
    → Text
    → ℕ
    → Text
    → Bytes
    → CommandTable × Result CommandError ℤ
unfolding create_unchecked
create_device_command resolve t uuid cmd_id command payload =
    create_unchecked t (or_default_tenant (resolve uuid)) uuid cmd_id command payload

-- COALESCE(?, executed_at)
abbrev coalesce : Option ℕ → Option ℕ → Option ℕ
coalesce none old = old
coalesce (some new) old = some new

set_status : Text → Option Text → Option ℕ → CommandRow → CommandRow
set_status status error executed r = record r {
  status = status;
  error_text = error;
  executed_at = coalesce executed r.executed_at;
}

-- UPDATE ... WHERE id = ?, which returns the number of rows that it changed.
update_rows : ℕ → (CommandRow → CommandRow) → List CommandRow → List CommandRow × ℕ
update_rows id f [] = ([], 0)
update_rows id f (r ∷ rows) =
    let (rows', n) = update_rows id f rows in
    if r.id == id then (f r ∷ rows', n + 1) else (r ∷ rows', n)

run_update : CommandTable → List CommandRow × ℕ → CommandTable × Result CommandError (Unit {0})
run_update t (rows, zero) = (record t { rows = rows }, err command_not_found)
run_update t (rows, suc n) = (record t { rows = rows }, ok tt)

-- `now` is time.Now().
unfoldable pub update_device_command_status :
    ℕ → CommandTable → ℤ → Text → Text → CommandTable × Result CommandError (Unit {0})
unfolding run_update update_rows set_status non_empty_text is_valid_status
update_device_command_status now t id status error =
    let executed =
      if str_eq status status_acked || str_eq status status_failed then some now else none in
    if is_positive id
    then (if is_valid_status status
        then (if t.up
            then run_update t (
                update_rows (pos_part id) (set_status status (non_empty_text error) executed)
                  t.rows)
            else (t, err database))
        else (t, err invalid_status))
    else (t, err invalid_command_id)
