-- ===== src/Device/Table.antt =====
-- go/src/storage/device/repository.go: the table devices, whose key is the uuid and whose tokens are
-- unique. A statement that the database cannot run (`up` is false) changes nothing and returns its
-- error.
pub mod Laws
use goster_io_t.Common.{ℕ, Bool, true, false, ◌&&◌, ◌||◌, not, Option, none, some, List, [], ◌∷◌}
use goster_io_t.Common.{is_empty, if◌then◌else◌}
use goster_io_t.Common.Result.{Result, ok, err}
use goster_io_t.Common.Text.{Text, text, str_eq, trim_space}
use goster_io_t.Common.Assoc.{Assoc, lookup, insert, delete}
use goster_io_t.Downlink.Commands.{normalize_tenant_id, non_empty_text}
use goster_io_t.Device.Errors.{DeviceError, device_not_found, token_not_found, database}

-- AuthenticateStatusType
abbrev pub authenticated : ℕ
authenticated = 0

abbrev pub authenticate_refuse : ℕ
authenticate_refuse = 1

abbrev pub authenticate_pending : ℕ
authenticate_pending = 2

abbrev pub authenticate_revoked : ℕ
authenticate_revoked = 4

-- inter.DeviceMetadata without its time of creation, which the table sets.
pub record DeviceMetadata : Type 0 where
  pub name : Text
  pub hw_version : Text
  pub sw_version : Text
  pub config_version : Text
  pub serial_number : Text
  pub mac_address : Text
  pub token : Text
  pub authenticate_status : ℕ

-- DeviceModel: the metadata, whose token counts for nothing beside the column `token`.
pub record DeviceRow : Type 0 where
  pub tenant_id : Text
  pub meta : DeviceMetadata
  pub token : Option Text

pub record DeviceTable : Type 0 where
  pub devices : Assoc DeviceRow
  pub up : Bool

-- NewDeviceModelInTenant
unfoldable pub new_device_row : Text → DeviceMetadata → DeviceRow
new_device_row tenant_id meta = record {
  tenant_id = normalize_tenant_id tenant_id;
  meta = meta;
  token = non_empty_text meta.token;
}

abbrev pub token_text : Option Text → Text
token_text none = text ""
token_text (some t) = t

-- ToMetadata
unfoldable pub to_metadata : DeviceRow → DeviceMetadata
to_metadata row = record row.meta { token = token_text row.token }

abbrev pub same_token : Option Text → Option Text → Bool
same_token none other = false
same_token (some t) none = false
same_token (some t) (some t') = str_eq t t'

-- Whether a device other than `uuid` holds the token, which the column's UNIQUE forbids.
unfoldable pub is_taken : Option Text → Text → Assoc DeviceRow → Bool
is_taken token uuid [] = false
is_taken token uuid ((j, row) ∷ devices) =
    (same_token token row.token && not (str_eq j uuid)) || is_taken token uuid devices

-- An INSERT or UPDATE of a row.
unfoldable pub put_row :
    DeviceTable → Text → DeviceRow → DeviceTable × Result DeviceError (Unit {0})
put_row t uuid row =
    if t.up && not (is_taken row.token uuid t.devices)
    then (record t { devices = insert uuid row t.devices }, ok tt)
    else (t, err database)

abbrev pub insert_row :
    DeviceTable → Text → DeviceRow → Option DeviceRow → DeviceTable × Result DeviceError (Unit {0})
insert_row t uuid row none = put_row t uuid row
insert_row t uuid row (some old) = (t, err database)

unfoldable pub init_device_in_tenant :
    DeviceTable → Text → Text → DeviceMetadata → DeviceTable × Result DeviceError (Unit {0})
init_device_in_tenant t tenant_id uuid meta =
    insert_row t uuid (new_device_row tenant_id meta) (lookup uuid t.devices)

unfoldable pub init_device :
    DeviceTable → Text → DeviceMetadata → DeviceTable × Result DeviceError (Unit {0})
init_device t uuid meta = init_device_in_tenant t (text "tenant_legacy") uuid meta

abbrev pub delete_row :
    DeviceTable → Text → Option DeviceRow → DeviceTable × Result DeviceError (Unit {0})
delete_row t uuid none = (t, err device_not_found)
delete_row t uuid (some row) = (record t { devices = delete uuid t.devices }, ok tt)

unfoldable pub destroy_device : DeviceTable → Text → DeviceTable × Result DeviceError (Unit {0})
destroy_device t uuid =
    if t.up then delete_row t uuid (lookup uuid t.devices) else (t, err database)

abbrev pub metadata_found : Option DeviceRow → Result DeviceError DeviceMetadata
metadata_found none = err device_not_found
metadata_found (some row) = ok (to_metadata row)

unfoldable pub load_config : DeviceTable → Text → Result DeviceError DeviceMetadata
load_config t uuid = if t.up then metadata_found (lookup uuid t.devices) else err database

-- An UPDATE of the row, where there is one; `missing` is the answer where there is none.
abbrev pub change_row :
    DeviceTable
    → Text
    → (DeviceRow → DeviceRow)
    → Result DeviceError (Unit {0})
    → Option DeviceRow
    → DeviceTable × Result DeviceError (Unit {0})
change_row t uuid f missing none = (t, if t.up then missing else err database)
change_row t uuid f missing (some row) = put_row t uuid (f row)

-- An UPDATE that matches no row is no error here.
unfoldable pub save_metadata :
    DeviceTable → Text → DeviceMetadata → DeviceTable × Result DeviceError (Unit {0})
save_metadata t uuid meta =
    let f : DeviceRow → DeviceRow =
      λ row. record row { meta = meta; token = non_empty_text meta.token } in
    change_row t uuid f (ok tt) (lookup uuid t.devices)

unfoldable pub update_token :
    DeviceTable → Text → Text → DeviceTable × Result DeviceError (Unit {0})
update_token t uuid token =
    let f : DeviceRow → DeviceRow = λ row. record row { token = non_empty_text token } in
    change_row t uuid f (err device_not_found) (lookup uuid t.devices)

abbrev pub find_token : Text → Assoc DeviceRow → Option (Text × DeviceRow)
find_token token [] = none
find_token token ((uuid, row) ∷ devices) =
    if same_token row.token (some token) then some (uuid, row) else find_token token devices

abbrev pub status_found : Option (Text × DeviceRow) → Result DeviceError (Text × ℕ)
status_found none = err token_not_found
status_found (some (uuid, row)) = ok (uuid, row.meta.authenticate_status)

unfoldable pub get_device_by_token : DeviceTable → Text → Result DeviceError (Text × ℕ)
get_device_by_token t token =
    if t.up then status_found (find_token token t.devices) else err database

unfoldable pub resolve_device_tenant : DeviceTable → Text → Result DeviceError Text
resolve_device_tenant t uuid =
    if t.up
    then elim (lookup uuid t.devices) [
      | none ↦ err device_not_found
      | some row ↦ ok (normalize_tenant_id row.tenant_id)
    ]
    else err database

unfoldable pub load_config_by_tenant : DeviceTable → Text → Text → Result DeviceError DeviceMetadata
load_config_by_tenant t tenant_id uuid =
    if t.up
    then elim (lookup uuid t.devices) [
      | none ↦ err device_not_found
      | some row ↦
          if str_eq row.tenant_id (normalize_tenant_id tenant_id)
          then ok (to_metadata row)
          else err device_not_found
    ]
    else err database
