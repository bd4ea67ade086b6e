-- ===== src/Device/Registry.antt =====
-- device_registry_service.go: the life of a device's identity, and the cache of the tokens that have
-- authenticated. `fresh` is what generateSecureToken returns, `generate_uuid` the digest of the
-- metadata by crypto/sha256.
pub mod Laws
pub mod Writes
pub mod Sound
pub mod Stale
use goster_io_t.Common.{
  ℕ, Bool, true, false, ◌||◌, ◌==◌, Option, none, some, is_empty, if◌then◌else◌,
}
use goster_io_t.Common.Result.{Result, ok, err}
use goster_io_t.Common.Text.{Text, text, trim_space}
use goster_io_t.Common.Assoc.{Assoc, lookup, insert, delete}
use goster_io_t.Device.Errors.{
  DeviceError, device_not_found, device_already_exists, invalid_token, device_pending,
  device_refused, device_unknown, database,
}
use goster_io_t.Device.Table.{
  DeviceTable, DeviceMetadata, init_device, init_device_in_tenant, destroy_device, load_config,
  save_metadata, update_token, get_device_by_token, load_config_by_tenant, authenticated,
  authenticate_refuse, authenticate_pending, authenticate_revoked,
}

-- dataStore and tokenCache
pub record Registry : Type 0 where
  pub table : DeviceTable
  pub token_cache : Assoc Text

unfoldable pub register_device :
    (DeviceMetadata → Text) → Registry → DeviceMetadata → Registry × Result DeviceError (Unit {0})
register_device generate_uuid s meta =
    let pending = record meta { authenticate_status = authenticate_pending; token = text "" } in
    let (t, r) = init_device s.table (generate_uuid meta) pending in (record s { table = t }, r)

abbrev pub in_tenant :
    Registry → Text → Text → DeviceMetadata → Registry × Result DeviceError (Text × Text)
in_tenant s tenant_id uuid meta =
    let (t, r) = init_device_in_tenant s.table tenant_id uuid meta in
    (record s { table = t }, elim r [ ok u ↦ ok (uuid, meta.token) | err e ↦ err e ])

-- After LoadConfig: only a device that is not found is provisioned.
abbrev pub provision_absent :
    Registry
    → Text
    → Text
    → DeviceMetadata
    → Result DeviceError DeviceMetadata
    → Registry × Result DeviceError (Text × Text)
provision_absent s tenant_id uuid meta (ok found) = (s, err device_already_exists)
provision_absent s tenant_id uuid meta (err device_not_found) = in_tenant s tenant_id uuid meta
provision_absent s tenant_id uuid meta (err e) = (s, err e)

unfoldable pub provision_device :
    (DeviceMetadata → Text)
    → Registry
    → Text
    → DeviceMetadata
    → Text
    → Registry × Result DeviceError (Text × Text)
provision_device generate_uuid s scope_tenant meta fresh =
    let trimmed = trim_space scope_tenant in
    let tenant_id = if is_empty trimmed then text "tenant_legacy" else trimmed in
    let uuid = generate_uuid meta in
    provision_absent s tenant_id uuid
      (record meta { authenticate_status = authenticated; token = fresh })
      (load_config s.table uuid)

-- The uuid that goes with the error of Authenticate is left out: no caller reads it.
abbrev pub by_status : Registry → Text → Text → ℕ → Registry × Result DeviceError Text
by_status s token uuid status =
    if status == authenticated
    then (record s { token_cache = insert token uuid s.token_cache }, ok uuid)
    else if status == authenticate_pending
    then (s, err device_pending)
    else if status == authenticate_refuse
    then (s, err device_refused)
    else (s, err device_unknown)

-- After the cache's answer, and the table's where the cache has none.
abbrev pub after_lookup :
    Registry
    → Text
    → Option Text
    → Result DeviceError (Text × ℕ)
    → Registry × Result DeviceError Text
after_lookup s token (some uuid) stored = (s, ok uuid)
after_lookup s token none (err e) = (s, err invalid_token)
after_lookup s token none (ok (uuid, status)) = by_status s token uuid status

unfoldable pub authenticate : Registry → Text → Registry × Result DeviceError Text
authenticate s token =
    after_lookup s token (lookup token s.token_cache) (get_device_by_token s.table token)

-- `if meta.Token != "" { s.tokenCache.Delete(meta.Token) }`
abbrev pub forget_token : Registry → Text → Registry
forget_token s token =
    if is_empty token then s else record s { token_cache = delete token s.token_cache }

-- The token that goes with a new status; the statuses that the switch does not name keep it.
abbrev pub token_for : ℕ → Text → Text → Text
token_for status fresh old =
    if status == authenticated
    then fresh
    else if status == authenticate_pending
        || (status == authenticate_refuse || status == authenticate_revoked)
    then text ""
    else old

-- `return token, nil`, or the error.
abbrev pub with_token : Text → Result DeviceError (Unit {0}) → Result DeviceError Text
with_token token (ok u) = ok token
with_token token (err e) = err e

abbrev pub save : Registry → Text → DeviceMetadata → Registry × Result DeviceError Text
save s uuid meta =
    let (t, r) = save_metadata s.table uuid meta in
    (record s { table = t }, with_token meta.token r)

abbrev pub after_load :
    Registry
    → Text
    → ℕ
    → Text
    → Result DeviceError DeviceMetadata
    → Registry × Result DeviceError Text
after_load s uuid status fresh (err e) = (s, err e)
after_load s uuid status fresh (ok meta) =
    save (forget_token s meta.token) uuid
      (record meta { authenticate_status = status; token = token_for status fresh meta.token })

unfoldable pub update_device_authenticate_status :
    Registry → Text → ℕ → Text → Registry × Result DeviceError Text
update_device_authenticate_status s uuid status fresh =
    after_load s uuid status fresh (load_config s.table uuid)

abbrev pub forget_loaded : Registry → Result DeviceError DeviceMetadata → Registry
forget_loaded s (ok meta) = forget_token s meta.token
forget_loaded s (err e) = s

-- The answer of LoadConfig where it is one statement of two: `loads` is whether the database runs it.
abbrev pub load_config_if : Bool → DeviceTable → Text → Result DeviceError DeviceMetadata
load_config_if true t uuid = load_config t uuid
load_config_if false t uuid = err database

-- An error of LoadConfig, whichever it is, only skips the cache.
unfoldable pub refresh_token : Bool → Registry → Text → Text → Registry × Result DeviceError Text
refresh_token loads s uuid fresh =
    let s' = forget_loaded s (load_config_if loads s.table uuid) in
    let (t, r) = update_token s'.table uuid fresh in (record s' { table = t }, with_token fresh r)

unfoldable pub revoke_token : Registry → Text → Text → Registry × Result DeviceError Text
revoke_token s uuid fresh = update_device_authenticate_status s uuid authenticate_revoked fresh

unfoldable pub approve_device : Registry → Text → Text → Registry × Result DeviceError Text
approve_device s uuid fresh = update_device_authenticate_status s uuid authenticated fresh

unfoldable pub reject_device : Registry → Text → Text → Registry × Result DeviceError Text
reject_device s uuid fresh = update_device_authenticate_status s uuid authenticate_refuse fresh

unfoldable pub unblock_device : Registry → Text → Text → Registry × Result DeviceError Text
unblock_device s uuid fresh = update_device_authenticate_status s uuid authenticate_pending fresh

-- The hook OnDelete is the caller's, after the answer `ok`.
unfoldable pub delete_device : Bool → Registry → Text → Registry × Result DeviceError (Unit {0})
delete_device loads s uuid =
    let s' = forget_loaded s (load_config_if loads s.table uuid) in
    let (t, r) = destroy_device s'.table uuid in (record s' { table = t }, r)

unfoldable pub get_device_metadata_by_scope :
    Registry → Text → Text → Result DeviceError DeviceMetadata
get_device_metadata_by_scope s scope_tenant uuid =
    if is_empty (trim_space scope_tenant)
    then load_config s.table uuid
    else load_config_by_tenant s.table scope_tenant uuid
