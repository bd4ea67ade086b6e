-- ===== src/Device/Registry/Sound.antt =====
-- Each operation of the registry keeps it sound, and what a change of status does to its device.
use goster_io_t.Common.{if-true, some-injective}
use goster_io_t.Common.{ℕ, ◌≡◌, ◌≢◌, refl, ap, ◌∙◌, sym, true, false, some, is_empty}
use goster_io_t.Common.{Bool-cases, inl, inr}
use goster_io_t.Common.Result.{Result, ok, err}
use goster_io_t.Common.Text.{Text, text, str_eq, str_eq_iff}
use goster_io_t.Common.Assoc.{lookup, lookup-insert}
use goster_io_t.Downlink.Commands.{non_empty_text}
use goster_io_t.Device.Errors.{DeviceError, device_not_found}
use goster_io_t.Device.Table.{
  DeviceTable, DeviceRow, DeviceMetadata, authenticated, load_config, update_token, destroy_device,
  init_device, init_device_in_tenant,
}
use goster_io_t.Device.Table.Laws.{
  IsLocal, save_metadata-IsLocal, update_token-IsLocal, destroy_device-IsLocal,
  init_device_in_tenant_lem, unloaded, save_metadata_found,
}
use goster_io_t.Device.Registry.{
  Registry, authenticate, forget_token, forget_loaded, after_load, with_token, token_for,
  provision_absent, update_device_authenticate_status, refresh_token, delete_device,
  register_device, provision_device,
}
use goster_io_t.Device.Registry.Laws.{authenticate-MayLogIn}
use goster_io_t.Device.Registry.Writes.{
  IsSound, after_statement, load_config_row, forget_token-Forgets,
}

table-forget_token : (s : Registry) (token : Text) → (forget_token s token).table ≡ s.table
table-forget_token s token = elim (Bool-cases (is_empty token)) [
  | inl empty ↦ rw empty refl
  | inr full ↦ rw full refl
]

with_token-ok :
    (token : Text) (r : Result DeviceError (Unit {0})) {x : Text}
    → with_token token r ≡ ok x
    → r ≡ ok tt
with_token-ok token (ok u) h = refl
with_token-ok token (err e) h = cc

module _ (s : Registry) (i : IsSound s) where
  after_load-IsSound :
      (uuid : Text) (status : ℕ) (fresh : Text) (r : Result DeviceError DeviceMetadata)
      → load_config s.table uuid ≡ r
      → IsSound (after_load s uuid status fresh r).0
  after_load-IsSound uuid status fresh (err e) h = i
  after_load-IsSound uuid status fresh (ok meta) h =
      after_statement (forget_token s meta.token) _ uuid (forget_token-Forgets s uuid meta i h)
        (rw (table-forget_token s meta.token) (save_metadata-IsLocal s.table uuid _))

  -- A change of status, which also approves, rejects, unblocks and revokes, leaves a sound registry
  -- sound: every cached token is that of an authenticated device, and the table's keys differ.
  pub update_device_authenticate_status-IsSound :
      (uuid : Text) (status : ℕ) (fresh : Text)
      → IsSound (update_device_authenticate_status s uuid status fresh).0
  unfolding update_device_authenticate_status
  update_device_authenticate_status-IsSound uuid status fresh =
      after_load-IsSound uuid status fresh (load_config s.table uuid) refl

  -- A statement for which nothing was loaded changed nothing, and otherwise the token is forgotten.
  forget_loaded-IsSound :
      (uuid : Text) (r : Result DeviceError DeviceMetadata) (f : DeviceTable → DeviceTable)
      → load_config s.table uuid ≡ r
      → ((e : DeviceError) → r ≡ err e → f s.table ≡ s.table)
      → ((t : DeviceTable) → IsLocal t (f t) uuid)
      → IsSound (let s' = forget_loaded s r in record s' { table = f s'.table })
  forget_loaded-IsSound uuid (err e) f h same local = rw (same e refl) i
  forget_loaded-IsSound uuid (ok meta) f h same local =
      after_statement (forget_token s meta.token) _ uuid (forget_token-Forgets s uuid meta i h)
        (local (forget_token s meta.token).table)

  -- A new token for a device leaves a sound registry sound, where the database runs the statement of
  -- LoadConfig.
  pub refresh_token-IsSound : (uuid fresh : Text) → IsSound (refresh_token true s uuid fresh).0
  unfolding refresh_token
  refresh_token-IsSound uuid fresh =
      forget_loaded-IsSound uuid (load_config s.table uuid) (λ t. (update_token t uuid fresh).0)
        refl (λ e h. (unloaded s.table uuid e h).0 fresh) (λ t. update_token-IsLocal t uuid fresh)

  -- The deletion of a device leaves a sound registry sound, where the database runs the statement of
  -- LoadConfig.
  pub delete_device-IsSound : (uuid : Text) → IsSound (delete_device true s uuid).0
  unfolding delete_device
  delete_device-IsSound uuid =
      forget_loaded-IsSound uuid (load_config s.table uuid) (λ t. (destroy_device t uuid).0) refl
        (λ e h. (unloaded s.table uuid e h).1) (λ t. destroy_device-IsLocal t uuid)

  init-IsSound :
      (tenant_id uuid : Text) (meta : DeviceMetadata)
      → IsSound (record s { table = (init_device_in_tenant s.table tenant_id uuid meta).0 })
  init-IsSound tenant_id uuid meta =
      let (local, same) = init_device_in_tenant_lem s.table tenant_id uuid meta in
      record {
        keys = local.keys i.keys;
        cache = record {
          sound = λ token u h.
              let m = i.cache.sound token u h in
              record {
                given = m.given;
                row = m.row;
                found = elim (Bool-cases (str_eq uuid u)) [
                  | inl mine ↦
                      let at_key =
                        ap (λ k. lookup k s.table.devices) ((str_eq_iff uuid u).0 mine) in
                      ap (λ (t : DeviceTable). lookup u t.devices) (same m.row (at_key ∙ m.found))
                      ∙ m.found
                  | inr other ↦ local.elsewhere u other ∙ m.found
                ];
                holds = m.holds;
                status = m.status;
              };
        };
      }

  provision_absent-IsSound :
      (tenant_id uuid : Text) (meta : DeviceMetadata) (r : Result DeviceError DeviceMetadata)
      → IsSound (provision_absent s tenant_id uuid meta r).0
  provision_absent-IsSound tenant_id uuid meta (ok found) = i
  provision_absent-IsSound tenant_id uuid meta (err device_not_found) =
      init-IsSound tenant_id uuid meta
  provision_absent-IsSound tenant_id uuid meta (err e) = i

  -- The provisioning of a device leaves a sound registry sound.
  pub provision_device-IsSound :
      (generate_uuid : DeviceMetadata → Text) (scope_tenant : Text) (meta : DeviceMetadata)
      (fresh : Text)
      → IsSound (provision_device generate_uuid s scope_tenant meta fresh).0
  unfolding provision_device
  provision_device-IsSound generate_uuid scope_tenant meta fresh =
      provision_absent-IsSound _ (generate_uuid meta) _ _

  -- The registration of a device leaves a sound registry sound.
  pub register_device-IsSound :
      (generate_uuid : DeviceMetadata → Text) (meta : DeviceMetadata)
      → IsSound (register_device generate_uuid s meta).0
  unfolding register_device init_device
  register_device-IsSound generate_uuid meta =
      init-IsSound (text "tenant_legacy") (generate_uuid meta) _

  -- The row that a saved change of status leaves.
  saved_status :
      (uuid : Text) (status : ℕ) (fresh given_token : Text) (r : Result DeviceError DeviceMetadata)
      → load_config s.table uuid ≡ r
      → (after_load s uuid status fresh r).1 ≡ ok given_token
      → (row : DeviceRow) × (lookup uuid (after_load s uuid status fresh r).0.table.devices
          ≡ some row)
        × (row.meta.authenticate_status ≡ status)
  saved_status uuid status fresh given_token (err e) h done = cc
  saved_status uuid status fresh given_token (ok meta) h done =
      let (old, found, loaded) = load_config_row s.table uuid meta h in
      let t = (forget_token s meta.token).table in
      let kept : t ≡ s.table = table-forget_token s meta.token in
      let new : DeviceMetadata = record meta {
        authenticate_status = status;
        token = token_for status fresh meta.token;
      } in
      let row : DeviceRow = record old { meta = new; token = non_empty_text new.token } in
      let old_found = ap (λ (x : DeviceTable). lookup uuid x.devices) kept ∙ found in
      let saved = save_metadata_found t uuid new old old_found (with_token-ok new.token _ done) in
      let here =
        lookup-insert uuid uuid row t.devices ∙ if-true _ _ ((str_eq_iff uuid uuid).1 refl) in
      (row, ap (lookup uuid) saved ∙ here, refl)

  updated_status :
      (uuid : Text) (status : ℕ) (fresh given_token : Text)
      → (update_device_authenticate_status s uuid status fresh).1 ≡ ok given_token
      → (row : DeviceRow) × (lookup uuid
            (update_device_authenticate_status s uuid status fresh).0.table.devices
          ≡ some row)
        × (row.meta.authenticate_status ≡ status)
  unfolding update_device_authenticate_status
  updated_status uuid status fresh given_token done =
      saved_status uuid status fresh given_token (load_config s.table uuid) refl done

  -- Once a device's status is changed to one that is not authenticated, no token logs it in: the
  -- cache gives up the old token and the table refuses any other. The registry is sound before the
  -- change, the change succeeds, and the token that is tried is not empty.
  pub revoked :
      (uuid : Text) (status : ℕ) (fresh given_token : Text)
      → status ≢ authenticated
      → (update_device_authenticate_status s uuid status fresh).1 ≡ ok given_token
      → (token : Text) → is_empty token ≡ false
      → (authenticate (update_device_authenticate_status s uuid status fresh).0 token).1 ≢ ok uuid
  revoked uuid status fresh given_token dead done token given logged_in =
      let s' = (update_device_authenticate_status s uuid status fresh).0 in
      let i' = update_device_authenticate_status-IsSound uuid status fresh in
      let m = authenticate-MayLogIn s' i'.keys i'.cache token given uuid logged_in in
      let (row, found, stored) = updated_status uuid status fresh given_token done in
      let one : row ≡ m.row = some-injective (sym found ∙ m.found) in
      dead (sym stored ∙ ap (λ (r : DeviceRow). r.meta.authenticate_status) one ∙ m.status)
