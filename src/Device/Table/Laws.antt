-- ===== src/Device/Table/Laws.antt =====
-- What each statement leaves of the table.
use goster_io_t.Common.{if-true, if-false}
use goster_io_t.Common.{◌≡◌, refl, ap, ◌∙◌, sym, arith, Bool, true, false, ◌&&◌, not}
use goster_io_t.Common.{Option, none, some, [], ◌∷◌, if◌then◌else◌, Bool-cases, inl, inr}
use goster_io_t.Common.Result.{Result, ok, err}
use goster_io_t.Common.Text.{Text, str_eq, str_eq_iff}
use goster_io_t.Common.Assoc.{Assoc, lookup, insert, delete, lookup-insert, lookup-delete}
use goster_io_t.Downlink.Commands.{non_empty_text}
use goster_io_t.Device.Errors.{DeviceError, device_not_found, database}
use goster_io_t.Device.Table.{
  DeviceTable, DeviceRow, DeviceMetadata, is_taken, put_row, init_device_in_tenant, destroy_device,
  save_metadata, update_token, load_config, change_row, delete_row, metadata_found, to_metadata,
  insert_row, new_device_row,
}

-- The key is unique.
abbrev pub KeysDiffer : Assoc DeviceRow → Type 0
KeysDiffer [] = Unit {0}
KeysDiffer ((uuid, row) ∷ devices) = (lookup uuid devices ≡ none) × KeysDiffer devices

if-none : {A : Type 0} (b : Bool) → ◌≡◌ {A = Option A} (if b then none else none) none
if-none true = refl
if-none false = refl

KeysDiffer-delete :
    (uuid : Text) (devices : Assoc DeviceRow)
    → KeysDiffer devices
    → KeysDiffer (delete uuid devices)
unfolding delete
KeysDiffer-delete uuid [] h = tt
KeysDiffer-delete uuid ((j, row) ∷ devices) (fresh, h) = elim (Bool-cases (str_eq j uuid)) [
  | inl same ↦ rw same (KeysDiffer-delete uuid devices h)
  | inr other ↦ rw other (
    rw (lookup-delete uuid j devices, fresh) (if-none (str_eq uuid j)),
    KeysDiffer-delete uuid devices h,
  )
]

-- A statement keeps the key unique, and touches no device but its own.
pub record IsLocal (t t' : DeviceTable) (uuid : Text) : Type 0 where
  pub keys : KeysDiffer t.devices → KeysDiffer t'.devices
  pub elsewhere : (j : Text) → str_eq uuid j ≡ false → lookup j t'.devices ≡ lookup j t.devices

pub IsLocal-refl : (t : DeviceTable) (uuid : Text) → IsLocal t t uuid
IsLocal-refl t uuid = record { keys = λ h. h; elsewhere = λ j other. refl }

IsLocal-insert :
    (t : DeviceTable) (uuid : Text) (row : DeviceRow)
    → IsLocal t (record t { devices = insert uuid row t.devices }) uuid
unfolding insert
IsLocal-insert t uuid row = record {
  keys = λ h. (
    lookup-delete uuid uuid t.devices ∙ rw ((str_eq_iff uuid uuid).1 refl) refl,
    KeysDiffer-delete uuid t.devices h,
  );
  elsewhere = λ j other. lookup-insert uuid j row t.devices ∙ rw other refl;
}

IsLocal-delete :
    (t : DeviceTable) (uuid : Text) → IsLocal t (record t { devices = delete uuid t.devices }) uuid
IsLocal-delete t uuid = record {
  keys = KeysDiffer-delete uuid t.devices;
  elsewhere = λ j other. lookup-delete uuid j t.devices ∙ rw other refl;
}

pub put_row-IsLocal :
    (t : DeviceTable) (uuid : Text) (row : DeviceRow) → IsLocal t (put_row t uuid row).0 uuid
unfolding put_row
put_row-IsLocal t uuid row = elim (Bool-cases (t.up && not (is_taken row.token uuid t.devices))) [
  | inl done ↦ rw done (IsLocal-insert t uuid row)
  | inr refused ↦ rw refused (IsLocal-refl t uuid)
]

insert_row_lem :
    (t : DeviceTable) (uuid : Text) (new : DeviceRow) (o : Option DeviceRow)
    → IsLocal t (insert_row t uuid new o).0 uuid
      × ((row : DeviceRow) → o ≡ some row → (insert_row t uuid new o).0 ≡ t)
insert_row_lem t uuid new none = (put_row-IsLocal t uuid new, λ row e. absurd (cc))
insert_row_lem t uuid new (some old) = (IsLocal-refl t uuid, λ row e. refl)

change_row-IsLocal :
    (t : DeviceTable) (uuid : Text) (f : DeviceRow → DeviceRow)
    (missing : Result DeviceError (Unit {0})) (o : Option DeviceRow)
    → IsLocal t (change_row t uuid f missing o).0 uuid
change_row-IsLocal t uuid f missing none = IsLocal-refl t uuid
change_row-IsLocal t uuid f missing (some row) = put_row-IsLocal t uuid (f row)

pub save_metadata-IsLocal :
    (t : DeviceTable) (uuid : Text) (meta : DeviceMetadata)
    → IsLocal t (save_metadata t uuid meta).0 uuid
unfolding save_metadata
save_metadata-IsLocal t uuid meta = change_row-IsLocal t uuid _ (ok tt) _

pub update_token-IsLocal :
    (t : DeviceTable) (uuid token : Text) → IsLocal t (update_token t uuid token).0 uuid
unfolding update_token
update_token-IsLocal t uuid token = change_row-IsLocal t uuid _ (err device_not_found) _

delete_row-IsLocal :
    (t : DeviceTable) (uuid : Text) (o : Option DeviceRow) → IsLocal t (delete_row t uuid o).0 uuid
delete_row-IsLocal t uuid none = IsLocal-refl t uuid
delete_row-IsLocal t uuid (some row) = IsLocal-delete t uuid

IsLocal-if :
    {t : DeviceTable} {uuid : Text} (b : Bool) (x y : DeviceTable × Result DeviceError (Unit {0}))
    → IsLocal t x.0 uuid
    → IsLocal t y.0 uuid
    → IsLocal t (if b then x else y).0 uuid
IsLocal-if true x y hx hy = hx
IsLocal-if false x y hx hy = hy

pub destroy_device-IsLocal :
    (t : DeviceTable) (uuid : Text) → IsLocal t (destroy_device t uuid).0 uuid
unfolding destroy_device
destroy_device-IsLocal t uuid =
    IsLocal-if t.up _ (t, err database) (delete_row-IsLocal t uuid (lookup uuid t.devices))
      (IsLocal-refl t uuid)

pub init_device_in_tenant_lem :
    (t : DeviceTable) (tenant_id uuid : Text) (meta : DeviceMetadata)
    → IsLocal t (init_device_in_tenant t tenant_id uuid meta).0 uuid
      × ((row : DeviceRow)
          → lookup uuid t.devices ≡ some row
          → (init_device_in_tenant t tenant_id uuid meta).0 ≡ t)
unfolding init_device_in_tenant
init_device_in_tenant_lem t tenant_id uuid meta =
    insert_row_lem t uuid (new_device_row tenant_id meta) (lookup uuid t.devices)

unchanged :
    {t : DeviceTable} (b : Bool) (x y : DeviceTable × Result DeviceError (Unit {0}))
    → x.0 ≡ t
    → y.0 ≡ t
    → (if b then x else y).0 ≡ t
unchanged true x y hx hy = hx
unchanged false x y hx hy = hy

put_row-down :
    (t : DeviceTable) (uuid : Text) (row : DeviceRow) → t.up ≡ false → (put_row t uuid row).0 ≡ t
unfolding put_row
put_row-down t uuid row down =
    let shut = ap (λ b. b && not (is_taken row.token uuid t.devices)) down in
    ap (λ (r : DeviceTable × Result DeviceError (Unit {0})). r.0) (if-false _ _ shut)

unloaded_row :
    (t : DeviceTable) (uuid : Text) (e : DeviceError) (o : Option DeviceRow)
    → (if t.up then metadata_found o else err database) ≡ err e
    → ((f : DeviceRow → DeviceRow) (missing : Result DeviceError (Unit {0}))
        → (change_row t uuid f missing o).0 ≡ t)
      × ((if t.up then delete_row t uuid o else (t, err database)).0 ≡ t)
unloaded_row t uuid e none h =
    (λ f missing. refl, unchanged t.up (t, err device_not_found) (t, err database) refl refl)
unloaded_row t uuid e (some row) h = elim (Bool-cases t.up) [
  | inl up ↦
      let loaded : (if t.up then metadata_found (some row) else err database)
          ≡ ok (to_metadata row) =
        if-true _ t.up up in
      let clash : ◌≡◌ {A = Result DeviceError DeviceMetadata} (ok (to_metadata row)) (err e) =
        sym loaded ∙ h in
      absurd (cc)
  | inr down ↦ (
    λ f missing. put_row-down t uuid (f row) down,
    ap (λ (r : DeviceTable × Result DeviceError (Unit {0})). r.0) (if-false _ t.up down),
  )
]

-- Where the metadata cannot be loaded, neither statement that would change its row does.
pub unloaded :
    (t : DeviceTable) (uuid : Text) (e : DeviceError)
    → load_config t uuid ≡ err e
    → ((token : Text) → (update_token t uuid token).0 ≡ t) × ((destroy_device t uuid).0 ≡ t)
unfolding load_config update_token destroy_device
unloaded t uuid e h =
    let (changed, destroyed) = unloaded_row t uuid e (lookup uuid t.devices) h in
    (λ token. changed _ (err device_not_found), destroyed)

put_row-ok :
    (t : DeviceTable) (uuid : Text) (row : DeviceRow)
    → (put_row t uuid row).1 ≡ ok tt
    → (put_row t uuid row).0.devices ≡ insert uuid row t.devices
unfolding put_row
put_row-ok t uuid row h = ground (arith)

-- Metadata that are saved over a row are found there.
pub save_metadata_found :
    (t : DeviceTable) (uuid : Text) (meta : DeviceMetadata) (old : DeviceRow)
    → lookup uuid t.devices ≡ some old
    → (save_metadata t uuid meta).1 ≡ ok tt
    → (save_metadata t uuid meta).0.devices
      ≡ insert uuid (record old { meta = meta; token = non_empty_text meta.token }) t.devices
unfolding save_metadata
save_metadata_found t uuid meta old e h =
    let f : DeviceRow → DeviceRow =
      λ row. record row { meta = meta; token = non_empty_text meta.token } in
    let at_row : save_metadata t uuid meta ≡ put_row t uuid (f old) =
      ap (change_row t uuid f (ok tt)) e in
    ap (λ (r : DeviceTable × Result DeviceError (Unit {0})). r.0.devices) at_row
    ∙ put_row-ok t uuid (f old)
        (sym (ap (λ (r : DeviceTable × Result DeviceError (Unit {0})). r.1) at_row) ∙ h)
