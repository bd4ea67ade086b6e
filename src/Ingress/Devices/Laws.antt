-- ===== src/Ingress/Devices/Laws.antt =====
-- Whom the ingress takes for a device, and whom it gives a token.
use goster_io_t.Common.{if-true, if-false, some-injective}
use goster_io_t.Common.{◌≡◌, refl, ap, ◌∙◌, sym, Option, none, some, List, is_empty}
use goster_io_t.Common.{if◌then◌else◌, Bool-cases, inl, inr, ◌==◌, ==_iff, ◌&&◌}
use goster_io_t.Common.Result.{Result, ok, err, ok-injective}
use goster_io_t.Common.Text.{Text, text, trim_space}
use goster_io_t.Common.Assoc.{lookup}
use goster_io_t.Device.Errors.{
  DeviceError, device_not_found, device_already_exists, token_not_found, database, invalid_token,
  device_pending, device_refused, device_unknown, uuid_empty, never_online,
}
use goster_io_t.Device.Table.{
  DeviceMetadata, DeviceRow, load_config, to_metadata, authenticated, authenticate_pending,
}
use goster_io_t.Device.Registry.{Registry, authenticate, register_device}
use goster_io_t.Device.Registry.Laws.{MayLogIn, authenticate-MayLogIn}
use goster_io_t.Device.Registry.Writes.{IsSound, load_config_row}
use goster_io_t.Ingress.Messages.{TypedValue, typed_value}
use goster_io_t.Ingress.Devices.{
  AuthenticateResponse, accepted, rejected, authenticate_device, with_metadata,
  authenticated_answer, auth_status_from_error, RegisterResponse, registration_rejected, register,
  existing_answer, after_existing, registered_answer,
}

-- The token of a request: that of the credentials, or else that of the identities.
abbrev pub presented : List TypedValue → List TypedValue → Text
presented credentials identities =
    let credential = typed_value credentials (text "token") in
    if is_empty credential then typed_value identities (text "token") else credential

not_accepted : (e : DeviceError) → auth_status_from_error e ≡ accepted → ⊥
unfolding auth_status_from_error
not_accepted device_not_found h = cc
not_accepted device_already_exists h = cc
not_accepted token_not_found h = cc
not_accepted database h = cc
not_accepted invalid_token h = cc
not_accepted device_pending h = cc
not_accepted device_refused h = cc
not_accepted device_unknown h = cc
not_accepted uuid_empty h = cc
not_accepted never_online h = cc

accepted_uuid :
    (uuid : Text) (meta : Result DeviceError DeviceMetadata) (r : AuthenticateResponse)
    → with_metadata uuid meta ≡ ok r
    → ◌≡◌ {A = Result DeviceError Text} (ok uuid) (ok r.uuid)
accepted_uuid uuid (err e) r h = cc
accepted_uuid uuid (ok meta) r h = ap (λ (x : AuthenticateResponse). ok x.uuid) (ok-injective h)

accepted_answer :
    (x : Registry × Result DeviceError Text) (r : AuthenticateResponse)
    → (authenticated_answer x).1 ≡ ok r
    → r.status ≡ accepted
    → x.1 ≡ ok r.uuid
accepted_answer (s, err e) r h a =
    let stated : auth_status_from_error e ≡ r.status =
      ap (λ (x : AuthenticateResponse). x.status) (ok-injective h) in
    absurd (not_accepted e (stated ∙ a))
accepted_answer (s, ok uuid) r h a = accepted_uuid uuid (load_config s.table uuid) r h

-- A device that the ingress accepts is authenticated, and the request presented its own token. The
-- registry is sound before the request.
pub authenticate_device-MayLogIn :
    (s : Registry) (credentials identities : List TypedValue) (r : AuthenticateResponse)
    → IsSound s
    → (authenticate_device s credentials identities).1 ≡ ok r
    → r.status ≡ accepted
    → MayLogIn s.table (presented credentials identities) r.uuid
unfolding authenticate_device
authenticate_device-MayLogIn s credentials identities r i h a =
    let token = presented credentials identities in
    elim (Bool-cases (is_empty token)) [
      | inl missing ↦
          let turned_away : AuthenticateResponse = record { status = rejected; uuid = text "" } in
          let answer : ◌≡◌ {A = Result DeviceError AuthenticateResponse} (ok turned_away) (ok r) =
            sym (
              ap (λ (x : Registry × Result DeviceError AuthenticateResponse). x.1)
                (if-true _ (is_empty token) missing))
            ∙ h in
          let clash : rejected ≡ accepted =
            ap (λ (x : AuthenticateResponse). x.status) (ok-injective answer) ∙ a in
          absurd (cc)
      | inr given ↦
          let answer =
            sym (
              ap (λ (x : Registry × Result DeviceError AuthenticateResponse). x.1)
                (if-false _ (is_empty token) given))
            ∙ h in
          authenticate-MayLogIn s i.keys i.cache token given r.uuid
            (accepted_answer (authenticate s token) r answer a)
    ]

existing_answer_credential :
    (uuid : Text) (meta : DeviceMetadata) (token : Text)
    → (existing_answer uuid meta).credential ≡ some token
    → (meta.authenticate_status ≡ authenticated) × (meta.token ≡ token)
unfolding existing_answer
existing_answer_credential uuid meta token c =
    let kind = meta.authenticate_status in
    elim (Bool-cases (kind == authenticate_pending)) [
      | inl waiting ↦
          let none_given : (existing_answer uuid meta).credential ≡ none = rw waiting refl in
          let clash : ◌≡◌ {A = Option Text} none (some token) = sym none_given ∙ c in absurd (cc)
      | inr settled ↦ elim (Bool-cases (kind == authenticated)) [
        | inl live ↦
            let given : (existing_answer uuid meta).credential ≡ some meta.token =
              rw (settled, live) refl in
            ((==_iff kind authenticated).0 live, some-injective (sym given ∙ c))
        | inr dead ↦
            let none_given : (existing_answer uuid meta).credential ≡ none =
              rw (settled, dead) refl in
            let clash : ◌≡◌ {A = Option Text} none (some token) = sym none_given ∙ c in absurd (cc)
      ]
    ]

registered_answer_none :
    (uuid : Text) (x : Registry × Result DeviceError (Unit {0})) (r : RegisterResponse)
    (token : Text)
    → (registered_answer uuid x).1 ≡ ok r
    → r.credential ≡ some token
    → ⊥
registered_answer_none uuid (s, err e) r token h c = cc
registered_answer_none uuid (s, ok u) r token h c =
    let clash : ◌≡◌ {A = Option Text} none (some token) =
      ap (λ (x : RegisterResponse). x.credential) (ok-injective h) ∙ c in
    cc

existing_credential :
    (generate_uuid : DeviceMetadata → Text) (s : Registry) (meta : DeviceMetadata)
    (r : RegisterResponse) (token : Text) (loaded : Result DeviceError DeviceMetadata)
    → (after_existing generate_uuid s meta loaded).1 ≡ ok r
    → r.credential ≡ some token
    → (existing : DeviceMetadata) × (loaded ≡ ok existing)
      × (existing.authenticate_status ≡ authenticated)
      × (existing.token ≡ token)
existing_credential generate_uuid s meta r token (ok existing) h c =
    let same = ap (λ (x : RegisterResponse). x.credential) (ok-injective h) ∙ c in
    let (status, held) = existing_answer_credential (generate_uuid meta) existing token same in
    (existing, refl, status, held)
existing_credential generate_uuid s meta r token (err device_not_found) h c =
    absurd (
      registered_answer_none (generate_uuid meta) (register_device generate_uuid s meta) r token h
        c)
existing_credential generate_uuid s meta r token (err e) h c = cc

-- Whoever is given a token at registration has named a device that is authenticated, and the token
-- is that device's.
pub register_credential :
    (generate_uuid : DeviceMetadata → Text) (s : Registry) (meta : DeviceMetadata)
    (r : RegisterResponse) (token : Text)
    → (register generate_uuid s meta).1 ≡ ok r
    → r.credential ≡ some token
    → (row : DeviceRow) × (lookup (generate_uuid meta) s.table.devices ≡ some row)
      × (row.meta.authenticate_status ≡ authenticated)
      × ((to_metadata row).token ≡ token)
unfolding register to_metadata
register_credential generate_uuid s meta r token h c =
    let nameless =
      is_empty (trim_space meta.serial_number) && is_empty (trim_space meta.mac_address) in
    elim (Bool-cases nameless) [
      | inl turned_away ↦
          let none_given : RegisterResponse = record {
            status = registration_rejected;
            uuid = text "";
            credential = none;
          } in
          let answer : ◌≡◌ {A = Result DeviceError RegisterResponse} (ok none_given) (ok r) =
            sym (
              ap (λ (x : Registry × Result DeviceError RegisterResponse). x.1)
                (if-true _ nameless turned_away))
            ∙ h in
          let clash : ◌≡◌ {A = Option Text} none (some token) =
            ap (λ (x : RegisterResponse). x.credential) (ok-injective answer) ∙ c in
          absurd (cc)
      | inr named ↦
          let answer =
            sym (
              ap (λ (x : Registry × Result DeviceError RegisterResponse). x.1)
                (if-false _ nameless named))
            ∙ h in
          let (existing, loaded, status, held) =
            existing_credential generate_uuid s meta r token
              (load_config s.table (generate_uuid meta)) answer c in
          let (row, found, same) = load_config_row s.table (generate_uuid meta) existing loaded in
          (
            row,
            found,
            ap (λ (x : DeviceMetadata). x.authenticate_status) same ∙ status,
            ap (λ (x : DeviceMetadata). x.token) same ∙ held,
          )
    ]
