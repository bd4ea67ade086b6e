-- ===== src/Ingress/Devices.antt =====
-- AuthenticateDevice and RegisterDevice of web/ingress/service.go, over the registry.
pub mod Laws
use goster_io_t.Common.{
  ℕ, Bool, true, false, ◌&&◌, ◌||◌, ◌==◌, Option, none, some, List, is_empty, if◌then◌else◌,
}
use goster_io_t.Common.Result.{Result, ok, err}
use goster_io_t.Common.Text.{Text, text, trim_space}
use goster_io_t.Device.Errors.{
  DeviceError, device_not_found, device_pending, device_unknown, invalid_token,
}
use goster_io_t.Device.Table.{
  DeviceMetadata, load_config, authenticated, authenticate_pending, authenticate_refuse,
  authenticate_revoked,
}
use goster_io_t.Device.Registry.{Registry, authenticate, register_device}
use goster_io_t.Ingress.Messages.{TypedValue, typed_value}

pub data AuthStatus : Type 0 where
  accepted : AuthStatus
  pending : AuthStatus
  rejected : AuthStatus
  unknown : AuthStatus

-- The answer of AuthenticateDevice, less the descriptor and the reason.
pub record AuthenticateResponse : Type 0 where
  pub status : AuthStatus
  pub uuid : Text

-- authStatusFromError
unfoldable pub auth_status_from_error : DeviceError → AuthStatus
auth_status_from_error device_pending = pending
auth_status_from_error device_unknown = unknown
auth_status_from_error invalid_token = unknown
auth_status_from_error e = rejected

abbrev pub with_metadata :
    Text → Result DeviceError DeviceMetadata → Result DeviceError AuthenticateResponse
with_metadata uuid (err e) = err e
with_metadata uuid (ok meta) = ok (record { status = accepted; uuid = uuid })

-- After the registry's answer; the error of the handler is connect.CodeInternal.
abbrev pub authenticated_answer :
    Registry × Result DeviceError Text → Registry × Result DeviceError AuthenticateResponse
authenticated_answer (s, err e) =
    (s, ok (record { status = auth_status_from_error e; uuid = text "" }))
authenticated_answer (s, ok uuid) = (s, with_metadata uuid (load_config s.table uuid))

unfoldable pub authenticate_device :
    Registry
    → List TypedValue
    → List TypedValue
    → Registry × Result DeviceError AuthenticateResponse
authenticate_device s credentials identities =
    let credential = typed_value credentials (text "token") in
    let token = if is_empty credential then typed_value identities (text "token") else credential in
    if is_empty token
    then (s, ok (record { status = rejected; uuid = text "" }))
    else authenticated_answer (authenticate s token)

pub data RegistrationStatus : Type 0 where
  registration_accepted : RegistrationStatus
  registration_pending : RegistrationStatus
  registration_rejected : RegistrationStatus

-- The answer of RegisterDevice, less the descriptor and the reason.
pub record RegisterResponse : Type 0 where
  pub status : RegistrationStatus
  pub uuid : Text
  pub credential : Option Text

-- The answer for a device that is there already.
unfoldable pub existing_answer : Text → DeviceMetadata → RegisterResponse
existing_answer uuid meta =
    if meta.authenticate_status == authenticate_pending
    then record { status = registration_pending; uuid = uuid; credential = none }
    else if meta.authenticate_status == authenticated
    then record { status = registration_accepted; uuid = uuid; credential = some meta.token }
    else record { status = registration_rejected; uuid = uuid; credential = none }

abbrev pub registered_answer :
    Text → Registry × Result DeviceError (Unit {0}) → Registry × Result DeviceError RegisterResponse
registered_answer uuid (s, err e) = (s, err e)
registered_answer uuid (s, ok u) =
    (s, ok (record { status = registration_pending; uuid = uuid; credential = none }))

abbrev pub after_existing :
    (DeviceMetadata → Text)
    → Registry
    → DeviceMetadata
    → Result DeviceError DeviceMetadata
    → Registry × Result DeviceError RegisterResponse
after_existing generate_uuid s meta (ok existing) =
    (s, ok (existing_answer (generate_uuid meta) existing))
after_existing generate_uuid s meta (err device_not_found) =
    registered_answer (generate_uuid meta) (register_device generate_uuid s meta)
after_existing generate_uuid s meta (err e) = (s, err e)

-- `meta` is metadataFromDescriptor of the request.
unfoldable pub register :
    (DeviceMetadata → Text)
    → Registry
    → DeviceMetadata
    → Registry × Result DeviceError RegisterResponse
register generate_uuid s meta =
    if is_empty (trim_space meta.serial_number) && is_empty (trim_space meta.mac_address)
    then (s, ok (record { status = registration_rejected; uuid = text ""; credential = none }))
    else after_existing generate_uuid s meta (load_config s.table (generate_uuid meta))
