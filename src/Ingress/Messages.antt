-- ===== src/Ingress/Messages.antt =====
-- The requests of the ingress service, as far as the handlers read them. A getter on a missing
-- message returns the zero value, so a message that is read through getters alone is a record.
use goster_io_t.Common.{ℕ, Option, none, some, List, [], ◌∷◌, is_empty, if◌then◌else◌}
use goster_io_t.Common.Word.{Bytes}
use goster_io_t.Common.Int.{ℤ}
use goster_io_t.Common.Text.{Text, text, equal_fold, trim_space}

-- `json` is what json.Marshal makes of the struct, where there is one and that succeeds.
pub record RawPayload : Type 0 where
  pub body : Bytes
  pub raw_text : Text
  pub json : Option Bytes

unfoldable pub raw_payload_bytes : Option RawPayload → Bytes
raw_payload_bytes none = []
raw_payload_bytes (some raw) =
    if is_empty raw.body
    then (if is_empty raw.raw_text
        then elim raw.json [ none ↦ [] | some data_ ↦ data_ ]
        else raw.raw_text)
    else raw.body

pub data CommandStatus : Type 0 where
  status_unspecified : CommandStatus
  status_queued : CommandStatus
  status_sent : CommandStatus
  status_acked : CommandStatus
  status_failed : CommandStatus
  status_expired : CommandStatus
  status_requeued : CommandStatus
  status_other : ℕ → CommandStatus

-- UpdateCommandStatusRequest
pub record UpdateRequest : Type 0 where
  pub command_id : ℤ
  pub status : CommandStatus
  pub error_text : Text
  pub uuid : Text
  pub command_uuid : Text
  pub target_identity : Text
  pub protocol_command_code : ℕ
  pub command_code : ℕ
  pub raw : Option RawPayload
  pub command_payload : Option RawPayload

-- CommandReceipt
pub record Receipt : Type 0 where
  pub command_id : ℤ
  pub status : CommandStatus
  pub error_text : Text
  pub protocol_command_code : ℕ
  pub raw : Option RawPayload

-- Credential and DeviceIdentity: a type and a value.
pub record TypedValue : Type 0 where
  pub kind : Text
  pub value : Text

-- credentialValue and identityValue: the first item of the type.
unfoldable pub typed_value : List TypedValue → Text → Text
typed_value [] kind = text ""
typed_value (item ∷ items) kind =
    let rest = typed_value items kind in
    if equal_fold item.kind kind then trim_space item.value else rest
