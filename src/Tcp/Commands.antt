-- ===== src/Tcp/Commands.antt =====
-- Commands for the device: resolveDownlinkCmd of adapter.go, and what session.go tells the core
-- about a command.
pub mod Laws
use goster_io_t.Common.{
  ℕ, ◌-◌, ◌%◌, ◌^◌, Option, none, some, List, [], ◌∷◌, is_empty, ◌==◌, ◌&&◌, ◌||◌, not,
  if◌then◌else◌,
}
use goster_io_t.Common.Int.{ℤ, pos, negsuc}
use goster_io_t.Common.Text.{Text, text, trim_space}
use goster_io_t.Common.Assoc.{lookup}
use goster_io_t.Adapter.Types.{
  AdapterCommand, AnyValue, Identity, float64_value, int_value, string_value,
}
use goster_io_t.Wire.Types.{CmdId, is_downlink_command, command_by_operation}
use goster_io_t.Ingress.Messages.{CommandStatus, UpdateRequest, RawPayload}
use goster_io_t.Tcp.Types.{CanonicalCommand, Library}

-- A candidate counts where it is a downlink command; the search goes on where it is not.
abbrev pub downlink_or : CmdId → Option CmdId → Option CmdId
downlink_or cmd otherwise = if is_downlink_command cmd then some cmd else otherwise

abbrev pub from_option : Option CmdId → Option CmdId → Option CmdId
from_option none otherwise = otherwise
from_option (some cmd) otherwise = downlink_or cmd otherwise

-- uint16 of an int
abbrev pub int_to_u16 : ℤ → ℕ
int_to_u16 (pos n) = n % 2 ^ 16
int_to_u16 (negsuc n) = 2 ^ 16 - 1 - n % 2 ^ 16

module _ (lib : Library) where
  -- The command number that the option `command_code` holds.
  abbrev pub option_code : Option AnyValue → Option CmdId
  option_code none = none
  option_code (some (float64_value bits)) = some (lib.float_to_u16 bits)
  option_code (some (int_value n)) = some (int_to_u16 n)
  option_code (some (string_value s)) = lib.parse_uint16 s
  option_code (some other) = none

  unfoldable pub resolve_downlink_cmd : AdapterCommand → Option CmdId
  resolve_downlink_cmd command =
      let by_option =
        from_option (option_code (lookup (text "command_code") command.options))
          (command_by_operation command.operation) in
      if command.protocol_command_code == 0
      then by_option
      else downlink_or (command.protocol_command_code % 2 ^ 16) by_option

-- The zero CmdID stands beside `false`.
abbrev pub cmd_or_zero : Option CmdId → CmdId
cmd_or_zero none = 0
cmd_or_zero (some cmd) = cmd

unfoldable pub first_non_empty : List Text → Text
first_non_empty [] = text ""
first_non_empty (v ∷ values) =
    let later = first_non_empty values in if is_empty (trim_space v) then later else v

unfoldable pub command_target_identity : AdapterCommand → Option Identity
command_target_identity msg =
    if is_empty msg.target.kind && is_empty msg.target.value
    then (if is_empty msg.uuid
        then none
        else some (record { kind = text "uuid"; value = msg.uuid; issuer = text "" }))
    else some msg.target

unfoldable pub canonical_command_from_adapter : AdapterCommand → CmdId → CanonicalCommand
canonical_command_from_adapter msg cmd = record {
  command_id = msg.command_id;
  command_uuid = msg.command_uuid;
  tenant_id = msg.tenant_id;
  uuid = msg.uuid;
  target_identity = command_target_identity msg;
  operation = msg.operation;
  protocol_command_code =
      if msg.protocol_command_code == 0 && not (cmd == 0) then cmd else msg.protocol_command_code;
  content_type = first_non_empty (msg.payload_content_type ∷ text "application/octet-stream" ∷ []);
  body = msg.payload;
  body_text = text "";
  json = none;
  adapter_options = none;
  max_attempts = msg.max_attempts;
  properties = msg.properties;
  labels = msg.labels;
}

-- `GetTargetIdentity().GetValue()`
abbrev pub identity_value : Option Identity → Text
identity_value none = text ""
identity_value (some identity) = identity.value

abbrev pub raw_payload_of : CanonicalCommand → RawPayload
raw_payload_of c = record {
  body = c.body;
  raw_text = c.body_text;
  json = elim c.json [ none ↦ none | some made ↦ made ];
}

-- The parts that SENT, FAILED and REQUEUED share: the request, with the command inside it read as
-- the core reads it. `uuid` is the session's device.
unfoldable pub update_request :
    Text → CommandStatus → Text → ℕ → AdapterCommand → CmdId → UpdateRequest
unfolding canonical_command_from_adapter
update_request uuid status error_text code msg cmd =
    let command = canonical_command_from_adapter msg cmd in
    record {
      command_id = msg.command_id;
      status = status;
      error_text = error_text;
      uuid = first_non_empty (msg.uuid ∷ uuid ∷ []);
      command_uuid = command.uuid;
      target_identity = identity_value (command_target_identity msg);
      protocol_command_code = code;
      command_code = command.protocol_command_code;
      raw = none;
      command_payload = some (raw_payload_of command);
    }

-- The request of an acknowledgement, which holds no command.
unfoldable pub ack_request : Text → CommandStatus → AdapterCommand → CmdId → UpdateRequest
ack_request uuid status msg cmd = record {
  command_id = msg.command_id;
  status = status;
  error_text = text "";
  uuid = uuid;
  command_uuid = text "";
  target_identity = text "";
  protocol_command_code = cmd;
  command_code = 0;
  raw = none;
  command_payload = none;
}
