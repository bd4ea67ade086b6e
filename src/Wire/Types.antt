-- ===== src/Wire/Types.antt =====
-- types.go: the constants of the frame format, command numbers and the tables over them.
use goster_io_t.Common.{ℕ, Bool, false, Option, none, some, List, [], ◌∷◌, ◌||◌}
use goster_io_t.Common.{◌==◌, if◌then◌else◌}
use goster_io_t.Common.Word.{Bytes}
use goster_io_t.Common.Text.{Text, text, str_eq}

abbrev pub magic_number : ℕ
magic_number = 0x5759

abbrev pub protocol_version : ℕ
protocol_version = 1

abbrev pub header_size : ℕ
header_size = 32

abbrev pub footer_size : ℕ
footer_size = 16

abbrev pub max_payload_size : ℕ
max_payload_size = 65536

-- CmdID is a uint16; numbers without a name here are legal on the wire.
abbrev pub CmdId : Type 0
CmdId = ℕ

abbrev pub cmd_handshake_init : CmdId
cmd_handshake_init = 0x0001

abbrev pub cmd_handshake_resp : CmdId
cmd_handshake_resp = 0x0002

abbrev pub cmd_auth_verify : CmdId
cmd_auth_verify = 0x0003

abbrev pub cmd_auth_ack : CmdId
cmd_auth_ack = 0x0004

abbrev pub cmd_device_register : CmdId
cmd_device_register = 0x0005

abbrev pub cmd_error_report : CmdId
cmd_error_report = 0x00ff

abbrev pub cmd_metrics_report : CmdId
cmd_metrics_report = 0x0101

abbrev pub cmd_log_report : CmdId
cmd_log_report = 0x0102

abbrev pub cmd_event_report : CmdId
cmd_event_report = 0x0103

abbrev pub cmd_heartbeat : CmdId
cmd_heartbeat = 0x0104

abbrev pub cmd_key_exchange_uplink : CmdId
cmd_key_exchange_uplink = 0x0105

abbrev pub cmd_config_push : CmdId
cmd_config_push = 0x0201

abbrev pub cmd_ota_data : CmdId
cmd_ota_data = 0x0202

abbrev pub cmd_action_exec : CmdId
cmd_action_exec = 0x0203

abbrev pub cmd_screen_wy : CmdId
cmd_screen_wy = 0x0204

abbrev pub cmd_key_exchange_downlink : CmdId
cmd_key_exchange_downlink = 0x0205

pub record Packet : Type 0 where
  pub cmd_id : CmdId
  pub key_id : ℕ
  pub sequence : ℕ
  pub is_ack : Bool
  pub is_encrypted : Bool
  pub is_compressed : Bool
  pub payload : Bytes

-- `case a, b, c:` of a switch over command numbers.
abbrev pub one_of : CmdId → List CmdId → Bool
one_of cmd [] = false
one_of cmd (c ∷ cs) = cmd == c || one_of cmd cs

abbrev pub downlink_commands : List CmdId
downlink_commands = cmd_config_push ∷ cmd_ota_data ∷ cmd_action_exec ∷ cmd_screen_wy ∷ []

unfoldable pub is_downlink_command : CmdId → Bool
is_downlink_command cmd = one_of cmd downlink_commands

unfoldable pub command_name : CmdId → Text
command_name cmd =
    if cmd == cmd_config_push
    then text "config_push"
    else if cmd == cmd_ota_data
    then text "ota_data"
    else if cmd == cmd_action_exec
    then text "action_exec"
    else if cmd == cmd_screen_wy
    then text "screen_wy"
    else if cmd == cmd_heartbeat
    then text "heartbeat"
    else if cmd == cmd_metrics_report
    then text "metrics"
    else if cmd == cmd_log_report
    then text "log"
    else if cmd == cmd_event_report
    then text "event"
    else if cmd == cmd_error_report
    then text "error"
    else text "unknown"

abbrev in_texts : Text → List Text → Bool
in_texts s [] = false
in_texts s (t ∷ ts) = str_eq s t || in_texts s ts

unfoldable pub command_by_operation : Text → Option CmdId
command_by_operation operation =
    if in_texts operation (text "config_push" ∷ text "config" ∷ text "set_config" ∷ [])
    then some cmd_config_push
    else if in_texts operation (text "ota_data" ∷ text "ota" ∷ [])
    then some cmd_ota_data
    else if in_texts operation (text "action_exec" ∷ text "action" ∷ text "exec" ∷ [])
    then some cmd_action_exec
    else if in_texts operation (text "screen_wy" ∷ text "screen" ∷ [])
    then some cmd_screen_wy
    else none
