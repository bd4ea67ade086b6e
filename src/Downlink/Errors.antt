-- ===== src/Downlink/Errors.antt =====
-- The errors of the command repository and of the queue (go/src/inter), with their texts.
use goster_io_t.Common.Text.{Text, text}

pub data CommandError : Type 0 where
  uuid_required command_required device_not_found tenant_mismatch : CommandError
  invalid_command_id invalid_status command_not_found queue_full database : CommandError

-- err.Error()
unfoldable pub error_text : CommandError → Text
error_text uuid_required = text "uuid is required"
error_text command_required = text "command is required"
error_text device_not_found = text "device: not found"
error_text tenant_mismatch = text "device: tenant mismatch"
error_text invalid_command_id = text "invalid command id"
error_text invalid_status = text "invalid command status"
error_text command_not_found = text "device command: not found"
error_text queue_full = text "downlink queue: full"
error_text database = text "database error"
