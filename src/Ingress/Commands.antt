-- ===== src/Ingress/Commands.antt =====
-- UpdateCommandStatus, requeue and updateCommandReceipt of web/ingress/service.go, over the service
-- of downlink commands.
pub mod Laws
use goster_io_t.Common.{
  ℕ, ◌%◌, ◌^◌, Bool, true, false, ◌||◌, ◌==◌, Option, List, is_empty, not, if◌then◌else◌,
}
use goster_io_t.Common.Result.{Result, ok, err, ◌>>=◌, ◌>>◌, guard}
use goster_io_t.Common.Word.{Bytes}
use goster_io_t.Common.Int.{ℤ, is_positive}
use goster_io_t.Common.Text.{Text, text, trim_space}
use goster_io_t.Downlink.Errors.{CommandError}
use goster_io_t.Downlink.Queue.{Message}
use goster_io_t.Downlink.Service.{
  CommandRepository, DeviceCommandQueue, mark_sent, mark_acked, mark_failed, requeue_command,
}
use goster_io_t.Ingress.Messages.{
  UpdateRequest, Receipt, CommandStatus, status_unspecified, status_queued, status_sent,
  status_acked, status_failed, status_expired, status_requeued, status_other, raw_payload_bytes,
}

-- connect.CodeInvalidArgument, and connect.CodeInternal with what failed.
pub data IngressError : Type 0 where
  invalid_argument : IngressError
  internal : CommandError → IngressError

-- The first of the two that is not empty.
abbrev pub or_else : List ℕ → List ℕ → List ℕ
or_else first second = if is_empty first then second else first

abbrev pub or_code : ℕ → ℕ → ℕ
or_code first second = if first == 0 then second else first

-- The checks of requeue: the device and the message that go back, as the request gives them or,
-- where it does not, as the command inside it does. A code is cut to the 16 bits of a CmdID.
unfoldable pub requeue_message : UpdateRequest → Result IngressError (Text × Message)
requeue_message req =
    let uuid =
      or_else (trim_space req.uuid)
        (or_else (trim_space req.command_uuid) (trim_space req.target_identity)) in
    let code = or_code req.protocol_command_code req.command_code in
    let payload = or_else (raw_payload_bytes req.raw) (raw_payload_bytes req.command_payload) in
    if not (is_positive req.command_id)
    then err invalid_argument
    else if is_empty uuid
    then err invalid_argument
    else if code == 0
    then err invalid_argument
    else if is_empty payload
    then err invalid_argument
    else ok
        (uuid, record { command_id = req.command_id; cmd_id = code % 2 ^ 16; payload = payload })

-- The checks of updateCommandReceipt where a command goes back.
unfoldable pub receipt_message : Text → Receipt → Result IngressError (Text × Message)
receipt_message uuid receipt =
    let payload = raw_payload_bytes receipt.raw in
    if is_empty (trim_space uuid) || (receipt.protocol_command_code == 0 || is_empty payload)
    then err invalid_argument
    else ok (
      uuid,
      record {
        command_id = receipt.command_id;
        cmd_id = receipt.protocol_command_code % 2 ^ 16;
        payload = payload;
      },
    )

module _ {S Q : Type 0} (repo : CommandRepository S) (queue : DeviceCommandQueue Q) where
  -- An error of the service is an internal one.
  internal_error :
      {A : Type 0} → A × Result CommandError (Unit {0}) → A × Result IngressError (Unit {0})
  internal_error (x, ok u) = (x, ok tt)
  internal_error (x, err e) = (x, err (internal e))

  marked : Q → S × Result CommandError (Unit {0}) → (S × Q) × Result IngressError (Unit {0})
  unfolding internal_error
  marked q (s, r) = internal_error ((s, q), r)

  send_back :
      S × Q → Result IngressError (Text × Message) → (S × Q) × Result IngressError (Unit {0})
  unfolding internal_error
  send_back state (err e) = (state, err e)
  send_back state (ok (uuid, message)) =
      internal_error (requeue_command repo queue state uuid message)

  by_status : S × Q → UpdateRequest → CommandStatus → (S × Q) × Result IngressError (Unit {0})
  unfolding marked send_back
  by_status (s, q) req status_sent = marked q (mark_sent repo queue s req.command_id)
  by_status (s, q) req status_acked = marked q (mark_acked repo queue s req.command_id)
  by_status (s, q) req status_failed =
      marked q (mark_failed repo queue s req.command_id req.error_text)
  by_status (s, q) req status_expired =
      marked q (mark_failed repo queue s req.command_id req.error_text)
  by_status state req status_requeued = send_back state (requeue_message req)
  by_status state req status = (state, err invalid_argument)

  unfoldable pub update_command_status :
      S × Q → UpdateRequest → (S × Q) × Result IngressError (Unit {0})
  unfolding by_status
  update_command_status state req =
      if is_positive req.command_id
      then by_status state req req.status
      else (state, err invalid_argument)

  receipt_by_status :
      S × Q → Text → Receipt → CommandStatus → (S × Q) × Result IngressError (Unit {0})
  unfolding marked send_back
  receipt_by_status (s, q) uuid r status_sent = marked q (mark_sent repo queue s r.command_id)
  receipt_by_status (s, q) uuid r status_acked = marked q (mark_acked repo queue s r.command_id)
  receipt_by_status (s, q) uuid r status_failed =
      marked q (mark_failed repo queue s r.command_id r.error_text)
  receipt_by_status (s, q) uuid r status_expired =
      marked q (mark_failed repo queue s r.command_id r.error_text)
  receipt_by_status state uuid r status_requeued = send_back state (receipt_message uuid r)
  receipt_by_status state uuid r status_unspecified = (state, ok tt)
  receipt_by_status state uuid r status_queued = (state, ok tt)
  receipt_by_status state uuid r status = (state, err invalid_argument)

  unfoldable pub update_command_receipt :
      S × Q → Text → Receipt → (S × Q) × Result IngressError (Unit {0})
  unfolding receipt_by_status
  update_command_receipt state uuid r =
      if is_positive r.command_id then receipt_by_status state uuid r r.status else (state, ok tt)
