-- ===== src/Tcp/Downlink/Returned.antt =====
-- The core takes back a command that the adapter gives back.
use goster_io_t.Common.{◌%◌, ◌^◌, ◌≡◌, ◌≢◌, ap, ◌∙◌, true, false, some, [], ◌∷◌, is_empty}
use goster_io_t.Common.Result.{ok}
use goster_io_t.Common.Int.{is_positive}
use goster_io_t.Common.Text.{Text, trim_space}
use goster_io_t.Adapter.Types.{AdapterCommand}
use goster_io_t.Wire.Types.{CmdId}
use goster_io_t.Ingress.Messages.{status_requeued}
use goster_io_t.Ingress.Commands.{requeue_message}
use goster_io_t.Tcp.Types.{Env, Session}
use goster_io_t.Tcp.Commands.{cmd_or_zero, first_non_empty, resolve_downlink_cmd, update_request}
use goster_io_t.Tcp.Commands.Laws.{reported_code, requeue_message-update_request}
use goster_io_t.Tcp.Downlink.{requeue_request}

-- The request by which the adapter gives a command back passes the checks of the core, and the
-- message that the core queues again is for the device that the command or else the session names,
-- with the command's number in the core, its protocol number cut to 16 bits (or else the number that
-- it went out under) and the same payload. The command has a positive number in the core, goes out
-- under some downlink command and has a payload that is not empty, and the session's device has a
-- name that is not blank.
pub requeue_message-requeue_request :
    {W E : Type 0} (env : Env W E) (s : Session) (msg : AdapterCommand) (error_text : Text)
    (cmd : CmdId)
    → is_positive msg.command_id ≡ true
    → resolve_downlink_cmd env.library msg ≡ some cmd
    → is_empty (trim_space s.uuid) ≡ false
    → msg.payload ≢ []
    → requeue_message (requeue_request env s msg error_text)
      ≡ ok (
        trim_space (first_non_empty (msg.uuid ∷ s.uuid ∷ [])),
        record {
          command_id = msg.command_id;
          cmd_id = reported_code msg cmd % 2 ^ 16;
          payload = msg.payload;
        },
      )
unfolding requeue_request
requeue_message-requeue_request env s msg error_text cmd positive known named body =
    ap
      (λ o.
        requeue_message (update_request s.uuid status_requeued error_text 0 msg (cmd_or_zero o)))
      known
    ∙ requeue_message-update_request env.library s.uuid status_requeued error_text msg cmd positive
        known named body
