-- ===== src/Tcp/Commands/Laws.antt =====
-- The commands that the adapter sends are downlink commands, and the core takes back what the
-- adapter gives back.
use goster_io_t.Common.{
  ℕ, ◌%◌, ◌^◌, ◌≡◌, ◌≢◌, inl, inr, refl, sym, ap, ◌∙◌, arith, true, false, not, ◌&&◌, ◌==◌, Option,
  none, some, List, [], ◌∷◌, Bool-cases, is_empty, if-true, if-false, if◌then◌else◌,
}
use goster_io_t.Common.Result.{ok}
use goster_io_t.Common.Word.{Bytes}
use goster_io_t.Common.Int.{is_positive}
use goster_io_t.Common.Text.{Text, text, trim_space}
use goster_io_t.Common.Assoc.{lookup}
use goster_io_t.Adapter.Types.{AdapterCommand}
use goster_io_t.Wire.Types.{CmdId, command_by_operation, is_downlink_command}
use goster_io_t.Ingress.Messages.{CommandStatus, UpdateRequest, raw_payload_bytes}
use goster_io_t.Ingress.Commands.{or_code, or_else, requeue_message}
use goster_io_t.Tcp.Types.{Library}
use goster_io_t.Tcp.Commands.{
  canonical_command_from_adapter, downlink_or, first_non_empty, from_option, option_code,
  resolve_downlink_cmd, update_request, raw_payload_of,
}

abbrev Downlinks : Option CmdId → Type 0
Downlinks o = (cmd : CmdId) → o ≡ some cmd → is_downlink_command cmd ≡ true

command_by_operation-Downlinks : (operation : Text) → Downlinks (command_by_operation operation)
unfolding command_by_operation is_downlink_command
command_by_operation-Downlinks operation cmd h = ground arith

downlink_or-Downlinks : (c : CmdId) (o : Option CmdId) → Downlinks o → Downlinks (downlink_or c o)
downlink_or-Downlinks c o others cmd h = elim (Bool-cases (is_downlink_command c)) [
  | inl is ↦ ground (arith, is)
  | inr other ↦ others cmd (sym (if-false _ _ other) ∙ h)
]

from_option-Downlinks :
    (o otherwise : Option CmdId) → Downlinks otherwise → Downlinks (from_option o otherwise)
from_option-Downlinks none otherwise others = others
from_option-Downlinks (some c) otherwise others = downlink_or-Downlinks c otherwise others

-- Whatever a command from the core names, by its number, by its options or by its operation, the
-- adapter sends it as one of the four commands that go to devices, or not at all.
pub resolve_downlink_cmd-IsDownlink :
    (lib : Library) (msg : AdapterCommand) (cmd : CmdId)
    → resolve_downlink_cmd lib msg ≡ some cmd
    → is_downlink_command cmd ≡ true
unfolding resolve_downlink_cmd
resolve_downlink_cmd-IsDownlink lib msg cmd h =
    let by_option =
      from_option-Downlinks (option_code lib (lookup (text "command_code") msg.options))
        (command_by_operation msg.operation) (command_by_operation-Downlinks msg.operation) in
    elim (Bool-cases (msg.protocol_command_code == 0)) [
      | inl none_given ↦ by_option cmd (sym (if-true _ _ none_given) ∙ h)
      | inr given ↦
          downlink_or-Downlinks (msg.protocol_command_code % 2 ^ 16) _ by_option cmd
            (sym (if-false _ _ given) ∙ h)
    ]

-- The number under which the core is told of a command: its own, or the one that it went out under.
abbrev pub reported_code : AdapterCommand → CmdId → ℕ
reported_code msg cmd =
    if msg.protocol_command_code == 0 && not (cmd == 0) then cmd else msg.protocol_command_code

reported_code-ne-zero :
    (msg : AdapterCommand) (cmd : CmdId)
    → is_downlink_command cmd ≡ true
    → (reported_code msg cmd == 0) ≡ false
unfolding is_downlink_command
reported_code-ne-zero msg cmd h = ground arith

first_non_empty-kept :
    (first second : Text)
    → is_empty (trim_space second) ≡ false
    → is_empty (trim_space (first_non_empty (first ∷ second ∷ []))) ≡ false
unfolding first_non_empty
first_non_empty-kept first second h = elim (Bool-cases (is_empty (trim_space first))) [
  | inl blank ↦ rw (blank, h) h
  | inr given ↦ rw given given
]

has_body : (payload : Bytes) → payload ≢ [] → is_empty payload ≡ false
has_body [] h = absurd (h refl)
has_body (b ∷ payload) h = refl

or_else-first : (first second : List ℕ) → is_empty first ≡ false → or_else first second ≡ first
or_else-first first second h = if-false _ _ h

raw_payload_bytes-body :
    (msg : AdapterCommand) (cmd : CmdId)
    → msg.payload ≢ []
    → raw_payload_bytes (some (raw_payload_of (canonical_command_from_adapter msg cmd)))
      ≡ msg.payload
unfolding raw_payload_bytes canonical_command_from_adapter
raw_payload_bytes-body msg cmd h = if-false _ _ (has_body msg.payload h)

requeue_message-eq-ok :
    (req : UpdateRequest) (uuid : Text) (code : ℕ) (payload : Bytes)
    → is_positive req.command_id ≡ true
    → or_else
        (trim_space req.uuid)
        (or_else (trim_space req.command_uuid) (trim_space req.target_identity))
      ≡ uuid
    → or_code req.protocol_command_code req.command_code ≡ code
    → or_else (raw_payload_bytes req.raw) (raw_payload_bytes req.command_payload) ≡ payload
    → is_empty uuid ≡ false
    → (code == 0) ≡ false
    → is_empty payload ≡ false
    → requeue_message req
      ≡ ok (uuid, record { command_id = req.command_id; cmd_id = code % 2 ^ 16; payload = payload })
unfolding requeue_message
requeue_message-eq-ok req uuid code payload positive is_uuid is_code is_payload u c p =
    if-false _ _ (ap not positive)
    ∙ if-false _ _ (ap is_empty is_uuid ∙ u)
    ∙ if-false _ _ (ap (λ n. n == 0) is_code ∙ c)
    ∙ if-false _ _ (ap is_empty is_payload ∙ p)
    ∙ ap ok (rw (is_uuid, is_code, is_payload))

-- The checks of the core on a request with a command inside it.
pub requeue_message-update_request :
    (lib : Library) (uuid : Text) (status : CommandStatus) (error_text : Text)
    (msg : AdapterCommand) (cmd : CmdId)
    → is_positive msg.command_id ≡ true
    → resolve_downlink_cmd lib msg ≡ some cmd
    → is_empty (trim_space uuid) ≡ false
    → msg.payload ≢ []
    → requeue_message (update_request uuid status error_text 0 msg cmd)
      ≡ ok (
        trim_space (first_non_empty (msg.uuid ∷ uuid ∷ [])),
        record {
          command_id = msg.command_id;
          cmd_id = reported_code msg cmd % 2 ^ 16;
          payload = msg.payload;
        },
      )
unfolding update_request raw_payload_bytes
requeue_message-update_request lib uuid status error_text msg cmd positive known named body =
    let device = first_non_empty-kept msg.uuid uuid named in
    let numbered =
      reported_code-ne-zero msg cmd (resolve_downlink_cmd-IsDownlink lib msg cmd known) in
    requeue_message-eq-ok (update_request uuid status error_text 0 msg cmd)
      (trim_space (first_non_empty (msg.uuid ∷ uuid ∷ []))) (reported_code msg cmd) msg.payload
      positive (or_else-first _ _ device) refl (raw_payload_bytes-body msg cmd body) device numbered
      (has_body msg.payload body)
