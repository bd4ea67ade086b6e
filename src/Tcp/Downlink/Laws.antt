-- ===== src/Tcp/Downlink/Laws.antt =====
-- The one command that waits for its acknowledgement.
use goster_io_t.Common.{
  ◌≡◌, ◌≢◌, ◌⊎◌, inl, inr, ap, ◌∙◌, Bool, true, not, ◌==◌, Option, none, some, Bool-cases, if-false,
  eq→==, neq→==,
}
use goster_io_t.Common.Int.{is_positive}
use goster_io_t.Adapter.Types.{AdapterCommand}
use goster_io_t.Wire.Types.{CmdId, Packet}
use goster_io_t.Ingress.Messages.{status_acked}
use goster_io_t.Tcp.Types.{Env, Library, Session}
use goster_io_t.Tcp.Commands.{ack_request, cmd_or_zero, resolve_downlink_cmd}
use goster_io_t.Tcp.Session.{no_inflight}
use goster_io_t.Tcp.Downlink.{ack_inflight, handle_downlink_ack, update_status}

-- A command that waits: the device is let in, the core knows the command by its number, and it went
-- out under a downlink command.
abbrev pub WaitsIn : Library → Bool → Option AdapterCommand → Type 0
WaitsIn lib inside none = Unit {0}
WaitsIn lib inside (some msg) =
    (inside ≡ true)
    × (is_positive msg.command_id ≡ true)
    × ((cmd : CmdId) × (resolve_downlink_cmd lib msg ≡ some cmd))

-- The session tracks its command rightly.
abbrev pub IsTracked : Library → Session → Type 0
IsTracked lib s = WaitsIn lib s.authenticated s.inflight

-- What an acknowledgement does, with the command that waits.
abbrev pub AckOutcome :
    {W E : Type 0} → Env W E → W × Session → Packet → Option AdapterCommand → Type 0
AckOutcome env st packet none = handle_downlink_ack env st packet ≡ st
AckOutcome env st packet (some msg) =
    ((resolve_downlink_cmd env.library msg ≡ some packet.cmd_id)
      → st.1.inflight_seq ≡ packet.sequence
      → handle_downlink_ack env st packet
        ≡ update_status env (st.0, no_inflight st.1) (some packet)
            (ack_request st.1.uuid status_acked msg packet.cmd_id))
    × ((cmd_or_zero (resolve_downlink_cmd env.library msg) ≢ packet.cmd_id)
        → handle_downlink_ack env st packet ≡ st)
    × (st.1.inflight_seq ≢ packet.sequence → handle_downlink_ack env st packet ≡ st)

module _ {W E : Type 0} (env : Env W E) where
  ack_inflight-unless :
      (st : W × Session) (packet : Packet) (msg : AdapterCommand)
      → (cmd_or_zero (resolve_downlink_cmd env.library msg) ≢ packet.cmd_id)
        ⊎ (st.1.inflight_seq ≢ packet.sequence)
      → ack_inflight env st packet (some msg) ≡ st
  ack_inflight-unless (w, s) packet msg (inl other) = rw (neq→== _ _ other)
  ack_inflight-unless (w, s) packet msg (inr other) =
      elim (Bool-cases (cmd_or_zero (resolve_downlink_cmd env.library msg) == packet.cmd_id)) [
        | inl e ↦ rw (e, neq→== _ _ other)
        | inr e ↦ rw e
      ]

  ack_inflight-AckOutcome :
      (st : W × Session) (packet : Packet) (o : Option AdapterCommand)
      → handle_downlink_ack env st packet ≡ ack_inflight env st packet o
      → AckOutcome env st packet o
  ack_inflight-AckOutcome (w, s) packet none taken = taken
  ack_inflight-AckOutcome (w, s) packet (some msg) taken = (
    λ known same.
        taken
        ∙ (let cmd =
              eq→== (cmd_or_zero (resolve_downlink_cmd env.library msg)) packet.cmd_id
                (ap cmd_or_zero known) in
            rw (cmd, eq→== _ _ same)),
    λ other. taken ∙ ack_inflight-unless (w, s) packet msg (inl other),
    λ other. taken ∙ ack_inflight-unless (w, s) packet msg (inr other),
  )

  -- An acknowledgement from a device that was let in ends the wait exactly when a command waits, it
  -- is of that command's number, and it has the sequence number under which the command went out:
  -- then the session waits for nothing and the core is told ACKED for that command. Where no command
  -- waits, or either number is another, neither the session nor the core hears of it.
  pub handle_downlink_ack-AckOutcome :
      (st : W × Session) (packet : Packet)
      → st.1.authenticated ≡ true
      → AckOutcome env st packet st.1.inflight
  unfolding handle_downlink_ack
  handle_downlink_ack-AckOutcome (w, s) packet inside =
      ack_inflight-AckOutcome (w, s) packet s.inflight
        (if-false _ (not s.authenticated) (ap not inside))
