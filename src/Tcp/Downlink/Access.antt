-- ===== src/Tcp/Downlink/Access.antt =====
-- The handlers of commands leave the device that the session is bound to as it is.
use goster_io_t.Common.{ℕ, ◌≡◌, refl, Option, none, some, inl, inr, Bool-cases, not, ◌==◌}
use goster_io_t.Common.Text.{Text, text}
use goster_io_t.Common.Int.{ℤ, int_eq}
use goster_io_t.Adapter.Types.{AdapterCommand}
use goster_io_t.Wire.Types.{CmdId, Packet}
use goster_io_t.Tcp.Types.{Env, Session}
use goster_io_t.Tcp.Session.{clear_if, clear_inflight_by_command_id}
use goster_io_t.Tcp.Commands.{cmd_or_zero, resolve_downlink_cmd}
use goster_io_t.Tcp.Downlink.{
  ack_inflight, fail_downlink, handle_downlink_ack, is_untracked, mark_downlink_sent,
  requeue_downlink, requeue_inflight, requeue_taken,
}

clear_if-authenticated :
    (o : Option AdapterCommand) (id : ℤ) (s : Session)
    → (clear_if o id s).authenticated ≡ s.authenticated
clear_if-authenticated none id s = refl
clear_if-authenticated (some msg) id s = elim (Bool-cases (int_eq msg.command_id id)) [
  | inl e ↦ rw e
  | inr e ↦ rw e
]

module _ {W E : Type 0} (env : Env W E) where
  pub mark_downlink_sent-authenticated :
      (st : W × Session) (msg : AdapterCommand) (cmd : CmdId) (seq : ℕ)
      → (mark_downlink_sent env st msg cmd seq).1.authenticated ≡ st.1.authenticated
  unfolding mark_downlink_sent
  mark_downlink_sent-authenticated (w, s) msg cmd seq = elim (Bool-cases (is_untracked env s msg)) [
    | inl e ↦ rw e
    | inr e ↦ rw e
  ]

  pub fail_downlink-authenticated :
      (st : W × Session) (msg : AdapterCommand) (error_text : Text)
      → (fail_downlink env st msg error_text).1.authenticated ≡ st.1.authenticated
  unfolding fail_downlink clear_inflight_by_command_id
  fail_downlink-authenticated (w, s) msg error_text = elim (Bool-cases (is_untracked env s msg)) [
    | inl e ↦ rw e
    | inr e ↦ rw e (clear_if-authenticated s.inflight msg.command_id s)
  ]

  pub requeue_downlink-authenticated :
      (st : W × Session) (msg : AdapterCommand) (error_text : Text)
      → (requeue_downlink env st msg error_text).1.authenticated ≡ st.1.authenticated
  unfolding requeue_downlink clear_inflight_by_command_id
  requeue_downlink-authenticated (w, s) msg error_text =
      elim (Bool-cases (is_untracked env s msg)) [
        | inl e ↦ rw e
        | inr e ↦ rw e (clear_if-authenticated s.inflight msg.command_id s)
      ]

  requeue_taken-authenticated :
      (st : W × Session) (o : Option AdapterCommand)
      → (requeue_taken env st o).1.authenticated ≡ st.1.authenticated
  requeue_taken-authenticated (w, s) none = refl
  requeue_taken-authenticated (w, s) (some msg) = requeue_downlink-authenticated _ msg (text "")

  pub requeue_inflight-authenticated :
      (st : W × Session) → (requeue_inflight env st).1.authenticated ≡ st.1.authenticated
  unfolding requeue_inflight
  requeue_inflight-authenticated (w, s) = requeue_taken-authenticated (w, s) s.inflight

  ack_inflight-authenticated :
      (st : W × Session) (packet : Packet) (o : Option AdapterCommand)
      → (ack_inflight env st packet o).1.authenticated ≡ st.1.authenticated
  ack_inflight-authenticated (w, s) packet none = refl
  ack_inflight-authenticated (w, s) packet (some msg) =
      elim (Bool-cases (cmd_or_zero (resolve_downlink_cmd env.library msg) == packet.cmd_id)) [
        | inr e ↦ rw e
        | inl e ↦ elim (Bool-cases (s.inflight_seq == packet.sequence)) [
          | inl f ↦ rw (e, f)
          | inr f ↦ rw (e, f)
        ]
      ]

  pub handle_downlink_ack-authenticated :
      (st : W × Session) (packet : Packet)
      → (handle_downlink_ack env st packet).1.authenticated ≡ st.1.authenticated
  unfolding handle_downlink_ack
  handle_downlink_ack-authenticated (w, s) packet = elim (Bool-cases (not s.authenticated)) [
    | inl e ↦ rw e
    | inr e ↦ rw e (ack_inflight-authenticated (w, s) packet s.inflight)
  ]
