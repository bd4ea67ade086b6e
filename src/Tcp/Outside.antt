-- ===== src/Tcp/Outside.antt =====
-- What a device can cause before it is let in: of the core, only the calls that let it in.
use goster_io_t.Common.{
  ℕ, ◌≡◌, refl, ap, Bool, true, false, not, ◌||◌, Option, none, some, if-true, ◌==◌, is_empty,
  if◌then◌else◌,
}
use goster_io_t.Common.Result.{Result, ok, err}
use goster_io_t.Common.Word.{Bytes}
use goster_io_t.Common.Text.{Text, text, trim_space}
use goster_io_t.Adapter.Types.{AdapterCommand, DeviceDescriptor, Identity}
use goster_io_t.Wire.Types.{CmdId, Packet}
use goster_io_t.Wire.Payload.{PayloadError, parse_registration_payload}
use goster_io_t.Tcp.Types.{
  AuthAnswer, Env, IngressContext, RegisterAnswer, Session, SessionError, core_missing, empty_token,
  auth_status_accepted, registration_status_accepted,
}
use goster_io_t.Tcp.Auth.{auth_token_from_payload}
use goster_io_t.Tcp.Session.{
  after_auth, after_descriptor, after_register, after_token, authenticate, bind_device,
  ingress_context, no_inflight, refused, register, settled_status,
}
use goster_io_t.Tcp.Reports.{
  handle_error, handle_event, handle_heartbeat, handle_log, handle_metrics,
}
use goster_io_t.Tcp.Downlink.{
  fail_downlink, handle_downlink_ack, mark_downlink_sent, pop_command, requeue_downlink,
  requeue_inflight, requeue_taken,
}

true-ne-false : ◌≡◌ {A = Bool} true false → ⊥
true-ne-false e = cc

-- A property of the world that writing, reading the clock, drawing a key, and asking the core to
-- authenticate or to register a device all keep. Nothing is said of the core's other calls.
pub record KeptOutside {W E : Type 0} (env : Env W E) (Q : W → Type 0) : Type 0 where
  pub write : (w : W) (bytes : Bytes) → Q w → Q (env.platform.write w bytes).0
  pub unix_now : (w : W) → Q w → Q (env.platform.unix_now w).0
  pub generate_key : (w : W) → Q w → Q (env.platform.generate_key w).0
  pub authenticate_device :
      (w : W) (context : IngressContext) (token : Text)
      → Q w
      → Q (env.core.authenticate_device w context token).0
  pub register_device :
      (w : W) (context : IngressContext) (device : DeviceDescriptor) (payload : Text)
      → Q w
      → Q (env.core.register_device w context device payload).0

module _ {W E : Type 0} (env : Env W E) (Q : W → Type 0) (kept : KeptOutside env Q) where
  -- A step that does not let the device in starts outside, and keeps the property.
  pub record Quiet (st st' : W × Session) : Type 0 where
    pub stays_out : st'.1.authenticated ≡ false → st.1.authenticated ≡ false
    pub keeps : st'.1.authenticated ≡ false → Q st.0 → Q st'.0

  pub world-Quiet : (st : W × Session) (w : W) → (Q st.0 → Q w) → Quiet st (w, st.1)
  world-Quiet st w step = record { stays_out = λ out. out; keeps = λ out q. step q }

  pub same-Quiet : (st : W × Session) → Quiet st st
  same-Quiet st = world-Quiet st st.0 (λ q. q)

  if-Quiet :
      {R : Type 0} (b : Bool) (st : W × Session) (x y : (W × Session) × R)
      → Quiet st x.0
      → Quiet st y.0
      → Quiet st (if b then x else y).0
  if-Quiet true st x y first second = first
  if-Quiet false st x y first second = second

  -- A device that was bound is inside.
  let_in-Quiet :
      (st : W × Session) (w : W) (uuid tenant_id : Text) (identity : Identity)
      → Quiet st (w, bind_device uuid tenant_id identity st.1)
  unfolding bind_device
  let_in-Quiet st w uuid tenant_id identity = record {
    stays_out = λ out. absurd (true-ne-false out);
    keeps = λ out. absurd (true-ne-false out);
  }

  after_auth-Quiet :
      (w : W) (s : Session) (x : W × Option AuthAnswer)
      → (Q w → Q x.0)
      → Quiet (w, s) (after_auth env s x).0
  after_auth-Quiet w s (w', none) step = world-Quiet (w, s) w' step
  after_auth-Quiet w s (w', some answer) step =
      if-Quiet (answer.status == auth_status_accepted) (w, s) _ _ (let_in-Quiet (w, s) w' _ _ _)
        (world-Quiet (w, s) w' step)

  after_token-Quiet :
      (w : W) (s : Session) (packet : Packet) (x : Result SessionError Text)
      → Quiet (w, s) (after_token env (w, s) packet x).0
  after_token-Quiet w s packet (err e) = same-Quiet (w, s)
  after_token-Quiet w s packet (ok token) =
      let context = ingress_context env (some packet) s in
      let answered = env.core.authenticate_device w context (trim_space token) in
      if-Quiet (is_empty (trim_space token)) (w, s) ((w, s), refused empty_token)
        (after_auth env s answered) (same-Quiet (w, s))
        (after_auth-Quiet w s answered (kept.authenticate_device w context (trim_space token)))

  pub authenticate-Quiet :
      (st : W × Session) (packet : Packet) (key : Option Bytes)
      → Quiet st (authenticate env st packet key).0
  unfolding authenticate
  authenticate-Quiet (w, s) packet key =
      let token = auth_token_from_payload env.library s packet.payload key in
      if-Quiet env.has_core (w, s) (after_token env (w, s) packet token)
        ((w, s), refused core_missing) (after_token-Quiet w s packet token) (same-Quiet (w, s))

  after_register-Quiet :
      (w : W) (s : Session) (x : W × Option RegisterAnswer × Bool)
      → (Q w → Q x.0)
      → Quiet (w, s) (after_register env s x).0
  after_register-Quiet w s (w', none, failed) step = world-Quiet (w, s) w' step
  after_register-Quiet w s (w', some answer, failed) step =
      if-Quiet (settled_status answer.status == registration_status_accepted) (w, s) _ _
        (let_in-Quiet (w, s) w' _ _ _) (world-Quiet (w, s) w' step)

  after_descriptor-Quiet :
      (w : W) (s : Session) (packet : Packet) (x : Result PayloadError DeviceDescriptor)
      → Quiet (w, s) (after_descriptor env (w, s) packet x).0
  after_descriptor-Quiet w s packet (err e) = same-Quiet (w, s)
  after_descriptor-Quiet w s packet (ok device) =
      let context = ingress_context env (some packet) s in
      let answered = env.core.register_device w context device packet.payload in
      after_register-Quiet w s answered (kept.register_device w context device packet.payload)

  pub register-Quiet : (st : W × Session) (packet : Packet) → Quiet st (register env st packet).0
  unfolding register
  register-Quiet (w, s) packet =
      let device = parse_registration_payload packet.payload in
      if-Quiet env.has_core (w, s) (after_descriptor env (w, s) packet device)
        ((w, s), refused core_missing) (after_descriptor-Quiet w s packet device)
        (same-Quiet (w, s))

-- What the session refuses while the device is outside.
module _ {W E : Type 0} (env : Env W E) (st : W × Session) (out : st.1.authenticated ≡ false) where
  is_out : not st.1.authenticated ≡ true
  is_out = ap not out

  either_out : (b : Bool) → (not st.1.authenticated || b) ≡ true
  either_out b = ap (λ a. not a || b) out

  pub handle_heartbeat-refused : (packet : Packet) → handle_heartbeat env st packet ≡ (st.0, false)
  unfolding handle_heartbeat
  handle_heartbeat-refused packet = if-true _ _ is_out

  pub handle_metrics-refused : (packet : Packet) → handle_metrics env st packet ≡ (st.0, false)
  unfolding handle_metrics
  handle_metrics-refused packet = if-true _ _ is_out

  pub handle_log-refused : (packet : Packet) → handle_log env st packet ≡ (st.0, false)
  unfolding handle_log
  handle_log-refused packet = if-true _ _ is_out

  pub handle_event-refused : (packet : Packet) → handle_event env st packet ≡ (st.0, false)
  unfolding handle_event
  handle_event-refused packet = if-true _ _ is_out

  pub handle_error-refused : (packet : Packet) → handle_error env st packet ≡ (st.0, false)
  unfolding handle_error
  handle_error-refused packet = if-true _ _ is_out

  pub handle_downlink_ack-refused : (packet : Packet) → handle_downlink_ack env st packet ≡ st
  unfolding handle_downlink_ack
  handle_downlink_ack-refused packet = if-true _ _ is_out

  pub pop_command-refused : pop_command env st ≡ (st.0, none)
  unfolding pop_command
  pop_command-refused = if-true _ _ (either_out _)

  pub mark_downlink_sent-refused :
      (msg : AdapterCommand) (cmd : CmdId) (seq : ℕ) → mark_downlink_sent env st msg cmd seq ≡ st
  unfolding mark_downlink_sent
  mark_downlink_sent-refused msg cmd seq = if-true _ _ (either_out _)

  pub fail_downlink-refused :
      (msg : AdapterCommand) (error_text : Text) → fail_downlink env st msg error_text ≡ st
  unfolding fail_downlink
  fail_downlink-refused msg error_text = if-true _ _ (either_out _)

  pub requeue_downlink-refused :
      (msg : AdapterCommand) (error_text : Text) → requeue_downlink env st msg error_text ≡ st
  unfolding requeue_downlink
  requeue_downlink-refused msg error_text = if-true _ _ (either_out _)

requeue_taken-refused :
    {W E : Type 0} (env : Env W E) (st : W × Session) (o : Option AdapterCommand)
    → st.1.authenticated ≡ false
    → (requeue_taken env st o).0 ≡ st.0
requeue_taken-refused env (w, s) none out = refl
requeue_taken-refused env (w, s) (some msg) out =
    ap (λ (st : _ × Session). st.0)
      (requeue_downlink-refused env (w, no_inflight s) out msg (text ""))

pub requeue_inflight-refused :
    {W E : Type 0} (env : Env W E) (st : W × Session)
    → st.1.authenticated ≡ false
    → (requeue_inflight env st).0 ≡ st.0
unfolding requeue_inflight
requeue_inflight-refused env (w, s) out = requeue_taken-refused env (w, s) s.inflight out
