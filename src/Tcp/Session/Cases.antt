-- ===== src/Tcp/Session/Cases.antt =====
-- How the handlers that let a device in may leave the session: as it was, or bound.
use goster_io_t.Common.{Bool, true, false, Option, none, some, ◌==◌, is_empty, if◌then◌else◌}
use goster_io_t.Common.Result.{Result, ok, err}
use goster_io_t.Common.Word.{Bytes}
use goster_io_t.Common.Text.{Text, trim_space}
use goster_io_t.Adapter.Types.{DeviceDescriptor, Identity}
use goster_io_t.Wire.Types.{Packet}
use goster_io_t.Wire.Payload.{PayloadError, parse_registration_payload}
use goster_io_t.Tcp.Types.{
  AuthAnswer, Env, RegisterAnswer, Session, SessionError, auth_status_accepted,
  registration_status_accepted,
}
use goster_io_t.Tcp.Auth.{auth_token_from_payload}
use goster_io_t.Tcp.Session.{
  after_auth, after_descriptor, after_register, after_token, authenticate, bind_device,
  ingress_context, register, settled_status,
}

module _ {W E : Type 0} (env : Env W E) (P : Session → Type 0) (s : Session) (same : P s)
    (bound : (uuid tenant_id : Text) (identity : Identity)
      → P (bind_device uuid tenant_id identity s)) where
  if-cases :
      {R : Type 0} (b : Bool) (x y : (W × Session) × R)
      → P x.0.1
      → P y.0.1
      → P (if b then x else y).0.1
  if-cases true x y p q = p
  if-cases false x y p q = q

  after_auth-cases : (x : W × Option AuthAnswer) → P (after_auth env s x).0.1
  after_auth-cases (w, none) = same
  after_auth-cases (w, some answer) =
      if-cases (answer.status == auth_status_accepted) _ _ (bound _ _ _) same

  after_token-cases :
      (w : W) (packet : Packet) (x : Result SessionError Text)
      → P (after_token env (w, s) packet x).0.1
  after_token-cases w packet (err e) = same
  after_token-cases w packet (ok token) =
      let context = ingress_context env (some packet) s in
      let answered = env.core.authenticate_device w context (trim_space token) in
      if-cases (is_empty (trim_space token)) _ (after_auth env s answered) same
        (after_auth-cases answered)

  pub authenticate-cases :
      (w : W) (packet : Packet) (key : Option Bytes) → P (authenticate env (w, s) packet key).0.1
  unfolding authenticate
  authenticate-cases w packet key =
      let token = auth_token_from_payload env.library s packet.payload key in
      if-cases env.has_core (after_token env (w, s) packet token) _
        (after_token-cases w packet token) same

  after_register-cases : (x : W × Option RegisterAnswer × Bool) → P (after_register env s x).0.1
  after_register-cases (w, none, failed) = same
  after_register-cases (w, some answer, failed) =
      if-cases (settled_status answer.status == registration_status_accepted) _ _ (bound _ _ _) same

  after_descriptor-cases :
      (w : W) (packet : Packet) (x : Result PayloadError DeviceDescriptor)
      → P (after_descriptor env (w, s) packet x).0.1
  after_descriptor-cases w packet (err e) = same
  after_descriptor-cases w packet (ok device) =
      after_register-cases
        (env.core.register_device w (ingress_context env (some packet) s) device packet.payload)

  pub register-cases : (w : W) (packet : Packet) → P (register env (w, s) packet).0.1
  unfolding register
  register-cases w packet =
      let device = parse_registration_payload packet.payload in
      if-cases env.has_core (after_descriptor env (w, s) packet device) _
        (after_descriptor-cases w packet device) same
