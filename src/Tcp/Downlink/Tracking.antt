-- ===== src/Tcp/Downlink/Tracking.antt =====
-- Every handler keeps the session's command tracked, and the connection's end settles it.
use goster_io_t.Common.{
  ℕ, ◌≡◌, refl, sym, Bool, true, false, not, ◌||◌, ◌==◌, Option, none, some, if-false,
  if◌then◌else◌,
}
use goster_io_t.Common.Int.{ℤ, is_positive, int_eq}
use goster_io_t.Common.Text.{Text, text}
use goster_io_t.Adapter.Types.{AdapterCommand, Identity}
use goster_io_t.Wire.Types.{CmdId, Packet}
use goster_io_t.Tcp.Types.{Env, Library, Session}
use goster_io_t.Tcp.Commands.{cmd_or_zero, update_request, resolve_downlink_cmd}
use goster_io_t.Tcp.Session.{
  bind_device, clear_if, clear_inflight_by_command_id, ingress_context, no_inflight,
}
use goster_io_t.Ingress.Messages.{UpdateRequest, status_requeued}
use goster_io_t.Tcp.Downlink.{
  ack_inflight, fail_downlink, handle_downlink_ack, is_untracked, mark_downlink_sent,
  requeue_downlink, requeue_inflight, requeue_request, requeue_taken,
}
use goster_io_t.Tcp.Downlink.Laws.{IsTracked, WaitsIn}

WaitsIn-true :
    (lib : Library) (b : Bool) (o : Option AdapterCommand) → WaitsIn lib b o → WaitsIn lib true o
WaitsIn-true lib b none t = tt
WaitsIn-true lib b (some msg) (inside, positive, known) = (refl, positive, known)

pub bind_device-IsTracked :
    (lib : Library) (s : Session) (uuid tenant_id : Text) (identity : Identity)
    → IsTracked lib s
    → IsTracked lib (bind_device uuid tenant_id identity s)
unfolding bind_device
bind_device-IsTracked lib s uuid tenant_id identity t =
    WaitsIn-true lib s.authenticated s.inflight t

clear_if-IsTracked :
    (lib : Library) (o : Option AdapterCommand) (id : ℤ) (s : Session)
    → IsTracked lib s
    → IsTracked lib (clear_if o id s)
clear_if-IsTracked lib none id s t = t
clear_if-IsTracked lib (some msg) id s t = chosen (int_eq msg.command_id id)
  where
    chosen : (b : Bool) → IsTracked lib (if b then no_inflight s else s)
    chosen true = tt
    chosen false = t

module _ {W E : Type 0} (env : Env W E) where
  if-IsTracked :
      (b : Bool) (x y : W × Session)
      → (b ≡ true → IsTracked env.library x.1)
      → (b ≡ false → IsTracked env.library y.1)
      → IsTracked env.library (if b then x else y).1
  if-IsTracked true x y p q = p refl
  if-IsTracked false x y p q = q refl

  tracked_parts : (a b : Bool) → (not a || not b) ≡ false → (a ≡ true) × (b ≡ true)
  tracked_parts true true h = (refl, refl)
  tracked_parts true false h = absurd (cc)
  tracked_parts false b h = absurd (cc)

  pub mark_downlink_sent-IsTracked :
      (st : W × Session) (msg : AdapterCommand) (cmd : CmdId) (seq : ℕ)
      → resolve_downlink_cmd env.library msg ≡ some cmd
      → IsTracked env.library st.1
      → IsTracked env.library (mark_downlink_sent env st msg cmd seq).1
  unfolding mark_downlink_sent
  mark_downlink_sent-IsTracked (w, s) msg cmd seq known t =
      if-IsTracked (is_untracked env s msg) (w, s) _ (λ _. t)
        λ inside.
          let (let_in, counted) =
            tracked_parts s.authenticated (is_positive msg.command_id) inside in
          (let_in, counted, (cmd, known))

  pub fail_downlink-IsTracked :
      (st : W × Session) (msg : AdapterCommand) (error_text : Text)
      → IsTracked env.library st.1
      → IsTracked env.library (fail_downlink env st msg error_text).1
  unfolding fail_downlink clear_inflight_by_command_id
  fail_downlink-IsTracked (w, s) msg error_text t =
      if-IsTracked (is_untracked env s msg) (w, s) _ (λ _. t)
        (λ _. clear_if-IsTracked env.library s.inflight msg.command_id s t)

  pub requeue_downlink-IsTracked :
      (st : W × Session) (msg : AdapterCommand) (error_text : Text)
      → IsTracked env.library st.1
      → IsTracked env.library (requeue_downlink env st msg error_text).1
  unfolding requeue_downlink clear_inflight_by_command_id
  requeue_downlink-IsTracked (w, s) msg error_text t =
      if-IsTracked (is_untracked env s msg) (w, s) _ (λ _. t)
        (λ _. clear_if-IsTracked env.library s.inflight msg.command_id s t)

  requeue_taken-IsTracked :
      (st : W × Session) (o : Option AdapterCommand)
      → IsTracked env.library st.1
      → IsTracked env.library (requeue_taken env st o).1
  requeue_taken-IsTracked (w, s) none t = t
  requeue_taken-IsTracked (w, s) (some msg) t =
      requeue_downlink-IsTracked (w, no_inflight s) msg (text "") tt

  pub requeue_inflight-IsTracked :
      (st : W × Session)
      → IsTracked env.library st.1
      → IsTracked env.library (requeue_inflight env st).1
  unfolding requeue_inflight
  requeue_inflight-IsTracked (w, s) t = requeue_taken-IsTracked (w, s) s.inflight t

  ack_inflight-IsTracked :
      (st : W × Session) (packet : Packet) (o : Option AdapterCommand)
      → IsTracked env.library st.1
      → IsTracked env.library (ack_inflight env st packet o).1
  ack_inflight-IsTracked (w, s) packet none t = t
  ack_inflight-IsTracked (w, s) packet (some msg) t =
      if-IsTracked (not (cmd_or_zero (resolve_downlink_cmd env.library msg) == packet.cmd_id))
        (w, s) _ (λ _. t)
        (λ _. if-IsTracked (not (s.inflight_seq == packet.sequence)) (w, s) _ (λ _. t) (λ _. tt))

  pub handle_downlink_ack-IsTracked :
      (st : W × Session) (packet : Packet)
      → IsTracked env.library st.1
      → IsTracked env.library (handle_downlink_ack env st packet).1
  unfolding handle_downlink_ack
  handle_downlink_ack-IsTracked (w, s) packet t =
      if-IsTracked (not s.authenticated) (w, s) _ (λ _. t)
        (λ _. ack_inflight-IsTracked (w, s) packet s.inflight t)

abbrev pub state_after : {W : Type 0} → W → Session → W × Session
state_after w s = (w, s)

-- The end of a connection, by the command that waits then: with none nothing happens; with one the
-- session waits no more, and the core is told REQUEUED for that command.
abbrev pub SettledBy :
    {W E : Type 0} → Env W E → W × Session → Option AdapterCommand → W × Session → Type 0
SettledBy env st none st' = st' ≡ st
SettledBy env st (some msg) st' =
    let idle = record st.1 { inflight = none; inflight_seq = 0 } in
    (request : UpdateRequest) × (request.command_id ≡ msg.command_id)
    × (request.status ≡ status_requeued)
    × (st'
        ≡ state_after
            ((env.core.update_command_status st.0 (ingress_context env none idle) request).0) idle)

module _ {W E : Type 0} (env : Env W E) where
  requeue_taken-SettledBy :
      (st : W × Session) (o : Option AdapterCommand)
      → WaitsIn env.library st.1.authenticated o
      → SettledBy env st o (requeue_taken env st o)
  unfolding requeue_downlink clear_inflight_by_command_id requeue_request update_request
  requeue_taken-SettledBy (w, s) none t = refl
  requeue_taken-SettledBy (w, s) (some msg) (inside, positive, known) = (
    requeue_request env (no_inflight s) msg (text ""),
    refl,
    refl,
    if-false _ (is_untracked env (no_inflight s) msg)
        (untracked_false s.authenticated (is_positive msg.command_id) inside positive),
  )
    where
      untracked_false : (a b : Bool) → a ≡ true → b ≡ true → (not a || not b) ≡ false
      untracked_false true true h k = refl
      untracked_false true false h k = sym k
      untracked_false false b h k = cc

  pub requeue_inflight-SettledBy :
      (st : W × Session)
      → IsTracked env.library st.1
      → SettledBy env st st.1.inflight (requeue_inflight env st)
  unfolding requeue_inflight
  requeue_inflight-SettledBy (w, s) t = requeue_taken-SettledBy (w, s) s.inflight t
