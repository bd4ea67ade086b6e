-- ===== src/Tcp/Connection/Numbering.antt =====
-- The sequence numbers of the frames that a connection sends, and their nonces.
use goster_io_t.Common.{
  ℕ, ◌+◌, ◌^◌, ◌≤◌, ◌<◌, ◌≡◌, ◌≢◌, arith, Option, some, List, [], ◌∷◌, length, All, refl, Bool,
  true, false,
}
use goster_io_t.Common.Result.{Result, ok, err}
use goster_io_t.Common.Word.{Bytes, u64}
use goster_io_t.Wire.Types.{CmdId}
use goster_io_t.Wire.Codec.{PackError, key_in_use, pack, pack_flags}
use goster_io_t.Wire.Codec.Nonce.{nonce, nonce-injective}
use goster_io_t.Tcp.Types.{Env}
use goster_io_t.Tcp.Connection
use goster_io_t.Tcp.Connection.{Connection, Delivery, Frame, open_connection, send_frame}
use goster_io_t.Tcp.Connection.Reach.{Reach, here, move, send}
use goster_io_t.Tcp.Connection.Loop.{frame_budget, serve-Reach}

-- The nonce that Pack writes into a frame.
abbrev pub frame_nonce : Frame → Bytes
frame_nonce f =
    nonce (pack_flags f.is_ack (key_in_use f.session_key f.key_id)) f.cmd_id f.key_id
      (length f.payload) f.is_ack f.sequence

abbrev pub Distinct : List Bytes → Type 0
Distinct [] = Unit {0}
Distinct (x ∷ xs) = All (λ y. x ≢ y) xs × Distinct xs

abbrev pub nonces : List Frame → List Bytes
nonces [] = []
nonces (f ∷ frames) = frame_nonce f ∷ nonces frames

-- The numbers fall from the last frame to the first, and stay below the bound.
abbrev Falls : ℕ → List Frame → Type 0
Falls bound [] = Unit {0}
Falls bound (f ∷ frames) = (f.sequence < bound) × Falls f.sequence frames

Falls-le : {a b : ℕ} (frames : List Frame) → a ≤ b → Falls a frames → Falls b frames
Falls-le [] h falls = tt
Falls-le (f ∷ frames) h (below, falls) = (omega arith, falls)

differs-All :
    (f : Frame) (frames : List Frame) (bound : ℕ)
    → f.sequence < 2 ^ 64
    → bound ≤ f.sequence
    → Falls bound frames
    → All (λ y. frame_nonce f ≢ y) (nonces frames)
differs-All f [] bound small h falls = tt
differs-All f (g ∷ frames) bound small h (below, falls) = (
  λ same.
      let seqs =
        nonce-injective _ f.cmd_id f.key_id _ f.sequence _ g.cmd_id g.key_id _ g.sequence f.is_ack
          g.is_ack small (omega arith) same in
      absurd (omega (arith, seqs)),
  differs-All f frames g.sequence small (omega arith) falls,
)

Falls-Distinct :
    (frames : List Frame) (bound : ℕ)
    → bound ≤ 2 ^ 64
    → Falls bound frames
    → Distinct (nonces frames)
Falls-Distinct [] bound small falls = tt
Falls-Distinct (f ∷ frames) bound small (below, falls) = (
  differs-All f frames f.sequence (omega arith) (omega arith) falls,
  Falls-Distinct frames f.sequence (omega arith) falls,
)

-- `n` numbers at most are given out, and the frames have them in order.
record IsNumbered {W : Type 0} (n : ℕ) (c : Connection W) : Type 0 where
  counted : c.write_seq ≤ n
  ordered : Falls (c.write_seq + 1) c.sent

module _ {W E : Type 0} (env : Env W E) where
  put_frame-IsNumbered :
      {n : ℕ} (d : Connection W) (frame : Frame) (x : W × Bool)
      → d.write_seq ≤ n
      → frame.sequence ≡ d.write_seq
      → Falls d.write_seq d.sent
      → IsNumbered n (Connection.put_frame env d frame x).0
  put_frame-IsNumbered d frame (w, true) h e falls = record {
    counted = h;
    ordered = (omega (arith, e), Falls-le _ (omega (arith, e)) falls);
  }
  put_frame-IsNumbered d frame (w, false) h e falls = record {
    counted = h;
    ordered = (omega (arith, e), Falls-le _ (omega (arith, e)) falls);
  }

  put_packed-IsNumbered :
      {n : ℕ} (d : Connection W) (frame : Frame) (x : Result PackError Bytes)
      → d.write_seq ≤ n
      → frame.sequence ≡ d.write_seq
      → Falls d.write_seq d.sent
      → IsNumbered n (Connection.put_packed env d frame x).0
  put_packed-IsNumbered d frame (err e) h same falls = record {
    counted = h;
    ordered = Falls-le d.sent (omega arith) falls;
  }
  put_packed-IsNumbered d frame (ok bytes) h same falls =
      put_frame-IsNumbered d frame (Connection.write_all env d.state.0 bytes) h same falls

  send_frame-IsNumbered :
      {m n : ℕ} {d : Connection W} (payload : Bytes) (cmd : CmdId) (key_id : ℕ) (key : Option Bytes)
      (is_ack : Bool)
      → m < n
      → n < 2 ^ 64
      → IsNumbered m d
      → IsNumbered n (send_frame env d payload cmd key_id key is_ack).0
  unfolding send_frame
  send_frame-IsNumbered {m} {n} {d} payload cmd key_id key is_ack h small numbered =
      let next : u64 (d.write_seq + 1) ≡ d.write_seq + 1 = omega (arith, numbered.counted) in
      let seq = u64 (d.write_seq + 1) in
      let counted : Connection W = record d { write_seq = seq } in
      let frame : Frame = record {
        payload = payload;
        cmd_id = cmd;
        key_id = key_id;
        session_key = key;
        sequence = seq;
        is_ack = is_ack;
      } in
      put_packed-IsNumbered counted frame (pack env.gcm payload cmd key_id key seq is_ack)
        (omega (arith, next, numbered.counted)) refl
        (Falls-le d.sent (omega (arith, next)) numbered.ordered)

  Reach-IsNumbered :
      {w : W} {d : Connection W} {n : ℕ}
      → n < 2 ^ 64
      → Reach env (open_connection w) n d
      → IsNumbered n d
  Reach-IsNumbered small here = record { counted = omega arith; ordered = tt }
  Reach-IsNumbered small (move key r m) =
      let numbered = Reach-IsNumbered small r in
      record { counted = numbered.counted; ordered = numbered.ordered }
  Reach-IsNumbered small (send payload cmd key_id key is_ack lt r may) =
      send_frame-IsNumbered payload cmd key_id key is_ack lt small
        (Reach-IsNumbered (omega arith) r)

-- Whatever a device sends over a connection, no two of the frames that the server sends back have
-- the same nonce, also across handshakes and changes of the key, in either outcome of a write. The
-- bytes that arrive, times the frames that each may cause, are below 2 ^ 64.
pub serve-Distinct :
    {W E : Type 0} (env : Env W E) (fuel : ℕ) (w : W) (reader : Bytes) (final : Connection W)
    → frame_budget env reader < 2 ^ 64
    → Connection.serve env fuel (open_connection w) reader ≡ some final
    → Distinct (nonces final.sent)
serve-Distinct env fuel w reader final small served =
    let numbered =
      Reach-IsNumbered env small (serve-Reach env fuel (open_connection w) final reader served) in
    Falls-Distinct final.sent (final.write_seq + 1) (omega (arith, numbered.counted))
      numbered.ordered
