-- ===== src/Wire/Codec/Nonce.antt =====
-- The nonce of a frame, `buf[16:28]`: the direction and the sequence number.
use goster_io_t.Common.{ℕ, ◌^◌, ◌<◌, ◌≡◌, ◌≢◌, sym, ap, ◌∙◌, arith, Bool, true, false}
use goster_io_t.Common.{drop, get_or}
use goster_io_t.Common.Word.{Bytes, put_le, get_le, get_le-put_le, slice}
use goster_io_t.Wire.Types.{CmdId, one_of}
use goster_io_t.Wire.Codec.{uplink_only, downlink_only, nonce_direction, header_of, header_front}
use goster_io_t.Wire.Codec.Header

abbrev pub nonce : ℕ → CmdId → ℕ → ℕ → Bool → ℕ → Bytes
nonce flags cmd key_id len is_ack seq =
    slice 16 12 (header_of (header_front flags cmd key_id len is_ack seq))

-- Two frames have the same nonce only if they go in the same direction with the same sequence
-- number, whatever their other fields. The sequence numbers are below 2 ^ 64.
pub nonce-injective :
    (flags cmd key_id len seq flags' cmd' key_id' len' seq' : ℕ) (is_ack is_ack' : Bool)
    → seq < 2 ^ 64
    → seq' < 2 ^ 64
    → nonce flags cmd key_id len is_ack seq ≡ nonce flags' cmd' key_id' len' is_ack' seq'
    → (nonce_direction cmd is_ack ≡ nonce_direction cmd' is_ack') × (seq ≡ seq')
nonce-injective flags cmd key_id len seq flags' cmd' key_id' len' seq' is_ack is_ack' h h' e =
    let same =
      sym (Header.nonce_at flags cmd key_id len is_ack seq)
      ∙ e
      ∙ Header.nonce_at flags' cmd' key_id' len' is_ack' seq' in
    let seqs : get_le (put_le 8 seq) ≡ get_le (put_le 8 seq') = ap (λ b. get_le (drop 4 b)) same in
    (ap (λ b. get_or b 0 0) same, sym (get_le-put_le 8 seq h) ∙ seqs ∙ get_le-put_le 8 seq' h')

-- A report, an event or a command and its acknowledgement go in opposite directions, so their
-- nonces differ even at the same sequence number. The commands of the handshake, of the
-- authentication and of the key exchange are excluded: each goes one way only.
pub nonce_direction_ack :
    (cmd : CmdId)
    → one_of cmd uplink_only ≡ false
    → one_of cmd downlink_only ≡ false
    → nonce_direction cmd true ≢ nonce_direction cmd false
unfolding nonce_direction
nonce_direction_ack cmd up down = ground arith
