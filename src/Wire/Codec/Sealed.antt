-- ===== src/Wire/Codec/Sealed.antt =====
-- Encrypted frames: with the same session key `unpack` reads back what `pack` wrote.
use goster_io_t.Common.{ℕ, ◌+◌, ◌≤◌, ◌≡◌, ap, ◌≢◌, arith}
use goster_io_t.Common.{Bool, true, Option, some, ◌++◌, append_assoc}
use goster_io_t.Common.{length, length-append}
use goster_io_t.Common.{eq→==, le→ltb}
use goster_io_t.Common.Result.{ok}
use goster_io_t.Common.Word.{Bytes, slice}
use goster_io_t.Wire.Types.{CmdId, max_payload_size}
use goster_io_t.Wire.Codec.{
  Gcm, IsAead, key_in_use, pack_flags, seal_body, pack, encrypted, open_body, read_body, unpack,
}
use goster_io_t.Wire.Codec.Header
use goster_io_t.Wire.Codec.Frame.{
  IsWire, sent_packet, unpack_stages, written, written-IsFrame, packet_of-written,
}

module _ (gcm : Gcm) (aead : IsAead gcm) (payload : Bytes) (cmd : CmdId) (key_id seq : ℕ)
    (is_ack : Bool) (key : Bytes) (fits : length payload ≤ max_payload_size)
    (wire : IsWire cmd key_id seq) (usable : gcm.accepts key ≡ true) where
  abbrev sealed_header : Bytes
  sealed_header = written cmd key_id (length payload) is_ack seq (some key)

  abbrev front : Bytes
  front = Header.front (pack_flags is_ack (some key)) cmd key_id (length payload) is_ack seq

  abbrev pub ciphertext : Bytes
  ciphertext = gcm.seal key (slice 16 12 front) payload front

  abbrev pub sealed_frame : Bytes
  sealed_frame = sealed_header ++ ciphertext

  header_len : length sealed_header ≡ 32
  header_len =
      Header.length-header (pack_flags is_ack (some key)) cmd key_id (length payload) is_ack seq

  pub length-sealed_frame : length sealed_frame ≡ 32 + length payload + 16
  length-sealed_frame = omega (
    arith,
    length-append sealed_header ciphertext,
    header_len,
    aead.tag_size key (slice 16 12 front) payload front,
  )

  pub pack_sealed :
      (session_key : Option Bytes)
      → key_in_use session_key key_id ≡ some key
      → pack gcm payload cmd key_id session_key seq is_ack ≡ ok sealed_frame
  unfolding pack seal_body
  pack_sealed session_key used =
      rw (le→ltb _ _ fits, used, seal_body, usable, eq→== _ _ length-sealed_frame)

  opens_again : open_body gcm (some key) sealed_header ciphertext ≡ ok payload
  unfolding open_body
  opens_again =
      let flags = pack_flags is_ack (some key) in
      rw (
        usable,
        ← Header.nonce_of_front flags cmd key_id (length payload) is_ack seq,
        Header.take-header flags cmd key_id (length payload) is_ack seq,
        aead.opens key (slice 16 12 front) payload front,
      )

  pub unpack_sealed :
      (rest : Bytes)
      → unpack gcm (sealed_frame ++ rest) (some key)
        ≡ ok (sent_packet cmd key_id seq is_ack true payload, rest)
  unfolding read_body
  unpack_sealed rest =
      let size = aead.tag_size key (slice 16 12 front) payload front in
      let flagged : encrypted sealed_header ≡ true =
        rw (Header.flags_at (pack_flags is_ack (some key)) cmd key_id (length payload) is_ack seq)
          (Header.encrypted_flag is_ack key) in
      rw
        (
          append_assoc sealed_header ciphertext rest,
          unpack_stages gcm sealed_header ciphertext rest (some key) (
              written-IsFrame cmd key_id (length payload) is_ack seq (some key) ciphertext fits
                size),
          flagged,
          opens_again,
        )
        (ap (λ p. ok (p, rest))
          (packet_of-written cmd key_id (length payload) is_ack seq (some key) true payload wire
            flagged))

-- With an AES key in use `pack` accepts a payload of at most 64 KiB, and `unpack` under the same
-- key reads the same packet back from the frame, whatever follows it on the connection.
pub unpack-pack_sealed :
    (gcm : Gcm) (payload : Bytes) (cmd : CmdId) (key_id seq : ℕ) (is_ack : Bool) (key rest : Bytes)
    → IsAead gcm
    → gcm.accepts key ≡ true
    → key_id ≢ 0
    → length payload ≤ max_payload_size
    → IsWire cmd key_id seq
    → (frame : Bytes) × (pack gcm payload cmd key_id (some key) seq is_ack ≡ ok frame)
      × (length frame ≡ 32 + length payload + 16)
      × (unpack gcm (frame ++ rest) (some key)
          ≡ ok (sent_packet cmd key_id seq is_ack true payload, rest))
unfolding key_in_use
unpack-pack_sealed gcm payload cmd key_id seq is_ack key rest aead usable keyed fits wire = (
  sealed_frame gcm aead payload cmd key_id seq is_ack key fits wire usable,
  pack_sealed gcm aead payload cmd key_id seq is_ack key fits wire usable (some key) (ground arith),
  length-sealed_frame gcm aead payload cmd key_id seq is_ack key fits wire usable,
  unpack_sealed gcm aead payload cmd key_id seq is_ack key fits wire usable rest,
)
