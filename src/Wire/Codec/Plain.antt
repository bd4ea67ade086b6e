-- ===== src/Wire/Codec/Plain.antt =====
-- Frames without encryption: `unpack` reads back what `pack` wrote.
use goster_io_t.Common.{ℕ, ◌+◌, ◌≤◌, ◌≡◌, refl, ap, arith}
use goster_io_t.Common.{Bool, false, Option, none, ◌++◌, append_assoc}
use goster_io_t.Common.{length, length-append, take-append_len, drop-append_len}
use goster_io_t.Common.{eq→==, le→ltb}
use goster_io_t.Common.{replicate}
use goster_io_t.Common.Result.{ok}
use goster_io_t.Common.Word.{Bytes, put_le, get_le-put_le, length-put_le}
use goster_io_t.Wire.Types.{CmdId, max_payload_size}
use goster_io_t.Wire.Checksum.{crc32_ieee, crc32_ieee-lt}
use goster_io_t.Wire.Codec.{
  Gcm, key_in_use, pack_flags, seal_body, pack, le_at, check_body, encrypted, read_body, unpack,
}
use goster_io_t.Wire.Codec.Header
use goster_io_t.Wire.Codec.Frame.{
  IsWire, sent_packet, unpack_stages, written, written-IsFrame, packet_of-written,
}

abbrev pub plain_footer : Bytes → Bytes
plain_footer buf = put_le 4 (crc32_ieee buf) ++ replicate 12 0

pub length-plain_footer : (buf : Bytes) → length (plain_footer buf) ≡ 16
length-plain_footer buf = omega (
  arith,
  length-append (put_le 4 (crc32_ieee buf)) (replicate 12 0),
  length-put_le 4 (crc32_ieee buf),
)

-- The checksum behind a plain payload is the one that `unpack` computes.
check_body-footer :
    (header payload : Bytes)
    → le_at 12 4 header ≡ length payload
    → check_body header (payload ++ plain_footer (header ++ payload)) ≡ ok payload
unfolding check_body
check_body-footer header payload e =
    let crc = crc32_ieee (header ++ payload) in
    rw (
      e,
      take-append_len (length payload) payload (plain_footer (header ++ payload)) refl,
      drop-append_len (length payload) payload (plain_footer (header ++ payload)) refl,
      take-append_len 4 (put_le 4 crc) (replicate 12 0) (length-put_le 4 crc),
      get_le-put_le 4 crc (crc32_ieee-lt (header ++ payload)),
      eq→== crc crc refl,
    )

regroup : (h p f rest : Bytes) → ((h ++ p) ++ f) ++ rest ≡ h ++ ((p ++ f) ++ rest)
regroup h p f rest = simp append_assoc

module _ (gcm : Gcm) (payload : Bytes) (cmd : CmdId) (key_id seq : ℕ) (is_ack : Bool)
    (fits : length payload ≤ max_payload_size) (wire : IsWire cmd key_id seq) where
  abbrev pub plain_frame : Bytes
  plain_frame =
      let buf = written cmd key_id (length payload) is_ack seq none ++ payload in
      buf ++ plain_footer buf

  pub pack_plain :
      (session_key : Option Bytes)
      → key_in_use session_key key_id ≡ none
      → pack gcm payload cmd key_id session_key seq is_ack ≡ ok plain_frame
  unfolding pack seal_body
  pack_plain session_key unused = rw (le→ltb _ _ fits, unused, seal_body)

  pub unpack_plain :
      (rest : Bytes) (key : Option Bytes)
      → unpack gcm (plain_frame ++ rest) key
        ≡ ok (sent_packet cmd key_id seq is_ack false payload, rest)
  unfolding read_body
  unpack_plain rest key =
      let h = written cmd key_id (length payload) is_ack seq none in
      let f = plain_footer (h ++ payload) in
      let size : length (payload ++ f) ≡ length payload + 16 =
        omega (arith, length-append payload f, length-plain_footer (h ++ payload)) in
      let plain : encrypted h ≡ false =
        rw (Header.flags_at (pack_flags is_ack none) cmd key_id (length payload) is_ack seq)
          (Header.plain_flag is_ack) in
      let len_at : le_at 12 4 h ≡ length payload =
        Header.length_at (pack_flags is_ack none) cmd key_id (length payload) is_ack seq
          (omega arith) in
      rw
        (
          regroup h payload f rest,
          unpack_stages gcm h (payload ++ f) rest key (
              written-IsFrame cmd key_id (length payload) is_ack seq none (payload ++ f) fits size),
          plain,
          check_body-footer h payload len_at,
        )
        (ap (λ p. ok (p, rest))
          (packet_of-written cmd key_id (length payload) is_ack seq none false payload wire plain))

-- `pack` accepts a payload of at most 64 KiB, and with no key in use `unpack` reads the same packet
-- back from the frame, whatever follows it on the connection and whatever key the reader holds.
pub unpack-pack_plain :
    (gcm : Gcm) (payload : Bytes) (cmd : CmdId) (key_id seq : ℕ) (is_ack : Bool)
    (session_key key : Option Bytes) (rest : Bytes)
    → length payload ≤ max_payload_size
    → IsWire cmd key_id seq
    → key_in_use session_key key_id ≡ none
    → (frame : Bytes) × (pack gcm payload cmd key_id session_key seq is_ack ≡ ok frame)
      × (unpack gcm (frame ++ rest) key
          ≡ ok (sent_packet cmd key_id seq is_ack false payload, rest))
unpack-pack_plain gcm payload cmd key_id seq is_ack session_key key rest fits wire unused = (
  plain_frame gcm payload cmd key_id seq is_ack fits wire,
  pack_plain gcm payload cmd key_id seq is_ack fits wire session_key unused,
  unpack_plain gcm payload cmd key_id seq is_ack fits wire rest key,
)
