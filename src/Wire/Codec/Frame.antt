-- ===== src/Wire/Codec/Frame.antt =====
-- The stages of `unpack` on a whole frame, and the header that `pack` writes as such a frame's.
use goster_io_t.Common.{ℕ, ◌+◌, ◌^◌, ◌≤◌, ◌<◌, ◌≡◌, sym, ap, ◌∙◌, arith}
use goster_io_t.Common.{Bool, false, Option, [], ◌∷◌, ◌++◌}
use goster_io_t.Common.{length, length-append, take, take-append_len, drop-append_len}
use goster_io_t.Common.{eq→==, le→leb}
use goster_io_t.Common.Result.{ok, ◌>>=◌}
use goster_io_t.Common.Word.{Bytes}
use goster_io_t.Wire.Types.{CmdId, Packet, magic_number, max_payload_size}
use goster_io_t.Wire.Checksum.{crc16_modbus}
use goster_io_t.Wire.Codec.{
  Gcm, pack_flags, read_full, le_at, encrypted, packet_of, read_body, unpack_header, unpack_body,
  unpack,
}
use goster_io_t.Wire.Codec.Header

pub read_full-append :
    (n : ℕ) (xs ys : Bytes) → 0 < n → length xs ≡ n → read_full n (xs ++ ys) ≡ ok (xs, ys)
unfolding read_full
read_full-append n [] ys p h = absurd (omega arith)
read_full-append n (x ∷ xs) ys p h =
    let fits : n ≤ length ((x ∷ xs) ++ ys) = omega (arith, length-append xs ys) in
    rw (le→leb n _ fits, take-append_len n (x ∷ xs) ys h, drop-append_len n (x ∷ xs) ys h)

-- `unpack` on a header whose own checks pass, with the body that it announces behind it.
pub record IsFrame (header body : Bytes) : Type 0 where
  pub header_len : length header ≡ 32
  pub magic : le_at 0 2 header ≡ magic_number
  pub checksum : le_at 28 2 header ≡ crc16_modbus (take 28 header)
  pub announced : le_at 12 4 header ≤ max_payload_size
  pub body_len : length body ≡ le_at 12 4 header + 16

module _ (gcm : Gcm) where
  pub unpack_stages :
      (header body rest : Bytes) (key : Option Bytes)
      → IsFrame header body
      → unpack gcm (header ++ (body ++ rest)) key
        ≡ (read_body gcm key header body >>= λ payload. ok (packet_of header payload, rest))
  unfolding unpack unpack_header unpack_body
  unpack_stages header body rest key f = rw (
    read_full-append 32 header (body ++ rest) (omega arith) f.header_len,
    eq→== _ _ f.magic,
    eq→== _ _ f.checksum,
    le→leb _ _ f.announced,
    read_full-append (le_at 12 4 header + 16) body rest (omega arith) f.body_len,
  )

-- The ranges of the header's fields.
pub record IsWire (cmd : CmdId) (key_id seq : ℕ) : Type 0 where
  pub cmd_range : cmd < 2 ^ 16
  pub key_id_range : key_id < 2 ^ 32
  pub seq_range : seq < 2 ^ 64

-- The packet that a reader should get.
abbrev pub sent_packet : CmdId → ℕ → ℕ → Bool → Bool → Bytes → Packet
sent_packet cmd key_id seq is_ack is_encrypted payload = record {
  cmd_id = cmd;
  key_id = key_id;
  sequence = seq;
  is_ack = is_ack;
  is_encrypted = is_encrypted;
  is_compressed = false;
  payload = payload;
}

module _ (cmd : CmdId) (key_id len : ℕ) (is_ack : Bool) (seq : ℕ) (key : Option Bytes) where
  abbrev pub written : Bytes
  written = Header.header (pack_flags is_ack key) cmd key_id len is_ack seq

  pub written-IsFrame :
      (body : Bytes) → len ≤ max_payload_size → length body ≡ len + 16 → IsFrame written body
  written-IsFrame body fits size =
      let flags = pack_flags is_ack key in
      let len_at = Header.length_at flags cmd key_id len is_ack seq (omega arith) in
      record {
        header_len = Header.length-header flags cmd key_id len is_ack seq;
        magic = Header.magic_at flags cmd key_id len is_ack seq;
        checksum =
            Header.checksum_at flags cmd key_id len is_ack seq
            ∙ ap crc16_modbus (sym (Header.take-header flags cmd key_id len is_ack seq));
        announced = rw len_at fits;
        body_len = rw len_at size;
      }

  pub packet_of-written :
      (is_encrypted : Bool) (payload : Bytes)
      → IsWire cmd key_id seq
      → encrypted written ≡ is_encrypted
      → packet_of written payload ≡ sent_packet cmd key_id seq is_ack is_encrypted payload
  unfolding packet_of
  packet_of-written is_encrypted payload w e =
      let flags = pack_flags is_ack key in
      rw (
        e,
        Header.cmd_at flags cmd key_id len is_ack seq w.cmd_range,
        Header.key_id_at flags cmd key_id len is_ack seq w.key_id_range,
        Header.sequence_at flags cmd key_id len is_ack seq w.seq_range,
        Header.flags_at flags cmd key_id len is_ack seq,
        Header.ack_flag is_ack key,
        Header.compressed_flag is_ack key,
      )
