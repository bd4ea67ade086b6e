-- ===== src/Wire/Codec.antt =====
-- codec.go: `Codec.Pack` and `Codec.Unpack`. The reader is the list of the bytes that are still to
-- come before the connection closes. AES-GCM (crypto/aes, crypto/cipher) is the parameter `Gcm`.
pub mod Header
pub mod Frame
pub mod Plain
pub mod Sealed
pub mod Sound
pub mod Prefix
pub mod Nonce
use goster_io_t.Common.{ℕ, ◌+◌, ◌≡◌, Bool, not, Option, none, some}
use goster_io_t.Common.{List, [], ◌∷◌, ◌++◌, bit_and, ◌==◌, ltb, leb, if◌then◌else◌}
use goster_io_t.Common.{length, take, drop, get_or, replicate}
use goster_io_t.Common.Result.{Result, ok, err, ◌>>=◌, ◌>>◌, guard}
use goster_io_t.Common.Word.{Bytes, put_le, get_le, slice, write_at}
use goster_io_t.Wire.Types.{
  CmdId, Packet, magic_number, protocol_version, header_size, footer_size, max_payload_size, one_of,
  cmd_handshake_init, cmd_handshake_resp, cmd_auth_verify, cmd_auth_ack, cmd_device_register,
  cmd_error_report, cmd_metrics_report, cmd_log_report, cmd_event_report, cmd_heartbeat,
  cmd_key_exchange_uplink, cmd_key_exchange_downlink, downlink_commands,
}
use goster_io_t.Wire.Checksum.{crc16_modbus, crc32_ieee}

-- AES-GCM as the codec uses it: `accepts k` when `aes.NewCipher(k)` gives no error; `seal` and
-- `unseal` take the key, the nonce, the text and the additional data. (`cipher.NewGCM` of an AES
-- block cipher gives no error.)
pub record Gcm : Type 0 where
  pub accepts : Bytes → Bool
  pub seal : Bytes → Bytes → Bytes → Bytes → Bytes
  pub unseal : Bytes → Bytes → Bytes → Bytes → Option Bytes

-- What the codec relies on: a ciphertext is the text and a tag of 16 bytes, and it opens again.
pub record IsAead (gcm : Gcm) : Type 0 where
  pub opened_size : (k n c a p : Bytes) → gcm.unseal k n c a ≡ some p → length c ≡ length p + 16
  pub tag_size : (k n p a : Bytes) → length (gcm.seal k n p a) ≡ length p + 16
  pub opens : (k n p a : Bytes) → gcm.unseal k n (gcm.seal k n p a) a ≡ some p

pub data PackError : Type 0 where
  payload_too_large : ℕ → PackError
  cipher_init : PackError
  size_mismatch : ℕ → ℕ → PackError

pub data UnpackError : Type 0 where
  eof unexpected_eof missing_key cipher_init decrypt_failed : UnpackError
  invalid_magic : ℕ → UnpackError
  header_checksum : ℕ → ℕ → UnpackError
  payload_too_large : ℕ → UnpackError
  payload_checksum : ℕ → ℕ → UnpackError

-- Commands that only devices send, and that only the server sends.
abbrev pub uplink_only : List CmdId
uplink_only =
    cmd_handshake_init ∷ cmd_auth_verify ∷ cmd_device_register ∷ cmd_key_exchange_uplink ∷ []

abbrev pub downlink_only : List CmdId
downlink_only = cmd_handshake_resp ∷ cmd_auth_ack ∷ cmd_key_exchange_downlink ∷ []

-- The first byte of the nonce: 1 for device to server, 2 for server to device.
unfoldable pub nonce_direction : CmdId → Bool → ℕ
nonce_direction cmd is_ack =
    if one_of cmd uplink_only
    then 1
    else if one_of cmd downlink_only
    then 2
    else if one_of cmd (
        cmd_metrics_report ∷ cmd_log_report ∷ cmd_event_report ∷ cmd_heartbeat ∷ cmd_error_report
        ∷ [])
    then (if is_ack then 2 else 1)
    else if one_of cmd downlink_commands
    then (if is_ack then 1 else 2)
    else if is_ack
    then 2
    else 1

-- `sessionKey != nil && keyID != 0`
unfoldable pub key_in_use : Option Bytes → ℕ → Option Bytes
key_in_use none key_id = none
key_in_use (some key) key_id = if key_id == 0 then none else some key

-- Bit 0 for an acknowledgement, bit 1 for an encrypted payload.
unfoldable pub pack_flags : Bool → Option Bytes → ℕ
pack_flags is_ack none = if is_ack then 1 else 0
pack_flags is_ack (some key) = if is_ack then 3 else 2

-- `buf[0:28]`, as the writes leave it.
unfoldable pub header_front : ℕ → CmdId → ℕ → ℕ → Bool → ℕ → Bytes
unfolding write_at
header_front flags cmd key_id payload_len is_ack seq =
    let buf = replicate 28 0 in
    let buf = write_at 0 (put_le 2 magic_number) buf in
    let buf = write_at 2 (protocol_version ∷ []) buf in
    let buf = write_at 3 (flags ∷ []) buf in
    let buf = write_at 4 (put_le 2 0) buf in
    let buf = write_at 6 (put_le 2 cmd) buf in
    let buf = write_at 8 (put_le 4 key_id) buf in
    let buf = write_at 12 (put_le 4 payload_len) buf in
    let buf = write_at 16 (nonce_direction cmd is_ack ∷ []) buf in write_at 20 (put_le 8 seq) buf

-- `buf[0:32]`: the checksum of the first 28 bytes and two bytes of padding follow them.
unfoldable pub header_of : Bytes → Bytes
header_of front = front ++ (put_le 2 (crc16_modbus front) ++ (0 ∷ 0 ∷ []))

module _ (gcm : Gcm) where
  -- The body and the footer behind the header.
  unfoldable pub seal_body : Option Bytes → Bytes → Bytes → Bytes → Result PackError Bytes
  seal_body none front header payload =
      let buf = header ++ payload in ok (buf ++ (put_le 4 (crc32_ieee buf) ++ replicate 12 0))
  seal_body (some key) front header payload =
      if gcm.accepts key
      then (let buf = header ++ gcm.seal key (slice 16 12 front) payload front in
          let total = header_size + length payload + footer_size in
          if length buf == total then ok buf else err (size_mismatch total (length buf)))
      else err PackError.cipher_init

  unfoldable pub pack : Bytes → CmdId → ℕ → Option Bytes → ℕ → Bool → Result PackError Bytes
  pack payload cmd key_id session_key seq_nonce is_ack =
      if ltb max_payload_size (length payload)
      then err (PackError.payload_too_large (length payload))
      else let key = key_in_use session_key key_id in
        let front =
          header_front (pack_flags is_ack key) cmd key_id (length payload) is_ack seq_nonce in
        seal_body key front (header_of front) payload

-- io.ReadFull for a buffer of `n` bytes, `n` not 0.
unfoldable pub read_full : ℕ → Bytes → Result UnpackError (Bytes × Bytes)
read_full n [] = err eof
read_full n (b ∷ input) =
    if leb n (length (b ∷ input))
    then ok (take n (b ∷ input), drop n (b ∷ input))
    else err unexpected_eof

unfoldable pub le_at : ℕ → ℕ → Bytes → ℕ
le_at off n buf = get_le (slice off n buf)

unfoldable pub check_body : Bytes → Bytes → Result UnpackError Bytes
check_body header body =
    let length_ = le_at 12 4 header in
    let raw_payload = take length_ body in
    let actual = crc32_ieee (header ++ raw_payload) in
    let expected = get_le (take 4 (drop length_ body)) in
    if actual == expected then ok raw_payload else err (payload_checksum expected actual)

-- `flags&0x02 != 0`
abbrev pub encrypted : Bytes → Bool
encrypted header = not (bit_and (get_or header 3 0) 2 == 0)

unfoldable pub packet_of : Bytes → Bytes → Packet
packet_of header payload = record {
  cmd_id = le_at 6 2 header;
  key_id = le_at 8 4 header;
  sequence = le_at 20 8 header;
  is_ack = not (bit_and (get_or header 3 0) 1 == 0);
  is_encrypted = encrypted header;
  is_compressed = not (bit_and (get_or header 3 0) 4 == 0);
  payload = payload;
}

module _ (gcm : Gcm) where
  unfoldable pub open_body : Option Bytes → Bytes → Bytes → Result UnpackError Bytes
  open_body none header body = err missing_key
  open_body (some key) header body =
      if gcm.accepts key
      then elim (gcm.unseal key (slice 16 12 header) body (take 28 header)) [
        | none ↦ err decrypt_failed
        | some plaintext ↦ ok plaintext
      ]
      else err UnpackError.cipher_init

  unfoldable pub read_body : Option Bytes → Bytes → Bytes → Result UnpackError Bytes
  read_body key header body =
      if encrypted header then open_body key header body else check_body header body

  -- From `bodyLen := length + FooterSize` on.
  unfoldable pub unpack_body : Option Bytes → Bytes → Bytes → Result UnpackError (Packet × Bytes)
  unpack_body key header reader = do
    (body, rest) ← read_full (le_at 12 4 header + footer_size) reader
    payload ← read_body key header body
    ok (packet_of header payload, rest)

  -- The checks of the header.
  unfoldable pub unpack_header : Option Bytes → Bytes → Bytes → Result UnpackError (Packet × Bytes)
  unpack_header key header reader = do
    guard (le_at 0 2 header == magic_number) (invalid_magic (le_at 0 2 header))
    let actual = crc16_modbus (take 28 header)
    guard (le_at 28 2 header == actual) (header_checksum (le_at 28 2 header) actual)
    let length_ = le_at 12 4 header
    guard (leb length_ max_payload_size) (UnpackError.payload_too_large length_)
    unpack_body key header reader

  unfoldable pub unpack : Bytes → Option Bytes → Result UnpackError (Packet × Bytes)
  unpack reader key = do
    (header, reader') ← read_full header_size reader
    unpack_header key header reader'
