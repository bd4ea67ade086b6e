-- ===== src/Wire/Codec/Header.antt =====
-- The header that `pack` writes, read back field by field.
use goster_io_t.Common.{ℕ, ◌^◌, ◌<◌, ◌≡◌, refl, Bool, true, false, none, some, ◌∷◌}
use goster_io_t.Common.{not, bit_and, ◌==◌, length, take, get_or, Option}
use goster_io_t.Common.Word.{Bytes, put_le, get_le, get_le-put_le, slice}
use goster_io_t.Wire.Types.{CmdId, magic_number}
use goster_io_t.Wire.Checksum.{crc16_modbus, crc16_modbus-lt}
use goster_io_t.Wire.Codec.{nonce_direction, header_front, header_of, le_at, pack_flags}

module _ (flags : ℕ) (cmd : CmdId) (key_id len : ℕ) (is_ack : Bool) (seq : ℕ) where
  abbrev pub front : Bytes
  front = header_front flags cmd key_id len is_ack seq

  abbrev pub header : Bytes
  header = header_of front

  pub length-front : length front ≡ 28
  unfolding header_front put_le
  length-front = refl

  pub length-header : length header ≡ 32
  unfolding header_of header_front put_le
  length-header = refl

  pub take-header : take 28 header ≡ front
  unfolding header_of header_front put_le
  take-header = refl

  pub magic_at : le_at 0 2 header ≡ magic_number
  unfolding header_of header_front put_le le_at get_le
  magic_at = refl

  pub flags_at : get_or header 3 0 ≡ flags
  unfolding header_of header_front put_le
  flags_at = refl

  pub cmd_at : cmd < 2 ^ 16 → le_at 6 2 header ≡ cmd
  unfolding header_of header_front put_le le_at
  cmd_at h = get_le-put_le 2 cmd h

  pub key_id_at : key_id < 2 ^ 32 → le_at 8 4 header ≡ key_id
  unfolding header_of header_front put_le le_at
  key_id_at h = get_le-put_le 4 key_id h

  pub length_at : len < 2 ^ 32 → le_at 12 4 header ≡ len
  unfolding header_of header_front put_le le_at
  length_at h = get_le-put_le 4 len h

  pub sequence_at : seq < 2 ^ 64 → le_at 20 8 header ≡ seq
  unfolding header_of header_front put_le le_at
  sequence_at h = get_le-put_le 8 seq h

  pub nonce_at : slice 16 12 header ≡ nonce_direction cmd is_ack ∷ 0 ∷ 0 ∷ 0 ∷ put_le 8 seq
  unfolding header_of header_front put_le
  nonce_at = refl

  pub nonce_of_front : slice 16 12 front ≡ slice 16 12 header
  unfolding header_of header_front put_le
  nonce_of_front = refl

  pub checksum_at : le_at 28 2 header ≡ crc16_modbus front
  unfolding header_of header_front put_le le_at
  checksum_at = get_le-put_le 2 (crc16_modbus front) (crc16_modbus-lt front)

-- The three flag bits, as `unpack` tests them.
pub ack_flag :
    (is_ack : Bool) (key : Option Bytes) → not (bit_and (pack_flags is_ack key) 1 == 0) ≡ is_ack
unfolding pack_flags
ack_flag true none = refl
ack_flag false none = refl
ack_flag true (some key) = refl
ack_flag false (some key) = refl

pub compressed_flag :
    (is_ack : Bool) (key : Option Bytes) → not (bit_and (pack_flags is_ack key) 4 == 0) ≡ false
unfolding pack_flags
compressed_flag true none = refl
compressed_flag false none = refl
compressed_flag true (some key) = refl
compressed_flag false (some key) = refl

pub plain_flag : (is_ack : Bool) → not (bit_and (pack_flags is_ack none) 2 == 0) ≡ false
unfolding pack_flags
plain_flag true = refl
plain_flag false = refl

pub encrypted_flag :
    (is_ack : Bool) (key : Bytes) → not (bit_and (pack_flags is_ack (some key)) 2 == 0) ≡ true
unfolding pack_flags
encrypted_flag true key = refl
encrypted_flag false key = refl
